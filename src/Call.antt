-- ===== src/Call.antt =====
-- A Go call as a function on the state it changes, which returns, returns an error, or panics: the notation of the
-- modules for tokens and accounts.
use flow_wallet_api.Prelude.{
  ◌≡◌, refl, arith, ◌⊎◌, inl, inr, Bool, Option, none, some, if◌then◌else◌,
}
use flow_wallet_api.Errors.{GoError, Result, ok, err}

pub data Run (S A : Type 0) : Type 0 where
  returned : A → S → Run S A
  failed : GoError → S → Run S A
  panicked : S → Run S A

abbrev pub Call : Type 0 → Type 0 → Type 0
Call S A = S → Run S A

module _ {S A : Type 0} where
  abbrev pub pure : A → Call S A
  pure = returned

  abbrev pub throw : GoError → Call S A
  throw = failed

  -- A call of a function that returns a value and an error.
  unfoldable pub of_result : Result A × S → Run S A
  of_result (ok a, s) = returned a s
  of_result (err e, s) = failed e s

  abbrev pub lift : (S → Result A × S) → Call S A
  lift f s = of_result (f s)

  -- A computed value, or its error.
  unfoldable pub try : Result A → Call S A
  try (ok a) s = returned a s
  try (err e) s = failed e s

  -- An index into a slice, or another dereference that panics on none.
  unfoldable pub deref : Option A → Call S A
  deref none s = panicked s
  deref (some a) s = returned a s

module _ {S : Type 0} where
  -- A call of a function that returns only an error.
  unfoldable pub of_error : Option GoError × S → Run S (Unit {0})
  of_error (none, s) = returned tt s
  of_error (some e, s) = failed e s

  abbrev pub check : (S → Option GoError × S) → Call S (Unit {0})
  check f s = of_error (f s)

  -- A test that returns early with an error.
  abbrev pub fail_if : Bool → GoError → Call S (Unit {0})
  fail_if b e s = of_error (if b then some e else none, s)

  unfoldable pub modify : (S → S) → Call S (Unit {0})
  modify f s = returned tt (f s)

module _ {S A B : Type 0} where
  unfoldable pub and_then : Run S A → (A → Call S B) → Run S B
  and_then (returned a s) k = k a s
  and_then (failed e s) k = failed e s
  and_then (panicked s) k = panicked s

  infixl 5 ◌>>=◌ ◌>>◌
  abbrev pub ◌>>=◌ : Call S A → (A → Call S B) → Call S B
  m >>= k = λ s. and_then (m s) k

  abbrev pub ◌>>◌ : Call S A → Call S B → Call S B
  m >> n = m >>= λ _. n

  -- A block that returns has returned from its first call and from the rest.
  pub and_then-returned :
      {r : Run S A} {k : A → Call S B} {b : B} {s : S}
      → and_then r k ≡ returned b s
      → (a : A) × (s' : S) × (r ≡ returned a s') × (k a s' ≡ returned b s)
  unfolding and_then
  and_then-returned {r = returned a s'} h = (a, s', refl, h)
  and_then-returned {r = failed e s'} h = absurd (ground arith)
  and_then-returned {r = panicked s'} h = absurd (ground arith)

module _ {S A : Type 0} where
  pub Run-cases :
      (r : Run S A)
      → ((a : A) × (s : S) × (r ≡ returned a s))
        ⊎ (((e : GoError) × (s : S) × (r ≡ failed e s)) ⊎ ((s : S) × (r ≡ panicked s)))
  Run-cases (returned a s) = inl (a, s, refl)
  Run-cases (failed e s) = inr (inl (e, s, refl))
  Run-cases (panicked s) = inr (inr (s, refl))

  pub returned_inj : {a b : A} {s t : S} → returned a s ≡ returned b t → (a ≡ b) × (s ≡ t)
  returned_inj h = (cc, cc)

  pub of_result-returned :
      {r : Result A × S} {s : S} {a : A} → of_result r ≡ returned a s → (r.0 ≡ ok a) × (r.1 ≡ s)
  unfolding of_result
  of_result-returned {r = (ok b, t)} h = (cc, cc)
  of_result-returned {r = (err e, t)} h = absurd (ground arith)

  pub try-returned :
      {r : Result A} {s s' : S} {a : A} → try r s ≡ returned a s' → (r ≡ ok a) × (s ≡ s')
  unfolding try
  try-returned {r = ok b} h = (cc, cc)
  try-returned {r = err e} h = absurd (ground arith)

  pub deref-returned :
      {o : Option A} {s s' : S} {a : A} → deref o s ≡ returned a s' → (o ≡ some a) × (s ≡ s')
  unfolding deref
  deref-returned {o = none} h = absurd (ground arith)
  deref-returned {o = some b} h = (cc, cc)

module _ {S : Type 0} where
  pub of_error-returned :
      {r : Option GoError × S} {s : S} {u : Unit {0}}
      → of_error r ≡ returned u s
      → (r.0 ≡ none) × (r.1 ≡ s)
  unfolding of_error
  of_error-returned {r = (none, t)} h = (refl, cc)
  of_error-returned {r = (some e, t)} h = absurd (ground arith)

-- An executor's changes to its job, which it makes last: where the call fails the job is as it was before.
abbrev pub on_return : {S J : Type 0} → J → Run S J → J × Run S (Unit {0})
on_return j (returned j' s) = (j', returned tt s)
on_return j (failed e s) = (j, failed e s)
on_return j (panicked s) = (j, panicked s)

-- The state that a call leaves behind.
abbrev pub final : {S A : Type 0} → Run S A → S
final (returned a s) = s
final (failed e s) = s
final (panicked s) = s

-- What the first call and the rest of a block leave as it was, the block leaves as it was.
pub final-and_then :
    {S A B V : Type 0} (view : S → V) (x : V) (r : Run S A) (k : A → Call S B)
    → view (final r) ≡ x
    → ((a : A) (s : S) → r ≡ returned a s → view (final (k a s)) ≡ x)
    → view (final (and_then r k)) ≡ x
unfolding and_then
final-and_then view x (returned a s) k here rest = rest a s refl
final-and_then view x (failed e s) k here rest = here
final-and_then view x (panicked s) k here rest = here

pub final-of_result : {S A : Type 0} (r : Result A × S) → final (of_result r) ≡ r.1
unfolding of_result
final-of_result (ok a, s) = refl
final-of_result (err e, s) = refl

pub final-of_error : {S : Type 0} (r : Option GoError × S) → final (of_error r) ≡ r.1
unfolding of_error
final-of_error (none, s) = refl
final-of_error (some e, s) = refl

pub final-try : {S A : Type 0} (r : Result A) (s : S) → final (try r s) ≡ s
unfolding try
final-try (ok a) s = refl
final-try (err e) s = refl

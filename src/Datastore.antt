-- ===== src/Datastore.antt =====
-- datastore/datastore.go and datastore/lib/lib.go: page limits, and a function that runs inside a
-- database transaction. The database itself (gorm.io/gorm) is a parameter.
use flow_wallet_api.Prelude.{
  ◌≡◌, ◌⊎◌, Bool, true, Option, none, some, inl, inr, Option-cases, Bool-cases, arith, ℤ, pos,
  negsuc, ◌≤ℤ◌, ltb_ℤ, eqb_ℤ, if◌then◌else◌,
}
use flow_wallet_api.Errors.{GoError}

pub record ListOptions : Type 0 where
  pub limit : ℤ
  pub offset : ℤ

abbrev pub default_limit : ℤ
default_limit = pos 1000

-- ParseListOptions: three `if`s that assign in turn.
unfoldable pub parse_list_options : ℤ → ℤ → ListOptions
parse_list_options limit offset =
    let limit_or_default = if eqb_ℤ limit (pos 0) then default_limit else limit in
    let no_limit = ltb_ℤ limit_or_default (pos 0) in
    let offset_or_zero = if no_limit then pos 0 else offset in
    record {
      limit = if no_limit then negsuc 0 else limit_or_default;
      offset = if ltb_ℤ offset_or_zero (pos 0) then pos 0 else offset_or_zero;
    }

-- What a *gorm.DB offers to GormTransaction. Commit reports its error, which the code drops; those of
-- Begin and Rollback nothing here depends on, so these are plain changes of the world.
pub record Connection (W : Type 0) : Type 0 where
  pub is_sqlite : Bool
  pub begin : W → W
  pub rollback : W → W
  pub commit : W → Option GoError × W

-- The world in which `fn` starts: sqlite gets no transaction of its own.
abbrev pub started : {W : Type 0} → Connection W → W → W
started c w = if c.is_sqlite then w else c.begin w

-- GormTransaction. `fn` returns its error and the variables that the closure has assigned.
unfoldable pub gorm_transaction :
    {W A : Type 0} → Connection W → (W → Option GoError × A × W) → W → Option GoError × A × W
gorm_transaction c fn w =
    let (e, a, w') = fn (started c w) in
    elim e [
      | some x ↦ (some x, a, if c.is_sqlite then w' else c.rollback w')
      | none ↦ (none, a, if c.is_sqlite then w' else (c.commit w').1)
    ]

-- The error and the variables are those of `fn`.
pub gorm_transaction_result :
    {W A : Type 0} (c : Connection W) (fn : W → Option GoError × A × W) (w : W)
    → ((gorm_transaction c fn w).0 ≡ (fn (started c w)).0)
      × ((gorm_transaction c fn w).1 ≡ (fn (started c w)).1)
unfolding gorm_transaction
gorm_transaction_result c fn w = elim (Option-cases (fn (started c w)).0) [
  | inl e ↦ (ground arith, ground arith)
  | inr (x, e) ↦ (ground arith, ground arith)
]

-- The transaction's COMMIT has not failed; sqlite has none.
abbrev pub Committed : {W A : Type 0} → Connection W → (W → Option GoError × A × W) → W → Type 0
Committed c fn w = (c.is_sqlite ≡ true) ⊎ ((c.commit (fn (started c w)).2).0 ≡ none)

pub Committed-cases :
    {W A : Type 0} (c : Connection W) (fn : W → Option GoError × A × W) (w : W)
    → Committed c fn w ⊎ (¬ (Committed c fn w))
Committed-cases c fn w = elim (Bool-cases c.is_sqlite) [
  | inl sqlite ↦ inl (inl sqlite)
  | inr server ↦ elim (Option-cases (c.commit (fn (started c w)).2).0) [
    | inl committed ↦ inl (inr committed)
    | inr (e, lost) ↦
        inr (λ r. elim r [
          | inl sqlite ↦ absurd (ground arith)
          | inr committed ↦ absurd (ground arith)
        ])
  ]
]

-- What a transaction makes of a view of the world, where `mark` is what a rollback restores: one that succeeds
-- and is committed leaves what `fn` has left, one that succeeds and is not committed, or that fails, undoes `fn`.
module _ {W A V : Type 0} (c : Connection W) (fn : W → Option GoError × A × W) (view : W → V) where
  pub gorm_transaction_commits :
      (w : W)
      → ((u : W) → (c.commit u).0 ≡ none → view (c.commit u).1 ≡ view u)
      → Committed c fn w
      → (fn (started c w)).0 ≡ none
      → view (gorm_transaction c fn w).2 ≡ view (fn (started c w)).2
  unfolding gorm_transaction
  gorm_transaction_commits w keeps (inl sqlite) h = ground arith
  gorm_transaction_commits w keeps (inr committed) h =
      ground (arith, keeps (fn (started c w)).2 committed)

  pub gorm_transaction_ends :
      (w : W) (mark : W → V)
      → ((u : W) → (c.commit u).0 ≡ none → view (c.commit u).1 ≡ view u)
      → ((u : W) (e : GoError) → (c.commit u).0 ≡ some e → view (c.commit u).1 ≡ mark u)
      → (fn (started c w)).0 ≡ none
      → (view (gorm_transaction c fn w).2 ≡ view (fn (started c w)).2)
        ⊎ (view (gorm_transaction c fn w).2 ≡ mark (fn (c.begin w)).2)
  unfolding gorm_transaction
  gorm_transaction_ends w mark keeps loses h = elim (Bool-cases c.is_sqlite) [
    | inl sqlite ↦ inl (gorm_transaction_commits w keeps (inl sqlite) h)
    | inr server ↦ elim (Option-cases (c.commit (fn (started c w)).2).0) [
      | inl committed ↦ inl (gorm_transaction_commits w keeps (inr committed) h)
      | inr (e, lost) ↦ inr (ground (arith, loses (fn (started c w)).2 e lost))
    ]
  ]

  pub gorm_transaction_fails :
      (w : W) {e : GoError}
      → ((c.is_sqlite ≡ true) → view (fn w).2 ≡ view w)
      → view (c.rollback (fn (c.begin w)).2) ≡ view w
      → (fn (started c w)).0 ≡ some e
      → view (gorm_transaction c fn w).2 ≡ view w
  unfolding gorm_transaction
  gorm_transaction_fails w local restored h = ground arith

-- For every limit and offset ParseListOptions returns a positive limit, or limit -1 with offset 0;
-- its offset is not negative, and it leaves its own results unchanged.
parse_list_options_bounds :
    (limit offset : ℤ)
    → let o = parse_list_options limit offset in
      ((pos 1 ≤ℤ o.limit) ⊎ ((o.limit ≡ negsuc 0) × (o.offset ≡ pos 0)))
      × (pos 0 ≤ℤ o.offset)
      × (parse_list_options o.limit o.offset ≡ o)
unfolding parse_list_options
parse_list_options_bounds limit offset = (ground arith, ground arith, ground arith)

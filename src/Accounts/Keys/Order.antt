-- ===== src/Accounts/Keys/Order.antt =====
-- Key lists in the order of their indices: the stable sort and the last key (accounts/service.go).
use flow_wallet_api.Prelude.{
  ℕ, suc, ◌≡◌, ◌<◌, ◌≤◌, refl, ap, subst, ◌∙◌, inl, inr, false, some, List, [], ◌∷◌, ◌++◌, length,
  All, leb, ◌==◌, arith, Bool-cases, some_inj,
}
use flow_wallet_api.Accounts.Keys.{insert_by, sort_by, last?}

module _ {K : Type 0} (index : K → ℕ) where
  abbrev pub IsNew : ℕ → List K → Type 0
  IsNew i = All λ k. (index k == i) ≡ false

  -- No two keys have the same index.
  abbrev pub Distinct : List K → Type 0
  Distinct [] = Unit
  Distinct (k ∷ ks) = IsNew (index k) ks × Distinct ks

  abbrev pub Above : ℕ → List K → Type 0
  Above i = All λ k. i < index k

  abbrev pub Below : ℕ → List K → Type 0
  Below i = All λ k. index k < i

  -- The indices go up strictly.
  abbrev pub Ascending : List K → Type 0
  Ascending [] = Unit
  Ascending (k ∷ ks) = Above (index k) ks × Ascending ks

  Above-less : (i j : ℕ) (ks : List K) → i < j → Above j ks → Above i ks
  Above-less i j [] h a = tt
  Above-less i j (k ∷ ks) h (b, a) = (omega arith, Above-less i j ks h a)

  pub Below-more : (i j : ℕ) (ks : List K) → i ≤ j → Below i ks → Below j ks
  Below-more i j [] h b = tt
  Below-more i j (k ∷ ks) h (c, b) = (omega arith, Below-more i j ks h b)

  pub snoc-All : (P : K → Type 0) (ks : List K) (k : K) → All P ks → P k → All P (ks ++ (k ∷ []))
  snoc-All P [] k a h = (h, tt)
  snoc-All P (x ∷ xs) k (b, a) h = (b, snoc-All P xs k a h)

  pub last-All : (P : K → Type 0) (ks : List K) (k : K) → All P ks → last? ks ≡ some k → P k
  last-All P [] k a h = absurd (ground arith)
  last-All P (x ∷ []) k (p, a) h = subst P (some_inj h) p
  last-All P (x ∷ y ∷ ys) k (p, a) h = last-All P (y ∷ ys) k a h

  length-insert_by : (k : K) (ks : List K) → length (insert_by index k ks) ≡ suc (length ks)
  length-insert_by k [] = refl
  length-insert_by k (x ∷ xs) = elim (Bool-cases (leb (index k) (index x))) [
    | inl e ↦ rw e refl
    | inr e ↦ rw e (ap suc (length-insert_by k xs))
  ]

  pub length-sort_by : (ks : List K) → length (sort_by index ks) ≡ length ks
  length-sort_by [] = refl
  length-sort_by (k ∷ ks) = length-insert_by k (sort_by index ks) ∙ ap suc (length-sort_by ks)

  insert_by-All :
      (P : K → Type 0) (k : K) (ks : List K) → P k → All P ks → All P (insert_by index k ks)
  insert_by-All P k [] h a = (h, tt)
  insert_by-All P k (x ∷ xs) h (b, a) = elim (Bool-cases (leb (index k) (index x))) [
    | inl e ↦ rw e (h, (b, a))
    | inr e ↦ rw e (b, insert_by-All P k xs h a)
  ]

  -- Sorting keeps what holds of every key.
  pub sort_by-All : (P : K → Type 0) (ks : List K) → All P ks → All P (sort_by index ks)
  sort_by-All P [] a = tt
  sort_by-All P (k ∷ ks) (h, a) = insert_by-All P k (sort_by index ks) h (sort_by-All P ks a)

  insert_by-Ascending :
      (k : K) (ks : List K) → IsNew (index k) ks → Ascending ks → Ascending (insert_by index k ks)
  insert_by-Ascending k [] h a = (tt, tt)
  insert_by-Ascending k (x ∷ xs) (new, h) (above, a) = elim (Bool-cases (leb (index k) (index x))) [
    | inl e ↦
        let less : index k < index x = ground arith in
        rw e ((less, Above-less (index k) (index x) xs less above), (above, a))
    | inr e ↦
        let less : index x < index k = ground arith in
        rw e (insert_by-All (λ l. index x < index l) k xs less above, insert_by-Ascending k xs h a)
  ]

  -- Sorting keys with distinct indices puts them in strictly ascending order.
  pub sort_by-Ascending : (ks : List K) → Distinct ks → Ascending (sort_by index ks)
  sort_by-Ascending [] d = tt
  sort_by-Ascending (k ∷ ks) (new, d) =
      insert_by-Ascending k (sort_by index ks)
        (sort_by-All (λ l. (index l == index k) ≡ false) ks new) (sort_by-Ascending ks d)

  -- A key above all others goes to the end.
  pub snoc-Ascending :
      (ks : List K) (k : K) → Ascending ks → Below (index k) ks → Ascending (ks ++ (k ∷ []))
  snoc-Ascending [] k a b = (tt, tt)
  snoc-Ascending (x ∷ xs) k (above, a) (less, b) =
      (snoc-All (λ l. index x < index l) xs k above less, snoc-Ascending xs k a b)

  -- The last of ascending keys has the largest index.
  pub last-Below :
      (ks : List K) (k : K) → Ascending ks → last? ks ≡ some k → Below (suc (index k)) ks
  last-Below [] k a h = tt
  last-Below (x ∷ []) k a h = let same : x ≡ k = some_inj h in (rw same (omega arith), tt)
  last-Below (x ∷ y ∷ ys) k ((less, above), a) h =
      let (b, rest) = last-Below (y ∷ ys) k a h in (omega arith, (b, rest))

  Above-IsNew : (i : ℕ) (ks : List K) → Above i ks → IsNew i ks
  Above-IsNew i [] a = tt
  Above-IsNew i (k ∷ ks) (h, a) = (ground arith, Above-IsNew i ks a)

  -- Keys in strictly ascending order are distinct.
  pub Ascending-Distinct : (ks : List K) → Ascending ks → Distinct ks
  Ascending-Distinct [] a = tt
  Ascending-Distinct (k ∷ ks) (above, a) = (Above-IsNew (index k) ks above, Ascending-Distinct ks a)

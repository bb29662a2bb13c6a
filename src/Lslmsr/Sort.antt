-- ===== src/Lslmsr/Sort.antt =====
-- `Array.prototype.sort` with a comparison function: the stable sort, as insertions. `after a b` says
-- that the comparison of a with b is positive.
use mathlib.Core.List.{Perm}
use mathlib.Core.List.Perm
use seer.Common.{
  suc, length, refl, ap, ◌≡◌, Bool, true, false, List, [], ◌∷◌, if◌then◌else◌, Bool-cases, inl, inr,
  All,
}

module _ {ℓ} {A : Type ℓ} (after : A → A → Bool) where
  insert_sorted : A → List A → List A
  insert_sorted x [] = x ∷ []
  insert_sorted x (y ∷ l) =
      let rest = insert_sorted x l in if after x y then y ∷ rest else x ∷ y ∷ l

  unfoldable pub sort : List A → List A
  unfolding insert_sorted
  sort [] = []
  sort (x ∷ l) = insert_sorted x (sort l)

  insert_sorted-perm : (x : A) (l : List A) → Perm (insert_sorted x l) (x ∷ l)
  unfolding insert_sorted
  insert_sorted-perm x [] = Perm.refl (x ∷ [])
  insert_sorted-perm x (y ∷ l) = elim (Bool-cases (after x y)) [
    | inl later ↦ rw later (Perm.trans (Perm.cons y (insert_sorted-perm x l)) (Perm.swap x y l))
    | inr here ↦ rw here (Perm.refl (x ∷ y ∷ l))
  ]

  pub sort-perm : (l : List A) → Perm (sort l) l
  unfolding sort
  sort-perm [] = Perm.refl []
  sort-perm (x ∷ l) = Perm.trans (insert_sorted-perm x (sort l)) (Perm.cons x (sort-perm l))

  length-insert_sorted : (x : A) (l : List A) → length (insert_sorted x l) ≡ suc (length l)
  unfolding insert_sorted
  length-insert_sorted x [] = refl
  length-insert_sorted x (y ∷ l) = elim (Bool-cases (after x y)) [
    | inl later ↦ rw later (ap suc (length-insert_sorted x l))
    | inr here ↦ rw here refl
  ]

  pub length-sort : (l : List A) → length (sort l) ≡ length l
  unfolding sort
  length-sort [] = refl
  length-sort (x ∷ l) = rw (length-insert_sorted x (sort l)) (ap suc (length-sort l))

  module _ {κ} (P : A → Type κ) where
    insert_sorted-All : (x : A) (l : List A) → P x → All P l → All P (insert_sorted x l)
    unfolding insert_sorted
    insert_sorted-All x [] p h = (p, tt)
    insert_sorted-All x (y ∷ l) p (q, h) = elim (Bool-cases (after x y)) [
      | inl later ↦ rw later (q, insert_sorted-All x l p h)
      | inr here ↦ rw here (p, (q, h))
    ]

    pub sort-All : (l : List A) → All P l → All P (sort l)
    unfolding sort
    sort-All [] h = tt
    sort-All (x ∷ l) (p, h) = insert_sorted-All x (sort l) p (sort-All l h)

  -- No element is followed by one that it should come after.
  abbrev pub IsInOrder : List A → Type 0
  IsInOrder [] = Unit
  IsInOrder (x ∷ []) = Unit
  IsInOrder (x ∷ y ∷ l) = (after x y ≡ false) × IsInOrder (y ∷ l)

  module _ (asym : (a b : A) → after a b ≡ true → after b a ≡ false) where
    insert_sorted-IsInOrder : (x : A) (l : List A) → IsInOrder l → IsInOrder (insert_sorted x l)
    unfolding insert_sorted
    insert_sorted-IsInOrder x [] h = tt
    insert_sorted-IsInOrder x (y ∷ []) h = elim (Bool-cases (after x y)) [
      | inl later ↦ rw later (asym x y later, tt)
      | inr here ↦ rw here (here, tt)
    ]
    insert_sorted-IsInOrder x (y ∷ z ∷ l) h = elim (Bool-cases (after x y)) [
      | inl later ↦ elim (Bool-cases (after x z)) [
        | inl later' ↦
            rw (later, later') (h.0, rw later' at (insert_sorted-IsInOrder x (z ∷ l) h.1))
        | inr here ↦ rw (later, here) (asym x y later, (here, h.1))
      ]
      | inr here ↦ rw here (here, h)
    ]

    pub sort-IsInOrder : (l : List A) → IsInOrder (sort l)
    unfolding sort
    sort-IsInOrder [] = tt
    sort-IsInOrder (x ∷ l) = insert_sorted-IsInOrder x (sort l) (sort-IsInOrder l)

-- ===== src/Odds/Parts.antt =====
-- `splitNumberLikeParts` of frontend/seer/src/lib/odds.ts, over UTF-16 code units.
use seer.Common.{
  ℕ, ◌≡◌, ◌≢◌, refl, sym, Bool, true, false, ◌&&◌, ◌||◌, List, [], ◌∷◌, ◌++◌, arith, leb, ◌==◌,
  if◌then◌else◌, All, All-append, append-nil, append_assoc, Bool-cases, inl, inr,
}

abbrev pub Text : Type 0
Text = List ℕ

pub record Part : Type 0 where
  pub part : Text
  pub is_number : Bool

abbrev pub is_digit_like : ℕ → Bool
is_digit_like char =
    leb b'0' char && leb char b'9' || char == b'.' || char == b',' || char == b'-' || char == b'+'

-- `a === b` on booleans
abbrev same : Bool → Bool → Bool
same true b = b
same false true = false
same false false = true

abbrev part_of : Text → Bool → Part
part_of text number = record { part = text; is_number = number }

-- The loop: the parts that are finished, `currentPart` and `isCurrentPartNumberLike`.
split_from : List Part → Text → Bool → Text → List Part
split_from parts [] number [] = parts
split_from parts (c ∷ cur) number [] = parts ++ part_of (c ∷ cur) number ∷ []
split_from parts [] number (char ∷ rest) = split_from parts (char ∷ []) (is_digit_like char) rest
split_from parts (c ∷ cur) number (char ∷ rest) =
    let longer = split_from parts ((c ∷ cur) ++ char ∷ []) number rest in
    let closed =
      split_from (parts ++ part_of (c ∷ cur) number ∷ []) (char ∷ []) (is_digit_like char) rest in
    if same (is_digit_like char) number then longer else closed

pub split_number_like_parts : Text → List Part
unfolding split_from
split_number_like_parts formatted_odd = split_from [] [] false formatted_odd

abbrev pub concat : List Part → Text
concat [] = []
concat (p ∷ ps) = p.part ++ concat ps

-- A part is not empty, and all its characters are of its kind.
pub record IsRun (p : Part) : Type 0 where
  pub nonempty : p.part ≢ []
  pub uniform : All (λ c. is_digit_like c ≡ p.is_number) p.part

-- Neighbours are of different kinds.
abbrev pub Alternate : List Part → Type 0
Alternate [] = Unit
Alternate (p ∷ []) = Unit
Alternate (p ∷ q ∷ ps) = (p.is_number ≢ q.is_number) × Alternate (q ∷ ps)

concat-append : (ps qs : List Part) → concat (ps ++ qs) ≡ concat ps ++ concat qs
concat-append [] qs = refl
concat-append (p ∷ ps) qs = simp (concat-append ps qs, append_assoc)

concat-split_from :
    (parts : List Part) (cur : Text) (number : Bool) (rest : Text)
    → concat (split_from parts cur number rest) ≡ concat parts ++ (cur ++ rest)
unfolding split_from
concat-split_from parts [] number [] = sym (append-nil (concat parts))
concat-split_from parts (c ∷ cur) number [] = concat-append parts _
concat-split_from parts [] number (char ∷ rest) =
    concat-split_from parts (char ∷ []) (is_digit_like char) rest
concat-split_from parts (c ∷ cur) number (char ∷ rest) =
    elim (Bool-cases (same (is_digit_like char) number)) [
      | inl alike ↦
          rw alike
            (simp (concat-split_from parts ((c ∷ cur) ++ char ∷ []) number rest, append_assoc))
      | inr other ↦ rw other (
          simp (
            concat-split_from (parts ++ part_of (c ∷ cur) number ∷ []) (char ∷ [])
                (is_digit_like char) rest,
            concat-append,
            append_assoc,
            append-nil,
          ))
    ]

abbrev IsOfKind : Bool → ℕ → Type 0
IsOfKind number c = is_digit_like c ≡ number

same_eq : (a b : Bool) → same a b ≡ true → a ≡ b
same_eq a b h = ground arith

same_ne : (a b : Bool) → same a b ≡ false → a ≢ b
same_ne a b h = ground arith

split_from-IsRun :
    (parts : List Part) (cur : Text) (number : Bool) (rest : Text)
    → All IsRun parts
    → All (IsOfKind number) cur
    → All IsRun (split_from parts cur number rest)
unfolding split_from
split_from-IsRun parts [] number [] h k = h
split_from-IsRun parts (c ∷ cur) number [] h k =
    All-append IsRun parts _ h (record { nonempty = λ e. cc; uniform = k }, tt)
split_from-IsRun parts [] number (char ∷ rest) h k =
    split_from-IsRun parts (char ∷ []) (is_digit_like char) rest h (refl, tt)
split_from-IsRun parts (c ∷ cur) number (char ∷ rest) h k =
    elim (Bool-cases (same (is_digit_like char) number)) [
      | inl alike ↦ rw alike (
          split_from-IsRun parts ((c ∷ cur) ++ char ∷ []) number rest h
            (All-append (IsOfKind number) (c ∷ cur) (char ∷ []) k (same_eq _ _ alike, tt)))
      | inr other ↦ rw other (
          split_from-IsRun (parts ++ part_of (c ∷ cur) number ∷ []) (char ∷ []) (is_digit_like char)
            rest (All-append IsRun parts _ h (record { nonempty = λ e. cc; uniform = k }, tt))
            (refl, tt))
    ]

Alternate-kind :
    (ps : List Part) (s t : Text) (number : Bool)
    → Alternate (ps ++ part_of s number ∷ [])
    → Alternate (ps ++ part_of t number ∷ [])
Alternate-kind [] s t number h = tt
Alternate-kind (p ∷ []) s t number (d, h) = (d, tt)
Alternate-kind (p ∷ q ∷ ps) s t number (d, h) = (d, Alternate-kind (q ∷ ps) s t number h)

Alternate-more :
    (ps : List Part) (p q : Part)
    → Alternate (ps ++ p ∷ [])
    → p.is_number ≢ q.is_number
    → Alternate ((ps ++ p ∷ []) ++ q ∷ [])
Alternate-more [] p q h ne = (ne, tt)
Alternate-more (r ∷ []) p q (d, h) ne = (d, (ne, tt))
Alternate-more (r ∷ s ∷ ps) p q (d, h) ne = (d, Alternate-more (s ∷ ps) p q h ne)

split_from-Alternate :
    (parts : List Part) (c : ℕ) (cur : Text) (number : Bool) (rest : Text)
    → Alternate (parts ++ part_of (c ∷ cur) number ∷ [])
    → Alternate (split_from parts (c ∷ cur) number rest)
unfolding split_from
split_from-Alternate parts c cur number [] h = h
split_from-Alternate parts c cur number (char ∷ rest) h =
    elim (Bool-cases (same (is_digit_like char) number)) [
      | inl alike ↦ rw alike (
          split_from-Alternate parts c (cur ++ char ∷ []) number rest
            (Alternate-kind parts _ _ number h))
      | inr other ↦ rw other (
          split_from-Alternate (parts ++ part_of (c ∷ cur) number ∷ []) char [] (is_digit_like char)
            rest
            (Alternate-more parts (part_of (c ∷ cur) number) _ h (λ e. same_ne _ _ other (sym e))))
    ]

-- The parts, put together, are the text; none is empty and each is of one kind; neighbours are of
-- different kinds.
pub split_number_like_parts_lem :
    (s : Text)
    → (concat (split_number_like_parts s) ≡ s)
      × All IsRun (split_number_like_parts s)
      × Alternate (split_number_like_parts s)
unfolding split_number_like_parts
split_number_like_parts_lem [] = (refl, tt, tt)
split_number_like_parts_lem (c ∷ s) = (
  concat-split_from [] [] false (c ∷ s),
  split_from-IsRun [] [] false (c ∷ s) tt tt,
  unfold split_from in split_from-Alternate [] c [] (is_digit_like c) s tt,
)

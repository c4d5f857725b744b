-- ===== src/Go/Sort.antt =====
-- Go's stable sort, `sort.SliceStable`, and `slices.Sort` on strings. Which sort is used does not
-- show: a stable sort by a given order has one result, and equal strings cannot be told apart.
use simple_gnomon.Prelude.{
  ◌≡◌, sym, Bool, true, false, List, [], ◌∷◌, arith, if◌then◌else◌, Bool-cases, ◌⊎◌, inl, inr, In,
  All,
}
use simple_gnomon.Prelude.Bytes.{Bytes, bytes_ltb}

-- The steps of the two membership proofs at an element that stays in front.
behind :
    {A : Type 0} (x a b : A) (P Q : Type 0)
    → ((x ≡ a) ⊎ P → Q)
    → (x ≡ a) ⊎ ((x ≡ b) ⊎ P)
    → (x ≡ b) ⊎ Q
behind x a b P Q f (inl e) = inr (f (inl e))
behind x a b P Q f (inr (inl e)) = inl e
behind x a b P Q f (inr (inr p)) = inr (f (inr p))

ahead :
    {A : Type 0} (x a b : A) (P Q : Type 0)
    → (Q → (x ≡ a) ⊎ P)
    → (x ≡ b) ⊎ Q
    → (x ≡ a) ⊎ ((x ≡ b) ⊎ P)
ahead x a b P Q f (inl e) = inr (inl e)
ahead x a b P Q f (inr q) = elim (f q) [ inl e ↦ inl e | inr p ↦ inr (inr p) ]

module _ {A : Type 0} (less : A → A → Bool) where
  -- An element goes in front of the first that is not less than it.
  unfoldable pub place : A → List A → List A
  place a [] = a ∷ []
  place a (b ∷ xs) = if less b a then b ∷ place a xs else a ∷ b ∷ xs

  unfoldable pub sort_stable : List A → List A
  unfolding place
  sort_stable [] = []
  sort_stable (a ∷ xs) = place a (sort_stable xs)

  In-place : (x a : A) (xs : List A) → (x ≡ a) ⊎ In x xs → In x (place a xs)
  unfolding place
  In-place x a [] h = h
  In-place x a (b ∷ xs) h = elim (Bool-cases (less b a)) [
    | inl before ↦ rw before (behind x a b (In x xs) (In x (place a xs)) (In-place x a xs) h)
    | inr after ↦ rw after h
  ]

  place-In : (x a : A) (xs : List A) → In x (place a xs) → (x ≡ a) ⊎ In x xs
  unfolding place
  place-In x a [] h = h
  place-In x a (b ∷ xs) h = elim (Bool-cases (less b a)) [
    | inl before ↦ ahead x a b (In x xs) (In x (place a xs)) (place-In x a xs) (rw before at h)
    | inr after ↦ rw after at h
  ]

  -- Sorting keeps the elements, both ways.
  pub In-sort : (x : A) (xs : List A) → In x xs → In x (sort_stable xs)
  unfolding sort_stable
  In-sort x [] h = h
  In-sort x (a ∷ xs) (inl e) = In-place x a (sort_stable xs) (inl e)
  In-sort x (a ∷ xs) (inr i) = In-place x a (sort_stable xs) (inr (In-sort x xs i))

  pub sort-In : (x : A) (xs : List A) → In x (sort_stable xs) → In x xs
  unfolding sort_stable
  sort-In x [] h = h
  sort-In x (a ∷ xs) h = elim (place-In x a (sort_stable xs) h) [
    | inl e ↦ inl e
    | inr i ↦ inr (sort-In x xs i)
  ]

-- No element comes twice.
abbrev pub Distinct : {A : Type 0} → List A → Type 0
Distinct [] = Unit
Distinct (x ∷ xs) = (In x xs → ⊥) × Distinct xs

module _ {A : Type 0} (less : A → A → Bool) where
  place-Distinct : (a : A) (xs : List A) → (In a xs → ⊥) → Distinct xs → Distinct (place less a xs)
  unfolding place
  place-Distinct a [] new h = (λ i. i, tt)
  place-Distinct a (b ∷ xs) new h = elim (Bool-cases (less b a)) [
    | inl before ↦ rw before (
      λ i. elim (place-In less b a xs i) [ inl e ↦ new (inl (sym e)) | inr j ↦ h.0 j ],
      place-Distinct a xs (λ i. new (inr i)) h.1,
    )
    | inr after ↦ rw after (new, h)
  ]

  pub sort-Distinct : (xs : List A) → Distinct xs → Distinct (sort_stable less xs)
  unfolding sort_stable
  sort-Distinct [] h = tt
  sort-Distinct (a ∷ xs) h =
      place-Distinct a (sort_stable less xs) (λ i. h.0 (sort-In less a xs i)) (sort-Distinct xs h.1)

-- `slices.Sort` on strings.
unfoldable pub sort_bytes : List Bytes → List Bytes
unfolding sort_stable bytes_ltb
sort_bytes xs = sort_stable bytes_ltb xs

-- Every element stands before those that it is related to.
module _ {A : Type 0} (R : A → A → Type 0) where
  abbrev pub Pairwise : List A → Type 0
  Pairwise [] = Unit
  Pairwise (x ∷ xs) = All (R x) xs × Pairwise xs

module _ {A : Type 0} (less : A → A → Bool) (R : A → A → Type 0)
    (before : (a b : A) → less b a ≡ true → R b a)
    (behind_or_equal : (a b : A) → less b a ≡ false → R a b)
    (trans : (a b c : A) → R a b → R b c → R a c) where
  All-trans : (a b : A) (xs : List A) → R a b → All (R b) xs → All (R a) xs
  All-trans a b [] r h = tt
  All-trans a b (x ∷ xs) r h = (trans a b x r h.0, All-trans a b xs r h.1)

  place-All : (b a : A) (xs : List A) → R b a → All (R b) xs → All (R b) (place less a xs)
  unfolding place
  place-All b a [] r h = (r, tt)
  place-All b a (x ∷ xs) r h = ground (arith, place-All b a xs r h.1)

  place-Pairwise : (a : A) (xs : List A) → Pairwise R xs → Pairwise R (place less a xs)
  unfolding place
  place-Pairwise a [] h = (tt, tt)
  place-Pairwise a (b ∷ xs) h = elim (Bool-cases (less b a)) [
    | inl first ↦ rw first (place-All b a xs (before a b first) h.0, place-Pairwise a xs h.1)
    | inr last ↦ let r = behind_or_equal a b last in rw last ((r, All-trans a b xs r h.0), h)
  ]

  -- A sort by a test puts the list in the order that the test decides.
  pub sort-Pairwise : (xs : List A) → Pairwise R (sort_stable less xs)
  unfolding sort_stable
  sort-Pairwise [] = tt
  sort-Pairwise (a ∷ xs) = place-Pairwise a (sort_stable less xs) (sort-Pairwise xs)

-- ===== src/Store/Interaction/Oldest.antt =====
-- `GetInteractionIndex` in closed form, against the least and the greatest of the heights.
use simple_gnomon.Prelude.{
  ◌≡◌, refl, ◌≢◌, ◌⊎◌, inl, inr, List, [], ◌∷◌, arith, In, All, Bool-cases, true, ◌||◌,
  if◌then◌else◌,
}
use simple_gnomon.Prelude.Int.{ℤ, pos, ◌≤ℤ◌, ◌<ℤ◌, ltb_ℤ, leb_ℤ, min_ℤ, max_ℤ}
use simple_gnomon.Store.Interaction.{get_interaction_index}
use simple_gnomon.Store.Interaction.Index.{
  interaction_index_above, interaction_index_least, interaction_index_below,
}

-- The least and the greatest of a list that is not empty.
unfoldable pub least : ℤ → List ℤ → ℤ
least h [] = h
least h (x ∷ xs) = min_ℤ h (least x xs)

unfoldable pub greatest : ℤ → List ℤ → ℤ
greatest h [] = h
greatest h (x ∷ xs) = max_ℤ h (greatest x xs)

In-least : (h : ℤ) (xs : List ℤ) → In (least h xs) (h ∷ xs)
unfolding least
In-least h [] = inl refl
In-least h (x ∷ xs) = ground (arith, In-least x xs)

All-least : (h : ℤ) (xs : List ℤ) (b : ℤ) → b ≤ℤ least h xs → All (λ y. b ≤ℤ y) (h ∷ xs)
unfolding least
All-least h [] b le = (le, tt)
All-least h (x ∷ xs) b le = (ground arith, All-least x xs b (ground arith))

In-greatest : (h : ℤ) (xs : List ℤ) → In (greatest h xs) (h ∷ xs)
unfolding greatest
In-greatest h [] = inl refl
In-greatest h (x ∷ xs) = ground (arith, In-greatest x xs)

All-greatest : (h : ℤ) (xs : List ℤ) (b : ℤ) → greatest h xs ≤ℤ b → All (λ y. y ≤ℤ b) (h ∷ xs)
unfolding greatest
All-greatest h [] b le = (le, tt)
All-greatest h (x ∷ xs) b le = (ground arith, All-greatest x xs b (ground arith))

below-All : (t b : ℤ) (ys : List ℤ) → t <ℤ b → All (λ y. b ≤ℤ y) ys → All (λ y. t <ℤ y) ys
below-All t b [] lt h = tt
below-All t b (y ∷ ys) lt h = (omega (arith, h.0), below-All t b ys lt h.1)

module _ (t h : ℤ) (xs : List ℤ) where
  -- The answer on a list of heights that is not empty: the greatest height for a height above it or
  -- below 0; otherwise the least height if that is not above the height asked for, and else 0.
  pub interaction_index-eq-oldest : get_interaction_index t (h ∷ xs) ≡ (
      if ltb_ℤ (greatest h xs) t || ltb_ℤ t (pos 0)
      then greatest h xs
      else if leb_ℤ (least h xs) t
      then least h xs
      else pos 0)
  interaction_index-eq-oldest = elim (Bool-cases (ltb_ℤ (greatest h xs) t || ltb_ℤ t (pos 0))) [
    | inl out ↦ rw out (
        interaction_index_above t (h ∷ xs) (greatest h xs) (In-greatest h xs)
          (All-greatest h xs (greatest h xs) (omega arith)) (outside out))
    | inr within ↦ elim (Bool-cases (leb_ℤ (least h xs) t)) [
      | inl fits ↦
          rw (within, fits)
            (interaction_index_least t (h ∷ xs) (least h xs) (greatest h xs) (In-least h xs)
              (All-least h xs (least h xs) (omega arith)) (In-greatest h xs) (ground arith)
              (ground arith) (ground arith))
      | inr low ↦
          rw (within, low)
            (interaction_index_below t (h ∷ xs) (greatest h xs) (In-greatest h xs)
              (below-All t (least h xs) (h ∷ xs) (ground arith)
                (All-least h xs (least h xs) (omega arith)))
              (ground arith))
    ]
  ]
    where
      outside :
          (ltb_ℤ (greatest h xs) t || ltb_ℤ t (pos 0)) ≡ true → (greatest h xs <ℤ t) ⊎ (t <ℤ pos 0)
      outside e = ground arith

-- For a height between 0 and a stored one, a stored height that is not above it, but above the
-- oldest stored one, is not the answer.
pub interaction_index_not_latest :
    (t old latest top : ℤ) (heights : List ℤ)
    → In old heights
    → All (λ h. old ≤ℤ h) heights
    → In latest heights
    → old <ℤ latest
    → latest ≤ℤ t
    → In top heights
    → t ≤ℤ top
    → pos 0 ≤ℤ t
    → get_interaction_index t heights ≢ latest
interaction_index_not_latest t old latest top heights io least_old il lt fits it within nonneg e =
    absurd (
      ground (
        arith,
        e,
        interaction_index_least t heights old top io least_old it within (omega arith) nonneg,
      ))

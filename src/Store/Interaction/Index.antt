-- ===== src/Store/Interaction/Index.antt =====
-- What `GetInteractionIndex` answers. Since the loop over the descending heights does not stop at the
-- first that fits, the last one that fits stays.
use simple_gnomon.Prelude.{
  ◌≡◌, refl, ◌⊎◌, inl, inr, List, [], ◌∷◌, foldl, arith, In, All, All-In, All-subset, false, ◌||◌,
  ◌∙◌, sym, subst,
}
use simple_gnomon.Prelude.Int.{ℤ, pos, ◌≤ℤ◌, ◌<ℤ◌, ltb_ℤ, eq_of_parts}
use simple_gnomon.Go.Sort.{Pairwise, sort-Pairwise, In-sort, sort-In}
use simple_gnomon.Store.Interaction.{keep_height, highest_first, index_in, get_interaction_index}

abbrev Descending : List ℤ → Type 0
Descending = Pairwise (λ a b. b ≤ℤ a)

highest_first-Descending : (hs : List ℤ) → Descending (highest_first hs)
unfolding highest_first
highest_first-Descending =
    sort-Pairwise (λ a b. ltb_ℤ b a) (λ a b. b ≤ℤ a) (λ a b h. ground arith) (λ a b h. ground arith)
      (λ a b c h k. ground arith)

-- The loop stays at a height that is the least and fits.
keep-All_equal :
    (t m : ℤ) (hs : List ℤ)
    → m ≤ℤ t
    → All (λ h. h ≤ℤ m) hs
    → All (λ h. m ≤ℤ h) hs
    → foldl (keep_height t) m hs ≡ m
keep-All_equal t m [] fits low high = refl
keep-All_equal t m (h ∷ hs) fits low high =
    ground (arith, eq_of_parts h m, keep-All_equal t m hs fits low.1 high.1)

keep_least :
    (t m acc : ℤ) (hs : List ℤ)
    → Descending hs
    → In m hs
    → All (λ h. m ≤ℤ h) hs
    → m ≤ℤ t
    → foldl (keep_height t) acc hs ≡ m
keep_least t m acc [] desc i least fits = elim i [ ]
keep_least t m acc (h ∷ hs) desc (inl e) least fits =
    rw (stays)
      (keep-All_equal t m hs fits (subst (λ x. All (λ y. y ≤ℤ x) hs) (sym e) desc.0) least.1)
  where
    stays : keep_height t acc h ≡ m
    stays = ground (arith, e)
keep_least t m acc (h ∷ hs) desc (inr i) least fits =
    keep_least t m (keep_height t acc h) hs desc.1 i least.1 fits

-- No height fits.
keep_none : (t acc : ℤ) (hs : List ℤ) → All (λ h. t <ℤ h) hs → foldl (keep_height t) acc hs ≡ acc
keep_none t acc [] high = refl
keep_none t acc (h ∷ hs) high = rw stays (keep_none t acc hs high.1)
  where
    stays : keep_height t acc h ≡ acc
    stays = ground (arith, high.0)

All-highest_first : (P : ℤ → Type 0) (hs : List ℤ) → All P hs → All P (highest_first hs)
unfolding highest_first
All-highest_first P hs = All-subset P hs (highest_first hs) (λ x. sort-In (λ a b. ltb_ℤ b a) x hs)

In-highest_first : (x : ℤ) (hs : List ℤ) → In x hs → In x (highest_first hs)
unfolding highest_first
In-highest_first x hs = In-sort (λ a b. ltb_ℤ b a) x hs

-- The first of the descending heights is the greatest.
below_top : (x top : ℤ) (rest : List ℤ) → Descending (top ∷ rest) → In x (top ∷ rest) → x ≤ℤ top
below_top x top rest desc (inl e) = ground (arith, e)
below_top x top rest desc (inr i) = All-In (λ y. y ≤ℤ top) x rest desc.0 i

index_in_above :
    (t x : ℤ) (ds : List ℤ)
    → Descending ds
    → In x ds
    → All (λ h. h ≤ℤ x) ds
    → (x <ℤ t) ⊎ (t <ℤ pos 0)
    → index_in t ds ≡ x
unfolding index_in
index_in_above t x [] desc i greatest out = elim i [ ]
index_in_above t x (top ∷ rest) desc i greatest out =
    ground (arith, below_top x top rest desc i, eq_of_parts top x, greatest.0)

index_in_loop :
    (t x : ℤ) (ds : List ℤ)
    → Descending ds
    → In x ds
    → t ≤ℤ x
    → pos 0 ≤ℤ t
    → index_in t ds ≡ foldl (keep_height t) (pos 0) ds
unfolding index_in
index_in_loop t x [] desc i within nonneg = elim i [ ]
index_in_loop t x (top ∷ rest) desc i within nonneg = rw (inside) refl
  where
    inside : (ltb_ℤ top t || ltb_ℤ t (pos 0)) ≡ false
    inside = ground (arith, below_top x top rest desc i)

module _ (t : ℤ) (heights : List ℤ) where
  -- Above the greatest height, and at a negative height, the answer is the greatest height.
  pub interaction_index_above :
      (top : ℤ)
      → In top heights
      → All (λ h. h ≤ℤ top) heights
      → (top <ℤ t) ⊎ (t <ℤ pos 0)
      → get_interaction_index t heights ≡ top
  unfolding get_interaction_index
  interaction_index_above top i greatest out =
      index_in_above t top (highest_first heights) (highest_first-Descending heights)
        (In-highest_first top heights i) (All-highest_first (λ h. h ≤ℤ top) heights greatest) out

  -- Up to the greatest height, the answer is the least height, if that one fits.
  pub interaction_index_least :
      (m top : ℤ)
      → In m heights
      → All (λ h. m ≤ℤ h) heights
      → In top heights
      → t ≤ℤ top
      → m ≤ℤ t
      → pos 0 ≤ℤ t
      → get_interaction_index t heights ≡ m
  unfolding get_interaction_index
  interaction_index_least m top i least j within fits nonneg =
      index_in_loop t top (highest_first heights) (highest_first-Descending heights)
        (In-highest_first top heights j) within nonneg
      ∙ keep_least t m (pos 0) (highest_first heights) (highest_first-Descending heights)
          (In-highest_first m heights i) (All-highest_first (λ h. m ≤ℤ h) heights least) fits

  -- Below every height the answer is 0.
  pub interaction_index_below :
      (top : ℤ)
      → In top heights
      → All (λ h. t <ℤ h) heights
      → pos 0 ≤ℤ t
      → get_interaction_index t heights ≡ pos 0
  unfolding get_interaction_index
  interaction_index_below top i high nonneg =
      index_in_loop t top (highest_first heights) (highest_first-Descending heights)
        (In-highest_first top heights i) (lt_le t top (All-In (λ h. t <ℤ h) top heights high i))
        nonneg
      ∙ keep_none t (pos 0) (highest_first heights) (All-highest_first (λ h. t <ℤ h) heights high)
    where
      lt_le : (a b : ℤ) → a <ℤ b → a ≤ℤ b
      lt_le a b h = omega arith

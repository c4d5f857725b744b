-- ===== src/Go/Strings/Parts.antt =====
-- `strings.Split` undoes `strings.Join`, and `strings.Contains` finds a separator.
use simple_gnomon.Prelude.{
  ℕ, suc, ◌-◌, ◌≡◌, refl, ap, sym, ◌∙◌, true, false, List, [], ◌∷◌, ◌++◌, append_assoc, append-nil,
  length, All, arith,
}
use simple_gnomon.Prelude.Bytes.{Bytes}
use simple_gnomon.Go.Strings.{has_prefix, contains, split_from, split, join}

-- No separator begins in a text, whether it ends there or the separator follows.
abbrev pub Quiet : Bytes → Bytes → Type 0
Quiet sep [] = Unit
Quiet sep (c ∷ s) =
    ((rest : Bytes) → has_prefix ((c ∷ s) ++ sep ++ rest) sep ≡ false)
    × (has_prefix (c ∷ s) sep ≡ false)
    × Quiet sep s

has_prefix-append : (s rest : Bytes) → has_prefix (s ++ rest) s ≡ true
unfolding has_prefix
has_prefix-append [] [] = refl
has_prefix-append [] (c ∷ rest) = refl
has_prefix-append (c ∷ s) rest = ground (arith, has_prefix-append s rest)

contains_here : (s sub : Bytes) → has_prefix s sub ≡ true → contains s sub ≡ true
unfolding contains
contains_here [] sub h = h
contains_here (c ∷ s) sub h = rw h refl

pub contains-append : (p sep rest : Bytes) → contains (p ++ sep ++ rest) sep ≡ true
unfolding contains
contains-append [] sep rest = contains_here (sep ++ rest) sep (has_prefix-append sep rest)
contains-append (c ∷ p) sep rest = ground (arith, contains-append p sep rest)

module _ (c : ℕ) (sep : Bytes) where
  abbrev whole : Bytes
  whole = c ∷ sep

  pub contains-Quiet : (p : Bytes) → Quiet whole p → contains p whole ≡ false
  unfolding contains has_prefix
  contains-Quiet [] q = refl
  contains-Quiet (d ∷ p) (later, last, q) = ground (arith, contains-Quiet p q)

  skipped :
      (u piece rest : Bytes)
      → split_from whole (length u) piece (u ++ rest) ≡ split_from whole 0 piece rest
  unfolding split_from
  skipped [] piece rest = refl
  skipped (d ∷ u) piece rest = skipped u piece rest

  one_less : (n : ℕ) → suc n - 1 ≡ n
  one_less n = omega arith

  split_from-sep :
      (piece rest : Bytes)
      → split_from whole 0 piece (whole ++ rest) ≡ piece ∷ split_from whole 0 [] rest
  unfolding split_from
  split_from-sep piece rest = rw (has_prefix-append whole rest) (
      ap (λ l. piece ∷ l)
        (ap (λ n. split_from whole n [] (sep ++ rest)) (one_less (length sep))
          ∙ skipped sep [] rest))

  split_from-piece :
      (p piece rest : Bytes)
      → Quiet whole p
      → split_from whole 0 piece (p ++ whole ++ rest) ≡ (piece ++ p) ∷ split_from whole 0 [] rest
  unfolding split_from
  split_from-piece [] piece rest q =
      split_from-sep piece rest ∙ ap (λ t. t ∷ split_from whole 0 [] rest) (sym (append-nil piece))
  split_from-piece (d ∷ p) piece rest (later, last, q) = rw (later rest) (
      split_from-piece p (piece ++ d ∷ []) rest q
      ∙ ap (λ t. t ∷ split_from whole 0 [] rest) (append_assoc piece (d ∷ []) p))

  split_from-last :
      (p piece : Bytes) → Quiet whole p → split_from whole 0 piece p ≡ (piece ++ p) ∷ []
  unfolding split_from
  split_from-last [] piece q = ap (λ t. t ∷ []) (sym (append-nil piece))
  split_from-last (d ∷ p) piece (later, last, q) =
      rw last
        (split_from-last p (piece ++ d ∷ []) q ∙ ap (λ t. t ∷ []) (append_assoc piece (d ∷ []) p))

  -- Joined texts in which no separator begins split into themselves.
  pub split-join :
      (p : Bytes) (ps : List Bytes)
      → All (Quiet whole) (p ∷ ps)
      → split (join (p ∷ ps) whole) whole ≡ p ∷ ps
  unfolding split join
  split-join p [] (q, u) = split_from-last p [] q
  split-join p (r ∷ ps) (q, qs) =
      split_from-piece p [] (join (r ∷ ps) whole) q ∙ ap (λ l. p ∷ l) (split-join r ps qs)

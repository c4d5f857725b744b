-- ===== src/Store/Variables/Heights.antt =====
-- Which heights `GetSCIDVariableDetailsAtTopoheight` of db/bbolt.go takes.
use simple_gnomon.Prelude.{
  ◌≡◌, refl, ap, sym, true, false, List, [], ◌∷◌, arith, if◌then◌else◌, All, Bool-cases, inl, inr,
}
use simple_gnomon.Prelude.Int.{ℤ, ltb_ℤ, leb_ℤ, ◌≤ℤ◌}
use simple_gnomon.Go.Sort.{Pairwise, sort-Pairwise}
use simple_gnomon.Store.Variables.{up_to, lowest_first}
use simple_gnomon.Store.Variables.Merge.{later}

-- The heights that are not above a given one.
abbrev pub at_most : ℤ → List ℤ → List ℤ
at_most t [] = []
at_most t (h ∷ hs) = if leb_ℤ h t then h ∷ at_most t hs else at_most t hs

at_most_nothing :
    (t h : ℤ) (hs : List ℤ) → ltb_ℤ t h ≡ true → All (λ i. ltb_ℤ i h ≡ false) hs → at_most t hs ≡ []
at_most_nothing t h [] above all = refl
at_most_nothing t h (i ∷ hs) above (here, later) =
    let skipped : leb_ℤ i t ≡ false = ground (arith, above, here) in
    rw skipped (at_most_nothing t h hs above later)

-- On heights in order, the loop stops where there is no more height to take.
pub up_to-eq-at_most :
    (t : ℤ) (hs : List ℤ) → Pairwise (λ a b. ltb_ℤ b a ≡ false) hs → up_to t hs ≡ at_most t hs
unfolding up_to
up_to-eq-at_most t [] sorted = refl
up_to-eq-at_most t (h ∷ hs) (first, sorted) = elim (Bool-cases (ltb_ℤ t h)) [
  | inl above ↦
      let skipped : leb_ℤ h t ≡ false = ground (arith, above) in
      rw (above, skipped) (sym (at_most_nothing t h hs above first))
  | inr below ↦
      let taken : leb_ℤ h t ≡ true = ground (arith, below) in
      rw (below, taken) (ap (λ l. h ∷ l) (up_to-eq-at_most t hs sorted))
]

pub lowest_first-Pairwise : (hs : List ℤ) → Pairwise (λ a b. ltb_ℤ b a ≡ false) (lowest_first hs)
unfolding lowest_first
lowest_first-Pairwise hs =
    sort-Pairwise (λ a b. ltb_ℤ a b) (λ a b. ltb_ℤ b a ≡ false) (λ a b h. ground arith) (λ a b h. h)
      (λ a b c h k. ground arith) hs

pub up_to-All : (t : ℤ) (hs : List ℤ) → All (λ h. h ≤ℤ t) hs → up_to t hs ≡ hs
unfolding up_to
up_to-All t [] all = refl
up_to-All t (h ∷ hs) all = ground (arith, up_to-All t hs all.1)

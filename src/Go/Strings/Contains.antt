-- ===== src/Go/Strings/Contains.antt =====
-- `slices.Contains` decides membership.
use simple_gnomon.Prelude.{◌≡◌, sym, true, List, [], ◌∷◌, arith, In, Bool-cases, inl, inr}
use simple_gnomon.Prelude.Bytes.{Bytes, ◌==◌, ==_iff}
use simple_gnomon.Go.Strings.{slice_contains}

pub slice_contains-In : (xs : List Bytes) (v : Bytes) → slice_contains xs v ≡ true → In v xs
unfolding slice_contains
slice_contains-In [] v h = absurd (cc)
slice_contains-In (x ∷ xs) v h = elim (Bool-cases (x == v)) [
  | inl same ↦ inl (sym ((==_iff x v).0 same))
  | inr other ↦ inr (slice_contains-In xs v (rw other at h))
]

pub In-slice_contains : (xs : List Bytes) (v : Bytes) → In v xs → slice_contains xs v ≡ true
unfolding slice_contains
In-slice_contains [] v i = elim i [ ]
In-slice_contains (x ∷ xs) v (inl e) = ground (arith, ==_iff x v, e)
In-slice_contains (x ∷ xs) v (inr i) = ground (arith, In-slice_contains xs v i)

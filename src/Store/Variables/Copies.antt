-- ===== src/Store/Variables/Copies.antt =====
-- The loops of `GetAllSCIDVariableDetails` of db/bbolt.go against those of
-- `GetSCIDVariableDetailsAtTopoheight`.
use simple_gnomon.Prelude.{◌≡◌, refl, ap, ◌∙◌, ℕ, none, some, List, [], ◌∷◌}
use simple_gnomon.Prelude.Int.{ℤ}
use simple_gnomon.Structs.{Any, nil, float, uint, text, other, ScidVariable}
use simple_gnomon.Store.Variables.{
  Scalar, number, string, Vars, set_var, get_snapshot, key_of, value_of, merge_var, merge_snapshot,
  merge_heights, scalar_any, variables_of, all_set, all_put, all_merge_snapshot, all_merge_heights,
  all_variables_of,
}

module _ {Float : Type 0} (to_uint : Float → ℕ) where
  -- The two copies of the loops do the same.
  all_set_lem :
      (k : Scalar) (v : Any Float) (m : Vars)
      → all_set to_uint k v m ≡ (elim (value_of to_uint v) [ none ↦ m | some w ↦ set_var k w m ])
  unfolding all_set value_of
  all_set_lem k (float f) m = refl
  all_set_lem k (uint n) m = refl
  all_set_lem k (text s) m = refl
  all_set_lem k nil m = refl
  all_set_lem k other m = refl

  all_put_lem :
      (k v : Any Float) (m : Vars)
      → all_put to_uint k v m ≡ merge_var to_uint m (record { key = k; value = v })
  unfolding all_put merge_var key_of
  all_put_lem (float f) v m = all_set_lem (number (to_uint f)) v m
  all_put_lem (uint n) v m = all_set_lem (number n) v m
  all_put_lem (text s) v m = all_set_lem (string s) v m
  all_put_lem nil v m = refl
  all_put_lem other v m = refl

  all_merge_snapshot_lem :
      (m : Vars) (vs : List (ScidVariable Float))
      → all_merge_snapshot to_uint m vs ≡ merge_snapshot to_uint m vs
  unfolding all_merge_snapshot merge_snapshot
  all_merge_snapshot_lem m [] = refl
  all_merge_snapshot_lem m (v ∷ vs) =
      ap (λ n. all_merge_snapshot to_uint n vs) (all_put_lem v.key v.value m)
      ∙ all_merge_snapshot_lem (merge_var to_uint m v) vs

  pub all_merge_heights_lem :
      (results : List (ℤ × List (ScidVariable Float))) (m : Vars) (hs : List ℤ)
      → all_merge_heights to_uint results m hs ≡ merge_heights to_uint results m hs
  unfolding all_merge_heights merge_heights
  all_merge_heights_lem results m [] = refl
  all_merge_heights_lem results m (h ∷ hs) =
      ap (λ n. all_merge_heights to_uint results n hs)
        (all_merge_snapshot_lem m (get_snapshot h results))
      ∙ all_merge_heights_lem results (merge_snapshot to_uint m (get_snapshot h results)) hs

  pub all_variables_of_lem : (m : Vars) → all_variables_of to_uint m ≡ variables_of to_uint m
  unfolding all_variables_of variables_of
  all_variables_of_lem [] = refl
  all_variables_of_lem ((k, none) ∷ m) = all_variables_of_lem m
  all_variables_of_lem ((number n, some v) ∷ m) =
      ap (λ l. record { key = uint n; value = scalar_any to_uint v } ∷ l) (all_variables_of_lem m)
  all_variables_of_lem ((string s, some v) ∷ m) =
      ap (λ l. record { key = text s; value = scalar_any to_uint v } ∷ l) (all_variables_of_lem m)

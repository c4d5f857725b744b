-- ===== src/Store/Variables/Merge.antt =====
-- The merge of snapshots in db/bbolt.go: the last value written for a key stays.
use simple_gnomon.Prelude.{
  ◌≡◌, ◌↔◌, refl, ap, sym, ◌∙◌, ℕ, true, Option, none, some, List, [], ◌∷◌, ◌++◌, arith,
  if◌then◌else◌, Option-cases, inl, inr,
}
use simple_gnomon.Prelude.Int.{ℤ}
use simple_gnomon.Prelude.Bytes.{==_iff}
use simple_gnomon.Structs.{ScidVariable}
use simple_gnomon.Store.Variables.{
  Scalar, number, string, scalar_eq, Vars, set_var, get_var, get_snapshot, key_of, value_of,
  merge_var, merge_snapshot, merge_heights,
}

pub scalar_eq_iff : (a b : Scalar) → (scalar_eq a b ≡ true) ↔ (a ≡ b)
unfolding scalar_eq
scalar_eq_iff (number a) (number b) = ground arith
scalar_eq_iff (string s) (string t) = ground (arith, ==_iff s t)
scalar_eq_iff (number a) (string t) = ground arith
scalar_eq_iff (string s) (number b) = ground arith

pub get_var-set_var :
    (k j : Scalar) (w : Option Scalar) (m : Vars)
    → get_var k (set_var j w m) ≡ (if scalar_eq j k then some w else get_var k m)
unfolding get_var set_var
get_var-set_var k j w [] = refl
get_var-set_var k j w ((i, u) ∷ m) =
    ground (arith, scalar_eq_iff j k, scalar_eq_iff i j, scalar_eq_iff i k, get_var-set_var k j w m)

-- The later of two findings.
abbrev pub later : Option (Option Scalar) → Option (Option Scalar) → Option (Option Scalar)
later new old = elim new [ none ↦ old | some w ↦ some w ]

module _ {Float : Type 0} (to_uint : Float → ℕ) where
  -- What one variable writes for a key.
  abbrev pub written : Scalar → ScidVariable Float → Option (Option Scalar)
  written k v = elim (key_of to_uint v.key) [
    | none ↦ none
    | some j ↦ if scalar_eq j k then value_of to_uint v.value else none
  ]

  -- What the last of the variables that writes for a key writes there.
  abbrev pub last_written : Scalar → List (ScidVariable Float) → Option (Option Scalar)
  last_written k [] = none
  last_written k (v ∷ vs) = later (last_written k vs) (written k v)

  get_var-merge_var :
      (k : Scalar) (m : Vars) (v : ScidVariable Float)
      → get_var k (merge_var to_uint m v) ≡ later (written k v) (get_var k m)
  unfolding merge_var
  get_var-merge_var k m v = elim (Option-cases (key_of to_uint v.key)) [
    | inl e ↦ ground (arith, e)
    | inr (j, e) ↦ elim (Option-cases (value_of to_uint v.value)) [
      | inl f ↦ ground (arith, e, f)
      | inr (w, f) ↦ ground (arith, e, f, get_var-set_var k j w m)
    ]
  ]

  later_assoc : (a b c : Option (Option Scalar)) → later a (later b c) ≡ later (later a b) c
  later_assoc none b c = refl
  later_assoc (some w) b c = refl

  -- Merging variables into a map: a key has the value that the last of the variables writes for it,
  -- or its old one if none does.
  pub get_var-merge_snapshot :
      (k : Scalar) (m : Vars) (vs : List (ScidVariable Float))
      → get_var k (merge_snapshot to_uint m vs) ≡ later (last_written k vs) (get_var k m)
  unfolding merge_snapshot
  get_var-merge_snapshot k m [] = refl
  get_var-merge_snapshot k m (v ∷ vs) =
      get_var-merge_snapshot k (merge_var to_uint m v) vs
      ∙ ap (later (last_written k vs)) (get_var-merge_var k m v)
      ∙ later_assoc (last_written k vs) (written k v) (get_var k m)

  -- The variables of the snapshots of the given heights, in their order.
  abbrev pub snapshots_of :
      List (ℤ × List (ScidVariable Float)) → List ℤ → List (ScidVariable Float)
  snapshots_of results [] = []
  snapshots_of results (h ∷ hs) = get_snapshot h results ++ snapshots_of results hs

  last_written-append :
      (k : Scalar) (vs ws : List (ScidVariable Float))
      → last_written k (vs ++ ws) ≡ later (last_written k ws) (last_written k vs)
  last_written-append k [] ws = later_none (last_written k ws)
    where
      later_none : (a : Option (Option Scalar)) → a ≡ later a none
      later_none none = refl
      later_none (some w) = refl
  last_written-append k (v ∷ vs) ws =
      ap (λ a. later a (written k v)) (last_written-append k vs ws)
      ∙ sym (later_assoc (last_written k ws) (last_written k vs) (written k v))

  -- Merging the snapshots of several heights: a key has the value that the last variable of all
  -- the snapshots, in the order of the heights, writes for it, or its old value if none does.
  pub get_var-merge_heights :
      (k : Scalar) (results : List (ℤ × List (ScidVariable Float))) (m : Vars) (hs : List ℤ)
      → get_var k (merge_heights to_uint results m hs)
        ≡ later (last_written k (snapshots_of results hs)) (get_var k m)
  unfolding merge_heights
  get_var-merge_heights k results m [] = refl
  get_var-merge_heights k results m (h ∷ hs) =
      let vs = get_snapshot h results in
      get_var-merge_heights k results (merge_snapshot to_uint m vs) hs
      ∙ ap (later (last_written k (snapshots_of results hs))) (get_var-merge_snapshot k m vs)
      ∙ later_assoc (last_written k (snapshots_of results hs)) (last_written k vs) (get_var k m)
      ∙ ap (λ a. later a (get_var k m)) (sym (last_written-append k vs (snapshots_of results hs)))

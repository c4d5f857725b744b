-- ===== src/Store/Variables/Entries.antt =====
-- The map that the readers of variables in db/bbolt.go fill has each key once.
use simple_gnomon.Prelude.{
  ◌≡◌, ◌↔◌, refl, ap, sym, subst, ℕ, Option, none, some, List, [], ◌∷◌, arith, In, Bool-cases,
  Option-cases, inl, inr,
}
use simple_gnomon.Prelude.Int.{ℤ}
use simple_gnomon.Structs.{ScidVariable}
use simple_gnomon.Store.Variables.{
  Scalar, scalar_eq, Vars, set_var, get_var, get_snapshot, key_of, value_of, merge_var,
  merge_snapshot, merge_heights,
}
use simple_gnomon.Store.Variables.Merge.{scalar_eq_iff, get_var-set_var, later}

-- No key comes twice.
abbrev pub IsMap : Vars → Type 0
IsMap [] = Unit
IsMap ((j, w) ∷ m) = (get_var j m ≡ none) × IsMap m

set_var-IsMap : (k : Scalar) (v : Option Scalar) (m : Vars) → IsMap m → IsMap (set_var k v m)
unfolding set_var get_var
set_var-IsMap k v [] h = (refl, tt)
set_var-IsMap k v ((j, w) ∷ m) (new, h) = elim (Bool-cases (scalar_eq j k)) [
  | inl same ↦ rw same (subst (λ i. get_var i m ≡ none) ((scalar_eq_iff j k).0 same) new, h)
  | inr differs ↦ rw differs (
    ground (arith, get_var-set_var j k v m, scalar_eq_iff j k, scalar_eq_iff k j, new),
    set_var-IsMap k v m h,
  )
]

missing_key : (k : Scalar) (w : Option Scalar) (m : Vars) → get_var k m ≡ none → In (k, w) m → ⊥
unfolding get_var
missing_key k w [] h i = i
missing_key k w ((j, v) ∷ m) h (inl e) = ground (arith, scalar_eq_iff j k, ap (λ p. p.0) e, h)
missing_key k w ((j, v) ∷ m) h (inr i) = elim (Bool-cases (scalar_eq j k)) [
  | inl same ↦ cc (rw same at h)
  | inr differs ↦ missing_key k w m (rw differs at h) i
]

-- The entries of a map are what it has for its keys.
pub In-get_var :
    (k : Scalar) (w : Option Scalar) (m : Vars) → IsMap m → In (k, w) m ↔ (get_var k m ≡ some w)
unfolding get_var
In-get_var k w [] h = (λ i. elim i [ ], λ e. cc (e))
In-get_var k w ((j, v) ∷ m) (new, h) =
    let (to, from) = In-get_var k w m h in
    elim (Bool-cases (scalar_eq j k)) [
      | inl same ↦
          let e = (scalar_eq_iff j k).0 same in
          rw same (
            λ i. elim i [
              | inl here ↦ cc (ap (λ p. p.1) here)
              | inr later ↦ absurd (missing_key k w m (subst (λ i. get_var i m ≡ none) e new) later)
            ],
            λ given. inl (cc (e, given)),
          )
      | inr differs ↦ rw differs (
        λ i. elim i [
          | inl here ↦ absurd (cc (differs, (scalar_eq_iff j k).1 (sym (ap (λ p. p.0) here))))
          | inr later ↦ to later
        ],
        λ given. inr (from given),
      )
    ]

module _ {Float : Type 0} (to_uint : Float → ℕ) where
  merge_var-IsMap : (m : Vars) (v : ScidVariable Float) → IsMap m → IsMap (merge_var to_uint m v)
  unfolding merge_var
  merge_var-IsMap m v h = elim (Option-cases (key_of to_uint v.key)) [
    | inl e ↦ rw (e, merge_var) h
    | inr (k, e) ↦ elim (Option-cases (value_of to_uint v.value)) [
      | inl f ↦ rw (e, merge_var, f) h
      | inr (w, f) ↦ rw (e, merge_var, f) (set_var-IsMap k w m h)
    ]
  ]

  merge_snapshot-IsMap :
      (m : Vars) (vs : List (ScidVariable Float)) → IsMap m → IsMap (merge_snapshot to_uint m vs)
  unfolding merge_snapshot
  merge_snapshot-IsMap m [] h = h
  merge_snapshot-IsMap m (v ∷ vs) h =
      merge_snapshot-IsMap (merge_var to_uint m v) vs (merge_var-IsMap m v h)

  pub merge_heights-IsMap :
      (results : List (ℤ × List (ScidVariable Float))) (m : Vars) (hs : List ℤ)
      → IsMap m
      → IsMap (merge_heights to_uint results m hs)
  unfolding merge_heights
  merge_heights-IsMap results m [] h = h
  merge_heights-IsMap results m (height ∷ hs) h =
      merge_heights-IsMap results (merge_snapshot to_uint m (get_snapshot height results)) hs
        (merge_snapshot-IsMap m (get_snapshot height results) h)

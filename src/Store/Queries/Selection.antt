-- ===== src/Store/Queries/Selection.antt =====
-- How the searches in a contract's variables in db/bbolt.go select keys and values.
use simple_gnomon.Prelude.{
  ◌≡◌, ◌↔◌, refl, sym, ap, ◌∙◌, ℕ, true, Option, none, some, In, arith, List, [], ◌∷◌, ◌++◌,
  append_assoc, append-nil, if◌then◌else◌, All, Bool-cases, inl, inr,
}
use simple_gnomon.Prelude.Bytes.{Bytes, ==_iff}
use simple_gnomon.Structs.{Any, nil, float, uint, text, other, ScidVariable}
use simple_gnomon.Store.Variables.{Vars, Scalar, number, string, variables_of, scalar_any}
use simple_gnomon.Store.Queries.{Found, callback, equals, gather}

module _ {Float : Type 0} (to_uint : Float → ℕ) where
  -- A number or a text.
  abbrev pub IsPlain : Any Float → Type 0
  IsPlain (uint n) = Unit
  IsPlain (text s) = Unit
  IsPlain (float f) = ⊥
  IsPlain nil = ⊥
  IsPlain other = ⊥

  abbrev pub texts : List (Any Float) → List Bytes
  texts [] = []
  texts (text s ∷ vs) = s ∷ texts vs
  texts (_ ∷ vs) = texts vs

  abbrev pub numbers : List (Any Float) → List ℕ
  numbers [] = []
  numbers (uint n ∷ vs) = n ∷ numbers vs
  numbers (_ ∷ vs) = numbers vs

  skip :
      {P : Type 0} (a v : Any Float) (vs : List (Any Float))
      → (a ≡ v → ⊥)
      → P ↔ In a vs
      → P ↔ In a (v ∷ vs)
  skip a v vs differs (to, from) =
      (λ p. inr (to p), λ i. elim i [ inl e ↦ absurd (differs e) | inr j ↦ from j ])

  -- What the variables have for `got` where `test` equals the input.
  abbrev pub selected :
      (ScidVariable Float → Any Float)
      → (ScidVariable Float → Any Float)
      → Any Float
      → List (ScidVariable Float)
      → List (Any Float)
  selected test got input [] = []
  selected test got input (v ∷ vs) =
      if equals to_uint input (test v)
      then got v ∷ selected test got input vs
      else selected test got input vs

  -- One more value behind those found.
  abbrev pub extend : Found → List (Any Float) → Found
  extend found vs = (found.0 ++ texts vs, found.1 ++ numbers vs)

  callback_lem :
      (v : Any Float) (vs : List (Any Float)) (found : Found)
      → IsPlain v
      → (more : Found) × (callback to_uint v found ≡ some more)
        × (extend more vs ≡ extend found (v ∷ vs))
  unfolding callback
  callback_lem (uint n) vs (strings, uints) plain =
      ((strings, uints ++ n ∷ []), refl, cc (append_assoc uints (n ∷ []) (numbers vs)))
  callback_lem (text s) vs (strings, uints) plain =
      ((strings ++ s ∷ [], uints), refl, cc (append_assoc strings (s ∷ []) (texts vs)))
  callback_lem (float f) vs found plain = absurd plain
  callback_lem nil vs found plain = absurd plain
  callback_lem other vs found plain = absurd plain

  pub gather_lem :
      (test got : ScidVariable Float → Any Float) (input : Any Float) (found : Found)
      (vs : List (ScidVariable Float))
      → All (λ v. IsPlain (got v)) vs
      → gather to_uint test got input found vs ≡ some (extend found (selected test got input vs))
  unfolding gather
  gather_lem test got input found [] plain = cc (append-nil found.0, append-nil found.1)
  gather_lem test got input found (v ∷ vs) plain =
      elim (Bool-cases (equals to_uint input (test v))) [
        | inl same ↦
            let (more, called, grown) =
              callback_lem (got v) (selected test got input vs) found plain.0 in
            let rest = gather_lem test got input more vs plain.1 in
            rw (same, called, rest, grown) refl
        | inr differs ↦ rw differs (gather_lem test got input found vs plain.1)
      ]

  -- The number or text that is searched for; nothing equals a value of another type.
  abbrev pub asked : Any Float → Option Scalar
  asked (uint n) = some (number n)
  asked (text s) = some (string s)
  asked _ = none

  pub equals-asked :
      (input : Any Float) (v : Scalar)
      → (equals to_uint input (scalar_any to_uint v) ≡ true) ↔ (asked input ≡ some v)
  unfolding equals
  equals-asked (uint a) (number b) = (λ e. ground (arith, e), λ e. ground (arith, e))
  equals-asked (text s) (string t) = (λ e. cc ((==_iff s t).0 e), λ e. (==_iff s t).1 (cc (e)))
  equals-asked (uint a) (string t) = (λ e. absurd (cc (e)), λ e. absurd (cc (e)))
  equals-asked (text s) (number b) = (λ e. absurd (cc (e)), λ e. absurd (cc (e)))
  equals-asked (float f) v = (λ e. absurd (cc (e)), λ e. absurd (cc (e)))
  equals-asked nil v = (λ e. absurd (cc (e)), λ e. absurd (cc (e)))
  equals-asked other v = (λ e. absurd (cc (e)), λ e. absurd (cc (e)))

  pub In-texts : (s : Bytes) (vs : List (Any Float)) → In s (texts vs) ↔ In (text s) vs
  In-texts s [] = (λ i. i, λ i. i)
  In-texts s (text t ∷ vs) =
      let (to, from) = In-texts s vs in
      (
        λ i. elim i [ inl e ↦ inl (ap text e) | inr j ↦ inr (to j) ],
        λ i. elim i [ inl e ↦ inl (cc (e)) | inr j ↦ inr (from j) ],
      )
  In-texts s (uint n ∷ vs) = skip (text s) (uint n) vs (λ e. cc (e)) (In-texts s vs)
  In-texts s (float f ∷ vs) = skip (text s) (float f) vs (λ e. cc (e)) (In-texts s vs)
  In-texts s (nil ∷ vs) = skip (text s) nil vs (λ e. cc (e)) (In-texts s vs)
  In-texts s (other ∷ vs) = skip (text s) other vs (λ e. cc (e)) (In-texts s vs)

  pub In-numbers : (n : ℕ) (vs : List (Any Float)) → In n (numbers vs) ↔ In (uint n) vs
  In-numbers n [] = (λ i. i, λ i. i)
  In-numbers n (uint m ∷ vs) =
      let (to, from) = In-numbers n vs in
      (
        λ i. elim i [ inl e ↦ inl (ap uint e) | inr j ↦ inr (to j) ],
        λ i. elim i [ inl e ↦ inl (cc (e)) | inr j ↦ inr (from j) ],
      )
  In-numbers n (text s ∷ vs) = skip (uint n) (text s) vs (λ e. cc (e)) (In-numbers n vs)
  In-numbers n (float f ∷ vs) = skip (uint n) (float f) vs (λ e. cc (e)) (In-numbers n vs)
  In-numbers n (nil ∷ vs) = skip (uint n) nil vs (λ e. cc (e)) (In-numbers n vs)
  In-numbers n (other ∷ vs) = skip (uint n) other vs (λ e. cc (e)) (In-numbers n vs)

  -- What is selected: the other halves of the variables that have what is searched for.
  pub In-selected :
      (test got : ScidVariable Float → Any Float) (input a : Any Float)
      (vs : List (ScidVariable Float))
      → In a (selected test got input vs) ↔ (
          (u : ScidVariable Float) × In u vs × (got u ≡ a) × (equals to_uint input (test u) ≡ true))
  In-selected test got input a [] = (λ i. elim i [ ], λ h. elim h.1 [ ])
  In-selected test got input a (v ∷ vs) =
      let (to, from) = In-selected test got input a vs in
      elim (Bool-cases (equals to_uint input (test v))) [
        | inl same ↦ rw same (
          λ i. elim i [
            | inl e ↦ (v, inl refl, sym e, same)
            | inr j ↦ let (u, k, g, q) = to j in (u, inr k, g, q)
          ],
          λ h. elim h.1 [
            | inl e ↦ inl (sym (h.2) ∙ ap got e)
            | inr k ↦ inr (from (h.0, k, h.2, h.3))
          ],
        )
        | inr differs ↦ rw differs (
          λ i. let (u, k, g, q) = to i in (u, inr k, g, q),
          λ h. elim h.1 [
            | inl e ↦ absurd (cc (ap (λ w. equals to_uint input (test w)) e, h.3, differs))
            | inr k ↦ from (h.0, k, h.2, h.3)
          ],
        )
      ]

  pub variables_of-IsPlain :
      (vars : Vars) → All (λ v. IsPlain v.key × IsPlain v.value) (variables_of to_uint vars)
  unfolding variables_of
  variables_of-IsPlain [] = tt
  variables_of-IsPlain ((k, none) ∷ m) = variables_of-IsPlain m
  variables_of-IsPlain ((k, some v) ∷ m) =
      ((scalar_plain k, scalar_plain v), variables_of-IsPlain m)
    where
      scalar_plain : (k : Scalar) → IsPlain (scalar_any to_uint k)
      scalar_plain (number n) = tt
      scalar_plain (string s) = tt

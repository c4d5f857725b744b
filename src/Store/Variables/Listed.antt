-- ===== src/Store/Variables/Listed.antt =====
-- Which variables the readers of db/bbolt.go list, and that the two readers agree.
use simple_gnomon.Prelude.{
  ◌≡◌, ◌↔◌, refl, ap, sym, ◌∙◌, subst, ℕ, Option, none, some, List, [], ◌∷◌, All, All-subset, In,
  inl, inr,
}
use simple_gnomon.Prelude.Int.{ℤ, ltb_ℤ, ◌≤ℤ◌}
use simple_gnomon.Prelude.Bytes.{Bytes}
use simple_gnomon.Prelude.Assoc.{Assoc}
use simple_gnomon.Go.Json.{Codec}
use simple_gnomon.Go.Sort.{sort-In}
use simple_gnomon.Structs.{ScidVariable}
use simple_gnomon.Bolt.{Bolt, scan}
use simple_gnomon.Store.{Store}
use simple_gnomon.Store.Variables.{
  Scalar, number, string, Vars, up_to, merge_heights, scalar_any, variables_of, vars_bucket,
  read_snapshots, lowest_first, variables_at_topoheight, all_variables, all_merge_heights,
}
use simple_gnomon.Store.Variables.Merge.{last_written, snapshots_of}
use simple_gnomon.Store.Variables.Heights.{at_most, up_to-All}
use simple_gnomon.Store.Variables.Copies.{all_merge_heights_lem, all_variables_of_lem}

-- A visit of a map comes to its entries, and to nothing else.
abbrev pub Visits : (Vars → Vars) → Type 0
Visits visit = (m : Vars) (e : Scalar × Option Scalar) → In e (visit m) ↔ In e m

module _ {Float : Type 0} (to_uint : Float → ℕ) where
  -- The variable of a key with a value.
  abbrev pub variable : Scalar → Scalar → ScidVariable Float
  variable k v = record { key = scalar_any to_uint k; value = scalar_any to_uint v }

  pub scalar_any_inj : (a b : Scalar) → scalar_any to_uint a ≡ scalar_any to_uint b → a ≡ b
  scalar_any_inj (number a) (number b) e = cc (e)
  scalar_any_inj (string s) (string t) e = cc (e)
  scalar_any_inj (number a) (string t) e = absurd (cc (e))
  scalar_any_inj (string s) (number b) e = absurd (cc (e))

  variables_of-In :
      (u : ScidVariable Float) (m : Vars)
      → In u (variables_of to_uint m)
      → (k : Scalar) × (v : Scalar) × In (k, some v) m × (u ≡ variable k v)
  unfolding variables_of
  variables_of-In u [] i = elim i [ ]
  variables_of-In u ((k, none) ∷ m) i =
      let (j, v, found, e) = variables_of-In u m i in (j, v, inr found, e)
  variables_of-In u ((k, some v) ∷ m) (inl e) = (k, v, inl refl, e)
  variables_of-In u ((k, some v) ∷ m) (inr i) =
      let (j, w, found, e) = variables_of-In u m i in (j, w, inr found, e)

  In-variables_of :
      (k v : Scalar) (m : Vars) → In (k, some v) m → In (variable k v) (variables_of to_uint m)
  unfolding variables_of
  In-variables_of k v [] i = i
  In-variables_of k v ((j, none) ∷ m) (inl e) = absurd (cc (ap (λ p. p.1) e))
  In-variables_of k v ((j, none) ∷ m) (inr i) = In-variables_of k v m i
  In-variables_of k v ((j, some w) ∷ m) (inl e) =
      let same : v ≡ w = cc (ap (λ p. p.1) e) in inl (cc (ap (λ p. p.0) e, same))
  In-variables_of k v ((j, some w) ∷ m) (inr i) = inr (In-variables_of k v m i)

  -- Two orders of a visit list the same variables.
  visited :
      (visit other_visit : Vars → Vars) (m : Vars) (u : ScidVariable Float)
      → Visits visit
      → Visits other_visit
      → In u (variables_of to_uint (visit m))
      → In u (variables_of to_uint (other_visit m))
  visited visit other_visit m u here there i =
      let (k, v, found, e) = variables_of-In u (visit m) i in
      subst (λ x. In x (variables_of to_uint (other_visit m))) (sym e)
        (In-variables_of k v (other_visit m)
          ((there m (k, some v)).1 ((here m (k, some v)).0 found)))

  -- What the last variable of the snapshots at heights up to a given one, the lowest first, writes for a key, out of
  -- the entries of a bucket.
  abbrev pub latest :
      Codec (List (ScidVariable Float)) → Assoc Bytes → ℤ → Scalar → Option (Option Scalar)
  latest json entries topoheight k =
      let (heights, results) = read_snapshots json ([], []) entries in
      last_written to_uint k
        (snapshots_of to_uint results (at_most topoheight (lowest_first heights)))

module _ {Db Bucket Float : Type 0} (bolt : Bolt Db Bucket) (to_uint : Float → ℕ)
    (json : Codec (List (ScidVariable Float))) where
  pub variables_at_topoheight-variable :
      (visit : Vars → Vars) (scid : Bytes) (t : ℤ) (s : Store Db) (u : ScidVariable Float)
      → In u (variables_at_topoheight bolt to_uint json visit scid t s)
      → (k : Scalar) × (v : Scalar) × (u ≡ variable to_uint k v)
  unfolding variables_at_topoheight
  variables_at_topoheight-variable visit scid t s u i =
      let (heights, results) = read_snapshots json ([], []) (scan bolt s.db (vars_bucket scid)) in
      let m = merge_heights to_uint results [] (up_to t (lowest_first heights)) in
      let (k, v, found, e) = variables_of-In to_uint u (visit m) i in (k, v, e)

  -- At a height that no stored snapshot passes, the two readers list the same variables, each in the
  -- order of its own visit.
  pub variables_at_top :
      (visit other_visit : Vars → Vars) (scid : Bytes) (t : ℤ) (s : Store Db)
      (u : ScidVariable Float)
      → Visits visit
      → Visits other_visit
      → All (λ h. h ≤ℤ t) (read_snapshots json ([], []) (scan bolt s.db (vars_bucket scid))).0
      → In u (variables_at_topoheight bolt to_uint json visit scid t s)
        ↔ In u (all_variables bolt to_uint json other_visit scid s)
  unfolding variables_at_topoheight all_variables lowest_first
  variables_at_top visit other_visit scid t s u here there all =
      let (heights, results) = read_snapshots json ([], []) (scan bolt s.db (vars_bucket scid)) in
      let hs = lowest_first heights in
      let m = merge_heights to_uint results [] hs in
      let whole =
        up_to-All t hs
          (All-subset (λ h. h ≤ℤ t) heights hs (λ x. sort-In (λ a b. ltb_ℤ a b) x heights) all) in
      let left : variables_at_topoheight bolt to_uint json visit scid t s
          ≡ variables_of to_uint (visit m) =
        ap (λ l. variables_of to_uint (visit (merge_heights to_uint results [] l))) whole in
      let right : all_variables bolt to_uint json other_visit scid s
          ≡ variables_of to_uint (other_visit m) =
        all_variables_of_lem to_uint (other_visit (all_merge_heights to_uint results [] hs))
        ∙ ap (λ n. variables_of to_uint (other_visit n))
            (all_merge_heights_lem to_uint results [] hs) in
      rw (left, right)
        (
          visited to_uint visit other_visit m u here there,
          visited to_uint other_visit visit m u there here,
        )

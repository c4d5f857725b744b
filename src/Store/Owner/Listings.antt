-- ===== src/Store/Owner/Listings.antt =====
-- The listings over the records of db/bbolt.go: what they hold, and in which order.
use simple_gnomon.Prelude.{
  ◌≡◌, refl, ◌↔◌, ◌⊎◌, inl, inr, ap, sym, subst, true, false, List, [], ◌∷◌, map, Bool-cases, In,
}
use simple_gnomon.Prelude.Bytes.{Bytes, ◌==◌, ==_iff, bytes_ltb}
use simple_gnomon.Prelude.Assoc.{Assoc, lookup}
use simple_gnomon.Prelude.Keys.{bytes_ltb_irrefl, bytes_ltb_trans, bytes_ltb_total}
use simple_gnomon.Go.Strings.Contains.{slice_contains-In, In-slice_contains}
use simple_gnomon.Go.Strings.{slice_contains}
use simple_gnomon.Go.Sort.{
  sort_bytes, sort-In, In-sort, Pairwise, sort-Pairwise, Distinct, sort-Distinct,
}
use simple_gnomon.Bolt.{Bolt, scan}
use simple_gnomon.Store.{Store}
use simple_gnomon.Store.Owner.{
  owner_bucket, class_bucket, unique_values, owners_loop, get_all_classes, get_all_owners,
}

abbrev pub values : Assoc Bytes → List Bytes
values m = map (λ e. e.1) m

-- The loop keeps exactly the values that it was not told to leave out.
unique_values-In :
    (seen : List Bytes) (m : Assoc Bytes) (v : Bytes)
    → In v (unique_values seen m)
    → In v (values m)
unfolding unique_values
unique_values-In seen [] v i = i
unique_values-In seen ((k, w) ∷ m) v i = elim (Bool-cases (slice_contains seen w)) [
  | inl met ↦ inr (unique_values-In seen m v (rw met at i))
  | inr new ↦
      let i' : In v (w ∷ unique_values (w ∷ seen) m) = rw new at i in
      elim i' [ inl e ↦ inl e | inr j ↦ inr (unique_values-In (w ∷ seen) m v j) ]
]

In-unique_values :
    (seen : List Bytes) (m : Assoc Bytes) (v : Bytes)
    → In v (values m)
    → In v seen ⊎ In v (unique_values seen m)
unfolding unique_values
In-unique_values seen [] v i = elim i [ ]
In-unique_values seen ((k, w) ∷ m) v i = elim (Bool-cases (slice_contains seen w)) [
  | inl met ↦ rw met (elim i [
    | inl e ↦ inl (subst (λ x. In x seen) (sym e) (slice_contains-In seen w met))
    | inr j ↦ In-unique_values seen m v j
  ])
  | inr new ↦ rw new (elim i [
    | inl e ↦ inr (inl e)
    | inr j ↦ elim (In-unique_values (w ∷ seen) m v j) [
      | inl there ↦ elim there [ inl e ↦ inr (inl e) | inr s ↦ inl s ]
      | inr later ↦ inr (inr later)
    ]
  ])
]

-- No value that was met comes again.
unique_values-fresh :
    (seen : List Bytes) (m : Assoc Bytes) (v : Bytes) → In v seen → In v (unique_values seen m) → ⊥
unfolding unique_values
unique_values-fresh seen [] v s i = i
unique_values-fresh seen ((k, w) ∷ m) v s i = elim (Bool-cases (slice_contains seen w)) [
  | inl met ↦ unique_values-fresh seen m v s (rw met at i)
  | inr new ↦
      let i' : In v (w ∷ unique_values (w ∷ seen) m) = rw new at i in
      elim i' [
        | inl e ↦ absurd (cc (In-slice_contains seen w (subst (λ x. In x seen) e s)))
        | inr j ↦ unique_values-fresh (w ∷ seen) m v (inr s) j
      ]
]

unique_values-Distinct : (seen : List Bytes) (m : Assoc Bytes) → Distinct (unique_values seen m)
unfolding unique_values
unique_values-Distinct seen [] = tt
unique_values-Distinct seen ((k, w) ∷ m) = elim (Bool-cases (slice_contains seen w)) [
  | inl met ↦ rw met (unique_values-Distinct seen m)
  | inr new ↦
      rw new (unique_values-fresh (w ∷ seen) m w (inl refl), unique_values-Distinct (w ∷ seen) m)
]

bytes_ltb_asym : (a b : Bytes) → bytes_ltb b a ≡ true → bytes_ltb a b ≡ false
bytes_ltb_asym a b h = elim (Bool-cases (bytes_ltb a b)) [
  | inl back ↦ absurd (cc (bytes_ltb_trans a b a back h, bytes_ltb_irrefl a))
  | inr fine ↦ fine
]

-- The order of the listing: no later text is below an earlier one.
abbrev pub NotAbove : Bytes → Bytes → Type 0
NotAbove a b = bytes_ltb b a ≡ false

NotAbove-trans : (a b c : Bytes) → NotAbove a b → NotAbove b c → NotAbove a c
NotAbove-trans a b c h k = elim (Bool-cases (bytes_ltb c a)) [
  | inl bad ↦ elim (Bool-cases (b == a)) [
    | inl same ↦ absurd (cc (subst (λ x. bytes_ltb c x ≡ true) (sym ((==_iff b a).0 same)) bad))
    | inr other ↦ absurd (cc (bytes_ltb_trans c a b bad (bytes_ltb_total b a other h)))
  ]
  | inr fine ↦ fine
]

module _ {Db Bucket : Type 0} (bolt : Bolt Db Bucket) where
  -- The classes that are listed are those that some contract has, each once, in ascending order.
  pub get_all_classes_lem :
      (v : Bytes) (s : Store Db)
      → (In v (get_all_classes bolt s) ↔ In v (values (scan bolt s.db class_bucket)))
        × Distinct (get_all_classes bolt s)
        × Pairwise NotAbove (get_all_classes bolt s)
  unfolding get_all_classes sort_bytes
  get_all_classes_lem v s =
      let m = scan bolt s.db class_bucket in
      (
        (
          λ i. unique_values-In [] m v (sort-In bytes_ltb v (unique_values [] m) i),
          λ i. In-sort bytes_ltb v (unique_values [] m) (not_seen m (In-unique_values [] m v i)),
        ),
        sort-Distinct bytes_ltb (unique_values [] m) (unique_values-Distinct [] m),
        sort-Pairwise bytes_ltb NotAbove (λ a b h. bytes_ltb_asym a b h) (λ a b h. h) NotAbove-trans
            (unique_values [] m),
      )
    where
      not_seen : (m : Assoc Bytes) → In v [] ⊎ In v (unique_values [] m) → In v (unique_values [] m)
      not_seen m (inl i) = absurd i
      not_seen m (inr i) = i

  owners_loop-values : (m : Assoc Bytes) → owners_loop [] m ≡ values m
  unfolding owners_loop lookup
  owners_loop-values [] = refl
  owners_loop-values ((k, v) ∷ m) = ap (λ t. v ∷ t) (owners_loop-values m)

  -- The owners are listed once for each contract, an owner of several contracts several times.
  pub get_all_owners_lem :
      (s : Store Db) → get_all_owners bolt s ≡ values (scan bolt s.db owner_bucket)
  unfolding get_all_owners
  get_all_owners_lem s = owners_loop-values (scan bolt s.db owner_bucket)

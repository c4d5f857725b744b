-- ===== src/Store/Invoke/Search.antt =====
-- What the searches of db/bbolt.go among the invocations of a contract list.
use simple_gnomon.Prelude.{
  ◌≡◌, ◌↔◌, ◌⊎◌, refl, sym, ap, subst, ◌∙◌, Bool, true, false, Option, none, some, List, [], ◌∷◌,
  map, arith, In, inl, inr, Bool-cases,
}
use simple_gnomon.Prelude.Int.{ltb_ℤ}
use simple_gnomon.Prelude.Bytes.{Bytes, ◌==◌}
use simple_gnomon.Go.Json.{Codec}
use simple_gnomon.Go.Sort.{sort_stable, In-sort, sort-In, Pairwise, sort-Pairwise}
use simple_gnomon.Structs.{SctxParse}
use simple_gnomon.Bolt.{Bolt, scan}
use simple_gnomon.Store.{Store}
use simple_gnomon.Store.Invoke.{
  earlier, no_nil, keep_where, sorted_details, details_of, get_invoke_details_by_entrypoint,
}

module _ {Args Payload : Type 0} where
  -- Reading through the pointers: a nil among them, or all that they point to.
  no_nil_lem :
      (ps : List (Option (SctxParse Args Payload)))
      → (In none ps × (no_nil ps ≡ none))
        ⊎ ((l : List (SctxParse Args Payload)) × (no_nil ps ≡ some l) × (ps ≡ map some l))
  unfolding no_nil
  no_nil_lem [] = inr ([], refl, refl)
  no_nil_lem (none ∷ ps) = inl (inl refl, refl)
  no_nil_lem (some a ∷ ps) = elim (no_nil_lem ps) [
    | inl (nil, panicked) ↦ inl (inr nil, rw panicked refl)
    | inr (l, read, same) ↦ inr (a ∷ l, rw read refl, ap (λ q. some a ∷ q) same)
  ]

  In-map-some :
      (a : SctxParse Args Payload) (l : List (SctxParse Args Payload))
      → In (some a) (map some l) ↔ In a l
  In-map-some a [] = ((λ i. i), (λ i. i))
  In-map-some a (b ∷ l) =
      let (to, from) = In-map-some a l in
      (
        λ i. elim i [ inl e ↦ inl (cc (e)) | inr j ↦ inr (to j) ],
        λ i. elim i [ inl e ↦ inl (ap some e) | inr j ↦ inr (from j) ],
      )

  -- No invocation is at a greater height than one behind it.
  abbrev pub InOrder : List (SctxParse Args Payload) → Type 0
  InOrder l = Pairwise (λ a b. ltb_ℤ b.height a.height ≡ false) l

  sort-InOrder : (l : List (SctxParse Args Payload)) → InOrder (sort_stable earlier l)
  sort-InOrder l =
      sort-Pairwise earlier (λ a b. ltb_ℤ b.height a.height ≡ false) (λ a b h. ground arith)
        (λ a b h. h) (λ a b c h k. ground arith) l

  no_nil_in : (l : List (SctxParse Args Payload)) → In none (map some l) → ⊥
  no_nil_in [] i = i
  no_nil_in (a ∷ l) (inl e) = cc (e)
  no_nil_in (a ∷ l) (inr i) = no_nil_in l i

  module _ (test : SctxParse Args Payload → Bool) where
    In-keep_where :
        (a : SctxParse Args Payload) (l : List (SctxParse Args Payload))
        → In a (keep_where test l) ↔ (In a l × (test a ≡ true))
    unfolding keep_where
    In-keep_where a [] = ((λ i. elim i [ ]), (λ h. h.0))
    In-keep_where a (b ∷ l) =
        let (to, from) = In-keep_where a l in
        elim (Bool-cases (test b)) [
          | inl taken ↦ rw taken (
            λ i. elim i [ inl e ↦ (inl e, ap test e ∙ taken) | inr j ↦ (inr (to j).0, (to j).1) ],
            λ h. elim h.0 [ inl e ↦ inl e | inr j ↦ inr (from (j, h.1)) ],
          )
          | inr left ↦ rw left (
            λ i. (inr (to i).0, (to i).1),
            λ h. elim h.0 [ inl e ↦ absurd (cc (left, h.1, ap test e)) | inr j ↦ from (j, h.1) ],
          )
        ]

    abbrev Listed :
        List (Option (SctxParse Args Payload)) → Option (List (SctxParse Args Payload)) → Type 0
    Listed ps o =
        (In none ps × (o ≡ none))
        ⊎ ((l : List (SctxParse Args Payload)) × (o ≡ some l)
            × (In none ps → ⊥)
            × ((a : SctxParse Args Payload) → In a l ↔ (In (some a) ps × (test a ≡ true)))
            × InOrder l)

    sorted_details-Listed :
        (ps : List (Option (SctxParse Args Payload))) → Listed ps (sorted_details test ps)
    unfolding sorted_details
    sorted_details-Listed ps = elim (no_nil_lem ps) [
      | inl (nil, panicked) ↦ inl (nil, rw (sorted_details, panicked) refl)
      | inr (l, read, same) ↦ inr (
        sort_stable earlier (keep_where test l),
        rw (sorted_details, read) refl,
        λ i. no_nil_in l (subst (λ q. In none q) same i),
        λ a.
            let (to, from) = In-keep_where a l in
            let (plain, wrapped) = In-map-some a l in
            (
              λ i.
                  let (j, passes) = to (sort-In earlier a (keep_where test l) i) in
                  (subst (λ q. In (some a) q) (sym same) (wrapped j), passes),
              λ h.
                  In-sort earlier a (keep_where test l)
                    (from (plain (subst (λ q. In (some a) q) same h.0), h.1)),
            ),
        sort-InOrder (keep_where test l),
      )
    ]

module _ {Db Bucket Args Payload : Type 0} (bolt : Bolt Db Bucket)
    (json : Codec (Option (SctxParse Args Payload))) where
  -- The search by entrypoint panics exactly if a stored value of the contract does not decode; else it
  -- lists exactly the invocations that are stored for the contract with the entrypoint, in the order
  -- of their heights.
  pub get_invoke_details_by_entrypoint_lem :
      (scid entrypoint : Bytes) (s : Store Db)
      → let stored = details_of bolt json (scan bolt s.db scid) in
        let found = get_invoke_details_by_entrypoint bolt json scid entrypoint s in
        (In none stored × (found ≡ none))
        ⊎ ((l : List (SctxParse Args Payload)) × (found ≡ some l)
            × (In none stored → ⊥)
            × ((a : SctxParse Args Payload)
                → In a l ↔ (In (some a) stored × ((a.entrypoint == entrypoint) ≡ true)))
            × InOrder l)
  unfolding get_invoke_details_by_entrypoint ◌==◌
  get_invoke_details_by_entrypoint_lem scid entrypoint s =
      sorted_details-Listed (λ a. a.entrypoint == entrypoint)
        (details_of bolt json (scan bolt s.db scid))

-- ===== src/Store/Spec/Heights.antt =====
-- No interaction height of a contract is stored twice.
use simple_gnomon.Prelude.{
  ◌≡◌, refl, sym, subst, true, false, List, [], ◌∷◌, ◌++◌, All, In, In-append_or, arith, inl, inr,
  Bool-cases,
}
use simple_gnomon.Prelude.Int.{ℤ, eq_ℤ_iff}
use simple_gnomon.Prelude.Bytes.{Bytes, ◌==◌}
use simple_gnomon.Go.Json.{Codec, Exact}
use simple_gnomon.Go.Sort.{Distinct}
use simple_gnomon.Bolt.{Bolt, Laws}
use simple_gnomon.Store.{Store}
use simple_gnomon.Store.Owner.{get_owner}
use simple_gnomon.Store.Stats.{get_last_index_height, get_tx_count}
use simple_gnomon.Store.Daemon.{get_miniblock_count_by_address}
use simple_gnomon.Store.Interaction.{contains_height, get_scid_interaction_height}
use simple_gnomon.Store.Interaction.Heights.{with_height}
use simple_gnomon.Store.Spec.{
  Model, Command, owned, interacted, counted, indexed, mined, InRange, apply, apply_each, call_each,
  Refines,
}
use simple_gnomon.Store.Spec.Refinement.{call_each-Refines}

-- A height that is among others is found.
contains_height-In : (heights : List ℤ) (h : ℤ) → In h heights → contains_height heights h ≡ true
unfolding contains_height
contains_height-In [] h i = elim i [ ]
contains_height-In (x ∷ hs) h (inl e) = ground (arith, eq_ℤ_iff x h, sym e)
contains_height-In (x ∷ hs) h (inr i) = ground (arith, contains_height-In hs h i)

added-Distinct :
    (heights : List ℤ) (h : ℤ)
    → contains_height heights h ≡ false
    → Distinct heights
    → Distinct (heights ++ h ∷ [])
unfolding contains_height
added-Distinct [] h new d = ((λ i. elim i [ ]), tt)
added-Distinct (x ∷ hs) h new (apart, d) = (
  λ i. elim (In-append_or x hs (h ∷ []) i) [
    | inl old ↦ apart old
    | inr (inl e) ↦ ground (arith, eq_ℤ_iff x h, e)
    | inr (inr j) ↦ elim j [ ]
  ],
  added-Distinct hs h (ground arith) d,
)

with_height-Distinct :
    (heights : List ℤ) (h : ℤ) → Distinct heights → Distinct (with_height heights h)
with_height-Distinct heights h d = elim (Bool-cases (contains_height heights h)) [
  | inl old ↦ rw old d
  | inr new ↦ rw new (added-Distinct heights h new d)
]

-- The heights of every contract are distinct, in the maps.
abbrev DistinctHeights : Model → Type 0
DistinctHeights m = (scid : Bytes) → Distinct (m.heights scid)

apply-DistinctHeights : (c : Command) (m : Model) → DistinctHeights m → DistinctHeights (apply c m)
unfolding apply
apply-DistinctHeights (owned scid owner headers class tags height) m d k = d k
apply-DistinctHeights (interacted scid h) m d k = elim (Bool-cases (scid == k)) [
  | inl same ↦ rw same (with_height-Distinct (m.heights scid) h (d scid))
  | inr apart ↦ rw apart (d k)
]
apply-DistinctHeights (counted n tx_type) m d k = d k
apply-DistinctHeights (indexed h) m d k = d k
apply-DistinctHeights (mined n addr) m d k = d k

apply_each-DistinctHeights :
    (cs : List Command) (m : Model) → DistinctHeights m → DistinctHeights (apply_each cs m)
unfolding apply_each
apply_each-DistinctHeights [] m d = d
apply_each-DistinctHeights (c ∷ cs) m d =
    apply_each-DistinctHeights cs (apply c m) (apply-DistinctHeights c m d)

module _ {Db Bucket : Type 0} (bolt : Bolt Db Bucket) (heights_json : Codec (List ℤ))
    (count_json : Codec ℤ) where
  -- What a store answers.
  abbrev answers : Store Db → Model
  answers s = record {
    owner = λ scid. get_owner bolt scid s;
    heights = λ scid. get_scid_interaction_height bolt heights_json scid s;
    count = λ tx_type. get_tx_count bolt tx_type s;
    last = (get_last_index_height bolt s).0;
    mined = λ addr. get_miniblock_count_by_address bolt count_json addr s;
  }

  answers-Refines : (s : Store Db) → Refines bolt heights_json count_json s (answers s)
  unfolding get_last_index_height
  answers-Refines s = record {
    owners = λ k. refl;
    heights = λ k. refl;
    counts = λ k. refl;
    last = refl;
    mined = λ k. refl;
  }

  module _ (laws : Laws bolt) (exact_heights : Exact heights_json)
      (exact_count : Exact count_json) where
    -- No contract has an interaction height twice: this stays so under any calls of a client, failed
    -- ones included, with numbers that are int64 and codecs that read back what they write.
    pub call_each-Distinct :
        (cs : List Command) (s : Store Db)
        → All InRange cs
        → ((scid : Bytes) → Distinct (get_scid_interaction_height bolt heights_json scid s))
        → (scid : Bytes)
        → Distinct (
            get_scid_interaction_height bolt heights_json scid
              (call_each bolt heights_json count_json cs s).0)
    call_each-Distinct cs s range d scid =
        let (s', kept) = call_each bolt heights_json count_json cs s in
        let r =
          call_each-Refines bolt heights_json count_json laws exact_heights exact_count cs s
            (answers s) range (answers-Refines s) in
        subst (λ l. Distinct l) (sym (r.heights scid))
          (apply_each-DistinctHeights kept (answers s) d scid)

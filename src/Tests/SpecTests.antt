-- ===== src/Tests/SpecTests.antt =====
-- Calls of the store against its specification.
use simple_gnomon.Prelude.{refl, List, [], ◌∷◌, All, arith}
use simple_gnomon.Prelude.Int.{ℤ, pos}
use simple_gnomon.Prelude.Bytes.{Bytes, codes}
use simple_gnomon.Store.Owner.{get_owner}
use simple_gnomon.Store.Stats.{get_last_index_height, get_tx_count, stored_int}
use simple_gnomon.Store.Interaction.{get_scid_interaction_height, decoded_heights}
use simple_gnomon.Store.Daemon.{get_miniblock_count_by_address, read_json}
use simple_gnomon.Store.Spec.{
  Model, Command, owned, interacted, counted, indexed, mined, InRange, apply_each, call_each,
  Refines,
}
use simple_gnomon.Go.Sort.{Distinct}
use simple_gnomon.Store.Spec.Heights.{call_each-Distinct}
use simple_gnomon.Store.Spec.Refinement.{call_each-Refines}
use simple_gnomon.Tests.Samples.{bolt, bolt_laws, blank, runs, heights_json, heights_json-Exact}
use simple_gnomon.Tests.Codecs.{count_json, count_json-Exact}

abbrev calls : List Command
calls =
    owned (codes "aa") (codes "ann") (codes "h") (codes "tela") (codes "all") (codes "12")
    ∷ interacted (codes "aa") (pos 12)
    ∷ counted (pos 3) (codes "burn")
    ∷ indexed (pos 13)
    ∷ mined (pos 2) (codes "bob")
    ∷ []

calls-InRange : All InRange calls
calls-InRange = (tt, (tt, (omega arith, (omega arith, (tt, tt)))))

-- The maps of an empty store.
abbrev clear : Model
clear = record {
  owner = λ k. [];
  heights = λ k. [];
  count = λ k. pos 0;
  last = pos 0;
  mined = λ k. pos 0;
}

blank-Refines : Refines bolt heights_json count_json blank clear
unfolding get_owner get_scid_interaction_height decoded_heights get_tx_count get_last_index_height
    get_miniblock_count_by_address read_json stored_int runs
blank-Refines = record {
  owners = λ k. refl;
  heights = λ k. refl;
  counts = λ k. refl;
  last = refl;
  mined = λ k. refl;
}

call_each-Refines_example :
    let (s', kept) = call_each bolt heights_json count_json calls blank in
    Refines bolt heights_json count_json s' (apply_each kept clear)
call_each-Refines_example =
    call_each-Refines bolt heights_json count_json bolt_laws heights_json-Exact count_json-Exact
      calls blank clear calls-InRange blank-Refines

abbrev noted : List ℤ
noted =
    get_scid_interaction_height bolt heights_json (codes "aa")
      (call_each bolt heights_json count_json calls blank).0

blank-Distinct :
    (scid : Bytes) → Distinct (get_scid_interaction_height bolt heights_json scid blank)
unfolding get_scid_interaction_height decoded_heights runs
blank-Distinct scid = tt

call_each-Distinct_example : Distinct noted
call_each-Distinct_example =
    call_each-Distinct bolt heights_json count_json bolt_laws heights_json-Exact count_json-Exact
      calls blank calls-InRange blank-Distinct (codes "aa")

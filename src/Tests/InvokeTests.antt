-- ===== src/Tests/InvokeTests.antt =====
-- The search among the invocations of a contract.
use simple_gnomon.Prelude.{
  ℕ, ◌≡◌, ◌⊎◌, ◌↔◌, In, refl, true, Option, none, some, List, [], ◌∷◌, length,
}
use simple_gnomon.Prelude.Int.{pos}
use simple_gnomon.Prelude.Bytes.{codes, ◌==◌}
use simple_gnomon.Go.Json.{Codec}
use simple_gnomon.Structs.{SctxParse}
use simple_gnomon.Bolt.{ok, scan}
use simple_gnomon.Bolt.Memory.{Db}
use simple_gnomon.Store.{Store, write_entry}
use simple_gnomon.Store.Invoke.{details_of, get_invoke_details_by_entrypoint}
use simple_gnomon.Store.Invoke.Search.{InOrder, get_invoke_details_by_entrypoint_lem}
use simple_gnomon.Tests.Samples.{bolt, blank, runs}

-- Two invocations of a contract with the same entrypoint, the one of the greater height stored first.
abbrev call_at : ℕ → SctxParse ℕ ℕ
call_at n = record {
  txid = codes "t";
  scid = codes "aa";
  entrypoint = codes "Buy";
  method = codes "invoke";
  sc_args = 0;
  sender = codes "bob";
  payloads = [];
  fees = 0;
  height = pos n;
}

abbrev calls_json : Codec (Option (SctxParse ℕ ℕ))
calls_json = record { marshal = λ p. ok []; decode = λ t. some (call_at (length t)) }

abbrev called : Store Db
called =
    (write_entry bolt (codes "aa") (codes "k2") (codes "x")
      (write_entry bolt (codes "aa") (codes "k1") (codes "xyz") blank).0).0

both_found :
    get_invoke_details_by_entrypoint bolt calls_json (codes "aa") (codes "Buy") called
    ≡ some (call_at 1 ∷ call_at 3 ∷ [])
unfolding get_invoke_details_by_entrypoint runs
both_found = refl

get_invoke_details_by_entrypoint_example :
    let stored = details_of bolt calls_json (scan bolt called.db (codes "aa")) in
    let found =
      get_invoke_details_by_entrypoint bolt calls_json (codes "aa") (codes "Buy") called in
    (In none stored × (found ≡ none))
    ⊎ ((l : List (SctxParse ℕ ℕ)) × (found ≡ some l)
        × (In none stored → ⊥)
        × ((a : SctxParse ℕ ℕ)
            → In a l ↔ (In (some a) stored × ((a.entrypoint == codes "Buy") ≡ true)))
        × InOrder l)
get_invoke_details_by_entrypoint_example =
    get_invoke_details_by_entrypoint_lem bolt calls_json (codes "aa") (codes "Buy") called

-- ===== src/Tests/VariablesTests.antt =====
-- The variables of a contract, the searches in them, and `AddSCIDToIndex`.
use simple_gnomon.Prelude.{ℕ, ◌≡◌, ◌↔◌, In, refl, Option, none, some, List, [], ◌∷◌, arith}
use simple_gnomon.Prelude.Int.{ℤ, pos}
use simple_gnomon.Prelude.Bytes.{Bytes, codes}
use simple_gnomon.Go.Json.{Codec}
use simple_gnomon.Structs.{uint, text, ScidVariable, SctxParse, IndexStage}
use simple_gnomon.Bolt.{ok}
use simple_gnomon.Bolt.Memory.{Db}
use simple_gnomon.Store.{Store}
use simple_gnomon.Store.Owner.{get_owner, put_each, store_owner}
use simple_gnomon.Store.Variables.{
  Vars, string, get_var, get_snapshot, key_of, value_of, scalar_eq, merge_heights,
  variables_at_topoheight, all_variables, read_snapshots, store_scid_variable_details,
}
use simple_gnomon.Store.Daemon.{write_json}
use simple_gnomon.Store.Variables.Merge.{get_var-merge_heights}
use simple_gnomon.Store.Variables.Listed.{Visits, variables_at_top}
use simple_gnomon.Store.Interaction.{store_scid_interaction_height}
use simple_gnomon.Store.Queries.{get_scid_keys_by_value}
use simple_gnomon.Store.Indexing.{Added, done, add_scid_to_index}
use simple_gnomon.Store.Indexing.Install.{
  IsReleased, add_scid_to_index-IsReleased, install_stores_owner,
}
use simple_gnomon.Tests.Samples.{bolt, bolt_laws, blank, runs, heights_json}

-- Numbers stand for floating point numbers, and every text decodes to one variable.
abbrev same : ℕ → ℕ
same n = n

abbrev label : ScidVariable ℕ
label = record { key = text (codes "name"); value = text (codes "dero") }

abbrev supply : ScidVariable ℕ
supply = record { key = text (codes "supply"); value = uint 21 }

abbrev vars_json : Codec (List (ScidVariable ℕ))
vars_json = record { marshal = λ vars. ok (codes "v"); decode = λ t. label ∷ supply ∷ [] }

abbrev results : List (ℤ × List (ScidVariable ℕ))
results = (pos 7, supply ∷ []) ∷ (pos 9, label ∷ supply ∷ []) ∷ []

get_var-merge_heights_example :
    get_var (string (codes "name")) (merge_heights same results [] (pos 7 ∷ pos 9 ∷ []))
    ≡ some (some (string (codes "dero")))
unfolding get_var get_snapshot key_of value_of scalar_eq runs
get_var-merge_heights_example =
    get_var-merge_heights same (string (codes "name")) results [] (pos 7 ∷ pos 9 ∷ [])

abbrev as_is : Vars → Vars
as_is m = m

abbrev stored : Store Db
stored = (store_scid_variable_details bolt vars_json (codes "aa") (label ∷ []) (pos 7) blank).0

-- A visit in the order of the map, which is one of those that Go may take.
as_is-Visits : Visits as_is
as_is-Visits m e = ((λ i. i), (λ i. i))

variables_at_top_example :
    In supply (variables_at_topoheight bolt same vars_json as_is (codes "aa") (pos 8) stored)
    ↔ In supply (all_variables bolt same vars_json as_is (codes "aa") stored)
unfolding read_snapshots store_scid_variable_details write_json runs
variables_at_top_example =
    variables_at_top bolt same vars_json as_is as_is (codes "aa") (pos 8) stored supply as_is-Visits
      as_is-Visits (omega arith, tt)

-- The contract has an interaction at the height of its variables.
abbrev interacted : Store Db
interacted = (store_scid_interaction_height bolt heights_json (codes "aa") (pos 7) stored).0

supply_found :
    get_scid_keys_by_value bolt same vars_json heights_json as_is
      (codes "aa")
      (uint 21)
      (pos 8)
      interacted
    ≡ some (codes "supply" ∷ [], [])
unfolding get_scid_keys_by_value read_snapshots store_scid_variable_details write_json
    store_scid_interaction_height runs
supply_found = refl

abbrev install : IndexStage Unit Unit ℕ
install = record {
  parse = record {
    txid = codes "t";
    scid = codes "aa";
    entrypoint = [];
    method = codes "install";
    sc_args = tt;
    sender = codes "ann";
    payloads = [];
    fees = 0;
    height = pos 7;
  };
  headers = codes "h";
  sc_vars = label ∷ [];
  sc_code = [];
  class = codes "tela";
  tags = codes "all";
}

abbrev invoke_json : Codec (Option (SctxParse Unit Unit))
invoke_json = record { marshal = λ p. ok (codes "p"); decode = λ t. none }

add_scid_to_index_example :
    IsReleased (add_scid_to_index bolt vars_json invoke_json heights_json install blank)
add_scid_to_index_example =
    add_scid_to_index-IsReleased bolt vars_json invoke_json heights_json install blank

abbrev store_of : Added Db → Store Db
store_of (done s e) = s
store_of _ = blank

abbrev installed : Store Db
installed = store_of (add_scid_to_index bolt vars_json invoke_json heights_json install blank)

install_returns :
    add_scid_to_index bolt vars_json invoke_json heights_json install blank ≡ done installed none
unfolding add_scid_to_index store_scid_variable_details write_json store_owner put_each runs
install_returns = refl

install_stores_owner_example : get_owner bolt (codes "aa") installed ≡ codes "ann"
install_stores_owner_example =
    install_stores_owner bolt vars_json invoke_json heights_json bolt_laws install blank installed
      refl install_returns

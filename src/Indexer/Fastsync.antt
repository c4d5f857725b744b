-- ===== src/Indexer/Fastsync.antt =====
-- `fastsync_handling` of pkg/handling_fastsync.go: the contract of Gnomon is validated and stored, and
-- the contracts that it lists are put into the queue.
pub mod Importables
use simple_gnomon.Prelude.{
  ℕ, Bool, true, false, ◌||◌, Option, none, some, List, [], ◌∷◌, ◌++◌, length, nat_beq,
  if◌then◌else◌,
}
use simple_gnomon.Prelude.Int.{ℤ, negsuc, ltb_ℤ}
use simple_gnomon.Prelude.Bytes.{Bytes, codes, ◌==◌}
use simple_gnomon.Prelude.Assoc.{Assoc, lookup}
use simple_gnomon.Globals.{nameservice, gnomon_scid}
use simple_gnomon.Go.Json.{Codec}
use simple_gnomon.Structs.{Any, nil, float, SctxParse, ScidVariable, IndexStage}
use simple_gnomon.Bolt.{Bolt, Res, ok, err}
use simple_gnomon.Bolt.Update.{Error}
use simple_gnomon.Store.{Store}
use simple_gnomon.Store.Indexing.{Added, done, panics, waits, add_scid_to_index}
use simple_gnomon.Indexer.Variables.{get_sc_variables}
use simple_gnomon.Indexer.Headers.{vars_header, as_string}
use simple_gnomon.Indexer.Scids.Contract.{GetScParams, ScResult, Outside}

pub record Importable : Type 0 where
  pub hash : Bytes
  pub height : ℤ

-- How the synchronisation is prepared: with the store and what it is to import, with an error, in a
-- panic, or in the wait of `AddSCIDToIndex`.
pub data Prepared (Db : Type 0) : Type 0 where
  prepared : Store Db → List Importable → Prepared Db
  -- `GetSC`, a signature that is no string or no hex, and `ValidateSCSignature`
  not_read no_signature no_hex not_validated : Prepared Db
  not_added : Error → Prepared Db
  panicked blocked : Prepared Db

abbrev pub gnomon_params : GetScParams
gnomon_params = record { scid = gnomon_scid; code = true; variables = true; topo_height = negsuc 0 }

-- A value of the map, nil for a missing key.
abbrev pub value_under : {Float : Type 0} → Bytes → Assoc (Any Float) → Any Float
value_under key m = elim (lookup key m) [ none ↦ nil | some v ↦ v ]

module _ {Float : Type 0} (to_int : Float → ℤ) where
  -- `kv[k+"height"].(float64)`, whose failure panics.
  unfoldable pub height_at : Bytes → Assoc (Any Float) → Option ℤ
  unfolding lookup
  height_at k kv = elim (value_under (k ++ codes "height") kv) [
    | float f ↦ some (to_int f)
    | _ ↦ none
  ]

  -- The loop over the keys; `none` is the panic.
  unfoldable pub importables_of :
      ℤ → Assoc (Any Float) → Assoc (Any Float) → Option (List Importable)
  unfolding height_at
  importables_of lowest_height kv [] = some []
  importables_of lowest_height kv ((k, v) ∷ m) =
      let rest = importables_of lowest_height kv m in
      elim (nat_beq (length k) 64) [
        | false ↦ rest
        | true ↦ elim (height_at k kv) [
          | none ↦ none
          | some height ↦ elim rest [
            | none ↦ none
            | some more ↦
                if ltb_ℤ height lowest_height
                then some more
                else some (record { hash = k; height = height } ∷ more)
          ]
        ]
      ]

  module _ {Db Bucket Args Payload : Type 0} (bolt : Bolt Db Bucket)
      (vars_json : Codec (List (ScidVariable Float)))
      (invoke_json : Codec (Option (SctxParse Args Payload))) (heights_json : Codec (List ℤ))
      (no_args : Args) (outside : Outside Float) where
    -- The stage of Gnomon's own contract.
    unfoldable pub gnomon_stage : Bytes → ScResult Float → IndexStage Args Payload Float
    unfolding vars_header get_sc_variables
    gnomon_stage signer sc = record {
      parse = record {
        txid = [];
        scid = gnomon_scid;
        entrypoint = [];
        method = [];
        sc_args = no_args;
        sender = signer;
        payloads = [];
        fees = 0;
        height = negsuc 0;
      };
      headers = vars_header outside.crypto outside.parse_url sc.string_keys;
      sc_vars = get_sc_variables outside.crypto sc.string_keys sc.uint64_keys;
      sc_code = sc.code;
      class = codes "GNOMONSC";
      tags = codes "all";
    }

    -- `arrange` is the order that `sort.Slice` leaves by height.
    unfoldable pub import_after :
        (List Importable → List Importable) → ℤ → ScResult Float → Added Db → Prepared Db
    unfolding importables_of
    import_after arrange lowest_height sc panics = panicked
    import_after arrange lowest_height sc waits = blocked
    import_after arrange lowest_height sc (done s (some e)) = not_added e
    import_after arrange lowest_height sc (done s none) =
        elim (importables_of lowest_height sc.string_keys sc.string_keys) [
          | none ↦ panicked
          | some importables ↦ prepared s (arrange importables)
        ]

    -- `validate` is `ValidateSCSignature`: whether the code is validated, and its signer.
    unfoldable pub prepare_fastsync :
        (Bytes → Bytes → Res (Bool × Bytes))
        → (List Importable → List Importable)
        → ℤ
        → Store Db
        → Prepared Db
    unfolding gnomon_stage import_after add_scid_to_index lookup
    prepare_fastsync validate arrange lowest_height s =
        let (sc, e) = outside.get_sc gnomon_params in
        elim e [
          | some c ↦ not_read
          | none ↦ elim (as_string (value_under (codes "signature") sc.string_keys)) [
            | none ↦ no_signature
            | some signature ↦
                let (sig, fine) = outside.crypto.decode_hex signature in
                elim fine [
                  | false ↦ no_hex
                  | true ↦ elim (validate sc.code sig) [
                    | err c ↦ not_validated
                    | ok (false, signer) ↦ not_validated
                    | ok (true, signer) ↦ import_after arrange lowest_height sc (
                        add_scid_to_index bolt vars_json invoke_json heights_json
                          (gnomon_stage signer sc) s)
                  ]
                ]
          ]
        ]

-- The transaction whose version is not valid.
abbrev pub invalid_tx : Bytes
invalid_tx = codes "a7ef2d109900158bcd84794cd70de64b9e08e9268345e6b64270561a2f1985fb"

-- How a task ends: with a stage in the queue, without one, or in `log.Fatal` or a panic.
pub data Task (Tx Info : Type 0) : Type 0 where
  queued : ℤ → Info → Tx → Task Tx Info
  skipped fatal : Task Tx Info

-- What the daemon answers on a transaction: the texts of `Txs_as_hex`, and `Txs`.
pub record TxResult (Info : Type 0) : Type 0 where
  pub txs_as_hex : List Bytes
  pub txs : List Info

module _ {Tx Info : Type 0} (get_transaction : Bytes → TxResult Info) (hex : Bytes → Option Bytes)
    (deserialize : Bytes → Tx) (version : Tx → ℕ) (block_height : Info → ℤ) where
  abbrev first_info : List Info → Option Info
  first_info [] = none
  first_info (i ∷ is) = some i

  unfoldable pub queue_import : ℤ → Importable → TxResult Info → Tx → Task Tx Info
  queue_import starting_height important tx transact =
      elim (ltb_ℤ important.height starting_height) [
        | true ↦ skipped
        | false ↦ elim (first_info tx.txs) [
          | none ↦ fatal
          | some info ↦ queued (block_height info) info transact
        ]
      ]

  -- A transaction of another version than 1 ends the program.
  unfoldable pub decode_import : ℤ → Importable → TxResult Info → List Bytes → Task Tx Info
  unfolding queue_import
  decode_import starting_height important tx [] = fatal
  decode_import starting_height important tx (blob ∷ blobs) = elim (hex blob) [
    | none ↦ fatal
    | some b ↦ elim (nat_beq (version (deserialize b)) 1) [
      | true ↦ queue_import starting_height important tx (deserialize b)
      | false ↦ fatal
    ]
  ]

  unfoldable pub import_task : ℤ → Importable → Task Tx Info
  unfolding decode_import ◌==◌
  import_task starting_height important =
      elim (important.hash == invalid_tx || important.hash == nameservice) [
        | true ↦ skipped
        | false ↦
            let tx = get_transaction important.hash in
            decode_import starting_height important tx tx.txs_as_hex
      ]

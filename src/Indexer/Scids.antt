-- ===== src/Indexer/Scids.antt =====
-- `work_on_scids` of pkg/handling_scids.go: a transaction that carries data for a contract becomes a
-- stage of the index.
pub mod Contract
pub mod Queue
pub mod Written
use simple_gnomon.Prelude.{
  ℕ, Bool, true, false, not, ◌&&◌, ◌||◌, Option, none, some, List, [], ◌∷◌, ◌++◌, nat_beq, is_some,
  if◌then◌else◌,
}
use simple_gnomon.Prelude.Int.{ℤ, negsuc}
use simple_gnomon.Prelude.Bytes.{Bytes, codes, ◌==◌}
use simple_gnomon.Prelude.Assoc.{Assoc}
use simple_gnomon.Go.Json.{Codec}
use simple_gnomon.Go.Strings.{contains, slice_contains}
use simple_gnomon.Structs.{Any, SearchFilter, ScidVariable, IndexStage}
use simple_gnomon.Bolt.{Bolt}
use simple_gnomon.Store.{Store}
use simple_gnomon.Store.Daemon.{store_invalid_scid_deploys}
use simple_gnomon.Indexer.Classify.{classify}
use simple_gnomon.Indexer.Headers.{
  Metadata, vars_header, header_from_metadata, null_text, header_text,
}
use simple_gnomon.Indexer.Variables.{Crypto, get_sc_variables}
use simple_gnomon.Indexer.Scids.Contract.{
  ScTx, Target, target_of, GetScParams, ScResult, Settings, Outside, params_of, no_vars, headers_of,
}

-- The store, `scid_db_queue`, and what is sent to `error_channel`.
pub record Work (Db Args Payload Float : Type 0) : Type 0 where
  pub store : Store Db
  pub scid_db_queue : List (IndexStage Args Payload Float)
  pub errors : List ℕ

-- Of a contract that is excluded nothing is read.
abbrev pub nothing : {Float : Type 0} → ScResult Float
nothing = record { string_keys = []; uint64_keys = []; code = [] }

module _ {Db Bucket Args Payload Float : Type 0} (bolt : Bolt Db Bucket)
    (fees_json : Codec (Assoc ℕ)) (outside : Outside Float) (settings : Settings) where
  -- `connections.GetSC` with its error: the state, and the result unless the function returns.
  unfoldable pub get_contract :
      ℤ
      → Target
      → ScTx Args Payload
      → Work Db Args Payload Float
      → Work Db Args Payload Float × Option (ScResult Float)
  unfolding params_of store_invalid_scid_deploys
  get_contract height target tx w =
      let params = params_of settings height target in
      let (sc, e) = outside.get_sc params in
      elim e [
        | none ↦ (w, some sc)
        | some c ↦
            let r = store_invalid_scid_deploys bolt fees_json params.scid tx.fees w.store in
            let stored : Work Db Args Payload Float =
              if params.code then record w { store = r.0 } else w in
            let failed = params.code && is_some r.2 in
            if failed || no_vars sc.string_keys
            then (stored, none)
            else (record stored { errors = w.errors ++ c ∷ [] }, some sc)
      ]

  -- The contract with its code is classified, and its stage is put into the queue.
  unfoldable pub stage_scid :
      ℤ
      → Bytes
      → Target
      → ScTx Args Payload
      → ScResult Float
      → List (ScidVariable Float)
      → Work Db Args Payload Float
      → Work Db Args Payload Float
  unfolding classify headers_of ◌==◌
  stage_scid height signer (scid, method, entrypoint) tx sc vars w =
      elim (classify settings.search_filter settings.indices scid sc.code) [
        | none ↦ w
        | some (class, tags) ↦
            let staged : IndexStage Args Payload Float = record {
              parse = record {
                txid = tx.hash;
                scid = scid;
                entrypoint = entrypoint;
                method = method;
                sc_args = tx.scdata;
                sender = if signer == [] then codes "null" else signer;
                payloads = tx.payloads;
                fees = tx.fees;
                height = height;
              };
              headers = headers_of outside sc.code sc.string_keys;
              sc_vars = vars;
              sc_code = sc.code;
              class = class;
              tags = tags;
            } in
            record w { scid_db_queue = w.scid_db_queue ++ staged ∷ [] }
      ]

  unfoldable pub work_on_target :
      ℤ
      → Bytes
      → Target
      → ScTx Args Payload
      → Work Db Args Payload Float
      → Work Db Args Payload Float
  unfolding get_contract stage_scid get_sc_variables slice_contains
  work_on_target height signer target tx w = elim (slice_contains w.store.exclusions target.0) [
    | true ↦ stage_scid height signer target tx nothing [] w
    | false ↦
        let (w', answer) = get_contract height target tx w in
        elim answer [
          | none ↦ w'
          | some sc ↦
              stage_scid height signer target tx sc
                (get_sc_variables outside.crypto sc.string_keys sc.uint64_keys) w'
        ]
  ]

  unfoldable pub work_on_scids :
      ℤ → Bytes → ScTx Args Payload → Work Db Args Payload Float → Work Db Args Payload Float
  unfolding target_of work_on_target
  work_on_scids height signer tx w = elim (nat_beq tx.size 0) [
    | true ↦ w
    | false ↦ elim (target_of tx) [
      | none ↦ w
      | some target ↦ work_on_target height signer target tx w
    ]
  ]

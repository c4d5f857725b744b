-- ===== src/Indexer/ScidWriter.antt =====
-- The writer of contracts in pkg/db_writer.go: `work` of `scid_db_writer`, and `storeHeight`.
use simple_gnomon.Prelude.{true, false, Option, none, some, List, [], ◌∷◌, ◌++◌, if◌then◌else◌}
use simple_gnomon.Prelude.Int.{ℤ, pos, ltb_ℤ}
use simple_gnomon.Prelude.Bytes.{codes, ◌==◌}
use simple_gnomon.Go.Json.{Codec}
use simple_gnomon.Structs.{SctxParse, ScidVariable, IndexStage}
use simple_gnomon.Bolt.{Bolt}
use simple_gnomon.Bolt.Update.{Error}
use simple_gnomon.Store.{Store, Result}
use simple_gnomon.Store.Stats.{store_last_index_height, store_tx_count}
use simple_gnomon.Store.Indexing.{Added, done, panics, waits, add_scid_to_index}

-- `if ok, err := ...; !ok && err != nil { return err }`
unfoldable pub reported : {Db : Type 0} → Result Db → Option Error
reported (s, true, e) = none
reported (s, false, e) = e

-- The counters of the `holding_queue`, which it loads.
pub record Loaded : Type 0 where
  pub registration : ℤ
  pub burn : ℤ
  pub normal : ℤ

-- How a round ends: with the store, with `log.Fatal` or a panic, or in the wait of `AddSCIDToIndex`.
pub data Round (Db : Type 0) : Type 0 where
  wrote : Store Db → Round Db
  fatal blocked : Round Db

module _ {Db Bucket Args Payload Float : Type 0} (bolt : Bolt Db Bucket)
    (vars_json : Codec (List (ScidVariable Float)))
    (invoke_json : Codec (Option (SctxParse Args Payload))) (heights_json : Codec (List ℤ)) where
  unfoldable pub store_height : ℤ → Store Db → Store Db × Option Error
  unfolding store_last_index_height reported
  store_height height s = let r = store_last_index_height bolt height s in (r.0, reported r)

  -- The counts and the height; no error of these stores is looked at.
  unfoldable pub store_stats : Loaded → ℤ → Store Db → Store Db
  unfolding store_tx_count store_height
  store_stats n height s =
      let s1 = (store_tx_count bolt n.registration (codes "registration") s).0 in
      let s2 = (store_tx_count bolt n.burn (codes "burn") s1).0 in
      let s3 = (store_tx_count bolt n.normal (codes "normal") s2).0 in (store_height height s3).0

  unfoldable pub finish_round : Loaded → ℤ → Added Db → Round Db
  unfolding store_stats
  finish_round n height (done s none) = wrote (store_stats n height s)
  finish_round n height (done s (some e)) = fatal
  finish_round n height panics = fatal
  finish_round n height waits = blocked

  -- `work` on the database. The goroutine that it starts near the top does the same, less the counts,
  -- on the backup.
  unfoldable pub write_scid : Loaded → IndexStage Args Payload Float → Store Db → Round Db
  unfolding finish_round add_scid_to_index
  write_scid n staged s =
      finish_round n staged.parse.height
        (add_scid_to_index bolt vars_json invoke_json heights_json staged s)

  unfoldable pub finish_backup : ℤ → Added Db → Round Db
  unfolding store_height
  finish_backup height (done s none) = wrote (store_height height s).0
  finish_backup height (done s (some e)) = fatal
  finish_backup height panics = fatal
  finish_backup height waits = blocked

  -- The goroutine, which is started once the indexer has reached the top.
  unfoldable pub backup_scid : ℤ → IndexStage Args Payload Float → Store Db → Round Db
  unfolding finish_backup add_scid_to_index
  backup_scid achieved_current_height staged backup =
      if ltb_ℤ (pos 0) achieved_current_height
      then finish_backup staged.parse.height
          (add_scid_to_index bolt vars_json invoke_json heights_json staged backup)
      else wrote backup

-- What the round sends to `staged_for_writing`.
unfoldable pub stage_install :
    {Args Payload Float : Type 0}
    → IndexStage Args Payload Float
    → List (IndexStage Args Payload Float)
    → List (IndexStage Args Payload Float)
unfolding ◌==◌
stage_install staged queue =
    if staged.parse.method == codes "install" then queue ++ staged ∷ [] else queue

-- ===== src/Store/Daemon/Info.antt =====
-- The last `getinfo` of the daemon in db/bbolt.go reads back.
use simple_gnomon.Prelude.{◌≡◌, ◌∙◌, Option, none, some, List, []}
use simple_gnomon.Prelude.Bytes.{Bytes, ◌==◌}
use simple_gnomon.Go.Json.{Codec, ReadsBack}
use simple_gnomon.Structs.{MblInfo}
use simple_gnomon.Bolt.{Bolt, Laws}
use simple_gnomon.Store.{Store}
use simple_gnomon.Store.Daemon.{
  getinfo_bucket, mini_bucket, store_get_info_details, get_get_info_details,
  get_miniblock_details_by_hash,
}
use simple_gnomon.Store.Daemon.Miniblocks.{write_json-Sets, read_json-Sets}

module _ {Db Bucket Info : Type 0} (bolt : Bolt Db Bucket) (laws : Laws bolt)
    (json : Codec (Option Info)) (minis : Codec (List MblInfo)) where
  -- After a `getinfo` is stored without an error, with a codec that reads back what it writes, it
  -- is the one that reads back, whatever was stored before, and the miniblocks of no block change.
  store_get_info_done :
      (info : Info) (blid : Bytes) (s : Store Db)
      → ReadsBack json (some info)
      → (store_get_info_details bolt json info s).2 ≡ none
      → let s' = (store_get_info_details bolt json info s).0 in
        (get_get_info_details bolt json s' ≡ some info)
        × (get_miniblock_details_by_hash bolt minis blid s'
            ≡ get_miniblock_details_by_hash bolt minis blid s)
  unfolding ◌==◌ store_get_info_details get_get_info_details get_miniblock_details_by_hash
  store_get_info_done info blid s exact fine =
      let s' = (store_get_info_details bolt json info s).0 in
      let (text, sets, coded) =
        write_json-Sets bolt laws json getinfo_bucket getinfo_bucket (some info) s exact fine in
      (
        read_json-Sets bolt laws json none s s' getinfo_bucket getinfo_bucket text getinfo_bucket
              getinfo_bucket sets
            ∙ coded,
        read_json-Sets bolt laws minis [] s s' getinfo_bucket getinfo_bucket text mini_bucket blid
            sets,
      )

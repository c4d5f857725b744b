-- ===== src/Store/Daemon.antt =====
-- What db/bbolt.go keeps of the daemon's answers: the last `getinfo`, the contracts that failed to
-- install, and the miniblocks with their finders.
pub mod Miniblocks
pub mod Info
use simple_gnomon.Prelude.{ℕ, Bool, true, false, Option, none, some, List, [], ◌∷◌, ◌++◌, map}
use simple_gnomon.Prelude.Int.{ℤ, pos}
use simple_gnomon.Prelude.Bytes.{Bytes, codes}
use simple_gnomon.Prelude.Assoc.{Assoc, insert}
use simple_gnomon.Prelude.Keys.{collect}
use simple_gnomon.Go.Json.{Codec}
use simple_gnomon.Structs.{MblInfo}
use simple_gnomon.Bolt.{Bolt, ok, err, read, scan}
use simple_gnomon.Bolt.Update.{Outcome, update, put_entry, in_bucket, marshal}
use simple_gnomon.Store.{Store, Result, with_db, write_entry}

abbrev pub getinfo_bucket : Bytes
getinfo_bucket = codes "getinfo"

abbrev pub invalid_bucket : Bytes
invalid_bucket = codes "invalidscids"

abbrev pub invalid_key : Bytes
invalid_key = codes "invalid"

abbrev pub mini_bucket : Bytes
mini_bucket = codes "miniblocks"

abbrev pub count_bucket : Bytes
count_bucket = codes "blockcount"

module _ {Db Bucket : Type 0} (bolt : Bolt Db Bucket) where
  -- The writers that marshal a value before their transaction.
  unfoldable pub write_json : {A : Type 0} → Codec A → Bytes → Bytes → A → Store Db → Result Db
  write_json json name key a s = elim (json.marshal a) [
    | ok text ↦ write_entry bolt name key text s
    | err c ↦ (s, false, some (marshal c))
  ]

  -- The readers that start from a zero value, `zero_value`, and decode what is there.
  unfoldable pub read_json : {A : Type 0} → Codec A → A → Bytes → Bytes → Store Db → A
  read_json json zero_value name key s = elim (read bolt s.db name key) [
    | none ↦ zero_value
    | some text ↦ json.decode text
  ]

  -- The information is a type of derohe; `none` is the nil pointer.
  unfoldable pub store_get_info_details :
      {Info : Type 0} → Codec (Option Info) → Info → Store Db → Result Db
  unfolding write_json
  store_get_info_details json info s = write_json json getinfo_bucket getinfo_bucket (some info) s

  unfoldable pub get_get_info_details :
      {Info : Type 0} → Codec (Option Info) → Store Db → Option Info
  unfolding read_json
  get_get_info_details json s = read_json json none getinfo_bucket getinfo_bucket s

  unfoldable pub put_invalid : Codec (Assoc ℕ) → Assoc ℕ → Db → Outcome Db
  put_invalid json fees d = elim (json.marshal fees) [
    | ok text ↦ put_entry bolt invalid_bucket invalid_key text d
    | err c ↦ (d, false, some (marshal c))
  ]

  unfoldable pub fees_of : Codec (Assoc ℕ) → Option Bytes → Assoc ℕ
  fees_of json none = []
  fees_of json (some text) = json.decode text

  unfoldable pub store_invalid_scid_deploys : Codec (Assoc ℕ) → Bytes → ℕ → Store Db → Result Db
  unfolding put_invalid fees_of in_bucket with_db
  store_invalid_scid_deploys json scid fee s =
      let current = fees_of json (read bolt s.db invalid_bucket invalid_key) in
      with_db s (
        update bolt (in_bucket bolt invalid_bucket (put_invalid json (insert scid fee current)))
          s.db)

  unfoldable pub get_invalid_scid_deploys : Codec (Assoc ℕ) → Store Db → Assoc ℕ
  unfolding fees_of
  get_invalid_scid_deploys json s = fees_of json (read bolt s.db invalid_bucket invalid_key)

  unfoldable pub store_miniblock_details_by_hash :
      Codec (List MblInfo) → Bytes → List MblInfo → Store Db → Result Db
  unfolding write_json
  store_miniblock_details_by_hash json blid minis s = write_json json mini_bucket blid minis s

  unfoldable pub get_all_miniblock_details : Codec (List MblInfo) → Store Db → Assoc (List MblInfo)
  get_all_miniblock_details json s =
      collect [] (map (λ e. (e.0, json.decode e.1)) (scan bolt s.db mini_bucket))

  unfoldable pub get_miniblock_details_by_hash :
      Codec (List MblInfo) → Bytes → Store Db → List MblInfo
  unfolding read_json
  get_miniblock_details_by_hash json blid s = read_json json [] mini_bucket blid s

  unfoldable pub store_miniblock_count_by_address : Codec ℤ → ℤ → Bytes → Store Db → Result Db
  unfolding write_json
  store_miniblock_count_by_address json count addr s = write_json json count_bucket addr count s

  unfoldable pub get_miniblock_count_by_address : Codec ℤ → Bytes → Store Db → ℤ
  unfolding read_json
  get_miniblock_count_by_address json addr s = read_json json (pos 0) count_bucket addr s

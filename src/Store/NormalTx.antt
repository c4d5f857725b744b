-- ===== src/Store/NormalTx.antt =====
-- Transfers of tokens in db/bbolt.go: the transactions of a ring member, under its address.
pub mod Search
use simple_gnomon.Prelude.{
  Bool, false, ◌||◌, ◌&&◌, not, Option, none, some, List, [], ◌∷◌, ◌++◌, if◌then◌else◌,
}
use simple_gnomon.Prelude.Bytes.{Bytes, codes, ◌==◌}
use simple_gnomon.Prelude.Assoc.{Assoc}
use simple_gnomon.Go.Json.{Codec}
use simple_gnomon.Go.Strings.{slice_contains}
use simple_gnomon.Structs.{NormalTx}
use simple_gnomon.Bolt.{Bolt, ok, err, read, scan}
use simple_gnomon.Bolt.Update.{Outcome, update, put_entry, in_bucket, marshal}
use simple_gnomon.Store.{Store, Result, with_db}

abbrev pub normal_bucket : Bytes
normal_bucket = codes "normaltxwithscid"

-- The loop of `StoreNormalTxWithSCIDByAddr` that looks for the transaction.
unfoldable pub has_txid : Bytes → List NormalTx → Bool
has_txid txid [] = false
has_txid txid (t ∷ ts) = t.txid == txid || has_txid txid ts

-- The inner loop of `GetAllNormalTxWithSCIDBySCID`, with the transactions found and their ids.
unfoldable pub find_in :
    Bytes → List NormalTx × List Bytes → List NormalTx → List NormalTx × List Bytes
unfolding slice_contains
find_in scid found [] = found
find_in scid (txs, ids) (t ∷ ts) =
    find_in scid
      (if t.scid == scid && not (slice_contains ids t.txid)
        then (txs ++ t ∷ [], ids ++ t.txid ∷ [])
        else (txs, ids))
      ts

module _ {Db Bucket : Type 0} (bolt : Bolt Db Bucket) (json : Codec (List NormalTx)) where
  unfoldable pub find_in_all :
      Bytes → List NormalTx × List Bytes → Assoc Bytes → List NormalTx × List Bytes
  unfolding find_in
  find_in_all scid found [] = found
  find_in_all scid found ((k, v) ∷ m) = find_in_all scid (find_in scid found (json.decode v)) m

  unfoldable pub decoded_txs : Option Bytes → List NormalTx
  decoded_txs none = []
  decoded_txs (some text) = json.decode text

  unfoldable pub get_all_normal_tx_by_addr : Bytes → Store Db → List NormalTx
  unfolding decoded_txs
  get_all_normal_tx_by_addr addr s = decoded_txs (read bolt s.db normal_bucket addr)

  unfoldable pub get_all_normal_tx_by_scid : Bytes → Store Db → List NormalTx
  unfolding find_in_all
  get_all_normal_tx_by_scid scid s = (find_in_all scid ([], []) (scan bolt s.db normal_bucket)).0

  unfoldable pub put_txs : Bytes → List NormalTx → Db → Outcome Db
  put_txs addr txs d = elim (json.marshal txs) [
    | ok text ↦ put_entry bolt normal_bucket addr text d
    | err c ↦ (d, false, some (marshal c))
  ]

  -- The transaction's function after the bucket is there, on the value that was read before.
  unfoldable pub add_tx : Bytes → NormalTx → Option Bytes → Db → Outcome Db
  unfolding put_txs has_txid
  add_tx addr tx none d = put_txs addr (tx ∷ []) d
  add_tx addr tx (some text) d =
      let txs = json.decode text in
      if has_txid tx.txid txs then (d, false, none) else put_txs addr (txs ++ tx ∷ []) d

  unfoldable pub store_normal_tx_by_addr : Bytes → NormalTx → Store Db → Result Db
  unfolding add_tx in_bucket with_db
  store_normal_tx_by_addr addr tx s =
      let current = read bolt s.db normal_bucket addr in
      with_db s (update bolt (in_bucket bolt normal_bucket (add_tx addr tx current)) s.db)

-- ===== src/Indexer/Transactions.antt =====
-- `handle_tx` of pkg/handling_txs.go and its callbacks: transactions are counted by type, transfers
-- of tokens are stored for the members of their rings, and contracts are put into the next queue.
pub mod Counts
use simple_gnomon.Prelude.{
  ℕ, zero, suc, ◌+◌, ◌≤◌, ◌≡◌, refl, sym, ap, ◌∙◌, Bool, true, false, Option, none, some, List, [],
  ◌∷◌, ◌++◌, arith, if◌then◌else◌, get_elem?, length, Option-cases, inl, inr,
}
use simple_gnomon.Prelude.Int.{ℤ, pos}
use simple_gnomon.Prelude.Bytes.{Bytes}
use simple_gnomon.Go.Json.{Codec}
use simple_gnomon.Structs.{NormalTx}
use simple_gnomon.Bolt.{Bolt}
use simple_gnomon.Store.{Store}
use simple_gnomon.Store.NormalTx.{store_normal_tx_by_addr}
use simple_gnomon.Indexer.Counting.{increment}

-- The types of transaction that the switch names; `unknown` is any other.
pub data TxType : Type 0 where
  premine : TxType
  coinbase : TxType
  registration : TxType
  burn_tx : TxType
  normal : TxType
  sc_tx : TxType
  unknown : TxType

-- What the code uses of encoding/hex and of derohe's transactions.
pub record Derohe (Tx Payload Info : Type 0) : Type 0 where
  -- `hex.DecodeString`
  pub hex : Bytes → Option Bytes
  pub deserialize : Bytes → Option Tx
  pub transaction_type : Tx → TxType
  pub payloads : Tx → List Payload
  -- `tx.GetHash().String()`
  pub hash : Tx → Bytes
  pub fees : Tx → ℕ
  -- `payload.SCID == crypto.ZEROHASH` and `payload.SCID.String()`
  pub is_zero : Payload → Bool
  pub scid : Payload → Bytes
  pub block_height : Info → ℤ
  pub ring : Info → List (List Bytes)

pub record ProcessingStruct (Tx Info : Type 0) : Type 0 where
  pub height : ℤ
  pub tx : Info
  pub transaction : Tx

-- The store, the counters of the `holding_queue` and the queue `scid_processing`.
pub record Holding (Db Tx Info : Type 0) : Type 0 where
  pub store : Store Db
  pub registrations : ℤ
  pub burns : ℤ
  pub normals : ℤ
  pub scid_processing : List (ProcessingStruct Tx Info)

module _ {Db Bucket Tx Payload Info : Type 0} (bolt : Bolt Db Bucket) (json : Codec (List NormalTx))
    (derohe : Derohe Tx Payload Info) where
  unfoldable pub ringmember_callback : List Bytes → ℤ → Tx → Payload → Store Db → Store Db
  unfolding store_normal_tx_by_addr
  ringmember_callback [] height tx payload s = s
  ringmember_callback (ring ∷ rings) height tx payload s =
      let norm_tx_with_scid : NormalTx = record {
        txid = derohe.hash tx;
        scid = derohe.scid payload;
        fees = derohe.fees tx;
        height = height;
      } in
      ringmember_callback rings height tx payload
        (store_normal_tx_by_addr bolt json ring norm_tx_with_scid s).0

  -- The loop over the payloads from the `j`-th on; `none` is the panic on a ring that is not there.
  unfoldable pub tx_payload_callback :
      ℕ → ℤ → Info → Tx → List Payload → Store Db → Option (Store Db)
  unfolding ringmember_callback
  tx_payload_callback j height info tx [] s = some s
  tx_payload_callback j height info tx (payload ∷ payloads) s =
      if derohe.is_zero payload
      then tx_payload_callback (j + 1) height info tx payloads s
      else elim (get_elem? (derohe.ring info) j) [
        | none ↦ none
        | some members ↦
            tx_payload_callback (j + 1) height info tx payloads
              (ringmember_callback members height tx payload s)
      ]

  unfoldable pub handle_payloads :
      Option Info → Tx → List Payload → Holding Db Tx Info → Option (Holding Db Tx Info)
  unfolding tx_payload_callback
  handle_payloads info tx [] h = some h
  handle_payloads none tx (payload ∷ payloads) h = none
  handle_payloads (some info) tx (payload ∷ payloads) h =
      elim (tx_payload_callback 0 (derohe.block_height info) info tx (payload ∷ payloads) h.store) [
        | none ↦ none
        | some s ↦ some (record h { store = s })
      ]

  unfoldable pub stage : Option Info → Tx → Holding Db Tx Info → Option (Holding Db Tx Info)
  stage none tx h = none
  stage (some info) tx h =
      let staged : ProcessingStruct Tx Info = record {
        height = derohe.block_height info;
        tx = info;
        transaction = tx;
      } in
      some (record h { scid_processing = h.scid_processing ++ staged ∷ [] })

  -- The switch on the type; `info` is `result.Txs[i]`, absent out of range.
  unfoldable pub by_type :
      TxType → Option Info → Tx → Holding Db Tx Info → Option (Holding Db Tx Info)
  unfolding handle_payloads stage
  by_type premine info tx h = some h
  by_type coinbase info tx h = some h
  by_type registration info tx h = some (record h { registrations = increment h.registrations })
  by_type burn_tx info tx h = some (record h { burns = increment h.burns })
  by_type normal info tx h =
      handle_payloads info tx (derohe.payloads tx) (record h { normals = increment h.normals })
  by_type sc_tx info tx h = stage info tx h
  by_type unknown info tx h = some h

  -- A transaction in hexadecimal, if both decodings succeed.
  unfoldable pub decode : Bytes → Option Tx
  decode each = elim (derohe.hex each) [ none ↦ none | some b ↦ derohe.deserialize b ]

  -- The loop from the `i`-th transaction on.
  unfoldable pub handle_from :
      ℕ → List Info → List Bytes → Holding Db Tx Info → Option (Holding Db Tx Info)
  unfolding by_type decode
  handle_from i txs [] h = some h
  handle_from i txs (each ∷ hexes) h = elim (decode each) [
    | none ↦ handle_from (i + 1) txs hexes h
    | some tx ↦ elim (by_type (derohe.transaction_type tx) (get_elem? txs i) tx h) [
      | none ↦ none
      | some next ↦ handle_from (i + 1) txs hexes next
    ]
  ]

  -- The arguments are `result.Txs_as_hex` and `result.Txs`.
  unfoldable pub handle_tx :
      List Bytes → List Info → Holding Db Tx Info → Option (Holding Db Tx Info)
  unfolding handle_from
  handle_tx hexes txs h = handle_from 0 txs hexes h

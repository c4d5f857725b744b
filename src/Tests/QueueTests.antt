-- ===== src/Tests/QueueTests.antt =====
-- The queues of miniblocks and of transactions, on an empty store.
use simple_gnomon.Prelude.{
  ◌≡◌, refl, true, none, some, List, [], ◌∷◌, arith, nat_beq, if◌then◌else◌,
}
use simple_gnomon.Prelude.Int.{pos}
use simple_gnomon.Prelude.Bytes.{Bytes, codes, ◌==◌}
use simple_gnomon.Prelude.Keys.{collect}
use simple_gnomon.Go.Json.{Codec}
use simple_gnomon.Structs.{MblInfo, NormalTx}
use simple_gnomon.Bolt.{ok}
use simple_gnomon.Bolt.Memory.{Db}
use simple_gnomon.Store.Daemon.{
  store_miniblock_details_by_hash, get_miniblock_details_by_hash, get_miniblock_count_by_address,
  get_all_miniblock_details, write_json,
}
use simple_gnomon.Store.Daemon.Miniblocks.{AreAscii, store_miniblock_details_done}
use simple_gnomon.Indexer.Counting.{MiniStructure, count_of, mini_db_writer}
use simple_gnomon.Indexer.Counting.Totals.{mini_db_writer_lem}
use simple_gnomon.Indexer.Transactions.{
  TxType, registration, burn_tx, unknown, Derohe, Holding, handle_tx,
}
use simple_gnomon.Indexer.Transactions.Counts.{Kinds, Counts, kinds_of, handle_tx-Counts}
use simple_gnomon.Tests.Samples.{bolt, bolt_laws, blank, runs}
use simple_gnomon.Tests.Codecs.{minis_json, minis_json-Exact, count_json}

abbrev minis : List MblInfo
minis =
    record { hash = codes "m1"; miner = codes "ann" }
    ∷ record { hash = codes "m2"; miner = codes "bob" }
    ∷ []

minis-AreAscii : AreAscii minis
minis-AreAscii = ground arith

minis_stored : (store_miniblock_details_by_hash bolt minis_json (codes "b1") minis blank).2 ≡ none
unfolding store_miniblock_details_by_hash write_json runs
minis_stored = refl

store_miniblock_details_example :
    let s' = (store_miniblock_details_by_hash bolt minis_json (codes "b1") minis blank).0 in
    (get_miniblock_details_by_hash bolt minis_json (codes "b1") s' ≡ minis)
    × (get_miniblock_count_by_address bolt count_json (codes "ann") s'
        ≡ get_miniblock_count_by_address bolt count_json (codes "ann") blank)
unfolding ◌==◌
store_miniblock_details_example =
    store_miniblock_details_done bolt bolt_laws minis_json count_json (codes "b1") (codes "b1")
      (codes "ann") minis blank (λ given ascii. minis_json-Exact given) minis-AreAscii minis_stored

abbrev staged : MiniStructure
staged = record { minis = minis; hash = codes "b1" }

-- A block that is queued twice counts twice.
mini_db_writer_example :
    count_of
      (codes "ann")
      (mini_db_writer bolt minis_json count_json (staged ∷ staged ∷ []) blank).1
    ≡ pos 2
unfolding get_all_miniblock_details collect runs
mini_db_writer_example =
    mini_db_writer_lem bolt minis_json count_json (staged ∷ staged ∷ []) blank (codes "ann")
      (omega arith)

-- A transaction is its type, written as one number.
abbrev type_of : Bytes → TxType
type_of [] = unknown
type_of (n ∷ more) = if nat_beq n 3 then registration else if nat_beq n 4 then burn_tx else unknown

abbrev derohe : Derohe Bytes Unit Unit
derohe = record {
  hex = λ s. some s;
  deserialize = λ s. some s;
  transaction_type = type_of;
  payloads = λ t. [];
  hash = λ t. t;
  fees = λ t. 0;
  is_zero = λ p. true;
  scid = λ p. [];
  block_height = λ i. pos 0;
  ring = λ i. [];
}

abbrev txs_json : Codec (List NormalTx)
txs_json = record { marshal = λ txs. ok []; decode = λ text. [] }

abbrev start : Holding Db Bytes Unit
start = record {
  store = blank;
  registrations = pos 5;
  burns = pos 0;
  normals = pos 1;
  scid_processing = [];
}

abbrev hexes : List Bytes
hexes = (3 ∷ []) ∷ (4 ∷ []) ∷ (3 ∷ []) ∷ []

abbrev kinds : Kinds
kinds = record { registrations = 5; burns = 0; normals = 1 }

abbrev ended : Holding Db Bytes Unit
ended = record start { registrations = pos 7; burns = pos 1 }

handled : handle_tx bolt txs_json derohe hexes (tt ∷ tt ∷ tt ∷ []) start ≡ some ended
unfolding handle_tx
handled = refl

handle_tx_example : Counts (kinds_of bolt txs_json derohe kinds hexes) 0 ended
handle_tx_example =
    handle_tx-Counts bolt txs_json derohe hexes (tt ∷ tt ∷ tt ∷ []) start ended kinds
      (refl, refl, refl, omega arith, omega arith, omega arith) handled

-- ===== src/Tests/TransferTests.antt =====
-- The search for the transfers of a token.
use simple_gnomon.Prelude.{◌≡◌, refl, List, [], ◌∷◌, In, inl}
use simple_gnomon.Prelude.Int.{pos}
use simple_gnomon.Prelude.Bytes.{codes}
use simple_gnomon.Go.Json.{Codec}
use simple_gnomon.Structs.{NormalTx}
use simple_gnomon.Bolt.{ok, scan}
use simple_gnomon.Bolt.Memory.{Db}
use simple_gnomon.Store.{Store}
use simple_gnomon.Store.NormalTx.{normal_bucket, get_all_normal_tx_by_scid, store_normal_tx_by_addr}
use simple_gnomon.Store.NormalTx.Search.{
  all_txs, txids, get_all_normal_tx_by_scid_sound, get_all_normal_tx_by_scid_whole,
}
use simple_gnomon.Tests.Samples.{bolt, blank, runs}

abbrev transfer : NormalTx
transfer = record { txid = codes "t"; scid = codes "aa"; fees = 1; height = pos 4 }

-- Every stored text decodes to this one transaction.
abbrev txs_json : Codec (List NormalTx)
txs_json = record { marshal = λ txs. ok (codes "t"); decode = λ text. transfer ∷ [] }

abbrev stored : Store Db
stored =
    (store_normal_tx_by_addr bolt txs_json (codes "bob") transfer
      (store_normal_tx_by_addr bolt txs_json (codes "ann") transfer blank).0).0

-- The two ring members share a transaction, which is listed once.
listed : get_all_normal_tx_by_scid bolt txs_json (codes "aa") stored ≡ transfer ∷ []
unfolding get_all_normal_tx_by_scid store_normal_tx_by_addr runs
listed = refl

listed_In : In transfer (get_all_normal_tx_by_scid bolt txs_json (codes "aa") stored)
listed_In = rw listed (inl refl)

stored_In : In transfer (all_txs bolt txs_json (scan bolt stored.db normal_bucket))
unfolding store_normal_tx_by_addr runs
stored_In = inl refl

get_all_normal_tx_by_scid_sound_example :
    (codes "aa" ≡ codes "aa")
    × In transfer (all_txs bolt txs_json (scan bolt stored.db normal_bucket))
get_all_normal_tx_by_scid_sound_example =
    get_all_normal_tx_by_scid_sound bolt txs_json (codes "aa") transfer stored listed_In

get_all_normal_tx_by_scid_whole_example :
    In (codes "t") (txids (get_all_normal_tx_by_scid bolt txs_json (codes "aa") stored))
get_all_normal_tx_by_scid_whole_example =
    get_all_normal_tx_by_scid_whole bolt txs_json (codes "aa") transfer stored stored_In refl

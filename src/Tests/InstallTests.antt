-- ===== src/Tests/InstallTests.antt =====
-- An install from its transaction to its owner in the database, and the miniblocks of a block.
use simple_gnomon.Prelude.{
  ℕ, ◌≡◌, ◌⊎◌, ◌<◌, ◌≤◌, refl, false, true, Option, none, some, List, [], ◌∷◌, length, map, take,
}
use simple_gnomon.Prelude.Int.{pos}
use simple_gnomon.Prelude.Bytes.{Bytes, codes, ◌==◌}
use simple_gnomon.Prelude.Assoc.{Assoc}
use simple_gnomon.Go.Json.{Codec}
use simple_gnomon.Structs.{text, ScidVariable, SctxParse, IndexStage, MblInfo}
use simple_gnomon.Bolt.{ok}
use simple_gnomon.Bolt.Memory.{Db}
use simple_gnomon.Store.{Store}
use simple_gnomon.Store.Owner.{get_owner, put_each, store_owner}
use simple_gnomon.Store.Daemon.{write_json}
use simple_gnomon.Store.Variables.{store_scid_variable_details}
use simple_gnomon.Store.Indexing.{add_scid_to_index}
use simple_gnomon.Indexer.ScidWriter.{Loaded, Round, wrote, write_scid}
use simple_gnomon.Indexer.Variables.{Crypto}
use simple_gnomon.Indexer.Scids.{Work, work_on_scids}
use simple_gnomon.Indexer.Scids.Contract.{ScTx, Settings, Outside}
use simple_gnomon.Indexer.Scids.Written.{written_install}
use simple_gnomon.Indexer.Blocks.{Block, WithBlock, BlockQueues, work_on_minis}
use simple_gnomon.Indexer.Blocks.Minis.{work_on_minis_lem}
use simple_gnomon.Tests.Samples.{bolt, bolt_laws, blank, runs, heights_json}

-- Numbers stand for floating point numbers, and no text is the address of a point.
abbrev plain : Crypto ℕ
plain = record {
  decode_hex = λ s. (s, true);
  address_of = λ s. none;
  hash_length = 32;
  hash_string = λ s. s;
  is_zero_hex = λ s. true;
  show = λ v. codes "?";
  to_uint = λ n. n;
}

abbrev no_fees : Codec (Assoc ℕ)
no_fees = record { marshal = λ m. ok []; decode = λ s. [] }

abbrev one_text : Codec (List (ScidVariable ℕ))
one_text = record { marshal = λ vars. ok (codes "v"); decode = λ t. [] }

abbrev no_invokes : Codec (Option (SctxParse ℕ ℕ))
no_invokes = record { marshal = λ p. ok (codes "p"); decode = λ t. none }

abbrev answering : Outside ℕ
answering = record {
  crypto = plain;
  parse_url = λ s. some s;
  unmarshal = λ s. none;
  get_sc = λ p. (
    record {
      string_keys = (codes "name", text (codes "dero")) ∷ [];
      uint64_keys = [];
      code = codes "Function";
    },
    none,
  );
}

abbrev unfiltered : Settings
unfiltered = record { fastsync = false; search_filter = []; indices = [] }

abbrev new_contract : ScTx ℕ ℕ
new_contract = record {
  scdata = 0;
  size = 1;
  has_code = true;
  has_scid = false;
  scid = none;
  entrypoint = none;
  hash = codes "aa";
  payloads = [];
  fees = 5;
}

abbrev before : Work Db ℕ ℕ ℕ
before = record { store = blank; scid_db_queue = []; errors = [] }

abbrev queue : List (IndexStage ℕ ℕ ℕ)
queue =
    (work_on_scids bolt no_fees answering unfiltered (pos 9) (codes "ann") new_contract
      before).scid_db_queue

abbrev unread : IndexStage ℕ ℕ ℕ
unread = record {
  parse = record {
    txid = [];
    scid = [];
    entrypoint = [];
    method = [];
    sc_args = 0;
    sender = [];
    payloads = [];
    fees = 0;
    height = pos 0;
  };
  headers = [];
  sc_vars = [];
  sc_code = [];
  class = [];
  tags = [];
}

abbrev first : List (IndexStage ℕ ℕ ℕ) → IndexStage ℕ ℕ ℕ
first [] = unread
first (staged ∷ l) = staged

abbrev stage : IndexStage ℕ ℕ ℕ
stage = first queue

is_queued : queue ≡ stage ∷ []
unfolding work_on_scids runs
is_queued = refl

abbrev counters : Loaded
counters = record { registration = pos 3; burn = pos 0; normal = pos 9 }

abbrev store_after : Round Db → Store Db
store_after (wrote s) = s
store_after _ = blank

abbrev after : Store Db
after = store_after (write_scid bolt one_text no_invokes heights_json counters stage blank)

is_written : write_scid bolt one_text no_invokes heights_json counters stage blank ≡ wrote after
unfolding work_on_scids write_scid add_scid_to_index store_scid_variable_details write_json
    store_owner put_each runs
is_written = refl

written_install_example : get_owner bolt (codes "aa") after ≡ codes "ann"
unfolding ◌==◌
written_install_example =
    written_install bolt bolt_laws one_text no_invokes heights_json no_fees answering unfiltered
      (pos 9) (codes "ann") new_contract before stage counters blank after refl is_queued is_written

-- A block of three miniblocks with two miners; hashes are texts.
abbrev mined : WithBlock Bytes
mined = record {
  block = record { tx_hashes = []; mini_blocks = codes "m1" ∷ codes "m2" ∷ codes "m3" ∷ [] };
  result = record {
    blob = [];
    tx_count = pos 0;
    miners = codes "ann" ∷ codes "bob" ∷ [];
    hash = codes "b";
  };
}

abbrev queues : BlockQueues Bytes
queues = record {
  block_processing = [];
  mini_queue = [];
  transaction_processing = [];
  mini_db_queue = [];
  in_progress = pos 0;
}

abbrev deserialized : Bytes → Block Bytes
deserialized b = record { tx_hashes = []; mini_blocks = [] }

work_on_minis_example :
    let miners = mined.result.miners in
    let blocks = mined.block.mini_blocks in
    let done = work_on_minis (λ s. some s) deserialized (λ h. h) mined queues in
    ((length blocks < length miners) × (done ≡ none))
    ⊎ ((length miners ≤ length blocks)
        × ((minis : List MblInfo) × (done
              ≡ some (record queues {
                mini_db_queue = record { minis = minis; hash = mined.result.hash } ∷ [];
              }))
            × (map (λ (m : MblInfo). m.miner) minis ≡ miners)
            × (map (λ (m : MblInfo). m.hash) minis ≡ map (λ h. h) (take (length miners) blocks))))
work_on_minis_example = work_on_minis_lem (λ s. some s) deserialized (λ h. h) mined queues

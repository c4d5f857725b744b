-- ===== src/Indexer/Blocks.antt =====
-- The blocks: `handle_height_task` of pkg/handling_heights.go, and `work_on_blocks` and
-- `work_on_minis` of pkg/handling_blocks.go.
pub mod Minis
use simple_gnomon.Prelude.{
  ℕ, ◌+◌, Bool, true, false, ◌||◌, Option, none, some, List, [], ◌∷◌, ◌++◌, map, get_elem?,
  if◌then◌else◌,
}
use simple_gnomon.Prelude.Int.{ℤ, pos, eq_ℤ}
use simple_gnomon.Prelude.Bytes.{Bytes}
use simple_gnomon.Structs.{MblInfo}

-- What the code reads of derohe's block and of the daemon's answer on it.
pub record Block (Hash : Type 0) : Type 0 where
  pub tx_hashes : List Hash
  pub mini_blocks : List Hash

pub record BlockResult : Type 0 where
  pub blob : Bytes
  pub tx_count : ℤ
  pub miners : List Bytes
  pub hash : Bytes

-- The stages of `processingStruct` for blocks.
pub record Fetched : Type 0 where
  pub height : ℤ
  pub result : BlockResult

pub record WithBlock (Hash : Type 0) : Type 0 where
  pub block : Block Hash
  pub result : BlockResult

pub record WithHashes : Type 0 where
  pub height : ℤ
  pub tx_hashes : List Bytes

pub record MiniStructure : Type 0 where
  pub minis : List MblInfo
  pub hash : Bytes

pub record BlockQueues (Hash : Type 0) : Type 0 where
  pub block_processing : List Fetched
  pub mini_queue : List (WithBlock Hash)
  pub transaction_processing : List WithHashes
  pub mini_db_queue : List MiniStructure
  pub in_progress : ℤ

-- `get_block_info` is what `connections.GetBlockInfo` returns for a height.
unfoldable pub handle_height_task :
    {Hash : Type 0} → (ℤ → BlockResult) → ℤ → BlockQueues Hash → BlockQueues Hash
handle_height_task get_block_info height q =
    let staged : Fetched = record { height = height; result = get_block_info height } in
    record q { in_progress = height; block_processing = q.block_processing ++ staged ∷ [] }

abbrev none_of : {A : Type 0} → List A → Bool
none_of [] = true
none_of (a ∷ l) = false

-- `hex.DecodeString` and `bl.Deserialize` are parameters, and so is the text of a hash.
module _ {Hash : Type 0} (decode_hex : Bytes → Option Bytes) (deserialize : Bytes → Block Hash)
    (string : Hash → Bytes) where
  -- A blob that is no hex is the empty block.
  unfoldable pub get_block_deserialized : Bytes → Block Hash
  get_block_deserialized blob = elim (decode_hex blob) [
    | none ↦ record { tx_hashes = []; mini_blocks = [] }
    | some b ↦ deserialize b
  ]

  unfoldable pub queue_minis : Bool → WithBlock Hash → BlockQueues Hash → BlockQueues Hash
  queue_minis store_minis staged q =
      if store_minis then record q { mini_queue = q.mini_queue ++ staged ∷ [] } else q

  unfoldable pub work_on_blocks : Bool → Fetched → BlockQueues Hash → BlockQueues Hash
  unfolding get_block_deserialized queue_minis
  work_on_blocks store_minis staged q =
      let bl = get_block_deserialized staged.result.blob in
      let kept : WithBlock Hash = record { block = bl; result = staged.result } in
      let q' = queue_minis store_minis kept q in
      let next : WithHashes = record {
        height = staged.height;
        tx_hashes = map string bl.tx_hashes;
      } in
      if none_of bl.tx_hashes || eq_ℤ staged.result.tx_count (pos 0)
      then q'
      else record q' { transaction_processing = q'.transaction_processing ++ next ∷ [] }

  -- The loop over the miners from the `i`-th on; `none` is the panic on a miniblock that is not there.
  unfoldable pub minis_of : ℕ → List Bytes → List Hash → Option (List MblInfo)
  minis_of i [] blocks = some []
  minis_of i (miner ∷ miners) blocks =
      let rest = minis_of (i + 1) miners blocks in
      elim (get_elem? blocks i) [
        | none ↦ none
        | some mini ↦ elim rest [
          | none ↦ none
          | some minis ↦ some (record { hash = string mini; miner = miner } ∷ minis)
        ]
      ]

  unfoldable pub work_on_minis : WithBlock Hash → BlockQueues Hash → Option (BlockQueues Hash)
  unfolding minis_of
  work_on_minis staged q = elim (minis_of 0 staged.result.miners staged.block.mini_blocks) [
    | none ↦ none
    | some minis ↦
        let queued : MiniStructure = record { minis = minis; hash = staged.result.hash } in
        some (record q { mini_db_queue = q.mini_db_queue ++ queued ∷ [] })
  ]

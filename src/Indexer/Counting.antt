-- ===== src/Indexer/Counting.antt =====
-- The counts of miniblocks in `mini_db_writer` of pkg/db_writer.go.
pub mod Totals
use simple_gnomon.Prelude.{
  ℕ, ◌+◌, ◌≤◌, ◌<◌, ◌≡◌, refl, sym, ap, ◌∙◌, Bool, true, false, Option, none, some, List, [], ◌∷◌,
  ◌++◌, arith, if◌then◌else◌, Bool-cases, inl, inr,
}
use simple_gnomon.Prelude.Int.{ℤ, pos, negsuc, ◌+ℤ◌, eq_ℤ}
use simple_gnomon.Prelude.Bytes.{Bytes, ◌==◌, ==_iff}
use simple_gnomon.Prelude.Assoc.{Assoc, lookup, insert, lookup-insert}
use simple_gnomon.Go.Json.{Codec}
use simple_gnomon.Structs.{MblInfo}
use simple_gnomon.Bolt.{Bolt}
use simple_gnomon.Store.{Store}
use simple_gnomon.Store.Daemon.{
  store_miniblock_details_by_hash, store_miniblock_count_by_address, get_all_miniblock_details,
}

pub record MiniStructure : Type 0 where
  pub minis : List MblInfo
  pub hash : Bytes

-- `++` on an int64
abbrev pub increment : ℤ → ℤ
increment n = if eq_ℤ n (pos 9223372036854775807) then negsuc 9223372036854775807 else n +ℤ pos 1

-- `miner_map[miner]`, 0 for a miner that is not there.
unfoldable pub count_of : Bytes → Assoc ℤ → ℤ
unfolding lookup
count_of miner miners = elim (lookup miner miners) [ none ↦ pos 0 | some n ↦ n ]

-- `miner_map[miner]++`
unfoldable pub count_up : Bytes → Assoc ℤ → Assoc ℤ
unfolding count_of insert
count_up miner miners = insert miner (increment (count_of miner miners)) miners

unfoldable pub count_minis : Assoc ℤ → List MblInfo → Assoc ℤ
unfolding count_up
count_minis miners [] = miners
count_minis miners (mini ∷ minis) = count_minis (count_up mini.miner miners) minis

-- The loops before the first block: the counts of all stored miniblocks.
unfoldable pub count_details : Assoc ℤ → Assoc (List MblInfo) → Assoc ℤ
unfolding count_minis
count_details miners [] = miners
count_details miners ((hash, minis) ∷ details) = count_details (count_minis miners minis) details

module _ {Db Bucket : Type 0} (bolt : Bolt Db Bucket) (json : Codec (List MblInfo))
    (counts : Codec ℤ) where
  -- The loop of `work` over the miniblocks; the results of the store are not looked at.
  unfoldable pub store_counts : Store Db × Assoc ℤ → List MblInfo → Store Db × Assoc ℤ
  unfolding count_up count_of store_miniblock_count_by_address
  store_counts (s, miners) [] = (s, miners)
  store_counts (s, miners) (mini ∷ minis) =
      let counted = count_up mini.miner miners in
      store_counts
        (
          (store_miniblock_count_by_address bolt counts (count_of mini.miner counted) mini.miner
              s).0,
          counted,
        )
        minis

  -- `work`; `all_details` is the map that was read when the writer began.
  unfoldable pub work :
      Assoc (List MblInfo) → MiniStructure → Store Db × Assoc ℤ → Store Db × Assoc ℤ
  unfolding store_counts store_miniblock_details_by_hash lookup
  work all_details staged (s, miners) = elim (lookup staged.hash all_details) [
    | some known ↦ (s, miners)
    | none ↦
        store_counts
          ((store_miniblock_details_by_hash bolt json staged.hash staged.minis s).0, miners)
          staged.minis
  ]

  unfoldable pub work_all :
      Assoc (List MblInfo) → List MiniStructure → Store Db × Assoc ℤ → Store Db × Assoc ℤ
  unfolding work
  work_all all_details [] state = state
  work_all all_details (staged ∷ queue) state =
      work_all all_details queue (work all_details staged state)

  -- The writer on all blocks that are put in its queue.
  unfoldable pub mini_db_writer : List MiniStructure → Store Db → Store Db × Assoc ℤ
  unfolding count_details get_all_miniblock_details work_all
  mini_db_writer queue s =
      let all_details = get_all_miniblock_details bolt json s in
      work_all all_details queue (s, count_details [] all_details)

-- How often a miner found one of the miniblocks.
abbrev pub found_by : Bytes → List MblInfo → ℕ
found_by miner [] = 0
found_by miner (mini ∷ minis) =
    let rest = found_by miner minis in if mini.miner == miner then 1 + rest else rest

count_of-count_up :
    (miner other : Bytes) (miners : Assoc ℤ)
    → count_of other (count_up miner miners)
      ≡ (if miner == other then increment (count_of miner miners) else count_of other miners)
unfolding count_of count_up
count_of-count_up miner other miners =
    ground (arith, lookup-insert miner other (increment (count_of miner miners)) miners)

-- Counting miniblocks adds to the count of a miner how many of them it found, as long as an int64
-- holds the sum.
pub count_minis_lem :
    (miner : Bytes) (n : ℕ) (miners : Assoc ℤ) (minis : List MblInfo)
    → count_of miner miners ≡ pos n
    → n + found_by miner minis ≤ 9223372036854775807
    → count_of miner (count_minis miners minis) ≡ pos (n + found_by miner minis)
unfolding count_minis
count_minis_lem miner n miners [] start fits = start ∙ ap pos (omega arith)
count_minis_lem miner n miners (mini ∷ minis) start fits = elim (Bool-cases (mini.miner == miner)) [
  | inl own ↦
      let same = (==_iff mini.miner miner).0 own in
      let next : count_of miner (count_up mini.miner miners) ≡ pos (n + 1) = ground (
        arith,
        count_of-count_up mini.miner miner miners,
        own,
        start,
        ap (λ m. count_of m miners) same,
      ) in
      count_minis_lem miner (n + 1) (count_up mini.miner miners) minis next (ground arith)
      ∙ ap pos (ground arith)
  | inr strange ↦
      let next : count_of miner (count_up mini.miner miners) ≡ pos n =
        ground (arith, count_of-count_up mini.miner miner miners, strange, start) in
      count_minis_lem miner n (count_up mini.miner miners) minis next (ground arith)
      ∙ ap pos (ground arith)
]

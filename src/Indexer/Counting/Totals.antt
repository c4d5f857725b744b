-- ===== src/Indexer/Counting/Totals.antt =====
-- What `mini_db_writer` of pkg/db_writer.go has counted after a queue of blocks.
use simple_gnomon.Prelude.{
  ◌≤◌, ◌≡◌, refl, sym, ap, ◌∙◌, none, some, List, [], ◌∷◌, ◌++◌, arith, Option-cases, inl, inr,
}
use simple_gnomon.Prelude.Int.{ℤ, pos}
use simple_gnomon.Prelude.Bytes.{Bytes}
use simple_gnomon.Prelude.Assoc.{Assoc, lookup}
use simple_gnomon.Go.Json.{Codec}
use simple_gnomon.Structs.{MblInfo}
use simple_gnomon.Bolt.{Bolt}
use simple_gnomon.Store.{Store}
use simple_gnomon.Store.Daemon.{
  get_all_miniblock_details, store_miniblock_details_by_hash, store_miniblock_count_by_address,
}
use simple_gnomon.Indexer.Counting.{
  MiniStructure, count_of, count_up, count_minis, count_details, store_counts, work, work_all,
  mini_db_writer, found_by, count_minis_lem,
}

-- All miniblocks of the stored blocks.
abbrev pub stored_minis : Assoc (List MblInfo) → List MblInfo
stored_minis [] = []
stored_minis ((hash, minis) ∷ details) = minis ++ stored_minis details

-- The miniblocks of the blocks in the queue that were not stored at first, for each time that a block
-- is queued.
abbrev pub queued_minis : Assoc (List MblInfo) → List MiniStructure → List MblInfo
queued_minis all_details [] = []
queued_minis all_details (staged ∷ queue) = elim (lookup staged.hash all_details) [
  | some known ↦ queued_minis all_details queue
  | none ↦ staged.minis ++ queued_minis all_details queue
]

queued_new :
    (all_details : Assoc (List MblInfo)) (staged : MiniStructure) (queue : List MiniStructure)
    → lookup staged.hash all_details ≡ none
    → queued_minis all_details (staged ∷ queue) ≡ staged.minis ++ queued_minis all_details queue
queued_new all_details staged queue e = rw (e, queued_minis) refl

queued_known :
    (all_details : Assoc (List MblInfo)) (staged : MiniStructure) (queue : List MiniStructure)
    (known : List MblInfo)
    → lookup staged.hash all_details ≡ some known
    → queued_minis all_details (staged ∷ queue) ≡ queued_minis all_details queue
queued_known all_details staged queue known e = rw (e, queued_minis) refl

count_minis-append :
    (miners : Assoc ℤ) (xs ys : List MblInfo)
    → count_minis miners (xs ++ ys) ≡ count_minis (count_minis miners xs) ys
unfolding count_minis
count_minis-append miners [] ys = refl
count_minis-append miners (mini ∷ xs) ys = count_minis-append (count_up mini.miner miners) xs ys

count_details_lem :
    (miners : Assoc ℤ) (details : Assoc (List MblInfo))
    → count_details miners details ≡ count_minis miners (stored_minis details)
unfolding count_details count_minis
count_details_lem miners [] = refl
count_details_lem miners ((hash, minis) ∷ details) =
    count_details_lem (count_minis miners minis) details
    ∙ sym (count_minis-append miners minis (stored_minis details))

count_from_zero :
    (miner : Bytes) (minis : List MblInfo)
    → found_by miner minis ≤ 9223372036854775807
    → count_of miner (count_minis [] minis) ≡ pos (found_by miner minis)
unfolding count_of
count_from_zero miner minis fits =
    count_minis_lem miner 0 [] minis refl (omega (arith, fits)) ∙ ap pos (omega arith)

module _ {Db Bucket : Type 0} (bolt : Bolt Db Bucket) (json : Codec (List MblInfo))
    (counts : Codec ℤ) where
  store_counts_miners :
      (s : Store Db) (miners : Assoc ℤ) (minis : List MblInfo)
      → (store_counts bolt json counts (s, miners) minis).1 ≡ count_minis miners minis
  unfolding store_counts count_minis
  store_counts_miners s miners [] = refl
  store_counts_miners s miners (mini ∷ minis) =
      let counted = count_up mini.miner miners in
      let count = count_of mini.miner counted in
      store_counts_miners (store_miniblock_count_by_address bolt counts count mini.miner s).0
        counted minis

  work_known :
      (all_details : Assoc (List MblInfo)) (staged : MiniStructure) (state : Store Db × Assoc ℤ)
      (known : List MblInfo)
      → lookup staged.hash all_details ≡ some known
      → work bolt json counts all_details staged state ≡ state
  unfolding work
  work_known all_details staged (s, miners) known e = rw (e, work) refl

  work_new :
      (all_details : Assoc (List MblInfo)) (staged : MiniStructure) (state : Store Db × Assoc ℤ)
      → lookup staged.hash all_details ≡ none
      → (work bolt json counts all_details staged state).1 ≡ count_minis state.1 staged.minis
  unfolding work
  work_new all_details staged (s, miners) e =
      rw (e, work)
        (store_counts_miners
          (store_miniblock_details_by_hash bolt json staged.hash staged.minis s).0 miners
          staged.minis)

  work_all_miners :
      (all_details : Assoc (List MblInfo)) (queue : List MiniStructure) (state : Store Db × Assoc ℤ)
      → (work_all bolt json counts all_details queue state).1
        ≡ count_minis state.1 (queued_minis all_details queue)
  unfolding work_all count_minis
  work_all_miners all_details [] state = count_none state.1
    where
      count_none : (miners : Assoc ℤ) → miners ≡ count_minis miners []
      count_none miners = refl
  work_all_miners all_details (staged ∷ queue) state =
      let next = work bolt json counts all_details staged state in
      let rest = work_all_miners all_details queue next in
      elim (Option-cases (lookup staged.hash all_details)) [
        | inl new ↦
            rest
            ∙ ap (λ m. count_minis m (queued_minis all_details queue))
                (work_new all_details staged state new)
            ∙ sym (count_minis-append state.1 staged.minis (queued_minis all_details queue))
            ∙ ap (count_minis state.1) (sym (queued_new all_details staged queue new))
        | inr (known, e) ↦
            rest
            ∙ ap (λ r. count_minis r.1 (queued_minis all_details queue))
                (work_known all_details staged state known e)
            ∙ ap (count_minis state.1) (sym (queued_known all_details staged queue known e))
      ]

  -- The miniblocks of the stored blocks and of the queued ones.
  abbrev pub all_minis : List MiniStructure → Store Db → List MblInfo
  all_minis queue s =
      let all_details = get_all_miniblock_details bolt json s in
      stored_minis all_details ++ queued_minis all_details queue

  -- When the writer is through with a queue, it has counted for each miner the miniblocks that it
  -- found in the stored blocks, and those in the queued blocks that were not stored at first, a block
  -- as often as it is queued; an int64 is to hold the sum.
  pub mini_db_writer_lem :
      (queue : List MiniStructure) (s : Store Db) (miner : Bytes)
      → found_by miner (all_minis queue s) ≤ 9223372036854775807
      → count_of miner (mini_db_writer bolt json counts queue s).1
        ≡ pos (found_by miner (all_minis queue s))
  unfolding mini_db_writer count_of
  mini_db_writer_lem queue s miner fits =
      let all_details = get_all_miniblock_details bolt json s in
      let start : Store Db × Assoc ℤ = (s, count_details [] all_details) in
      let queued = queued_minis all_details queue in
      ap (count_of miner) (
        work_all_miners all_details queue start
        ∙ ap (λ m. count_minis m queued) (count_details_lem [] all_details)
        ∙ sym (count_minis-append [] (stored_minis all_details) queued))
      ∙ count_from_zero miner (all_minis queue s) fits

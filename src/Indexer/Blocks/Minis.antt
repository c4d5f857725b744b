-- ===== src/Indexer/Blocks/Minis.antt =====
-- The loop of `work_on_minis` of pkg/handling_blocks.go over the miners of a block.
use simple_gnomon.Prelude.{
  ℕ, suc, ◌<◌, ◌≤◌, ◌≡◌, ◌⊎◌, refl, ap, Option, none, some, List, [], ◌∷◌, ◌++◌, length, take, map,
  get_elem?, arith, inl, inr, Option-cases,
}
use native.Mathlib.Numerals.{add-one}
use simple_gnomon.Prelude.Bytes.{Bytes}
use simple_gnomon.Structs.{MblInfo}
use simple_gnomon.Indexer.Blocks.{Block, BlockQueues, WithBlock, minis_of, work_on_minis}

module _ {Hash : Type 0} (decode_hex : Bytes → Option Bytes) (deserialize : Bytes → Block Hash)
    (string : Hash → Bytes) where
  -- From one place further on, the first miniblock does not count.
  minis_of-next :
      (i : ℕ) (miners : List Bytes) (b : Hash) (blocks : List Hash)
      → minis_of decode_hex deserialize string (suc i) miners (b ∷ blocks)
        ≡ minis_of decode_hex deserialize string i miners blocks
  unfolding minis_of
  minis_of-next i [] b blocks = refl
  minis_of-next i (miner ∷ miners) b blocks = elim (Option-cases (get_elem? blocks i)) [
    | inl missing ↦ rw (missing, minis_of) refl
    | inr (mini, there) ↦
        rw (there, minis_of, add-one (suc i), add-one i, minis_of-next (suc i) miners b blocks) refl
  ]

  -- The miners with the miniblocks at their places.
  abbrev Paired : List Bytes → List Hash → List MblInfo → Type 0
  Paired miners blocks minis =
      (map (λ (m : MblInfo). m.miner) minis ≡ miners)
      × (map (λ (m : MblInfo). m.hash) minis ≡ map string (take (length miners) blocks))

  abbrev Outcome : List Bytes → List Hash → Option (List MblInfo) → Type 0
  Outcome miners blocks o =
      ((length blocks < length miners) × (o ≡ none))
      ⊎ ((length miners ≤ length blocks)
          × ((minis : List MblInfo) × (o ≡ some minis) × Paired miners blocks minis))

  minis_of-Outcome :
      (miners : List Bytes) (blocks : List Hash)
      → Outcome miners blocks (minis_of decode_hex deserialize string 0 miners blocks)
  unfolding minis_of
  minis_of-Outcome [] blocks = inr (omega arith, ([], refl, (refl, refl)))
  minis_of-Outcome (miner ∷ miners) [] = inl (omega arith, refl)
  minis_of-Outcome (miner ∷ miners) (b ∷ blocks) =
      rw (minis_of-next 0 miners b blocks) (elim (minis_of-Outcome miners blocks) [
        | inl (short, panicked) ↦ rw panicked (inl (omega (arith, short), refl))
        | inr (long, (minis, found, (names, hashes))) ↦ rw found (
            inr (
              omega (arith, long),
              (
                record { hash = string b; miner = miner } ∷ minis,
                refl,
                (ap (λ l. miner ∷ l) names, ap (λ l. string b ∷ l) hashes),
              ),
            ))
      ])

  -- `work_on_minis` panics exactly if a block has more miners than miniblocks; else it queues, under
  -- the hash of the block, each miner with the text of the miniblock at its place.
  pub work_on_minis_lem :
      (staged : WithBlock Hash) (q : BlockQueues Hash)
      → let miners = staged.result.miners in
        let blocks = staged.block.mini_blocks in
        let after = work_on_minis decode_hex deserialize string staged q in
        ((length blocks < length miners) × (after ≡ none))
        ⊎ ((length miners ≤ length blocks)
            × ((minis : List MblInfo) × (after
                  ≡ some (record q {
                    mini_db_queue =
                        q.mini_db_queue ++ record { minis = minis; hash = staged.result.hash } ∷ [];
                  }))
                × (map (λ (m : MblInfo). m.miner) minis ≡ miners)
                × (map (λ (m : MblInfo). m.hash) minis ≡ map string (take (length miners) blocks))))
  unfolding work_on_minis
  work_on_minis_lem staged q =
      elim (minis_of-Outcome staged.result.miners staged.block.mini_blocks) [
        | inl (short, panicked) ↦ inl (short, rw (work_on_minis, panicked) refl)
        | inr (long, (minis, found, paired)) ↦
            inr (long, (minis, rw (work_on_minis, found) refl, paired.0, paired.1))
      ]

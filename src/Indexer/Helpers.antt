-- ===== src/Indexer/Helpers.antt =====
-- The helpers of pkg/helpers.go on texts, on the lengths of the queues and on the height of the
-- backup.
use simple_gnomon.Prelude.{
  ℕ, ◌≤◌, ◌<◌, ◌≡◌, ◌↔◌, Bool, true, false, ◌||◌, not, Option, none, some, List, [], ◌∷◌, arith,
  if◌then◌else◌, length, take, ltb, leb, nat_beq, length-take_le, Bool-cases, inl, inr,
}
use simple_gnomon.Prelude.Int.{ℤ, pos, ◌-ℤ◌, ltb_ℤ, min_ℤ}
use simple_gnomon.Prelude.Bytes.{Bytes, codes, ◌==◌}
use simple_gnomon.Go.Strings.{contains, split}
use simple_gnomon.Bolt.{Bolt}
use simple_gnomon.Bolt.Update.{Error}
use simple_gnomon.Store.{Store}
use simple_gnomon.Store.Stats.{get_last_index_height}

abbrev first_line : List Bytes → Bytes
first_line [] = []
first_line (line ∷ lines) = line

-- `if len(s) > 64 { s = s[:64] }`
abbrev cut : Bytes → Bytes
cut s = if ltb 64 (length s) then take 64 s else s

-- `safeString`; byte 10 ends a line.
unfoldable pub safe_string : Bytes → Bytes
unfolding contains split ◌==◌
safe_string s =
    if contains s (10 ∷ [])
    then cut (first_line (split s (10 ∷ [])))
    else if ltb 64 (length s)
    then take 64 s
    else if s == []
    then codes "null"
    else s

-- The lengths of the queues.
pub record Queues : Type 0 where
  pub block_processing : ℕ
  pub transaction_processing : ℕ
  pub scid_processing : ℕ
  pub scid_db_queue : ℕ
  pub mini_db_queue : ℕ
  pub mini_queue : ℕ

unfoldable pub are_queues_empty : Queues → Bool
are_queues_empty q =
    not (nat_beq q.block_processing 0)
    || not (nat_beq q.transaction_processing 0)
    || not (nat_beq q.scid_processing 0)
    || not (nat_beq q.scid_db_queue 0)
    || not (nat_beq q.mini_db_queue 0)
    || not (nat_beq q.mini_queue 0)

abbrev larger : ℕ → ℕ → ℕ
larger a b = if leb a b then b else a

unfoldable pub longest_queue : Queues → ℕ
longest_queue q = larger q.block_processing (
    larger q.transaction_processing
      (larger q.scid_processing (larger q.scid_db_queue (larger q.mini_db_queue q.mini_queue))))

-- The heights are below 2^62, so that no difference of them wraps around.
unfoldable pub lowest_height_test : ℤ → ℤ → ℤ → ℤ × Option Error → Bool
lowest_height_test achieved_current_height day_of_blocks now (height, some e) = false
lowest_height_test achieved_current_height day_of_blocks now (height, none) =
    let lowest = min_ℤ now height in
    let condition = achieved_current_height -ℤ day_of_blocks in
    if ltb_ℤ condition (pos 0) then ltb_ℤ lowest (pos 1) else ltb_ℤ lowest condition

unfoldable pub find_lowest_height :
    {Db Bucket : Type 0} → Bolt Db Bucket → ℤ → ℤ → Store Db → ℤ → Bool
unfolding lowest_height_test
find_lowest_height bolt achieved_current_height day_of_blocks backup now =
    lowest_height_test achieved_current_height day_of_blocks now (get_last_index_height bolt backup)

-- `areQueuesEmpty` holds exactly if the longest queue is not empty.
pub are_queues_empty_lem : (q : Queues) → (are_queues_empty q ≡ true) ↔ (0 < longest_queue q)
unfolding are_queues_empty longest_queue
are_queues_empty_lem q = ground arith

length-cut : (s : Bytes) → length (cut s) ≤ 64
length-cut s = elim (Bool-cases (ltb 64 (length s))) [
  | inl long ↦ rw long (length-take_le 64 s)
  | inr short ↦ rw short (within (length s) short)
]
  where
    within : (n : ℕ) → ltb 64 n ≡ false → n ≤ 64
    within n h = ground arith

-- A safe text is at most 64 bytes long.
pub length-safe_string : (s : Bytes) → length (safe_string s) ≤ 64
unfolding safe_string
length-safe_string s = elim (Bool-cases (contains s (10 ∷ []))) [
  | inl lines ↦ rw lines (length-cut (first_line (split s (10 ∷ []))))
  | inr line ↦ elim (Bool-cases (ltb 64 (length s))) [
    | inl long ↦ rw (line, long) (length-take_le 64 s)
    | inr short ↦ elim (Bool-cases (s == [])) [
      | inl empty ↦ rw (line, short, empty) (omega arith)
      | inr full ↦ rw (line, short, full) (ground arith)
    ]
  ]
]

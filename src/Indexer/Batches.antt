-- ===== src/Indexer/Batches.antt =====
-- The batches of a block's transactions in pkg/handling_txs.go: `operate_on_staged_tx` and `batching`.
use simple_gnomon.Prelude.{
  ℕ, zero, suc, ◌+◌, ◌-◌, ◌*◌, ◌/◌, ◌≤◌, ◌<◌, ◌≡◌, refl, ap, ◌∙◌, ◌&&◌, Option, none, some, List,
  [], ◌∷◌, ◌++◌, arith, length, take, drop, leb, nat_beq, if◌then◌else◌, append-nil, length-drop,
  take_all,
}
use simple_gnomon.Prelude.Bytes.{Bytes}

abbrev pub batch_size : ℕ
batch_size = 100

-- `int(math.Ceil(float64(tx_count) / float64(batch_size)))`, exact for the sizes of a block.
unfoldable pub batch_count : ℕ → ℕ
batch_count tx_count = (tx_count + 99) / 100

-- `hashes[from:to]`; `none` is the panic out of bounds.
unfoldable pub slice : List Bytes → ℕ → ℕ → Option (List Bytes)
slice hashes from to =
    if leb from to && leb to (length hashes)
    then some (take (to - from) (drop from hashes))
    else none

-- The hashes that `batching` asks the daemon for.
unfoldable pub batching : ℕ → ℕ → List Bytes → Option (List Bytes)
unfolding slice
batching batch count hashes =
    let end = if nat_beq (batch + 1) count then length hashes else batch_size * batch in
    slice hashes (batch_size * batch) end

-- The loop over the batches from one of them on, with the number of those left; the hashes of all its
-- requests, in the order of the batches.
unfoldable pub requests_from : ℕ → ℕ → ℕ → List Bytes → Option (List Bytes)
unfolding batching
requests_from zero batch count hashes = some []
requests_from (suc left) batch count hashes =
    let rest = requests_from left (batch + 1) count hashes in
    elim (batching batch count hashes) [
      | none ↦ none
      | some asked ↦ elim rest [ none ↦ none | some more ↦ some (asked ++ more) ]
    ]

-- All hashes that `operate_on_staged_tx` has requested when its batches are done.
unfoldable pub operate_on_staged_tx : List Bytes → Option (List Bytes)
unfolding batch_count requests_from
operate_on_staged_tx hashes =
    let count = batch_count (length hashes) in requests_from count 0 count hashes

-- A batch before the last one is empty.
batching_early :
    (batch count : ℕ) (hashes : List Bytes)
    → batch + 1 < count
    → batch_size * batch ≤ length hashes
    → batching batch count hashes ≡ some []
unfolding batching slice
batching_early batch count hashes early fits = ground (arith, take_none (batch_size * batch) hashes)
  where
    take_none : (n : ℕ) (xs : List Bytes) → take (n - n) (drop n xs) ≡ []
    take_none n xs = rw (sub_self n)
      where
        sub_self : (k : ℕ) → k - k ≡ 0
        sub_self k = omega arith

-- The last batch asks for all that is behind the others.
batching_last :
    (batch count : ℕ) (hashes : List Bytes)
    → batch + 1 ≡ count
    → batch_size * batch ≤ length hashes
    → batching batch count hashes ≡ some (drop (batch_size * batch) hashes)
unfolding batching slice
batching_last batch count hashes last fits = ground (
  arith,
  take_all (length hashes - batch_size * batch) (drop (batch_size * batch) hashes)
      (omega (arith, length-drop (batch_size * batch) hashes)),
)

no_requests : (batch count : ℕ) (hashes : List Bytes) → requests_from 0 batch count hashes ≡ some []
unfolding requests_from
no_requests batch count hashes = refl

requests_step :
    (left batch count : ℕ) (hashes asked more : List Bytes)
    → batching batch count hashes ≡ some asked
    → requests_from left (batch + 1) count hashes ≡ some more
    → requests_from (suc left) batch count hashes ≡ some (asked ++ more)
unfolding requests_from
requests_step left batch count hashes asked more here rest = rw (here, requests_from, rest)

requests_from-last :
    (left batch count : ℕ) (hashes : List Bytes)
    → batch + suc left ≡ count
    → batch_size * (count - 1) ≤ length hashes
    → requests_from (suc left) batch count hashes ≡ some (drop (batch_size * (count - 1)) hashes)
requests_from-last zero batch count hashes sum fits =
    let e : count - 1 ≡ batch = omega arith in
    rw e (
      requests_step zero batch count hashes (drop (batch_size * batch) hashes) []
        (batching_last batch count hashes (omega arith) (rw e at fits))
        (no_requests (batch + 1) count hashes)
      ∙ ap some (append-nil (drop (batch_size * batch) hashes)))
requests_from-last (suc left) batch count hashes sum fits =
    requests_step (suc left) batch count hashes [] (drop (batch_size * (count - 1)) hashes)
      (batching_early batch count hashes (omega arith) (omega arith))
      (requests_from-last left (batch + 1) count hashes (omega arith) fits)

requests_whole :
    (count : ℕ) (hashes : List Bytes)
    → 0 < count
    → batch_size * (count - 1) ≤ length hashes
    → requests_from count 0 count hashes ≡ some (drop (batch_size * (count - 1)) hashes)
requests_whole zero hashes h fits = absurd (omega arith)
requests_whole (suc left) hashes h fits =
    requests_from-last left 0 (suc left) hashes (omega arith) fits

-- The hashes that come in front of the last batch.
abbrev pub skipped : List Bytes → ℕ
skipped hashes = batch_size * (batch_count (length hashes) - 1)

-- For every block the requests together ask for the hashes of the last batch, and for no other.
pub operate_on_staged_tx_lem :
    (hashes : List Bytes) → operate_on_staged_tx hashes ≡ some (drop (skipped hashes) hashes)
unfolding operate_on_staged_tx batch_count
operate_on_staged_tx_lem [] = refl
operate_on_staged_tx_lem (h ∷ hs) =
    requests_whole (batch_count (length (h ∷ hs))) (h ∷ hs) (omega arith) (omega arith)

-- A block of at most one batch is asked for whole.
pub operate_small :
    (hashes : List Bytes) → length hashes ≤ batch_size → operate_on_staged_tx hashes ≡ some hashes
unfolding batch_count
operate_small hashes small =
    let e : skipped hashes ≡ 0 = omega arith in operate_on_staged_tx_lem hashes ∙ rw e

-- Of a block of more than one batch, at most one batch of hashes is asked for, so some are left
-- out.
pub operate_drops :
    (hashes : List Bytes)
    → batch_size < length hashes
    → (asked : List Bytes) × (operate_on_staged_tx hashes ≡ some asked)
      × (length asked ≤ batch_size)
      × (length asked < length hashes)
unfolding batch_count
operate_drops hashes large = (
  drop (skipped hashes) hashes,
  operate_on_staged_tx_lem hashes,
  omega (arith, length-drop (skipped hashes) hashes),
  omega (arith, length-drop (skipped hashes) hashes),
)

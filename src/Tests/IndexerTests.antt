-- ===== src/Tests/IndexerTests.antt =====
-- The indexer: classes and tags, batches, rounds of heights, counters and helpers.
use simple_gnomon.Prelude.{
  ℕ, zero, suc, ◌≤◌, ◌<◌, ◌≡◌, ◌≢◌, ◌↔◌, ◌⊎◌, refl, none, some, List, [], ◌∷◌, length, drop, In,
  arith,
}
use simple_gnomon.Prelude.Int.{ℤ, pos, ◌≤ℤ◌, ◌<ℤ◌}
use simple_gnomon.Prelude.Bytes.{Bytes, codes}
use simple_gnomon.Go.Strings.{has_prefix}
use simple_gnomon.Structs.{SearchFilter}
use simple_gnomon.Indexer.Classify.{class_of, index_tags, tags_of, classify}
use simple_gnomon.Indexer.Classify.Tags.{Matches, In-tags_of}
use simple_gnomon.Indexer.Classify.Class.{classify-none}
use simple_gnomon.Indexer.Batches.{
  operate_on_staged_tx, skipped, batch_size, operate_on_staged_tx_lem, operate_drops,
}
use simple_gnomon.Indexer.Heights.{Progress, queue_heights, round, queue_heights_lem}
use simple_gnomon.Indexer.Heights.Rounds.{IsOver, Restarts, round_panics, round_continues}
use simple_gnomon.Indexer.Helpers.{Queues}

abbrev tela : SearchFilter
tela = record { name = codes "tela"; terms = codes "docVersion" ∷ codes "telaVersion" ∷ [] }

abbrev tokens : SearchFilter
tokens = record { name = codes "g45"; terms = codes "G45" ∷ [] }

abbrev indices : List SearchFilter
indices = tela ∷ tokens ∷ []

abbrev document : Bytes
document = codes "STORE(docVersion, 1) G45"

class_of-document : class_of document indices ≡ codes "docVersion"
unfolding class_of has_prefix
class_of-document = refl

In-tags_of_example :
    In (codes "g45") (tags_of document indices)
    ↔ ((codes "g45" ≡ codes "all") ⊎ Matches document (codes "g45") indices)
In-tags_of_example = In-tags_of document (codes "g45") indices

document_classed : class_of document indices ≢ []
document_classed e = cc (class_of-document, e)

classify-none_example :
    (classify (codes "tela") indices (codes "aa") document ≡ none)
    ↔ (index_tags document indices ≡ [])
classify-none_example =
    classify-none (codes "tela") (codes "aa") document indices (λ e. cc (e))
      (((λ e. cc (e)), ((λ e. cc (e)), tt)), (((λ e. cc (e)), tt), tt))

abbrev hashes : ℕ → List Bytes
hashes zero = []
hashes (suc n) = codes "h" ∷ hashes n

abbrev three : List Bytes
three = codes "a" ∷ codes "b" ∷ codes "c" ∷ []

operate_on_staged_tx_example : operate_on_staged_tx three ≡ some (drop (skipped three) three)
operate_on_staged_tx_example = operate_on_staged_tx_lem three

operate_drops_example :
    (asked : List Bytes) × (operate_on_staged_tx (hashes 101) ≡ some asked)
    × (length asked ≤ batch_size)
    × (length asked < length (hashes 101))
operate_drops_example = operate_drops (hashes 101) (omega arith)

abbrev begun : Progress
begun = record {
  now = pos 12;
  lowest_height = pos 10;
  achieved_current_height = pos 0;
  starting_height = pos 0;
  ending_height = pos 0;
}

queued : queue_heights 100 begun ≡ some (pos 10 ∷ pos 11 ∷ [])
unfolding queue_heights
queued = refl

queue_heights_example :
    In (pos 11) (pos 10 ∷ pos 11 ∷ []) ↔ ((pos 10 ≤ℤ pos 11) × (pos 11 <ℤ pos 12))
queue_heights_example = queue_heights_lem 100 begun (pos 11) (pos 10 ∷ pos 11 ∷ []) queued

-- A start above the last height that was asked for.
abbrev begun_late : Progress
begun_late = record begun { ending_height = pos 5 }

round_panics_example :
    (round 100 (pos 13) begun_late ≡ none)
    ↔ (IsOver begun_late (pos 10) × (Restarts begun_late → ⊥))
round_panics_example =
    round_panics 100 (pos 13) begun_late (
      omega arith,
      (omega arith, omega arith),
      omega arith,
      (omega arith, omega arith),
      omega arith,
    )

abbrev at_top : Progress
at_top = record begun { lowest_height = pos 12; achieved_current_height = pos 13 }

first_round : round 100 (pos 13) begun ≡ some (pos 10 ∷ pos 11 ∷ [], at_top)
unfolding round
first_round = refl

round_continues_example : (next : List ℤ × Progress) × (round 100 (pos 13) at_top ≡ some next)
round_continues_example =
    round_continues 100 (pos 13) (pos 13) begun at_top (pos 10 ∷ pos 11 ∷ []) (omega arith)
      (
        omega arith,
        (omega arith, omega arith),
        omega arith,
        (omega arith, omega arith),
        omega arith,
      )
      first_round

abbrev busy : Queues
busy = record {
  block_processing = 0;
  transaction_processing = 3;
  scid_processing = 0;
  scid_db_queue = 0;
  mini_db_queue = 0;
  mini_queue = 1;
}

-- ===== src/Tests/StatsTests.antt =====
-- The stored height and counts, on an empty store.
use simple_gnomon.Prelude.{◌≡◌, refl, none, some}
use simple_gnomon.Prelude.Int.{pos}
use simple_gnomon.Prelude.Bytes.{codes}
use simple_gnomon.Bolt.{Bolt}
use simple_gnomon.Bolt.Memory.{Db, Bucket, memory}
use simple_gnomon.Bolt.Update.{engine}
use simple_gnomon.Store.Stats.{store_last_index_height, store_tx_count}
use simple_gnomon.Tests.Samples.{bolt, blank, runs}

stored_height : (store_last_index_height bolt (pos 42) blank).2 ≡ none
unfolding store_last_index_height runs
stored_height = refl

abbrev full : Bolt Db Bucket
full = memory (λ d. some 28)

full_refuses : (store_last_index_height full (pos 42) blank).2 ≡ some (engine 28)
unfolding store_last_index_height runs
full_refuses = refl

stored_count : (store_tx_count bolt (pos 7) (codes "burn") blank).2 ≡ none
unfolding store_tx_count runs
stored_count = refl

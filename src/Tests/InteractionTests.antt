-- ===== src/Tests/InteractionTests.antt =====
-- Interaction heights: the answers of `GetInteractionIndex`, and two stores in a row.
use simple_gnomon.Prelude.{◌≡◌, refl, ◌≢◌, true, none, some, List, [], ◌∷◌, inl, inr, arith}
use simple_gnomon.Prelude.Int.{ℤ, pos}
use simple_gnomon.Prelude.Bytes.{codes}
use simple_gnomon.Go.Sort.{sort_stable}
use simple_gnomon.Bolt.Memory.{Db}
use simple_gnomon.Store.{Store}
use simple_gnomon.Store.Interaction.{
  get_interaction_index, store_scid_interaction_height, get_scid_interaction_height,
  contains_height,
}
use simple_gnomon.Store.Interaction.Heights.{store_interaction_done}
use simple_gnomon.Store.Interaction.Oldest.{
  interaction_index-eq-oldest, interaction_index_not_latest, least, greatest,
}
use simple_gnomon.Bolt.{Bolt}
use simple_gnomon.Bolt.Memory.{Bucket, memory}
use simple_gnomon.Bolt.Update.{engine}
use simple_gnomon.Tests.Samples.{bolt, bolt_laws, blank, runs, heights_json, heights_json-Exact}

abbrev heights : List ℤ
heights = pos 100 ∷ pos 250 ∷ pos 300 ∷ []

-- The contract was last changed at 250, and the answer is 100.
index_at_260 : get_interaction_index (pos 260) heights ≡ pos 100
unfolding get_interaction_index sort_stable
index_at_260 = refl

index-eq-oldest_example : get_interaction_index (pos 260) heights ≡ pos 100
unfolding least greatest
index-eq-oldest_example = interaction_index-eq-oldest (pos 260) (pos 100) (pos 250 ∷ pos 300 ∷ [])

index_not_latest_example : get_interaction_index (pos 260) heights ≢ pos 250
index_not_latest_example =
    interaction_index_not_latest (pos 260) (pos 100) (pos 250) (pos 300) heights (inl refl)
      (omega arith) (inr (inl refl)) (omega arith) (omega arith) (inr (inr (inl refl)))
      (omega arith) (omega arith)

abbrev once : Store Db
once = (store_scid_interaction_height bolt heights_json (codes "aa") (pos 9) blank).0

stored_again : (store_scid_interaction_height bolt heights_json (codes "aa") (pos 5) once).2 ≡ none
unfolding store_scid_interaction_height runs
stored_again = refl

store_interaction_example :
    let (s', changes, e) =
      store_scid_interaction_height bolt heights_json (codes "aa") (pos 5) once in
    (get_scid_interaction_height bolt heights_json (codes "aa") s' ≡ pos 9 ∷ pos 5 ∷ [])
    × (changes ≡ true)
unfolding store_scid_interaction_height get_scid_interaction_height contains_height runs
store_interaction_example =
    store_interaction_done bolt heights_json bolt_laws heights_json-Exact (codes "aa") (codes "aa")
      (pos 5) once stored_again

abbrev full : Bolt Db Bucket
full = memory (λ d. some 28)

full_refuses :
    (store_scid_interaction_height full heights_json (codes "aa") (pos 5) blank).2
    ≡ some (engine 28)
unfolding store_scid_interaction_height runs
full_refuses = refl

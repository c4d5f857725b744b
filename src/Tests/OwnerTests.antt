-- ===== src/Tests/OwnerTests.antt =====
-- The records of a contract and the listings over them.
use simple_gnomon.Prelude.{◌≡◌, refl, ◌↔◌, none, some, [], ◌∷◌, In}
use simple_gnomon.Prelude.Bytes.{codes, ◌==◌}
use simple_gnomon.Prelude.Assoc.{lookup}
use simple_gnomon.Go.Strings.{has_prefix}
use simple_gnomon.Go.Sort.{Distinct, Pairwise}
use simple_gnomon.Bolt.{Bolt, scan}
use simple_gnomon.Bolt.Memory.{Db, Bucket, memory}
use simple_gnomon.Bolt.Update.{engine}
use simple_gnomon.Store.{Store}
use simple_gnomon.Store.Owner.{
  store_owner, get_owner, get_all_owners_and_scids, get_all_scids_with_class,
  get_all_scids_and_headers, get_all_classes, get_all_owners, get_all_tags, get_all_scids_by_class,
  put_each, class_bucket, owner_bucket,
}
use simple_gnomon.Store.Owner.Records.{store_owner_answers}
use simple_gnomon.Store.Owner.Listings.{get_all_classes_lem, get_all_owners_lem, values, NotAbove}
use simple_gnomon.Tests.Samples.{bolt, bolt_laws, blank, runs}

abbrev one : Store Db
one =
    (store_owner bolt (codes "aa") (codes "ann") (codes "h") (codes "tela") (codes "all,tela")
      (codes "12") blank).0

abbrev two : Store Db
two =
    (store_owner bolt (codes "bb") (codes "ann") (codes "g") (codes "tela") (codes "all")
      (codes "7") one).0

owner_stored :
    (store_owner bolt
      (codes "bb")
      (codes "ann")
      (codes "g")
      (codes "tela")
      (codes "all")
      (codes "7")
      one).2
    ≡ none
unfolding store_owner put_each runs
owner_stored = refl

-- One owner of two contracts is listed twice, their class once.
listings :
    (get_all_owners bolt two ≡ codes "ann" ∷ codes "ann" ∷ [])
    × (get_all_classes bolt two ≡ codes "tela" ∷ [])
    × (get_all_tags bolt two ≡ codes "all" ∷ codes "tela" ∷ [])
    × (get_all_scids_by_class bolt (codes "tela") two ≡ codes "aa" ∷ codes "bb" ∷ [])
unfolding store_owner get_all_owners get_all_classes get_all_tags get_all_scids_by_class put_each
    has_prefix runs
listings = (refl, refl, refl, refl)

store_owner_answers_example :
    (get_owner bolt (codes "bb") two ≡ codes "ann")
    × (lookup (codes "bb") (get_all_owners_and_scids bolt two) ≡ some (codes "ann"))
    × (lookup (codes "bb") (get_all_scids_with_class bolt two) ≡ some (codes "tela"))
    × (lookup (codes "bb") (get_all_scids_and_headers bolt two) ≡ some (codes "g"))
unfolding ◌==◌
store_owner_answers_example =
    store_owner_answers bolt bolt_laws (codes "bb") (codes "ann") (codes "g") (codes "tela")
      (codes "all") (codes "7") (codes "bb") one owner_stored

get_all_classes_example :
    (In (codes "tela") (get_all_classes bolt two)
      ↔ In (codes "tela") (values (scan bolt two.db class_bucket)))
    × Distinct (get_all_classes bolt two)
    × Pairwise NotAbove (get_all_classes bolt two)
get_all_classes_example = get_all_classes_lem bolt (codes "tela") two

get_all_owners_example : get_all_owners bolt two ≡ values (scan bolt two.db owner_bucket)
get_all_owners_example = get_all_owners_lem bolt two

abbrev full : Bolt Db Bucket
full = memory (λ d. some 28)

full_refuses :
    (store_owner full
      (codes "aa")
      (codes "ann")
      (codes "h")
      (codes "tela")
      (codes "all")
      (codes "7")
      blank).2
    ≡ some (engine 28)
unfolding store_owner put_each runs
full_refuses = refl

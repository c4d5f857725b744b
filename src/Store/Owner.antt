-- ===== src/Store/Owner.antt =====
-- The owner, headers, class, tags and install height of a contract in db/bbolt.go: `StoreOwner`,
-- `GetOwner` and the listings over these five buckets.
pub mod Records
pub mod Listings
use simple_gnomon.Prelude.{
  ◌≡◌, Bool, true, false, Option, none, some, List, [], ◌∷◌, ◌++◌, map, if◌then◌else◌, is_some,
}
use simple_gnomon.Prelude.Int.{ℤ, ltb_ℤ}
use simple_gnomon.Prelude.Bytes.{Bytes, codes, ◌==◌}
use simple_gnomon.Prelude.Assoc.{Assoc, lookup, insert}
use simple_gnomon.Prelude.Keys.{collect}
use simple_gnomon.Go.Strconv.{parse_int}
use simple_gnomon.Go.Strings.{contains, split, slice_contains}
use simple_gnomon.Go.Sort.{sort_bytes}
use simple_gnomon.Bolt.{Bolt, ok, err, read, scan}
use simple_gnomon.Bolt.Update.{Outcome, update, in_bucket, bucket, engine}
use simple_gnomon.Store.{Store, Result, with_db}

abbrev pub owner_bucket : Bytes
owner_bucket = codes "owner"

abbrev pub headers_bucket : Bytes
headers_bucket = codes "headers"

abbrev pub class_bucket : Bytes
class_bucket = codes "class"

abbrev pub tags_bucket : Bytes
tags_bucket = codes "tags"

abbrev pub height_bucket : Bytes
height_bucket = codes "height"

-- The rounds of the loop in `StoreOwner`: a bucket and the value that the switch chooses for it.
abbrev pub owner_fields : Bytes → Bytes → Bytes → Bytes → Bytes → Assoc Bytes
owner_fields owner headers class tags height =
    (owner_bucket, owner)
    ∷ (headers_bucket, headers)
    ∷ (class_bucket, class)
    ∷ (tags_bucket, tags)
    ∷ (height_bucket, height)
    ∷ []

-- The values of a bucket that a loop has not met before, in its order.
unfoldable pub unique_values : List Bytes → Assoc Bytes → List Bytes
unfolding slice_contains
unique_values seen [] = []
unique_values seen ((k, v) ∷ m) =
    let met = slice_contains seen v in
    let rest = unique_values (if met then seen else v ∷ seen) m in if met then rest else v ∷ rest

-- The tags of comma-separated values that were not met before.
unfoldable pub unique_pieces : List Bytes → List Bytes → List Bytes
unfolding slice_contains
unique_pieces seen [] = []
unique_pieces seen (tag ∷ tags) =
    let met = slice_contains seen tag in
    let rest = unique_pieces (if met then seen else tag ∷ seen) tags in
    if met then rest else tag ∷ rest

unfoldable pub all_pieces : List Bytes → List Bytes
unfolding split
all_pieces [] = []
all_pieces (v ∷ values) = split v (codes ",") ++ all_pieces values

-- The keys of the values that contain a text.
unfoldable pub keys_with : Bytes → Assoc Bytes → List Bytes
unfolding contains
keys_with sub [] = []
keys_with sub ((k, v) ∷ m) = let rest = keys_with sub m in if contains v sub then k ∷ rest else rest

-- `GetAllOwners`: the test looks into `unique`, which the loop never writes.
unfoldable pub owners_loop : Assoc Bool → Assoc Bytes → List Bytes
owners_loop unique [] = []
owners_loop unique ((k, v) ∷ m) =
    let rest = owners_loop unique m in if is_some (lookup v unique) then rest else v ∷ rest

-- `GetAllSCIDs`: the contracts with their heights, up to the first value that is no number.
unfoldable pub install_heights : Assoc Bytes → List (ℤ × Bytes)
install_heights [] = []
install_heights ((k, v) ∷ m) =
    let rest = install_heights m in
    let (h, fine) = parse_int v in if fine then (h, k) ∷ rest else []

module _ {Db Bucket : Type 0} (bolt : Bolt Db Bucket) where
  unfoldable pub put_each : Assoc Bytes → Bytes → Bool → Db → Outcome Db
  put_each [] scid changes d = (d, changes, none)
  put_each ((name, value) ∷ fields) scid changes d = elim (bolt.create d name) [
    | err c ↦ (d, changes, some (bucket c))
    | ok d1 ↦ elim (bolt.put d1 name scid value) [
      | err c ↦ (d1, changes, some (engine c))
      | ok d2 ↦ put_each fields scid true d2
    ]
  ]

  unfoldable pub store_owner : Bytes → Bytes → Bytes → Bytes → Bytes → Bytes → Store Db → Result Db
  unfolding with_db
  store_owner scid owner headers class tags height s =
      with_db s
        (update bolt (put_each (owner_fields owner headers class tags height) scid false) s.db)

  -- Empty if the contract is not known.
  unfoldable pub get_owner : Bytes → Store Db → Bytes
  get_owner scid s = elim (read bolt s.db owner_bucket scid) [ none ↦ [] | some v ↦ v ]

  unfoldable pub get_all_owners_and_scids : Store Db → Assoc Bytes
  get_all_owners_and_scids s = collect [] (scan bolt s.db owner_bucket)

  unfoldable pub get_all_classes : Store Db → List Bytes
  unfolding unique_values sort_bytes
  get_all_classes s = sort_bytes (unique_values [] (scan bolt s.db class_bucket))

  -- The order in which Go visits the two maps of the method is not defined, and does not show in
  -- the sorted result.
  unfoldable pub get_all_tags : Store Db → List Bytes
  unfolding unique_values all_pieces unique_pieces sort_bytes
  get_all_tags s =
      sort_bytes (unique_pieces [] (all_pieces (unique_values [] (scan bolt s.db tags_bucket))))

  unfoldable pub get_all_scids_with_class : Store Db → Assoc Bytes
  get_all_scids_with_class s = collect [] (scan bolt s.db class_bucket)

  unfoldable pub get_all_scids_by_class : Bytes → Store Db → List Bytes
  unfolding keys_with
  get_all_scids_by_class class s = keys_with class (scan bolt s.db class_bucket)

  unfoldable pub get_all_scids_by_tag : Bytes → Store Db → List Bytes
  unfolding keys_with
  get_all_scids_by_tag tag s = keys_with tag (scan bolt s.db tags_bucket)

  -- `sort.Slice` promises no order among equal heights: `arrange` is the order that it leaves.
  unfoldable pub get_all_scids : (List (ℤ × Bytes) → List (ℤ × Bytes)) → Store Db → List Bytes
  unfolding install_heights
  get_all_scids arrange s =
      map (λ p. p.1) (arrange (install_heights (scan bolt s.db height_bucket)))

  unfoldable pub get_all_owners : Store Db → List Bytes
  unfolding owners_loop
  get_all_owners s = owners_loop [] (scan bolt s.db owner_bucket)

  unfoldable pub get_all_scids_and_headers : Store Db → Assoc Bytes
  get_all_scids_and_headers s = collect [] (scan bolt s.db headers_bucket)

  unfoldable pub get_all_headers : Store Db → List Bytes
  get_all_headers s = map (λ p. p.1) (scan bolt s.db headers_bucket)

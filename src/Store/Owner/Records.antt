-- ===== src/Store/Owner/Records.antt =====
-- What `StoreOwner` does to the five records of a contract.
use simple_gnomon.Prelude.{
  ◌≡◌, refl, ◌≢◌, ap, ◌∙◌, Bool, true, false, Option, none, some, [], ◌∷◌, arith, if◌then◌else◌,
  inl, inr, sym,
}
use simple_gnomon.Prelude.Bytes.{Bytes, ◌==◌}
use simple_gnomon.Prelude.Assoc.{Assoc, lookup}
use simple_gnomon.Prelude.Keys.{collect, lookup-collect}
use simple_gnomon.Bolt.{Bolt, Laws, Res-cases, ok, read, read-scan, scan, scan-Ascending}
use simple_gnomon.Bolt.Update.{update, finish_done, finish_failed, Sets, read-create}
use simple_gnomon.Store.{Store, read-Sets}
use simple_gnomon.Store.Owner.{
  owner_bucket, headers_bucket, class_bucket, owner_fields, put_each, store_owner, get_owner,
  get_all_owners_and_scids, get_all_scids_with_class, get_all_scids_and_headers,
}

-- What a bucket holds under the key after the rounds: the last value put into it, or the old one.
abbrev pub overlay : Assoc Bytes → Bytes → Option Bytes → Option Bytes
overlay [] name old = old
overlay ((n, v) ∷ fields) name old = overlay fields name (if n == name then some v else old)

whole : (o : Option Bytes) → elim o [ none ↦ none | some v ↦ some v ] ≡ o
whole none = refl
whole (some v) = refl

module _ {Db Bucket : Type 0} (bolt : Bolt Db Bucket) (laws : Laws bolt) where
  put_each_stored :
      (n v : Bytes) (fields : Assoc Bytes) (scid : Bytes) (changes : Bool) (d d1 d2 : Db)
      → bolt.create d n ≡ ok d1
      → bolt.put d1 n scid v ≡ ok d2
      → put_each bolt ((n, v) ∷ fields) scid changes d ≡ put_each bolt fields scid true d2
  unfolding put_each
  put_each_stored n v fields scid changes d d1 d2 created stored = rw (created, put_each, stored)

  after_put :
      (n v : Bytes) (fields : Assoc Bytes) (scid : Bytes) (d d1 d2 : Db) (name key : Bytes)
      → bolt.create d n ≡ ok d1
      → bolt.put d1 n scid v ≡ ok d2
      → (if scid == key then overlay fields name (read bolt d2 name key) else read bolt d2 name key)
        ≡ (if scid == key
            then overlay ((n, v) ∷ fields) name (read bolt d name key)
            else read bolt d name key)
  after_put n v fields scid d d1 d2 name key created stored =
      let sets : Sets bolt d1 d2 n scid v = record {
        entries = λ other. laws.scan_put d1 d2 n scid v other stored;
      } in
      ground (
        arith,
        read-Sets bolt laws d1 d2 n scid v name key sets,
        read-create bolt laws d d1 n name key created,
      )

  put_each-read :
      (fields : Assoc Bytes) (scid : Bytes) (changes : Bool) (d : Db) (name key : Bytes)
      → (put_each bolt fields scid changes d).2 ≡ none
      → read bolt (put_each bolt fields scid changes d).0 name key
        ≡ (if scid == key then overlay fields name (read bolt d name key) else read bolt d name key)
  unfolding put_each
  put_each-read [] scid changes d name key h = ground arith
  put_each-read ((n, v) ∷ fields) scid changes d name key h = elim (Res-cases (bolt.create d n)) [
    | inl (d1, created) ↦ elim (Res-cases (bolt.put d1 n scid v)) [
      | inl (d2, stored) ↦
          let same = put_each_stored n v fields scid changes d d1 d2 created stored in
          rw same (
            put_each-read fields scid true d2 name key (rw same at h)
            ∙ after_put n v fields scid d d1 d2 name key created stored)
      | inr (c, refused) ↦ absurd (cc (rw (created, put_each, refused) at h))
    ]
    | inr (c, refused) ↦ absurd (cc (rw (refused, put_each) at h))
  ]

  -- Storing a contract's records without an error: each of the five buckets holds the given value
  -- under the contract, and no other entry of any bucket changes.
  pub store_owner_done :
      (scid owner headers class tags height name key : Bytes) (s : Store Db)
      → (store_owner bolt scid owner headers class tags height s).2 ≡ none
      → read bolt (store_owner bolt scid owner headers class tags height s).0.db name key ≡ (
          if scid == key
          then overlay (owner_fields owner headers class tags height) name (read bolt s.db name key)
          else read bolt s.db name key)
  unfolding store_owner update
  store_owner_done scid owner headers class tags height name key s h =
      let fields = owner_fields owner headers class tags height in
      let (same, fine) = finish_done bolt s.db (put_each bolt fields scid false s.db) h in
      rw same (put_each-read fields scid false s.db name key fine)

  -- Storing a contract's records with an error, after any of its rounds: the store is as it was.
  pub store_owner_failed :
      (scid owner headers class tags height : Bytes) (s : Store Db)
      → (store_owner bolt scid owner headers class tags height s).2 ≢ none
      → (store_owner bolt scid owner headers class tags height s).0 ≡ s
  unfolding store_owner update
  store_owner_failed scid owner headers class tags height s h =
      ap (λ d. record s { db = d })
        (finish_failed bolt s.db
          (put_each bolt (owner_fields owner headers class tags height) scid false s.db) h)

  lookup_listing :
      (d : Db) (name key : Bytes)
      → lookup key (collect [] (scan bolt d name)) ≡ read bolt d name key
  unfolding lookup
  lookup_listing d name key =
      lookup-collect [] (scan bolt d name) key (scan-Ascending bolt laws d name)
      ∙ whole (lookup key (scan bolt d name))
      ∙ sym (read-scan bolt laws d name key)

  -- After a contract's records are stored without an error, its owner is the one given, and the
  -- listings of owners, classes and headers have the given values for it; for every other contract
  -- the four answers are the old ones.
  pub store_owner_answers :
      (scid owner headers class tags height key : Bytes) (s : Store Db)
      → (store_owner bolt scid owner headers class tags height s).2 ≡ none
      → let s' = (store_owner bolt scid owner headers class tags height s).0 in
        (get_owner bolt key s' ≡ (if scid == key then owner else get_owner bolt key s))
        × (lookup key (get_all_owners_and_scids bolt s')
            ≡ (if scid == key then some owner else lookup key (get_all_owners_and_scids bolt s)))
        × (lookup key (get_all_scids_with_class bolt s')
            ≡ (if scid == key then some class else lookup key (get_all_scids_with_class bolt s)))
        × (lookup key (get_all_scids_and_headers bolt s')
            ≡ (if scid == key then some headers else lookup key (get_all_scids_and_headers bolt s)))
  unfolding get_owner get_all_owners_and_scids get_all_scids_with_class get_all_scids_and_headers
  store_owner_answers scid owner headers class tags height key s h =
      let done =
        λ (name : Bytes). store_owner_done scid owner headers class tags height name key s h in
      let d' = (store_owner bolt scid owner headers class tags height s).0.db in
      (
        unfold ◌==◌ in ground (arith, done owner_bucket),
        rw (lookup_listing d' owner_bucket key, lookup_listing s.db owner_bucket key)
            (unfold ◌==◌ in done owner_bucket),
        rw (lookup_listing d' class_bucket key, lookup_listing s.db class_bucket key)
            (unfold ◌==◌ in done class_bucket),
        rw (lookup_listing d' headers_bucket key, lookup_listing s.db headers_bucket key)
            (unfold ◌==◌ in done headers_bucket),
      )

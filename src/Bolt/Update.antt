-- ===== src/Bolt/Update.antt =====
-- `DB.Update`: a transaction that is kept whole or not at all.
use simple_gnomon.Prelude.{
  ℕ, ◌≡◌, refl, ap, sym, ◌∙◌, ◌≢◌, ◌≤◌, length, Bool, true, false, Option, none, some, [],
  if◌then◌else◌, inl, inr, Option-cases,
}
use simple_gnomon.Prelude.Bytes.{Bytes, ◌==◌}
use simple_gnomon.Prelude.Assoc.{lookup, insert_key}
use simple_gnomon.Bolt.{Bolt, Laws, ok, err, Res-cases, read, scan, read-scan}

-- The errors that the store's methods return.
pub data Error : Type 0 where
  -- `fmt.Errorf("bucket: %s", err)`
  bucket : ℕ → Error
  -- the engine's own error, of `Put` or of the commit
  engine : ℕ → Error
  -- an error of `json.Marshal`, wrapped
  marshal : ℕ → Error
  -- `strconv.ParseInt` refused a stored number
  not_a_number : Error
  -- `errors.New` of `AddSCIDToIndex`
  no_scid no_vars_stored no_owner_stored : Error

-- What a transaction's function leaves: the database as it has written it, the captured variable
-- `changes`, and the error that it returns.
abbrev pub Outcome : Type 0 → Type 0
Outcome Db = Db × Bool × Option Error

module _ {Db Bucket : Type 0} (bolt : Bolt Db Bucket) where
  unfoldable pub finish : Db → Outcome Db → Outcome Db
  finish d (d', changes, some e) = (d, changes, some e)
  finish d (d', changes, none) = elim (bolt.commit d') [
    | none ↦ (d', changes, none)
    | some c ↦ (d, changes, some (engine c))
  ]

  -- `bbs.DB.Update(body)`: an error of the function or of the commit rolls the database back, and
  -- leaves the captured variable as it is.
  unfoldable pub update : (Db → Outcome Db) → Db → Outcome Db
  unfolding finish
  update body d = finish d (body d)

  -- Without an error the transaction's outcome stands.
  pub finish_done :
      (d : Db) (o : Outcome Db) → (finish d o).2 ≡ none → (finish d o ≡ o) × (o.2 ≡ none)
  unfolding finish
  finish_done d (d', changes, some e) h = absurd (cc h)
  finish_done d (d', changes, none) h = elim (Option-cases (bolt.commit d')) [
    | inl kept ↦ (rw (kept, finish), refl)
    | inr (c, lost) ↦ absurd (cc (rw (lost, finish) at h))
  ]

  -- After an error the database is the one that the transaction began with.
  pub finish_failed : (d : Db) (o : Outcome Db) → (finish d o).2 ≢ none → (finish d o).0 ≡ d
  unfolding finish
  finish_failed d (d', changes, some e) h = refl
  finish_failed d (d', changes, none) h = elim (Option-cases (bolt.commit d')) [
    | inl kept ↦ absurd (h (rw (kept, finish)))
    | inr (c, lost) ↦ rw (lost, finish)
  ]

  unfoldable pub put_entry : Bytes → Bytes → Bytes → Db → Outcome Db
  put_entry name key value d = elim (bolt.put d name key value) [
    | ok d' ↦ (d', true, none)
    | err c ↦ (d, true, some (engine c))
  ]

  put_entry_ok :
      (name k v : Bytes) (d d' : Db)
      → bolt.put d name k v ≡ ok d'
      → put_entry name k v d ≡ (d', true, none)
  unfolding put_entry
  put_entry_ok name k v d d' stored = rw (stored, put_entry)

  -- The function that most writers pass to `Update`: create the bucket, put one entry and set
  -- `changes`, whatever `Put` returned.
  unfoldable pub put_in : Bytes → Bytes → Bytes → Db → Outcome Db
  unfolding put_entry
  put_in name key value d = elim (bolt.create d name) [
    | ok d' ↦ put_entry name key value d'
    | err c ↦ (d, false, some (bucket c))
  ]

  -- `b, err := tx.CreateBucketIfNotExists(name)` in front of the rest of a transaction's function.
  unfoldable pub in_bucket : Bytes → (Db → Outcome Db) → Db → Outcome Db
  in_bucket name rest d = elim (bolt.create d name) [
    | ok d' ↦ rest d'
    | err c ↦ (d, false, some (bucket c))
  ]

  -- Without an error the bucket has been created, and the rest has run.
  pub in_bucket_done :
      (name : Bytes) (rest : Db → Outcome Db) (d : Db)
      → (in_bucket name rest d).2 ≡ none
      → (d1 : Db) × (bolt.create d name ≡ ok d1) × (in_bucket name rest d ≡ rest d1)
  unfolding in_bucket
  in_bucket_done name rest d h = elim (Res-cases (bolt.create d name)) [
    | inl (d1, created) ↦ (d1, created, rw (created, in_bucket))
    | inr (c, refused) ↦ absurd (cc (rw (refused, in_bucket) at h))
  ]

  -- One entry of one bucket is set.
  pub record Sets (d d' : Db) (name k v : Bytes) : Type 0 where
    pub entries :
        (other : Bytes)
        → scan bolt d' other
          ≡ (if name == other then insert_key k v (scan bolt d other) else scan bolt d other)

  -- How an update ends that sets one entry: it is done and says so, or nothing has changed.
  pub record Ends (d : Db) (name k v : Bytes) (o : Outcome Db) : Type 0 where
    pub done : o.2 ≡ none → Sets d o.0 name k v × (o.1 ≡ true)
    pub failed : o.2 ≢ none → o.0 ≡ d

  pub put_in_stored :
      (name k v : Bytes) (d d1 d2 : Db)
      → bolt.create d name ≡ ok d1
      → bolt.put d1 name k v ≡ ok d2
      → put_in name k v d ≡ (d2, true, none)
  unfolding put_in
  put_in_stored name k v d d1 d2 created stored = rw (created, put_in, stored, put_entry)

  -- `changes` is set although nothing was stored.
  pub put_in_refused :
      (name k v : Bytes) (d d1 : Db) (c : ℕ)
      → bolt.create d name ≡ ok d1
      → bolt.put d1 name k v ≡ err c
      → put_in name k v d ≡ (d1, true, some (engine c))
  unfolding put_in
  put_in_refused name k v d d1 c created refused = rw (created, put_in, refused, put_entry)

  pub put_in_no_bucket :
      (name k v : Bytes) (d : Db) (c : ℕ)
      → bolt.create d name ≡ err c
      → put_in name k v d ≡ (d, false, some (bucket c))
  unfolding put_in
  put_in_no_bucket name k v d c refused = rw (refused, put_in)

  module _ (laws : Laws bolt) where
    pub put_entry-Sets :
        (name k v : Bytes) (d : Db)
        → (put_entry name k v d).2 ≡ none
        → Sets d (put_entry name k v d).0 name k v × ((put_entry name k v d).1 ≡ true)
    unfolding put_entry
    put_entry-Sets name k v d h = elim (Res-cases (bolt.put d name k v)) [
      | inl (d', stored) ↦
          rw (put_entry_ok name k v d d' stored)
            (record { entries = λ other. laws.scan_put d d' name k v other stored }, refl)
      | inr (c, refused) ↦ absurd (cc (rw (refused, put_entry) at h))
    ]

    pub read-create :
        (d d' : Db) (name other k : Bytes)
        → bolt.create d name ≡ ok d'
        → read bolt d' other k ≡ read bolt d other k
    read-create d d' name other k created =
        read-scan bolt laws d' other k
        ∙ ap (lookup k) (laws.scan_create d d' name other created)
        ∙ sym (read-scan bolt laws d other k)

    put_in-Sets :
        (name k v : Bytes) (d : Db)
        → (put_in name k v d).2 ≡ none
        → Sets d (put_in name k v d).0 name k v × ((put_in name k v d).1 ≡ true)
    put_in-Sets name k v d h = elim (Res-cases (bolt.create d name)) [
      | inl (d1, created) ↦ elim (Res-cases (bolt.put d1 name k v)) [
        | inl (d2, stored) ↦ rw (put_in_stored name k v d d1 d2 created stored) (
          record {
            entries = λ other.
                rw (laws.scan_put d1 d2 name k v other stored)
                  (rw (laws.scan_create d d1 name other created));
          },
          refl,
        )
        | inr (c, refused) ↦ absurd (cc (rw (put_in_refused name k v d d1 c created refused) at h))
      ]
      | inr (c, refused) ↦ absurd (cc (rw (put_in_no_bucket name k v d c refused) at h))
    ]

    pub update-Ends : (name k v : Bytes) (d : Db) → Ends d name k v (update (put_in name k v) d)
    unfolding update
    update-Ends name k v d = record {
      done = λ h.
          let (same, fine) = finish_done d (put_in name k v d) h in
          rw same (put_in-Sets name k v d fine);
      failed = finish_failed d (put_in name k v d);
    }

    pub update_succeeds :
        (name k v : Bytes) (d : Db)
        → ((d' : Db) → bolt.commit d' ≡ none)
        → name ≢ []
        → k ≢ []
        → length k ≤ 32768
        → length v ≤ 2147483646
        → (update (put_in name k v) d).2 ≡ none
    unfolding update finish
    update_succeeds name k v d commits n e kl vl =
        let (d1, created) = laws.create_ok d name n in
        let (d2, stored) = laws.put_ok d1 name k v (laws.find_create d d1 name created) e kl vl in
        rw (put_in_stored name k v d d1 d2 created stored) (rw (commits d2, finish))

-- ===== src/Bolt/Memory.antt =====
-- An engine in memory, which satisfies the laws of `Bolt` and runs. A database is an association list
-- of buckets, and a bucket the puts made on it, the newest first.
use simple_gnomon.Prelude.{
  ℕ, ◌≡◌, refl, ◌≢◌, true, Option, none, some, [], ◌∷◌, ◌≤◌, arith, length, leb, is_some,
  if◌then◌else◌, inl, inr, Option-cases,
}
use simple_gnomon.Prelude.Bytes.{Bytes, ◌==◌, ==_iff, ==_refl}
use simple_gnomon.Prelude.Assoc.{Assoc, lookup, insert, insert_key, lookup-insert}
use simple_gnomon.Prelude.Keys.{Ascending, insert_key-Ascending}
use simple_gnomon.Bolt.{Bolt, Laws, Res, ok, err, scan}

abbrev pub Bucket : Type 0
Bucket = Assoc Bytes

abbrev pub Db : Type 0
Db = Assoc Bucket

-- The entries of a bucket, in the order of their keys.
unfoldable pub entries : Bucket → Assoc Bytes
entries [] = []
entries ((k, v) ∷ puts) = insert_key k v (entries puts)

entries-Ascending : (b : Bucket) → Ascending (entries b)
unfolding entries
entries-Ascending [] = tt
entries-Ascending ((k, v) ∷ puts) = insert_key-Ascending k v (entries puts) (entries-Ascending puts)

-- `bbolt.ErrBucketNameRequired` and the like.
unfoldable pub create : Db → Bytes → Res Db
create d [] = err 1
create d (c ∷ name) = elim (lookup (c ∷ name) d) [
  | none ↦ ok (insert (c ∷ name) [] d)
  | some b ↦ ok d
]

unfoldable pub put_bucket : Db → Bytes → Bytes → Bytes → Res Db
put_bucket d name k v = elim (lookup name d) [
  | none ↦ err 2
  | some b ↦ ok (insert name ((k, v) ∷ b) d)
]

unfoldable pub put : Db → Bytes → Bytes → Bytes → Res Db
unfolding put_bucket
put d name [] v = err 3
put d name (c ∷ k) v =
    if leb (length (c ∷ k)) 32768
    then (if leb (length v) 2147483646 then put_bucket d name (c ∷ k) v else err 4)
    else err 5

-- `fails` chooses the commits that fail.
abbrev pub memory : (Db → Option ℕ) → Bolt Db Bucket
memory fails = record {
  find = λ d name. lookup name d;
  get = λ b k. lookup k (entries b);
  cursor = entries;
  create = create;
  put = put;
  commit = fails;
}

module _ (fails : Db → Option ℕ) where
  find_create : (d d' : Db) (name : Bytes) → create d name ≡ ok d' → is_some (lookup name d') ≡ true
  unfolding create
  find_create d d' [] h = absurd (cc h)
  find_create d d' (c ∷ name) h =
      ground (arith, lookup-insert (c ∷ name) (c ∷ name) [] d, ==_refl (c ∷ name))

  create_ok : (d : Db) (name : Bytes) → name ≢ [] → (d' : Db) × (create d name ≡ ok d')
  unfolding create
  create_ok d [] h = absurd (h refl)
  create_ok d (c ∷ name) h = elim (Option-cases (lookup (c ∷ name) d)) [
    | inl e ↦ (insert (c ∷ name) [] d, rw (e, create))
    | inr (b, e) ↦ (d, rw (e, create))
  ]

  scan_create :
      (d d' : Db) (name other : Bytes)
      → create d name ≡ ok d'
      → scan (memory fails) d' other ≡ scan (memory fails) d other
  unfolding create scan entries
  scan_create d d' [] other h = absurd (cc h)
  scan_create d d' (c ∷ name) other h =
      ground (arith, lookup-insert (c ∷ name) other [] d, ==_iff (c ∷ name) other)

  scan_put :
      (d d' : Db) (name k v other : Bytes)
      → put d name k v ≡ ok d'
      → scan (memory fails) d' other ≡ (
          if name == other
          then insert_key k v (scan (memory fails) d other)
          else scan (memory fails) d other)
  unfolding put put_bucket scan entries
  scan_put d d' name [] v other h = absurd (cc h)
  scan_put d d' name (c ∷ k) v other h = elim (Option-cases (lookup name d)) [
    | inl e ↦ ground (arith, e)
    | inr (b, e) ↦ ground (arith, e, lookup-insert name other ((c ∷ k, v) ∷ b) d, ==_iff name other)
  ]

  put_ok :
      (d : Db) (name k v : Bytes)
      → is_some (lookup name d) ≡ true
      → k ≢ []
      → length k ≤ 32768
      → length v ≤ 2147483646
      → (d' : Db) × (put d name k v ≡ ok d')
  unfolding put put_bucket
  put_ok d name [] v h ne kl vl = absurd (ne refl)
  put_ok d name (c ∷ k) v h ne kl vl = elim (Option-cases (lookup name d)) [
    | inl e ↦ absurd (cc (rw e at h))
    | inr (b, e) ↦ (insert name ((c ∷ k, v) ∷ b) d, ground (arith, e))
  ]

  -- The laws hold, whatever commits fail.
  pub memory_laws : Laws (memory fails)
  unfolding scan
  memory_laws = record {
    get_cursor = λ b k. refl;
    cursor_ascending = entries-Ascending;
    scan_create = scan_create;
    scan_put = scan_put;
    create_ok = create_ok;
    find_create = find_create;
    put_ok = put_ok;
  }

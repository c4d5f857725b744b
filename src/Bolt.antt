-- ===== src/Bolt.antt =====
-- The key-value engine under `db/bbolt.go`, go.etcd.io/bbolt, as the store calls it. It is no code of
-- the repository: its operations are a parameter, and `Laws` is what its documentation says of them.
pub mod Update
pub mod Memory
use simple_gnomon.Prelude.{
  ℕ, ◌≡◌, refl, ◌≢◌, Bool, true, Option, none, some, List, [], ◌≤◌, arith, length, is_some,
  if◌then◌else◌, ◌⊎◌, inl, inr, Option-cases,
}
use simple_gnomon.Prelude.Bytes.{Bytes, ◌==◌}
use simple_gnomon.Prelude.Assoc.{Assoc, lookup, insert_key}
use simple_gnomon.Prelude.Keys.{Ascending}

-- The result of a call that returns an error; an error is known by a number.
pub data Res {ℓ} (A : Type ℓ) : Type ℓ where
  ok : A → Res A
  err : ℕ → Res A

pub Res-cases {ℓ} : {A : Type ℓ} (r : Res A) → ((a : A) × (r ≡ ok a)) ⊎ ((c : ℕ) × (r ≡ err c))
Res-cases (ok a) = inl (a, refl)
Res-cases (err c) = inr (c, refl)

pub record Bolt (Db Bucket : Type 0) : Type 0 where
  -- `tx.Bucket(name)`, nil if there is none
  pub find : Db → Bytes → Option Bucket
  -- `b.Get(key)`
  pub get : Bucket → Bytes → Option Bytes
  -- what `c.First()` and then `c.Next()` return, up to nil
  pub cursor : Bucket → List (Bytes × Bytes)
  -- `tx.CreateBucketIfNotExists(name)`
  pub create : Db → Bytes → Res Db
  -- `b.Put(key, value)` on the bucket of that name
  pub put : Db → Bytes → Bytes → Bytes → Res Db
  -- the error with which the commit at the end of `Update` fails, if it does
  pub commit : Db → Option ℕ

module _ {Db Bucket : Type 0} (bolt : Bolt Db Bucket) where
  -- `if b != nil { v := b.Get(key) }`
  unfoldable pub read : Db → Bytes → Bytes → Option Bytes
  read d name key = elim (bolt.find d name) [ none ↦ none | some b ↦ bolt.get b key ]

  -- `if b != nil { c := b.Cursor(); for … }`
  unfoldable pub scan : Db → Bytes → Assoc Bytes
  scan d name = elim (bolt.find d name) [ none ↦ [] | some b ↦ bolt.cursor b ]

  -- A bucket has one value for a key, which `Get` and a cursor agree on; a cursor goes in the order
  -- of the keys; creating a bucket changes no entry; `Put` sets one entry of one bucket. A bucket
  -- can be created under any name that is not empty, and `Put` accepts keys and values within the
  -- documented limits.
  pub record Laws : Type 0 where
    pub get_cursor : (b : Bucket) (k : Bytes) → bolt.get b k ≡ lookup k (bolt.cursor b)
    pub cursor_ascending : (b : Bucket) → Ascending (bolt.cursor b)
    pub scan_create :
        (d d' : Db) (name other : Bytes) → bolt.create d name ≡ ok d' → scan d' other ≡ scan d other
    pub scan_put :
        (d d' : Db) (name k v other : Bytes)
        → bolt.put d name k v ≡ ok d'
        → scan d' other ≡ (if name == other then insert_key k v (scan d other) else scan d other)
    pub create_ok : (d : Db) (name : Bytes) → name ≢ [] → (d' : Db) × (bolt.create d name ≡ ok d')
    pub find_create :
        (d d' : Db) (name : Bytes) → bolt.create d name ≡ ok d' → is_some (bolt.find d' name) ≡ true
    pub put_ok :
        (d : Db) (name k v : Bytes)
        → is_some (bolt.find d name) ≡ true
        → k ≢ []
        → length k ≤ 32768
        → length v ≤ 2147483646
        → (d' : Db) × (bolt.put d name k v ≡ ok d')

  pub read-scan : Laws → (d : Db) (name k : Bytes) → read d name k ≡ lookup k (scan d name)
  unfolding read scan lookup
  read-scan laws d name k = elim (Option-cases (bolt.find d name)) [
    | inl absent ↦ rw (absent, read, scan)
    | inr (b, found) ↦ rw (found, read, scan) (laws.get_cursor b k)
  ]

  pub scan-Ascending : Laws → (d : Db) (name : Bytes) → Ascending (scan d name)
  unfolding scan
  scan-Ascending laws d name = elim (Option-cases (bolt.find d name)) [
    | inl absent ↦ rw (absent, scan) tt
    | inr (b, found) ↦ rw (found, scan) (laws.cursor_ascending b)
  ]

-- ===== src/Store.antt =====
-- `BboltStore` of db/bbolt.go. The children model its methods, a file for each kind of record.
pub mod Stats
pub mod Owner
pub mod Indexing
pub mod Daemon
pub mod Variables
pub mod Invoke
pub mod NormalTx
pub mod Interaction
pub mod Queries
pub mod Spec
use simple_gnomon.Prelude.{
  ℕ, ◌≡◌, refl, ap, ◌≢◌, Bool, true, false, ◌≤◌, length, Option, none, some, List, [], ◌∷◌, arith,
  if◌then◌else◌,
}
use simple_gnomon.Prelude.Int.{ℤ}
use simple_gnomon.Prelude.Bytes.{Bytes, ◌==◌, ==_refl}
use simple_gnomon.Prelude.Assoc.{lookup, insert_key, lookup-insert_key}
use simple_gnomon.Bolt.{Bolt, Laws, read, scan, read-scan}
use simple_gnomon.Bolt.Update.{
  Outcome, Error, update, put_in, Sets, Ends, update-Ends, update_succeeds,
}

pub record Store (Db : Type 0) : Type 0 where
  pub db : Db
  pub db_path : Bytes
  pub writing : Bool
  pub exclusions : List Bytes
  pub last_index_height : ℤ
  pub closing : Bool
  pub buckets : List Bytes

-- What a writing method leaves: the store, `changes` and `err`.
abbrev pub Result : Type 0 → Type 0
Result Db = Store Db × Bool × Option Error

unfoldable pub with_db : {Db : Type 0} → Store Db → Outcome Db → Result Db
with_db s (d, changes, e) = (record s { db = d }, changes, e)

module _ {Db Bucket : Type 0} (bolt : Bolt Db Bucket) where
  -- A method that sets one entry in one transaction.
  unfoldable pub write_entry : Bytes → Bytes → Bytes → Store Db → Result Db
  unfolding with_db
  write_entry name key value s = with_db s (update bolt (put_in bolt name key value) s.db)

  -- The one field that a method changes is the database, and there one entry.
  pub record Writes (s : Store Db) (name k v : Bytes) (r : Result Db) : Type 0 where
    pub rest : r.0 ≡ record s { db = r.0.db }
    pub done : r.2 ≡ none → Sets bolt s.db r.0.db name k v × (r.1 ≡ true)
    pub failed : r.2 ≢ none → r.0 ≡ s

  module _ (laws : Laws bolt) where
    pub write_entry-Writes :
        (name k v : Bytes) (s : Store Db) → Writes s name k v (write_entry name k v s)
    unfolding write_entry
    write_entry-Writes name k v s =
        let ends = update-Ends bolt laws name k v s.db in
        record {
          rest = refl;
          done = ends.done;
          failed = λ h. ap (λ d. record s { db = d }) (ends.failed h);
        }

    -- On an engine whose commits do not fail, an entry within the engine's limits is stored.
    pub write_entry_succeeds :
        (name k v : Bytes) (s : Store Db)
        → ((d : Db) → bolt.commit d ≡ none)
        → name ≢ []
        → k ≢ []
        → length k ≤ 32768
        → length v ≤ 2147483646
        → (write_entry name k v s).2 ≡ none
    unfolding write_entry
    write_entry_succeeds name k v s commits n e kl vl =
        update_succeeds bolt laws name k v s.db commits n e kl vl

    -- Reading after one entry has been set.
    pub read-Sets :
        (d d' : Db) (name k v other j : Bytes)
        → Sets bolt d d' name k v
        → read bolt d' other j ≡ (
            if name == other
            then (if k == j then some v else read bolt d other j)
            else read bolt d other j)
    read-Sets d d' name k v other j sets =
        rw (read-scan bolt laws d' other j, sets.entries other)
          (ground
            (arith, read-scan bolt laws d other j, lookup-insert_key k j v (scan bolt d other)))

    module _ (d d' : Db) (name k v : Bytes) (sets : Sets bolt d d' name k v) where
      pub read-Sets_self : read bolt d' name k ≡ some v
      read-Sets_self = ground (arith, read-Sets d d' name k v name k sets, ==_refl name, ==_refl k)

      pub read-Sets_key : (j : Bytes) → (k == j) ≡ false → read bolt d' name j ≡ read bolt d name j
      read-Sets_key j h = ground (arith, read-Sets d d' name k v name j sets)

      pub read-Sets_bucket :
          (other j : Bytes) → (name == other) ≡ false → read bolt d' other j ≡ read bolt d other j
      read-Sets_bucket other j h = ground (arith, read-Sets d d' name k v other j sets)

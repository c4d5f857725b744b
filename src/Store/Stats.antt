-- ===== src/Store/Stats.antt =====
-- The `stats` bucket of db/bbolt.go: the last indexed height and the counts of transactions.
use simple_gnomon.Prelude.{
  ◌≡◌, refl, ◌≢◌, sym, false, Option, none, some, ◌++◌, ap, arith, if◌then◌else◌, ◌∙◌,
}
use simple_gnomon.Prelude.Int.{ℤ, pos, IsInt64}
use simple_gnomon.Prelude.Bytes.{
  Bytes, codes, ◌==◌, ==_refl, ==_iff, ==_ne, append_suffix, append_cancel_right,
}
use simple_gnomon.Go.Strconv.{format_int, parse_int}
use simple_gnomon.Go.Strconv.RoundTrip.{parse_int-format_int}
use simple_gnomon.Bolt.{Bolt, Laws, read}
use simple_gnomon.Bolt.Update.{Error, Sets}
use simple_gnomon.Store.{
  Store, Result, write_entry, write_entry-Writes, read-Sets, read-Sets_self, read-Sets_key,
}

abbrev pub stats : Bytes
stats = codes "stats"

abbrev pub height_key : Bytes
height_key = codes "lastindexedheight"

abbrev pub count_key : Bytes → Bytes
count_key tx_type = tx_type ++ codes "txcount"

-- `if v != nil { n, err = strconv.ParseInt(string(v), 10, 64) }` from 0; the error is not kept.
unfoldable pub stored_int : Option Bytes → ℤ
stored_int none = pos 0
stored_int (some v) = (parse_int v).0

-- `if err == nil { bbs.LastIndexHeight = last_indexedheight }`
unfoldable pub note_height : {Db : Type 0} → ℤ → Result Db → Result Db
note_height h (s, changes, none) = (record s { last_index_height = h }, changes, none)
note_height h (s, changes, some e) = (s, changes, some e)

note_height_db : {Db : Type 0} (h : ℤ) (r : Result Db) → (note_height h r).0.db ≡ r.0.db
unfolding note_height
note_height_db h (s, changes, none) = refl
note_height_db h (s, changes, some e) = refl

note_height_error : {Db : Type 0} (h : ℤ) (r : Result Db) → (note_height h r).2 ≡ r.2
unfolding note_height
note_height_error h (s, changes, none) = refl
note_height_error h (s, changes, some e) = refl

note_height_done :
    {Db : Type 0} (h : ℤ) (r : Result Db) → r.2 ≡ none → (note_height h r).0.last_index_height ≡ h
unfolding note_height
note_height_done h (s, changes, none) e = refl
note_height_done h (s, changes, some c) e = absurd (cc)

note_height_failed : {Db : Type 0} (h : ℤ) (r : Result Db) → r.2 ≢ none → (note_height h r).0 ≡ r.0
unfolding note_height
note_height_failed h (s, changes, none) e = absurd (e refl)
note_height_failed h (s, changes, some c) e = refl

module _ {Db Bucket : Type 0} (bolt : Bolt Db Bucket) where
  unfoldable pub store_last_index_height : ℤ → Store Db → Result Db
  unfolding note_height
  store_last_index_height h s = note_height h (write_entry bolt stats height_key (format_int h) s)

  -- The transaction's function returns the error of `ParseInt`, but what `View` returns is dropped:
  -- the method's own `err` is never set.
  unfoldable pub get_last_index_height : Store Db → ℤ × Option Error
  unfolding stored_int
  get_last_index_height s = (stored_int (read bolt s.db stats height_key), none)

  unfoldable pub store_tx_count : ℤ → Bytes → Store Db → Result Db
  store_tx_count count tx_type s = write_entry bolt stats (count_key tx_type) (format_int count) s

  unfoldable pub get_tx_count : Bytes → Store Db → ℤ
  unfolding stored_int
  get_tx_count tx_type s = stored_int (read bolt s.db stats (count_key tx_type))

  module _ (laws : Laws bolt) where
    stored_int-format_int : (z : ℤ) → IsInt64 z → stored_int (some (format_int z)) ≡ z
    unfolding stored_int
    stored_int-format_int z h = ap (λ p. p.0) (parse_int-format_int z h)

    height_key-ne-count_key : (tx_type : Bytes) → (height_key == count_key tx_type) ≡ false
    height_key-ne-count_key tx_type = ==_ne height_key (count_key tx_type) (λ e. absurd (
        ground (
          arith,
          append_suffix (codes "lastindexe") tx_type (codes "dheight") (codes "txcount") refl e,
        )))

    count_key-== : (a b : Bytes) → (count_key a == count_key b) ≡ (a == b)
    count_key-== a b = ground (
      arith,
      ==_iff a b,
      ==_iff (count_key a) (count_key b),
      append_cancel_right a b (codes "txcount"),
    )

    -- A height stored without an error is one entry.
    pub store_last_index_height-Sets :
        (h : ℤ) (s : Store Db)
        → (store_last_index_height h s).2 ≡ none
        → Sets bolt s.db (store_last_index_height h s).0.db stats height_key (format_int h)
    unfolding store_last_index_height
    store_last_index_height-Sets h s fine =
        let r = write_entry bolt stats height_key (format_int h) s in
        rw (note_height_db h r) (
          ((write_entry-Writes bolt laws stats height_key (format_int h) s).done
            (sym (note_height_error h r) ∙ fine)).0)

    -- Storing a height, an int64, without an error: it reads back, the store notes it, and no
    -- count of transactions changes.
    pub store_last_index_height_done :
        (h : ℤ) (tx_type : Bytes) (s : Store Db)
        → IsInt64 h
        → (store_last_index_height h s).2 ≡ none
        → let (s', changes, e) = store_last_index_height h s in
          (get_last_index_height s' ≡ (h, none))
          × (s'.last_index_height ≡ h)
          × (get_tx_count tx_type s' ≡ get_tx_count tx_type s)
    unfolding store_last_index_height get_last_index_height get_tx_count stored_int
    store_last_index_height_done h tx_type s range fine =
        let r = write_entry bolt stats height_key (format_int h) s in
        let w = write_entry-Writes bolt laws stats height_key (format_int h) s in
        let ok_write = sym (note_height_error h r) ∙ fine in
        let sets = (w.done ok_write).0 in
        (
          rw (note_height_db h r) (
              rw (read-Sets_self bolt laws s.db r.0.db stats height_key (format_int h) sets)
                (ap (λ z. (z, none)) (stored_int-format_int h range))),
          note_height_done h r ok_write,
          rw (note_height_db h r) (
              ap stored_int (
                read-Sets_key bolt laws s.db r.0.db stats height_key (format_int h) sets
                  (count_key tx_type) (height_key-ne-count_key tx_type))),
        )

    -- Storing a height with an error: the store is as it was.
    pub store_last_index_height_failed :
        (h : ℤ) (s : Store Db)
        → (store_last_index_height h s).2 ≢ none
        → (store_last_index_height h s).0 ≡ s
    unfolding store_last_index_height
    store_last_index_height_failed h s failed =
        let r = write_entry bolt stats height_key (format_int h) s in
        let bad = λ (e : r.2 ≡ none). failed (note_height_error h r ∙ e) in
        note_height_failed h r bad
        ∙ (write_entry-Writes bolt laws stats height_key (format_int h) s).failed bad

    -- Storing a count, an int64, without an error: it reads back under its type of transaction,
    -- and neither the count of another type nor the last indexed height changes.
    pub store_tx_count_done :
        (count : ℤ) (tx_type other : Bytes) (s : Store Db)
        → IsInt64 count
        → (store_tx_count count tx_type s).2 ≡ none
        → let s' = (store_tx_count count tx_type s).0 in
          (get_tx_count other s' ≡ (if tx_type == other then count else get_tx_count other s))
          × (get_last_index_height s' ≡ get_last_index_height s)
    unfolding store_tx_count get_tx_count get_last_index_height
    store_tx_count_done count tx_type other s range fine =
        let d' = (store_tx_count count tx_type s).0.db in
        let sets =
          ((write_entry-Writes bolt laws stats (count_key tx_type) (format_int count) s).done
            fine).0 in
        let value =
          read-Sets bolt laws s.db d' stats (count_key tx_type) (format_int count) stats in
        (
          ground (
            arith,
            value (count_key other) sets,
            ==_refl stats,
            count_key-== tx_type other,
            stored_int-format_int count range,
          ),
          ground (
            arith,
            value height_key sets,
            ==_refl stats,
            height_key-ne-count_key tx_type,
            ==_iff height_key (count_key tx_type),
            ==_iff (count_key tx_type) height_key,
          ),
        )

-- ===== src/Store/Daemon/Miniblocks.antt =====
-- What the miniblocks' methods of db/bbolt.go store is what they read back.
use simple_gnomon.Prelude.{
  ◌≡◌, refl, sym, ◌∙◌, ◌≢◌, none, arith, if◌then◌else◌, ap, subst, inl, inr, All,
}
use simple_gnomon.Prelude.Int.{ℤ, pos}
use simple_gnomon.Prelude.Bytes.{Bytes, ◌==◌}
use simple_gnomon.Go.Json.{Codec, Exact, ReadsBack, IsAscii}
use simple_gnomon.Structs.{MblInfo}
use simple_gnomon.Bolt.{Bolt, Laws, ok, err, Res-cases}
use simple_gnomon.Bolt.Update.{Sets}
use simple_gnomon.Store.{Store, write_entry, write_entry-Writes, read-Sets}
use simple_gnomon.Store.Daemon.{
  write_json, read_json, mini_bucket, count_bucket, store_miniblock_details_by_hash,
  get_miniblock_details_by_hash, store_miniblock_count_by_address, get_miniblock_count_by_address,
}
use simple_gnomon.Prelude.{ℕ, List, []}

-- Hashes and miners in ASCII, such as hex and bech32.
abbrev pub AreAscii : List MblInfo → Type 0
AreAscii minis = All (λ (m : MblInfo). IsAscii m.hash × IsAscii m.miner) minis

module _ {Db Bucket : Type 0} (bolt : Bolt Db Bucket) (laws : Laws bolt) where
  write_json_coded :
      {A : Type 0} (json : Codec A) (name key text : Bytes) (a : A) (s : Store Db)
      → json.marshal a ≡ ok text
      → write_json bolt json name key a s ≡ write_entry bolt name key text s
  unfolding write_json
  write_json_coded json name key text a s coded = rw (coded, write_json) refl

  write_json_refused :
      {A : Type 0} (json : Codec A) (name key : Bytes) (a : A) (s : Store Db) (c : ℕ)
      → json.marshal a ≡ err c
      → (write_json bolt json name key a s).2 ≢ none
  unfolding write_json
  write_json_refused json name key a s c refused e = cc (rw (refused, write_json) at e)

  -- A value written without an error is one entry, which decodes to it.
  pub write_json-Sets :
      {A : Type 0} (json : Codec A) (name key : Bytes) (a : A) (s : Store Db)
      → ReadsBack json a
      → (write_json bolt json name key a s).2 ≡ none
      → (text : Bytes) × Sets bolt s.db (write_json bolt json name key a s).0.db name key text
        × (json.decode text ≡ a)
  write_json-Sets json name key a s exact fine = elim (Res-cases (json.marshal a)) [
    | inl (text, coded) ↦
        let same = write_json_coded json name key text a s coded in
        let done = ap (λ r. r.2) (sym same) ∙ fine in
        let sets = ((write_entry-Writes bolt laws name key text s).done done).0 in
        (text, subst (λ r. Sets bolt s.db r.0.db name key text) (sym same) sets, exact text coded)
    | inr (c, refused) ↦ absurd (write_json_refused json name key a s c refused fine)
  ]

  -- A value that is not written leaves the store as it was.
  pub write_json_failed :
      {A : Type 0} (json : Codec A) (name key : Bytes) (a : A) (s : Store Db)
      → (write_json bolt json name key a s).2 ≢ none
      → (write_json bolt json name key a s).0 ≡ s
  unfolding write_json
  write_json_failed json name key a s bad = elim (Res-cases (json.marshal a)) [
    | inl (text, coded) ↦
        let same = write_json_coded json name key text a s coded in
        ap (λ r. r.0) same
        ∙ (write_entry-Writes bolt laws name key text s).failed (λ e. bad (ap (λ r. r.2) same ∙ e))
    | inr (c, refused) ↦ rw (refused, write_json) refl
  ]

  pub read_json-Sets :
      {A : Type 0} (json : Codec A) (zero_value : A) (s s' : Store Db)
      (name key text bucket k : Bytes)
      → Sets bolt s.db s'.db name key text
      → read_json bolt json zero_value bucket k s' ≡ (
          if name == bucket
          then (if key == k then json.decode text else read_json bolt json zero_value bucket k s)
          else read_json bolt json zero_value bucket k s)
  unfolding read_json
  read_json-Sets json zero_value s s' name key text bucket k sets =
      ground (arith, read-Sets bolt laws s.db s'.db name key text bucket k sets)

  module _ (json : Codec (List MblInfo)) (counts : Codec ℤ) where
    -- Storing the miniblocks of a block without an error, where their hashes and miners are ASCII, with
    -- a codec that reads such miniblocks back: they read back under the hash of the block, and neither
    -- those of another block nor the count of a miner changes.
    pub store_miniblock_details_done :
        (blid other addr : Bytes) (minis : List MblInfo) (s : Store Db)
        → ((given : List MblInfo) → AreAscii given → ReadsBack json given)
        → AreAscii minis
        → (store_miniblock_details_by_hash bolt json blid minis s).2 ≡ none
        → let s' = (store_miniblock_details_by_hash bolt json blid minis s).0 in
          (get_miniblock_details_by_hash bolt json other s'
            ≡ (if blid == other then minis else get_miniblock_details_by_hash bolt json other s))
          × (get_miniblock_count_by_address bolt counts addr s'
              ≡ get_miniblock_count_by_address bolt counts addr s)
    unfolding ◌==◌ store_miniblock_details_by_hash get_miniblock_details_by_hash
        get_miniblock_count_by_address
    store_miniblock_details_done blid other addr minis s exact ascii fine =
        let s' = (store_miniblock_details_by_hash bolt json blid minis s).0 in
        let (text, sets, coded) =
          write_json-Sets json mini_bucket blid minis s (exact minis ascii) fine in
        (
          read_json-Sets json [] s s' mini_bucket blid text mini_bucket other sets
              ∙ ap (λ m. if blid == other then m else read_json bolt json [] mini_bucket other s)
                  coded,
          read_json-Sets counts (pos 0) s s' mini_bucket blid text count_bucket addr sets,
        )

    -- Storing the count of a miner without an error, with a codec that reads back what it writes:
    -- it reads back, and neither that of another miner nor the miniblocks of a block change.
    store_miniblock_count_done :
        (count : ℤ) (addr other blid : Bytes) (s : Store Db)
        → Exact counts
        → (store_miniblock_count_by_address bolt counts count addr s).2 ≡ none
        → let s' = (store_miniblock_count_by_address bolt counts count addr s).0 in
          (get_miniblock_count_by_address bolt counts other s'
            ≡ (if addr == other then count else get_miniblock_count_by_address bolt counts other s))
          × (get_miniblock_details_by_hash bolt json blid s'
              ≡ get_miniblock_details_by_hash bolt json blid s)
    unfolding ◌==◌ store_miniblock_count_by_address get_miniblock_details_by_hash
        get_miniblock_count_by_address
    store_miniblock_count_done count addr other blid s exact fine =
        let s' = (store_miniblock_count_by_address bolt counts count addr s).0 in
        let (text, sets, coded) =
          write_json-Sets counts count_bucket addr count s (exact count) fine in
        (
          read_json-Sets counts (pos 0) s s' count_bucket addr text count_bucket other sets
              ∙ ap
                  (λ m.
                    if addr == other then m else read_json bolt counts (pos 0) count_bucket other s)
                  coded,
          read_json-Sets json [] s s' count_bucket addr text mini_bucket blid sets,
        )

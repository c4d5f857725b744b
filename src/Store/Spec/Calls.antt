-- ===== src/Store/Spec/Calls.antt =====
-- Each call of the store, against the change of the maps that it stands for.
use simple_gnomon.Prelude.{
  ◌≡◌, refl, ap, ◌∙◌, Bool, true, false, Option, none, some, List, [], arith, if◌then◌else◌,
}
use simple_gnomon.Prelude.Int.{ℤ, pos}
use simple_gnomon.Prelude.Bytes.{Bytes, codes, ◌==◌}
use simple_gnomon.Go.Json.{Codec, Exact}
use simple_gnomon.Go.Strconv.{format_int}
use simple_gnomon.Bolt.{Bolt, Laws, read}
use simple_gnomon.Store.{Store, write_entry-Writes}
use simple_gnomon.Store.Stats.{
  stats, height_key, count_key, store_last_index_height, get_last_index_height, store_tx_count,
  get_tx_count, stored_int, store_last_index_height-Sets, store_last_index_height_done,
  store_tx_count_done,
}
use simple_gnomon.Store.Owner.{store_owner, get_owner, owner_bucket, owner_fields}
use simple_gnomon.Store.Owner.Records.{store_owner_done, store_owner_answers, overlay}
use simple_gnomon.Store.Interaction.{
  heights_bucket, store_scid_interaction_height, get_scid_interaction_height, decoded_heights,
}
use simple_gnomon.Store.Interaction.Heights.{with_height, store_interaction_done}
use simple_gnomon.Store.Daemon.{
  count_bucket, read_json, store_miniblock_count_by_address, get_miniblock_count_by_address,
}
use simple_gnomon.Store.Daemon.Miniblocks.{write_json-Sets, read_json-Sets}
use simple_gnomon.Store.Spec.{
  Model, Command, owned, interacted, counted, indexed, mined, InRange, apply, call, Refines,
}
use simple_gnomon.Store.Spec.Frames.{
  short-ne-heights_bucket, headers-ne-heights_bucket, blockcount-ne-heights_bucket, ==_sym, Frame,
  Sets-Frame, store_interaction-Frame,
}

module _ {Db Bucket : Type 0} (bolt : Bolt Db Bucket) (heights_json : Codec (List ℤ))
    (count_json : Codec ℤ) (laws : Laws bolt) (exact_heights : Exact heights_json)
    (exact_count : Exact count_json) where
  -- Answers that depend on an entry of one bucket stay, where its bucket is outside a frame.
  module _ (s s' : Store Db) (name : Bytes) (frame : Frame bolt s.db s'.db name) where
    owners_stay :
        (name == owner_bucket) ≡ false
        → (scid : Bytes) → get_owner bolt scid s' ≡ get_owner bolt scid s
    unfolding get_owner
    owners_stay differs scid =
        ap (λ o. elim o [ none ↦ [] | some v ↦ v ]) (frame owner_bucket scid differs)

    heights_stay :
        (scid : Bytes)
        → (name == heights_bucket scid) ≡ false
        → get_scid_interaction_height bolt heights_json scid s'
          ≡ get_scid_interaction_height bolt heights_json scid s
    unfolding get_scid_interaction_height
    heights_stay scid differs =
        ap (decoded_heights bolt heights_json) (frame (heights_bucket scid) scid differs)

    counts_stay :
        (name == stats) ≡ false
        → (tx_type : Bytes) → get_tx_count bolt tx_type s' ≡ get_tx_count bolt tx_type s
    unfolding get_tx_count
    counts_stay differs tx_type = ap stored_int (frame stats (count_key tx_type) differs)

    last_stays :
        (name == stats) ≡ false → get_last_index_height bolt s' ≡ get_last_index_height bolt s
    unfolding get_last_index_height
    last_stays differs = ap (λ v. (stored_int v, none)) (frame stats height_key differs)

    mined_stays :
        (name == count_bucket) ≡ false
        → (addr : Bytes)
        → get_miniblock_count_by_address bolt count_json addr s'
          ≡ get_miniblock_count_by_address bolt count_json addr s
    unfolding get_miniblock_count_by_address read_json
    mined_stays differs addr =
        ap (λ o. elim o [ none ↦ pos 0 | some text ↦ count_json.decode text ])
          (frame count_bucket addr differs)

  same_either : {A : Type 0} (b : Bool) (x : A) → (if b then x else x) ≡ x
  same_either true x = refl
  same_either false x = refl

  -- The five buckets of a contract's records are none of heights.
  overlay_heights :
      (owner headers class tags height key : Bytes) (old : Option Bytes)
      → overlay (owner_fields owner headers class tags height) (heights_bucket key) old ≡ old
  overlay_heights owner headers class tags height key old = ground (
    arith,
    short-ne-heights_bucket (codes "owner") key (omega arith),
    headers-ne-heights_bucket key,
    short-ne-heights_bucket (codes "class") key (omega arith),
    short-ne-heights_bucket (codes "tags") key (omega arith),
    short-ne-heights_bucket (codes "height") key (omega arith),
  )

  -- The store after a call that did not fail.
  abbrev pub Kept : Command → Store Db → Model → Type 0
  Kept c s m =
      InRange c
      → (call bolt heights_json count_json c s).2 ≡ none
      → Refines bolt heights_json count_json s m
      → Refines bolt heights_json count_json (call bolt heights_json count_json c s).0 (apply c m)

  pub owned-Kept :
      (scid owner headers class tags height : Bytes) (s : Store Db) (m : Model)
      → Kept (owned scid owner headers class tags height) s m
  unfolding call apply ◌==◌ get_scid_interaction_height get_tx_count get_last_index_height
      get_miniblock_count_by_address read_json
  owned-Kept scid owner headers class tags height s m range fine r =
      let s' = (store_owner bolt scid owner headers class tags height s).0 in
      let done = λ (name key : Bytes).
        store_owner_done bolt laws scid owner headers class tags height name key s fine in
      record {
        owners = λ key.
            (store_owner_answers bolt laws scid owner headers class tags height key s fine).0
            ∙ ap (λ v. if scid == key then owner else v) (r.owners key);
        heights = λ key.
            ap (decoded_heights bolt heights_json) (
              done (heights_bucket key) key
              ∙ ap (λ v. if scid == key then v else read bolt s.db (heights_bucket key) key)
                  (overlay_heights owner headers class tags height key
                    (read bolt s.db (heights_bucket key) key))
              ∙ same_either (scid == key) (read bolt s.db (heights_bucket key) key))
            ∙ r.heights key;
        counts = λ key.
            ap stored_int (
              done stats (count_key key)
              ∙ same_either (scid == count_key key) (read bolt s.db stats (count_key key)))
            ∙ r.counts key;
        last =
            ap (λ v. (stored_int v, none))
              (done stats height_key
                ∙ same_either (scid == height_key) (read bolt s.db stats height_key))
            ∙ r.last;
        mined = λ addr.
            ap (λ o. elim o [ none ↦ pos 0 | some text ↦ count_json.decode text ])
              (done count_bucket addr
                ∙ same_either (scid == addr) (read bolt s.db count_bucket addr))
            ∙ r.mined addr;
      }

  pub interacted-Kept :
      (scid : Bytes) (h : ℤ) (s : Store Db) (m : Model) → Kept (interacted scid h) s m
  unfolding call apply ◌==◌
  interacted-Kept scid h s m range fine r =
      let s' = (store_scid_interaction_height bolt heights_json scid h s).0 in
      let name = heights_bucket scid in
      let frame : Frame bolt s.db s'.db name =
        store_interaction-Frame bolt laws heights_json scid h s fine in
      record {
        owners = λ key.
            owners_stay s s' name frame
              (==_sym name owner_bucket ∙ short-ne-heights_bucket owner_bucket scid (omega arith))
              key
            ∙ r.owners key;
        heights = λ key.
            (store_interaction_done bolt heights_json laws exact_heights scid key h s fine).0
            ∙ ap
                (λ v.
                  if scid == key
                  then with_height v h
                  else get_scid_interaction_height bolt heights_json key s)
                (r.heights scid)
            ∙ ap (λ v. if scid == key then with_height (m.heights scid) h else v) (r.heights key);
        counts = λ key.
            counts_stay s s' name frame
              (==_sym name stats ∙ short-ne-heights_bucket stats scid (omega arith)) key
            ∙ r.counts key;
        last =
            last_stays s s' name frame
              (==_sym name stats ∙ short-ne-heights_bucket stats scid (omega arith))
            ∙ r.last;
        mined = λ addr.
            mined_stays s s' name frame
              (==_sym name count_bucket ∙ blockcount-ne-heights_bucket scid) addr
            ∙ r.mined addr;
      }

  pub counted-Kept :
      (n : ℤ) (tx_type : Bytes) (s : Store Db) (m : Model) → Kept (counted n tx_type) s m
  unfolding call apply ◌==◌ store_tx_count
  counted-Kept n tx_type s m range fine r =
      let s' = (store_tx_count bolt n tx_type s).0 in
      let sets =
        ((write_entry-Writes bolt laws stats (count_key tx_type) (format_int n) s).done fine).0 in
      let frame : Frame bolt s.db s'.db stats =
        Sets-Frame bolt laws s.db s'.db stats (count_key tx_type) (format_int n) sets in
      record {
        owners = λ scid. owners_stay s s' stats frame refl scid ∙ r.owners scid;
        heights = λ scid.
            heights_stay s s' stats frame scid (short-ne-heights_bucket stats scid (omega arith))
            ∙ r.heights scid;
        counts = λ other.
            (store_tx_count_done bolt laws n tx_type other s range fine).0
            ∙ ap (λ v. if tx_type == other then n else v) (r.counts other);
        last = (store_tx_count_done bolt laws n tx_type tx_type s range fine).1 ∙ r.last;
        mined = λ addr. mined_stays s s' stats frame refl addr ∙ r.mined addr;
      }

  pub indexed-Kept : (h : ℤ) (s : Store Db) (m : Model) → Kept (indexed h) s m
  unfolding call apply ◌==◌ store_last_index_height
  indexed-Kept h s m range fine r =
      let s' = (store_last_index_height bolt h s).0 in
      let frame : Frame bolt s.db s'.db stats =
        Sets-Frame bolt laws s.db s'.db stats height_key (format_int h)
          (store_last_index_height-Sets bolt laws h s fine) in
      record {
        owners = λ scid. owners_stay s s' stats frame refl scid ∙ r.owners scid;
        heights = λ scid.
            heights_stay s s' stats frame scid (short-ne-heights_bucket stats scid (omega arith))
            ∙ r.heights scid;
        counts = λ other.
            (store_last_index_height_done bolt laws h other s range fine).2 ∙ r.counts other;
        last = (store_last_index_height_done bolt laws h stats s range fine).0;
        mined = λ addr. mined_stays s s' stats frame refl addr ∙ r.mined addr;
      }

  pub mined-Kept : (n : ℤ) (addr : Bytes) (s : Store Db) (m : Model) → Kept (mined n addr) s m
  unfolding call apply ◌==◌ get_miniblock_count_by_address store_miniblock_count_by_address
  mined-Kept n addr s m range fine r =
      let s' = (store_miniblock_count_by_address bolt count_json n addr s).0 in
      let (text, sets, coded) =
        write_json-Sets bolt laws count_json count_bucket addr n s (exact_count n) fine in
      let frame : Frame bolt s.db s'.db count_bucket =
        Sets-Frame bolt laws s.db s'.db count_bucket addr text sets in
      record {
        owners = λ scid. owners_stay s s' count_bucket frame refl scid ∙ r.owners scid;
        heights = λ scid.
            heights_stay s s' count_bucket frame scid (blockcount-ne-heights_bucket scid)
            ∙ r.heights scid;
        counts = λ other. counts_stay s s' count_bucket frame refl other ∙ r.counts other;
        last = last_stays s s' count_bucket frame refl ∙ r.last;
        mined = λ other.
            read_json-Sets bolt laws count_json (pos 0) s s' count_bucket addr text count_bucket
              other sets
            ∙ ap
                (λ v.
                  if addr == other
                  then v
                  else get_miniblock_count_by_address bolt count_json other s)
                coded
            ∙ ap (λ v. if addr == other then n else v) (r.mined other);
      }

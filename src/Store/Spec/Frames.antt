-- ===== src/Store/Spec/Frames.antt =====
-- A call of the store leaves the buckets alone that it is not about.
use simple_gnomon.Prelude.{
  ◌≡◌, refl, sym, ap, ◌∙◌, ◌<◌, false, Option, none, some, List, [], ◌∷◌, ◌++◌, length,
  length-append, arith, inl, inr, Bool-cases,
}
use simple_gnomon.Prelude.Int.{ℤ}
use simple_gnomon.Prelude.Bytes.{Bytes, codes, ◌==◌, ==_iff, ==_ne, append_suffix}
use simple_gnomon.Go.Json.{Codec}
use simple_gnomon.Bolt.{Bolt, Laws, Res-cases, read}
use simple_gnomon.Bolt.Update.{
  Sets, update, finish_done, put_entry, in_bucket, in_bucket_done, put_entry-Sets, read-create,
}
use simple_gnomon.Store.{Store, read-Sets_bucket}
use simple_gnomon.Store.Interaction.{
  heights_bucket, contains_height, put_heights, add_height, interaction_body,
  store_scid_interaction_height,
}

-- A short name is no bucket of heights.
pub short-ne-heights_bucket :
    (name scid : Bytes) → length name < 7 → (name == heights_bucket scid) ≡ false
short-ne-heights_bucket name scid short =
    ==_ne name (heights_bucket scid)
      (λ e. absurd (omega (arith, ap length e, length-append scid (codes "heights"))))

pub headers-ne-heights_bucket : (scid : Bytes) → (codes "headers" == heights_bucket scid) ≡ false
headers-ne-heights_bucket scid =
    ==_ne (codes "headers") (heights_bucket scid) (λ e.
      absurd (ground (arith, append_suffix [] scid (codes "headers") (codes "heights") refl e)))

pub blockcount-ne-heights_bucket :
    (scid : Bytes) → (codes "blockcount" == heights_bucket scid) ≡ false
blockcount-ne-heights_bucket scid = ==_ne (codes "blockcount") (heights_bucket scid) (λ e.
    absurd
      (ground (arith, append_suffix (codes "blo") scid (codes "ckcount") (codes "heights") refl e)))

pub ==_sym : (s t : Bytes) → (s == t) ≡ (t == s)
==_sym s t = ground (arith, ==_iff s t, ==_iff t s)

module _ {Db Bucket : Type 0} (bolt : Bolt Db Bucket) where
  -- No entry outside one bucket differs.
  abbrev pub Frame : Db → Db → Bytes → Type 0
  Frame d d' name =
      (other key : Bytes) → (name == other) ≡ false → read bolt d' other key ≡ read bolt d other key

  module _ (laws : Laws bolt) where
    pub Sets-Frame : (d d' : Db) (name k v : Bytes) → Sets bolt d d' name k v → Frame d d' name
    Sets-Frame d d' name k v sets other key differs =
        read-Sets_bucket bolt laws d d' name k v sets other key differs

    module _ (json : Codec (List ℤ)) where
      put_heights-Frame :
          (scid : Bytes) (heights : List ℤ) (d : Db)
          → (put_heights bolt json scid heights d).2 ≡ none
          → Frame d (put_heights bolt json scid heights d).0 (heights_bucket scid)
      unfolding put_heights
      put_heights-Frame scid heights d fine = elim (Res-cases (json.marshal heights)) [
        | inr (c, refused) ↦ absurd (cc (rw (refused, put_heights) at fine))
        | inl (text, coded) ↦
            let same : put_heights bolt json scid heights d
                ≡ put_entry bolt (heights_bucket scid) scid text d =
              rw (coded, put_heights) refl in
            let (sets, changed) =
              put_entry-Sets bolt laws (heights_bucket scid) scid text d (rw same at fine) in
            rw same (Sets-Frame d _ (heights_bucket scid) scid text sets)
      ]

      add_height-Frame :
          (scid : Bytes) (height : ℤ) (current : Option Bytes) (d : Db)
          → (add_height bolt json scid height current d).2 ≡ none
          → Frame d (add_height bolt json scid height current d).0 (heights_bucket scid)
      unfolding add_height
      add_height-Frame scid height none d fine = put_heights-Frame scid (height ∷ []) d fine
      add_height-Frame scid height (some text) d fine =
          elim (Bool-cases (contains_height (json.decode text) height)) [
            | inl old ↦ rw old (λ other key differs. refl)
            | inr new ↦
                rw new (put_heights-Frame scid (json.decode text ++ height ∷ []) d (rw new at fine))
          ]

      -- An interaction that is stored without an error concerns one bucket.
      pub store_interaction-Frame :
          (scid : Bytes) (height : ℤ) (s : Store Db)
          → (store_scid_interaction_height bolt json scid height s).2 ≡ none
          → Frame s.db
              (store_scid_interaction_height bolt json scid height s).0.db
              (heights_bucket scid)
      unfolding store_scid_interaction_height interaction_body update
      store_interaction-Frame scid height s fine other key differs =
          let name = heights_bucket scid in
          let current = read bolt s.db name scid in
          let rest = add_height bolt json scid height current in
          let (whole, well) = finish_done bolt s.db (in_bucket bolt name rest s.db) fine in
          let (d1, created, same) = in_bucket_done bolt name rest s.db well in
          ap (λ o. read bolt o.0 other key) (whole ∙ same)
          ∙ add_height-Frame scid height current d1 (ap (λ o. o.2) (sym same) ∙ well) other key
              differs
          ∙ read-create bolt laws s.db d1 name other key created

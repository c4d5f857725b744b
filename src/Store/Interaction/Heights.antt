-- ===== src/Store/Interaction/Heights.antt =====
-- What `StoreSCIDInteractionHeight` does to what `GetSCIDInteractionHeight` returns.
use simple_gnomon.Prelude.{
  ℕ, ◌≡◌, refl, ◌≢◌, sym, ap, subst, true, not, Option, none, some, List, [], ◌∷◌, ◌++◌, arith,
  if◌then◌else◌, Bool-cases, inl, inr,
}
use simple_gnomon.Prelude.Int.{ℤ}
use simple_gnomon.Prelude.Bytes.{Bytes, codes, ◌==◌, ==_iff, append_cancel_right}
use simple_gnomon.Go.Json.{Codec, Exact}
use simple_gnomon.Bolt.{Bolt, Laws, ok, err, Res-cases, read}
use simple_gnomon.Bolt.Update.{
  update, finish_done, finish_failed, put_entry, in_bucket_done, put_entry-Sets, read-create,
}
use simple_gnomon.Store.{Store, read-Sets}
use simple_gnomon.Store.Interaction.{
  heights_bucket, contains_height, put_heights, add_height, interaction_body,
  store_scid_interaction_height, decoded_heights, get_scid_interaction_height,
}

-- The heights after one more.
abbrev pub with_height : List ℤ → ℤ → List ℤ
with_height heights h = if contains_height heights h then heights else heights ++ h ∷ []

heights_bucket-== : (a b : Bytes) → (heights_bucket a == heights_bucket b) ≡ (a == b)
heights_bucket-== a b = ground (
  arith,
  ==_iff a b,
  ==_iff (heights_bucket a) (heights_bucket b),
  append_cancel_right a b (codes "heights"),
)

module _ {Db Bucket : Type 0} (bolt : Bolt Db Bucket) (json : Codec (List ℤ)) (laws : Laws bolt)
    (exact : Exact json) where
  put_heights_coded :
      (scid text : Bytes) (heights : List ℤ) (d : Db)
      → json.marshal heights ≡ ok text
      → put_heights bolt json scid heights d ≡ put_entry bolt (heights_bucket scid) scid text d
  unfolding put_heights
  put_heights_coded scid text heights d coded = rw (coded, put_heights)

  put_heights_refused :
      (scid : Bytes) (heights : List ℤ) (d : Db) (c : ℕ)
      → json.marshal heights ≡ err c
      → (put_heights bolt json scid heights d).2 ≢ none
  unfolding put_heights
  put_heights_refused scid heights d c refused h = cc (rw (refused, put_heights) at h)

  -- The heights of every contract after a change of the database.
  record Holds (scid : Bytes) (heights : List ℤ) (d d' : Db) : Type 0 where
    at :
        (other : Bytes)
        → decoded_heights bolt json (read bolt d' (heights_bucket other) other) ≡ (
            if scid == other
            then heights
            else decoded_heights bolt json (read bolt d (heights_bucket other) other))

  put_entry-Holds :
      (scid text : Bytes) (heights : List ℤ) (d : Db)
      → json.marshal heights ≡ ok text
      → (put_entry bolt (heights_bucket scid) scid text d).2 ≡ none
      → Holds scid heights d (put_entry bolt (heights_bucket scid) scid text d).0
        × ((put_entry bolt (heights_bucket scid) scid text d).1 ≡ true)
  unfolding decoded_heights
  put_entry-Holds scid text heights d coded h =
      let (sets, changed) = put_entry-Sets bolt laws (heights_bucket scid) scid text d h in
      let d' = (put_entry bolt (heights_bucket scid) scid text d).0 in
      (
        record {
          at = λ other. ground (
            arith,
            read-Sets bolt laws d d' (heights_bucket scid) scid text (heights_bucket other) other
                sets,
            heights_bucket-== scid other,
            exact heights text coded,
          );
        },
        changed,
      )

  put_heights-Holds :
      (scid : Bytes) (heights : List ℤ) (d : Db)
      → (put_heights bolt json scid heights d).2 ≡ none
      → Holds scid heights d (put_heights bolt json scid heights d).0
        × ((put_heights bolt json scid heights d).1 ≡ true)
  put_heights-Holds scid heights d h = elim (Res-cases (json.marshal heights)) [
    | inl (text, coded) ↦
        let same = put_heights_coded scid text heights d coded in
        rw same (put_entry-Holds scid text heights d coded (rw same at h))
    | inr (c, refused) ↦ absurd (put_heights_refused scid heights d c refused h)
  ]

  unchanged :
      (scid text : Bytes) (d : Db)
      → some text ≡ read bolt d (heights_bucket scid) scid
      → Holds scid (json.decode text) d d
  unfolding decoded_heights
  unchanged scid text d was = record {
    at = λ other. elim (Bool-cases (scid == other)) [
      | inl same ↦ rw same (
          subst
            (λ o. decoded_heights bolt json (read bolt d (heights_bucket o) o) ≡ json.decode text)
            ((==_iff scid other).0 same) (ap (decoded_heights bolt json) (sym was)))
      | inr differs ↦ rw differs
    ];
  }

  add_height-Holds :
      (scid : Bytes) (height : ℤ) (current : Option Bytes) (d : Db)
      → current ≡ read bolt d (heights_bucket scid) scid
      → (add_height bolt json scid height current d).2 ≡ none
      → let heights = decoded_heights bolt json current in
        let (d', changes, e) = add_height bolt json scid height current d in
        Holds scid (with_height heights height) d d'
        × (changes ≡ not (contains_height heights height))
  unfolding add_height decoded_heights contains_height
  add_height-Holds scid height none d was h = put_heights-Holds scid (height ∷ []) d h
  add_height-Holds scid height (some text) d was h =
      elim (Bool-cases (contains_height (json.decode text) height)) [
        | inl old ↦ rw old (unchanged scid text d was, refl)
        | inr new ↦
            rw new (put_heights-Holds scid (json.decode text ++ height ∷ []) d (rw new at h))
      ]

  interaction_body-Holds :
      (scid : Bytes) (height : ℤ) (d : Db)
      → let current = read bolt d (heights_bucket scid) scid in
        let heights = decoded_heights bolt json current in
        let (d', changes, e) = interaction_body bolt json scid height current d in
        e ≡ none
        → Holds scid (with_height heights height) d d'
          × (changes ≡ not (contains_height heights height))
  unfolding interaction_body
  interaction_body-Holds scid height d h =
      let current = read bolt d (heights_bucket scid) scid in
      let rest = add_height bolt json scid height current in
      let (d1, created, same) = in_bucket_done bolt (heights_bucket scid) rest d h in
      let keeps = λ (other : Bytes).
        read-create bolt laws d d1 (heights_bucket scid) (heights_bucket other) other created in
      let (holds, changed) =
        add_height-Holds scid height current d1 (sym (keeps scid)) (rw same at h) in
      rw same (record { at = λ other. ground (arith, holds.at other, keeps other) }, changed)

  -- Storing an interaction without an error, with a codec that reads back what it writes: the
  -- contract's heights are as before with the height behind them, unless it was among them; the
  -- flag says which; no other contract's heights change.
  pub store_interaction_done :
      (scid other : Bytes) (height : ℤ) (s : Store Db)
      → (store_scid_interaction_height bolt json scid height s).2 ≡ none
      → let (s', changes, e) = store_scid_interaction_height bolt json scid height s in
        let heights = get_scid_interaction_height bolt json scid s in
        (get_scid_interaction_height bolt json other s' ≡ (
          if scid == other
          then with_height heights height
          else get_scid_interaction_height bolt json other s))
        × (changes ≡ not (contains_height heights height))
  unfolding store_scid_interaction_height get_scid_interaction_height update
  store_interaction_done scid other height s h =
      let current = read bolt s.db (heights_bucket scid) scid in
      let o = interaction_body bolt json scid height current s.db in
      let (same, fine) = finish_done bolt s.db o h in
      let (holds, changed) = interaction_body-Holds scid height s.db fine in
      rw same (holds.at other, changed)

  -- Storing an interaction with an error: the store is as it was.
  pub store_interaction_failed :
      (scid : Bytes) (height : ℤ) (s : Store Db)
      → (store_scid_interaction_height bolt json scid height s).2 ≢ none
      → (store_scid_interaction_height bolt json scid height s).0 ≡ s
  unfolding store_scid_interaction_height update
  store_interaction_failed scid height s h =
      let current = read bolt s.db (heights_bucket scid) scid in
      ap (λ d. record s { db = d })
        (finish_failed bolt s.db (interaction_body bolt json scid height current s.db) h)

-- ===== src/Indexer/Scids/Written.antt =====
-- An install on its way from `work_on_scids` of pkg/handling_scids.go through the queue of
-- `scid_db_writer` of pkg/db_writer.go into the database.
use simple_gnomon.Prelude.{
  ℕ, ◌≡◌, ◌≢◌, refl, sym, subst, ap, ◌∙◌, false, Option, none, some, List, [], ◌∷◌, ◌++◌, length,
  length-append, arith, inl, inr, Option-cases, Bool-cases, if◌then◌else◌,
}
use simple_gnomon.Prelude.Int.{ℤ}
use simple_gnomon.Prelude.Assoc.{Assoc}
use simple_gnomon.Prelude.Bytes.{Bytes, codes, ◌==◌}
use simple_gnomon.Go.Json.{Codec}
use simple_gnomon.Go.Strconv.{format_int}
use simple_gnomon.Structs.{SctxParse, ScidVariable, IndexStage}
use simple_gnomon.Bolt.{Bolt, Laws}
use simple_gnomon.Store.{Store, Result, write_entry, write_entry-Writes, read-Sets_bucket}
use simple_gnomon.Store.Stats.{
  store_last_index_height, store_tx_count, count_key, note_height, stats, height_key,
}
use simple_gnomon.Store.Owner.{get_owner, owner_bucket}
use simple_gnomon.Store.Indexing.{Added, done, panics, waits, add_scid_to_index}
use simple_gnomon.Store.Indexing.Install.{install_stores_owner}
use simple_gnomon.Indexer.ScidWriter.{
  Loaded, wrote, store_height, store_stats, finish_round, write_scid,
}
use simple_gnomon.Indexer.Scids.Contract.{
  ScTx, Target, known, install, target_of, Settings, Outside,
}
use simple_gnomon.Indexer.Scids.{Work, work_on_scids}
use simple_gnomon.Indexer.Scids.Queue.{Queued, Stages, work_on_scids-Queued}

module _ {A : Type 0} where
  snoc_inj : (l : List A) (a b : A) → l ++ a ∷ [] ≡ l ++ b ∷ [] → a ≡ b
  snoc_inj [] a b e = cc (e)
  snoc_inj (x ∷ l) a b e = snoc_inj l a b (cc (e))

  snoc_grows : (l : List A) (a : A) → l ++ a ∷ [] ≢ l
  snoc_grows l a e = absurd (omega (arith, ap length e, length-append l (a ∷ [])))

wrote_inj : {Db : Type 0} (s t : Store Db) → wrote s ≡ wrote t → s ≡ t
wrote_inj s t e = cc (e)

module _ {Db Bucket : Type 0} (bolt : Bolt Db Bucket) (laws : Laws bolt) where
  -- An entry of the statistics is no owner's.
  write_stats-owner :
      (k v : Bytes) (s : Store Db) (scid : Bytes)
      → get_owner bolt scid (write_entry bolt stats k v s).0 ≡ get_owner bolt scid s
  unfolding get_owner ◌==◌
  write_stats-owner k v s scid =
      let r = write_entry bolt stats k v s in
      let writes = write_entry-Writes bolt laws stats k v s in
      elim (Option-cases r.2) [
        | inl fine ↦
            ap (λ (o : Option Bytes). elim o [ none ↦ [] | some w ↦ w ])
              (read-Sets_bucket bolt laws s.db r.0.db stats k v (writes.done fine).0 owner_bucket
                scid refl)
        | inr (e, bad) ↦ ap (λ t. get_owner bolt scid t) (writes.failed (λ h. cc (h, bad)))
      ]

  note_height-owner :
      (h : ℤ) (r : Result Db) (scid : Bytes)
      → get_owner bolt scid (note_height h r).0 ≡ get_owner bolt scid r.0
  unfolding note_height get_owner
  note_height-owner h (s, changes, none) scid = refl
  note_height-owner h (s, changes, some e) scid = refl

  module _ {Args Payload Float : Type 0} (vars_json : Codec (List (ScidVariable Float)))
      (invoke_json : Codec (Option (SctxParse Args Payload))) (heights_json : Codec (List ℤ)) where
    store_stats-owner :
        (n : Loaded) (h : ℤ) (s : Store Db) (scid : Bytes)
        → get_owner bolt scid (store_stats bolt vars_json invoke_json heights_json n h s)
          ≡ get_owner bolt scid s
    unfolding store_stats store_tx_count store_height store_last_index_height
    store_stats-owner n h s scid =
        let s1 = (store_tx_count bolt n.registration (codes "registration") s).0 in
        let s2 = (store_tx_count bolt n.burn (codes "burn") s1).0 in
        let s3 = (store_tx_count bolt n.normal (codes "normal") s2).0 in
        note_height-owner h (write_entry bolt stats height_key (format_int h) s3) scid
        ∙ write_stats-owner height_key (format_int h) s3 scid
        ∙ write_stats-owner (count_key (codes "normal")) (format_int n.normal) s2 scid
        ∙ write_stats-owner (count_key (codes "burn")) (format_int n.burn) s1 scid
        ∙ write_stats-owner (count_key (codes "registration")) (format_int n.registration) s scid

    -- A round that is through has added the contract without an error, and then its statistics.
    finish_round_wrote :
        (n : Loaded) (h : ℤ) (added : Added Db) (s' : Store Db)
        → finish_round bolt vars_json invoke_json heights_json n h added ≡ wrote s'
        → (t : Store Db) × (added ≡ done t none)
          × (store_stats bolt vars_json invoke_json heights_json n h t ≡ s')
    unfolding finish_round
    finish_round_wrote n h (done t none) s' e = (t, refl, wrote_inj _ s' e)
    finish_round_wrote n h (done t (some c)) s' e = absurd (cc (e))
    finish_round_wrote n h panics s' e = absurd (cc (e))
    finish_round_wrote n h waits s' e = absurd (cc (e))

    write_scid-owner :
        (n : Loaded) (staged : IndexStage Args Payload Float) (s s' : Store Db)
        → staged.parse.method ≡ install
        → write_scid bolt vars_json invoke_json heights_json n staged s ≡ wrote s'
        → get_owner bolt staged.parse.scid s' ≡ staged.parse.sender
    unfolding write_scid
    write_scid-owner n staged s s' installs e =
        let (t, added, counted) =
          finish_round_wrote n staged.parse.height
            (add_scid_to_index bolt vars_json invoke_json heights_json staged s) s' e in
        ap (λ u. get_owner bolt staged.parse.scid u) (sym counted)
        ∙ store_stats-owner n staged.parse.height t staged.parse.scid
        ∙ install_stores_owner bolt vars_json invoke_json heights_json laws staged s t installs
            added

    -- The contract that a transaction without the id of one is about: a new one, named by the hash.
    installed_target :
        (tx : ScTx Args Payload) (target : Target)
        → tx.has_scid ≡ false
        → target_of tx ≡ some target
        → (target.0 ≡ tx.hash) × (target.1 ≡ install)
    unfolding target_of known
    installed_target tx target no_scid e = elim (Bool-cases tx.has_code) [
      | inl coded ↦ elim (Bool-cases (tx.hash == [])) [
        | inl empty ↦ absurd (cc (rw (no_scid, target_of, coded, known, empty) at e))
        | inr named ↦
            let same : some (tx.hash, install, []) ≡ some target =
              rw (no_scid, target_of, coded, known, named) at e in
            (cc (same), cc (same))
      ]
      | inr bare ↦ absurd (cc (rw (no_scid, target_of, bare) at e))
    ]

    module _ (fees_json : Codec (Assoc ℕ)) (outside : Outside Float) (settings : Settings) where
      staged_at_end :
          (height : ℤ) (signer : Bytes) (target : Target) (tx : ScTx Args Payload)
          (before : List (IndexStage Args Payload Float)) (staged : IndexStage Args Payload Float)
          → Queued bolt fees_json outside settings height signer target tx before
              (before ++ staged ∷ [])
          → Stages bolt fees_json outside settings height signer target tx staged
      staged_at_end height signer target tx before staged (inl same) =
          absurd (snoc_grows before staged same)
      staged_at_end height signer target tx before staged (inr (other, e, stages)) =
          subst (λ k. Stages bolt fees_json outside settings height signer target tx k)
            (sym (snoc_inj before staged other e)) stages

      -- When an install puts a stage into the queue of the writer, and the writer's round for the
      -- stage is through, on whatever database, the owner of the contract under the transaction's
      -- hash is the signer, or "null" if there is none.
      pub written_install :
          (height : ℤ) (signer : Bytes) (tx : ScTx Args Payload) (w : Work Db Args Payload Float)
          (staged : IndexStage Args Payload Float) (n : Loaded) (s s' : Store Db)
          → tx.has_scid ≡ false
          → (work_on_scids bolt fees_json outside settings height signer tx w).scid_db_queue
            ≡ w.scid_db_queue ++ staged ∷ []
          → write_scid bolt vars_json invoke_json heights_json n staged s ≡ wrote s'
          → get_owner bolt tx.hash s' ≡ (if signer == [] then codes "null" else signer)
      written_install height signer tx w staged n s s' no_scid queued e =
          elim (work_on_scids-Queued bolt fees_json outside settings height signer tx w) [
            | inl same ↦ absurd (snoc_grows w.scid_db_queue staged (sym queued ∙ same))
            | inr (target, found, writable, q) ↦
                let (scid, method) = installed_target tx target no_scid found in
                let stages = staged_at_end height signer target tx w.scid_db_queue staged (
                  subst
                    (λ l.
                      Queued bolt fees_json outside settings height signer target tx w.scid_db_queue
                        l)
                    queued q) in
                ap (λ k. get_owner bolt k s') (sym (stages.0 ∙ scid))
                ∙ write_scid-owner n staged s s' (stages.1 ∙ method) e
                ∙ stages.6
          ]

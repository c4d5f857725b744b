-- ===== src/Indexer/Scids/Queue.antt =====
-- What `work_on_scids` of pkg/handling_scids.go puts into the queue of the writer.
use simple_gnomon.Prelude.{
  ℕ, ◌≡◌, ◌≢◌, refl, subst, ◌⊎◌, Bool, true, false, Option, none, some, List, [], ◌∷◌, ◌++◌,
  nat_beq, if◌then◌else◌, Option-cases, Bool-cases, inl, inr, if_either, ◌||◌, ◌&&◌, is_some,
}
use simple_gnomon.Prelude.Int.{ℤ}
use simple_gnomon.Prelude.Assoc.{Assoc}
use simple_gnomon.Prelude.Bytes.{Bytes, codes, ◌==◌, ==_iff}
use simple_gnomon.Go.Json.{Codec}
use simple_gnomon.Go.Strings.{slice_contains}
use simple_gnomon.Structs.{ScidVariable, IndexStage}
use simple_gnomon.Bolt.{Bolt}
use simple_gnomon.Store.{Store}
use simple_gnomon.Store.Daemon.{store_invalid_scid_deploys}
use simple_gnomon.Indexer.Variables.{get_sc_variables}
use simple_gnomon.Indexer.Classify.{classify}
use simple_gnomon.Indexer.Scids.Contract.{
  Hash, ScTx, Target, known, install, invoke, target_of, ScResult, Settings, Outside, params_of,
  no_vars,
}
use simple_gnomon.Indexer.Scids.{
  Work, nothing, get_contract, stage_scid, work_on_target, work_on_scids,
}

-- What the writer needs of a contract: a name, and a method that it knows.
abbrev pub Writable : Target → Type 0
Writable (scid, method, entrypoint) = (scid ≢ []) × ((method ≡ install) ⊎ (method ≡ invoke))

abbrev Found : Option Target → Type 0
Found none = Unit
Found (some target) = Writable target

known-Found :
    (scid method entrypoint : Bytes)
    → (method ≡ install) ⊎ (method ≡ invoke)
    → Found (known (scid, method, entrypoint))
unfolding known
known-Found scid method entrypoint h = elim (Bool-cases (scid == [])) [
  | inl empty ↦ rw empty tt
  | inr named ↦ rw named ((λ e. cc (named, (==_iff scid []).1 e)), h)
]

module _ {Args Payload : Type 0} (tx : ScTx Args Payload) where
  entered-Found :
      (value : Hash) (entrypoint : Option Bytes)
      → Found (elim entrypoint [ none ↦ none | some e ↦ known (value.text, invoke, e) ])
  entered-Found value none = tt
  entered-Found value (some e) = known-Found value.text invoke e (inr refl)

  target_of-Found : Found (target_of tx)
  unfolding target_of
  target_of-Found = elim (Bool-cases tx.has_scid) [
    | inl called ↦ elim (Option-cases tx.scid) [
      | inl untyped ↦ rw (called, target_of, untyped) tt
      | inr (value, typed) ↦
          rw (called, target_of, typed)
            (if_either (λ o. Found o) (value.text == [] || value.is_zero) _ _ tt
              (entered-Found value tx.entrypoint))
    ]
    | inr no_scid ↦
        rw (no_scid, target_of)
          (if_either (λ o. Found o) tx.has_code _ _ (known-Found tx.hash install [] (inl refl)) tt)
  ]

module _ {Db Bucket Args Payload Float : Type 0} (bolt : Bolt Db Bucket)
    (fees_json : Codec (Assoc ℕ)) (outside : Outside Float) (settings : Settings) where
  -- What a stage keeps of a transaction.
  abbrev pub Stages :
      ℤ → Bytes → Target → ScTx Args Payload → IndexStage Args Payload Float → Type 0
  Stages height signer (scid, method, entrypoint) tx staged =
      (staged.parse.scid ≡ scid)
      × (staged.parse.method ≡ method)
      × (staged.parse.entrypoint ≡ entrypoint)
      × (staged.parse.txid ≡ tx.hash)
      × (staged.parse.height ≡ height)
      × (staged.parse.fees ≡ tx.fees)
      × (staged.parse.sender ≡ (if signer == [] then codes "null" else signer))

  -- The queue is as it was, or one stage of the contract longer.
  abbrev pub Queued :
      ℤ
      → Bytes
      → Target
      → ScTx Args Payload
      → List (IndexStage Args Payload Float)
      → List (IndexStage Args Payload Float)
      → Type 0
  Queued height signer target tx before after =
      (after ≡ before)
      ⊎ ((staged : IndexStage Args Payload Float) × (after ≡ before ++ staged ∷ [])
          × Stages height signer target tx staged)

  stage_scid-Queued :
      (height : ℤ) (signer : Bytes) (target : Target) (tx : ScTx Args Payload) (sc : ScResult Float)
      (vars : List (ScidVariable Float)) (w : Work Db Args Payload Float)
      → Queued height signer target tx w.scid_db_queue
          (stage_scid bolt fees_json outside settings height signer target tx sc vars
            w).scid_db_queue
  unfolding stage_scid ◌==◌
  stage_scid-Queued height signer (scid, method, entrypoint) tx sc vars w =
      elim (Option-cases (classify settings.search_filter settings.indices scid sc.code)) [
        | inl apart ↦ rw (apart, stage_scid) (inl refl)
        | inr ((class, tags), found) ↦
            rw (found, stage_scid) (inr (_, refl, (refl, refl, refl, refl, refl, refl, refl)))
      ]

  stored-queue :
      (b : Bool) (s : Store Db) (w : Work Db Args Payload Float)
      → (if b then record w { store = s } else w).scid_db_queue ≡ w.scid_db_queue
  stored-queue true s w = refl
  stored-queue false s w = refl

  get_contract-queue :
      (height : ℤ) (target : Target) (tx : ScTx Args Payload) (w : Work Db Args Payload Float)
      → (get_contract bolt fees_json outside settings height target tx w).0.scid_db_queue
        ≡ w.scid_db_queue
  unfolding get_contract
  get_contract-queue height target tx w =
      let params = params_of settings height target in
      let r = store_invalid_scid_deploys bolt fees_json params.scid tx.fees w.store in
      let kept = stored-queue params.code r.0 w in
      elim (Option-cases (outside.get_sc params).1) [
        | inl fine ↦ rw (fine, get_contract) refl
        | inr (c, bad) ↦
            rw (bad, get_contract)
              (if_either
                (λ (p : Work Db Args Payload Float × Option (ScResult Float)).
                  p.0.scid_db_queue ≡ w.scid_db_queue)
                ((params.code && is_some r.2) || no_vars (outside.get_sc params).0.string_keys) _ _
                kept kept)
      ]

  work_on_target-Queued :
      (height : ℤ) (signer : Bytes) (target : Target) (tx : ScTx Args Payload)
      (w : Work Db Args Payload Float)
      → Queued height signer target tx w.scid_db_queue
          (work_on_target bolt fees_json outside settings height signer target tx w).scid_db_queue
  unfolding work_on_target
  work_on_target-Queued height signer target tx w =
      elim (Bool-cases (slice_contains w.store.exclusions target.0)) [
        | inl excluded ↦
            rw (excluded, work_on_target) (stage_scid-Queued height signer target tx nothing [] w)
        | inr asked ↦
            let got = get_contract bolt fees_json outside settings height target tx w in
            elim (Option-cases got.1) [
              | inl nothing_said ↦
                  rw (asked, work_on_target, nothing_said)
                    (inl (get_contract-queue height target tx w))
              | inr (sc, said) ↦
                  rw (asked, work_on_target, said)
                    (subst
                      (λ q.
                        Queued height signer target tx q
                          (stage_scid bolt fees_json outside settings height signer target tx sc
                            (get_sc_variables outside.crypto sc.string_keys sc.uint64_keys)
                            got.0).scid_db_queue)
                      (get_contract-queue height target tx w)
                      (stage_scid-Queued height signer target tx sc
                        (get_sc_variables outside.crypto sc.string_keys sc.uint64_keys) got.0))
            ]
      ]

  -- A transaction leaves the queue of the writer as it was, or puts one stage at its end. The stage is
  -- of the contract that the transaction's data name, under a name that is not empty and with a method
  -- that the writer knows, and it keeps the transaction's hash, fees and signer, and the height.
  pub work_on_scids-Queued :
      (height : ℤ) (signer : Bytes) (tx : ScTx Args Payload) (w : Work Db Args Payload Float)
      → let after =
          (work_on_scids bolt fees_json outside settings height signer tx w).scid_db_queue in
        (after ≡ w.scid_db_queue)
        ⊎ ((target : Target) × (target_of tx ≡ some target)
            × Writable target
            × Queued height signer target tx w.scid_db_queue after)
  unfolding work_on_scids
  work_on_scids-Queued height signer tx w = elim (Bool-cases (nat_beq tx.size 0)) [
    | inl empty ↦ rw (empty, work_on_scids) (inl refl)
    | inr full ↦ elim (Option-cases (target_of tx)) [
      | inl apart ↦ rw (full, work_on_scids, apart) (inl refl)
      | inr (target, found) ↦
          rw (full, work_on_scids, found)
            (inr (
              target,
              refl,
              subst (λ o. Found o) found (target_of-Found tx),
              work_on_target-Queued height signer target tx w,
            ))
    ]
  ]

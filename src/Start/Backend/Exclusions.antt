-- ===== src/Start/Backend/Exclusions.antt =====
-- The exclusions that `set_up_backend` of pkg/backend.go gives to the databases, and what
-- `work_on_scids` of pkg/handling_scids.go does with a contract that is one of them.
use simple_gnomon.Prelude.{
  ℕ, ◌≡◌, ◌⊎◌, refl, sym, ap, ◌∙◌, subst, true, Option, some, List, [], ◌∷◌, ◌++◌, map, In,
  In-append_right, append_assoc, append-nil, nat_beq, inl, inr, Option-cases, Bool-cases,
}
use simple_gnomon.Prelude.Int.{ℤ}
use simple_gnomon.Prelude.Assoc.{Assoc}
use simple_gnomon.Prelude.Bytes.{Bytes, codes}
use simple_gnomon.Go.Json.{Codec}
use simple_gnomon.Go.Strings.{slice_contains}
use simple_gnomon.Go.Strings.Contains.{In-slice_contains}
use simple_gnomon.Structs.{SearchFilter}
use simple_gnomon.Bolt.{Bolt, Res, ok, Res-cases}
use simple_gnomon.Store.{Store}
use simple_gnomon.Start.Flags.{Flags}
use simple_gnomon.Start.Filters.{Excluded}
use simple_gnomon.Start.Backend.{
  ConfigFile, set_up_searches, set_up_exclusions, exclude_each, set_up_backend,
}
use simple_gnomon.Indexer.Scids.Contract.{
  ScTx, Target, target_of, GetScParams, ScResult, Settings, Outside,
}
use simple_gnomon.Indexer.Scids.{Work, stage_scid, work_on_target, work_on_scids}

abbrev scid_of : Excluded → Bytes
scid_of e = e.scid

exclude_each_appends :
    {Db : Type 0} (excludes : List Excluded) (s : Store Db)
    → (exclude_each excludes s).exclusions ≡ s.exclusions ++ map scid_of excludes
unfolding exclude_each
exclude_each_appends [] s = sym (append-nil s.exclusions)
exclude_each_appends (e ∷ excludes) s =
    exclude_each_appends excludes (record s { exclusions = s.exclusions ++ e.scid ∷ [] })
    ∙ append_assoc s.exclusions (e.scid ∷ []) (map scid_of excludes)

In-map :
    (e : Excluded) (excludes : List Excluded) → In e excludes → In e.scid (map scid_of excludes)
In-map e [] i = elim i [ ]
In-map e (x ∷ excludes) (inl same) = inl (ap scid_of same)
In-map e (x ∷ excludes) (inr i) = inr (In-map e excludes i)

exclude_each-contains :
    {Db : Type 0} (e : Excluded) (excludes : List Excluded) (s : Store Db)
    → In e excludes
    → slice_contains (exclude_each excludes s).exclusions e.scid ≡ true
exclude_each-contains e excludes s i =
    In-slice_contains (exclude_each excludes s).exclusions e.scid (
      subst (λ l. In e.scid l) (sym (exclude_each_appends excludes s))
        (In-append_right e.scid s.exclusions (map scid_of excludes) (In-map e excludes i)))

abbrev pub with_daemon :
    {Float : Type 0} → (GetScParams → ScResult Float × Option ℕ) → Outside Float → Outside Float
with_daemon get_sc outside = record outside { get_sc = get_sc }

module _ {Db : Type 0} (new_bbolt_db : Bytes → Res (Store Db))
    (search_file : ConfigFile (List SearchFilter)) (exclude_file : ConfigFile (List Excluded))
    (flags : Flags) (indices : List SearchFilter) where
  -- The databases that come out of a set-up without an error are two that were opened, with every
  -- exclusion.
  set_up_backend_ok :
      (searches : List SearchFilter) (b bb : Store Db)
      → set_up_backend new_bbolt_db search_file exclude_file flags indices ≡ (searches, ok (b, bb))
      → let excludes = (set_up_exclusions exclude_file flags).0 in
        (o : Store Db) × (oo : Store Db) × (exclude_each excludes o ≡ b)
        × (exclude_each excludes oo ≡ bb)
  unfolding set_up_backend
  set_up_backend_ok searches b bb h =
      elim (Option-cases (set_up_searches search_file flags indices).1) [
        | inr (c, bad) ↦ absurd (cc (rw (set_up_backend, bad) at h))
        | inl fine ↦ elim (Option-cases (set_up_exclusions exclude_file flags).1) [
          | inr (c, bad) ↦ absurd (cc (rw (set_up_backend, fine, bad) at h))
          | inl well ↦ elim (Res-cases (new_bbolt_db (codes "GNOMON.db"))) [
            | inr (c, closed) ↦ absurd (cc (rw (set_up_backend, fine, well, closed) at h))
            | inl (o, opened) ↦ elim (Res-cases (new_bbolt_db (codes "GNOMON.db.bak"))) [
              | inr (c, closed) ↦ absurd (cc (rw (set_up_backend, fine, well, opened, closed) at h))
              | inl (oo, also) ↦
                  let same = rw (set_up_backend, fine, well, opened, also) at h in
                  (o, oo, cc (same), cc (same))
            ]
          ]
        ]
      ]

  module _ {Bucket Args Payload Float : Type 0} (bolt : Bolt Db Bucket)
      (fees_json : Codec (Assoc ℕ)) (outside : Outside Float) (settings : Settings)
      (get_sc : GetScParams → ScResult Float × Option ℕ) where
    -- A contract that the store excludes is the same with another daemon.
    excluded_target :
        (height : ℤ) (signer : Bytes) (target : Target) (tx : ScTx Args Payload)
        (w : Work Db Args Payload Float)
        → slice_contains w.store.exclusions target.0 ≡ true
        → work_on_target bolt fees_json outside settings height signer target tx w
          ≡ work_on_target bolt fees_json
              (with_daemon get_sc outside)
              settings
              height
              signer
              target
              tx
              w
    unfolding work_on_target stage_scid
    excluded_target height signer (scid, method, entrypoint) tx w excluded =
        rw (work_on_target, excluded) refl

    -- After a set-up without an error, with the exclusions of either database, the work on a
    -- transaction about a contract that the flag or the file excludes does not depend on what the
    -- daemon answers about contracts.
    pub excluded_unread :
        (searches : List SearchFilter) (b bb : Store Db) (e : Excluded) (height : ℤ)
        (signer : Bytes) (target : Target) (tx : ScTx Args Payload) (w : Work Db Args Payload Float)
        → set_up_backend new_bbolt_db search_file exclude_file flags indices
          ≡ (searches, ok (b, bb))
        → In e (set_up_exclusions exclude_file flags).0
        → target_of tx ≡ some target
        → target.0 ≡ e.scid
        → (w.store.exclusions ≡ b.exclusions) ⊎ (w.store.exclusions ≡ bb.exclusions)
        → work_on_scids bolt fees_json outside settings height signer tx w
          ≡ work_on_scids bolt fees_json (with_daemon get_sc outside) settings height signer tx w
    unfolding work_on_scids
    excluded_unread searches b bb e height signer target tx w h listed found same from =
        let excludes = (set_up_exclusions exclude_file flags).0 in
        let (o, oo, first, second) = set_up_backend_ok searches b bb h in
        let holds : slice_contains w.store.exclusions target.0 ≡ true = elim from [
          | inl main ↦ rw (same, main, ← first) (exclude_each-contains e excludes o listed)
          | inr backup ↦ rw (same, backup, ← second) (exclude_each-contains e excludes oo listed)
        ] in
        elim (Bool-cases (nat_beq tx.size 0)) [
          | inl empty ↦ rw (work_on_scids, empty) refl
          | inr full ↦
              rw (work_on_scids, full, found) (excluded_target height signer target tx w holds)
        ]

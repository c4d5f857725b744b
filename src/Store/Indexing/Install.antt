-- ===== src/Store/Indexing/Install.antt =====
-- What `AddSCIDToIndex` leaves behind.
use simple_gnomon.Prelude.{
  ◌≡◌, refl, ap, ◌∙◌, true, false, Option, none, some, List, [], Bool-cases, inl, inr,
}
use simple_gnomon.Prelude.Int.{ℤ}
use simple_gnomon.Prelude.Bytes.{codes, ◌==◌, ==_iff, ==_refl}
use simple_gnomon.Go.Strconv.{format_int}
use simple_gnomon.Go.Json.{Codec}
use simple_gnomon.Structs.{SctxParse, ScidVariable, IndexStage}
use simple_gnomon.Bolt.{Bolt, Laws}
use simple_gnomon.Store.{Store, Result}
use simple_gnomon.Store.Owner.{store_owner, get_owner}
use simple_gnomon.Store.Owner.Records.{store_owner_answers}
use simple_gnomon.Store.Invoke.{store_invoke_details}
use simple_gnomon.Store.Variables.{store_scid_variable_details}
use simple_gnomon.Store.Indexing.{
  Added, done, panics, waits, after_owner, after_invoke, by_method, after_vars, add_scid_to_index,
}

-- However the call returns, the flag is clear.
abbrev pub IsReleased : {Db : Type 0} → Added Db → Type 0
IsReleased (done s e) = s.writing ≡ false
IsReleased panics = Unit
IsReleased waits = Unit

after_owner-IsReleased : {Db : Type 0} (r : Result Db) → IsReleased (after_owner r)
unfolding after_owner
after_owner-IsReleased (s, changed, some e) = refl
after_owner-IsReleased (s, false, none) = refl
after_owner-IsReleased (s, true, none) = refl

module _ {Db Bucket Args Payload Float : Type 0} (bolt : Bolt Db Bucket)
    (vars_json : Codec (List (ScidVariable Float)))
    (invoke_json : Codec (Option (SctxParse Args Payload))) (heights_json : Codec (List ℤ)) where
  after_invoke-IsReleased :
      (p : SctxParse Args Payload) (o : Option (Result Db))
      → IsReleased (after_invoke bolt vars_json invoke_json heights_json p o)
  unfolding after_invoke
  after_invoke-IsReleased p none = tt
  after_invoke-IsReleased p (some (s, changed, some e)) = refl
  after_invoke-IsReleased p (some (s, false, none)) = refl
  after_invoke-IsReleased p (some (s, true, none)) = refl

  by_method-IsReleased :
      (stage : IndexStage Args Payload Float) (s : Store Db)
      → IsReleased (by_method bolt vars_json invoke_json heights_json stage s)
  unfolding by_method
  by_method-IsReleased stage s = elim (Bool-cases (stage.parse.method == codes "install")) [
    | inl install ↦ rw install (
        after_owner-IsReleased (
          store_owner bolt stage.parse.scid stage.parse.sender stage.headers stage.class stage.tags
            (format_int stage.parse.height) s))
    | inr no_install ↦ elim (Bool-cases (stage.parse.method == codes "invoke")) [
      | inl invoke ↦
          rw (no_install, invoke)
            (after_invoke-IsReleased stage.parse (
              store_invoke_details bolt invoke_json stage.parse.scid stage.parse.sender
                stage.parse.entrypoint stage.parse.height stage.parse s))
      | inr no_invoke ↦ rw (no_install, no_invoke) refl
    ]
  ]

  after_vars-IsReleased :
      (stage : IndexStage Args Payload Float) (r : Result Db)
      → IsReleased (after_vars bolt vars_json invoke_json heights_json stage r)
  unfolding after_vars
  after_vars-IsReleased stage (s, changed, some e) = refl
  after_vars-IsReleased stage (s, false, none) = refl
  after_vars-IsReleased stage (s, true, none) = by_method-IsReleased stage s

  -- Every call that returns, with an error or without, leaves the flag of the writer clear.
  pub add_scid_to_index-IsReleased :
      (stage : IndexStage Args Payload Float) (s : Store Db)
      → IsReleased (add_scid_to_index bolt vars_json invoke_json heights_json stage s)
  unfolding add_scid_to_index
  add_scid_to_index-IsReleased stage s = elim (Bool-cases (stage.parse.scid == [])) [
    | inl empty ↦ rw empty refl
    | inr named ↦ elim (Bool-cases s.writing) [
      | inl busy ↦ rw (named, busy) tt
      | inr idle ↦
          rw (named, idle)
            (after_vars-IsReleased stage (
              store_scid_variable_details bolt vars_json stage.parse.scid stage.sc_vars
                stage.parse.height (record s { writing = true })))
    ]
  ]

  after_owner_fine :
      (r : Result Db) (s' : Store Db)
      → after_owner r ≡ done s' none
      → (r.2 ≡ none) × (r.0.db ≡ s'.db)
  unfolding after_owner
  after_owner_fine (s, changed, some e) s' h = absurd (cc h)
  after_owner_fine (s, false, none) s' h = absurd (cc h)
  after_owner_fine (s, true, none) s' h = (refl, ap db_of h)
    where
      db_of : Added Db → Db
      db_of (done t e) = t.db
      db_of panics = s.db
      db_of waits = s.db

  after_vars_fine :
      (stage : IndexStage Args Payload Float) (r : Result Db) (s' : Store Db)
      → after_vars bolt vars_json invoke_json heights_json stage r ≡ done s' none
      → by_method bolt vars_json invoke_json heights_json stage r.0 ≡ done s' none
  unfolding after_vars
  after_vars_fine stage (s, changed, some e) s' h = absurd (cc h)
  after_vars_fine stage (s, false, none) s' h = absurd (cc h)
  after_vars_fine stage (s, true, none) s' h = h

  add_fine :
      (stage : IndexStage Args Payload Float) (s s' : Store Db)
      → add_scid_to_index bolt vars_json invoke_json heights_json stage s ≡ done s' none
      → by_method bolt vars_json invoke_json heights_json stage
          (store_scid_variable_details bolt vars_json stage.parse.scid stage.sc_vars
            stage.parse.height
            (record s { writing = true })).0
        ≡ done s' none
  unfolding add_scid_to_index
  add_fine stage s s' h = elim (Bool-cases (stage.parse.scid == [])) [
    | inl empty ↦ absurd (cc (rw empty at h))
    | inr named ↦ elim (Bool-cases s.writing) [
      | inl busy ↦ absurd (cc (rw (named, busy) at h))
      | inr idle ↦
          after_vars_fine stage
            (store_scid_variable_details bolt vars_json stage.parse.scid stage.sc_vars
              stage.parse.height (record s { writing = true }))
            s' (rw (named, idle) at h)
    ]
  ]

  -- After an install that returned no error, the contract's owner is the sender of the install.
  pub install_stores_owner :
      Laws bolt
      → (stage : IndexStage Args Payload Float) (s s' : Store Db)
      → stage.parse.method ≡ codes "install"
      → add_scid_to_index bolt vars_json invoke_json heights_json stage s ≡ done s' none
      → get_owner bolt stage.parse.scid s' ≡ stage.parse.sender
  unfolding by_method get_owner
  install_stores_owner laws stage s s' install h =
      let p = stage.parse in
      let s1 =
        (store_scid_variable_details bolt vars_json p.scid stage.sc_vars p.height
          (record s { writing = true })).0 in
      let r =
        store_owner bolt p.scid p.sender stage.headers stage.class stage.tags (format_int p.height)
          s1 in
      let is_install = (==_iff p.method (codes "install")).1 install in
      let (fine, same) = after_owner_fine r s' (rw is_install at (add_fine stage s s' h)) in
      rw (← same) (
        (store_owner_answers bolt laws p.scid p.sender stage.headers stage.class stage.tags
          (format_int p.height) p.scid s1 fine).0
        ∙ rw (==_refl p.scid))

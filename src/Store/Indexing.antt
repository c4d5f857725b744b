-- ===== src/Store/Indexing.antt =====
-- `AddSCIDToIndex` of db/bbolt.go, which stores a contract that was installed or invoked.
pub mod Install
use simple_gnomon.Prelude.{◌≡◌, Bool, true, false, Option, none, some, List, [], ◌∷◌, if◌then◌else◌}
use simple_gnomon.Prelude.Int.{ℤ}
use simple_gnomon.Prelude.Bytes.{Bytes, codes, ◌==◌}
use simple_gnomon.Go.Strconv.{format_int}
use simple_gnomon.Go.Json.{Codec}
use simple_gnomon.Structs.{SctxParse, ScidVariable, IndexStage}
use simple_gnomon.Bolt.{Bolt}
use simple_gnomon.Bolt.Update.{Error, no_scid, no_vars_stored, no_owner_stored}
use simple_gnomon.Store.{Store, Result}
use simple_gnomon.Store.Owner.{store_owner}
use simple_gnomon.Store.Invoke.{store_invoke_details}
use simple_gnomon.Store.Interaction.{store_scid_interaction_height}
use simple_gnomon.Store.Variables.{store_scid_variable_details}

-- How a call ends: with the store and its error, with a panic, or not before another writer has
-- cleared the flag that it waits for.
pub data Added (Db : Type 0) : Type 0 where
  done : Store Db → Option Error → Added Db
  panics waits : Added Db

-- A return, with the deferred `bbs.Writing = false`.
unfoldable pub close : {Db : Type 0} → Store Db → Option Error → Added Db
close s e = done (record s { writing = false }) e

unfoldable pub after_owner : {Db : Type 0} → Result Db → Added Db
unfolding close
after_owner (s, changed, some e) = close s (some e)
after_owner (s, false, none) = close s (some no_owner_stored)
after_owner (s, true, none) = close s none

-- Whether the height was new makes no difference.
unfoldable pub after_heights : {Db : Type 0} → Result Db → Added Db
unfolding close
after_heights (s, changed, e) = close s e

module _ {Db Bucket Args Payload Float : Type 0} (bolt : Bolt Db Bucket)
    (vars_json : Codec (List (ScidVariable Float)))
    (invoke_json : Codec (Option (SctxParse Args Payload))) (heights_json : Codec (List ℤ)) where
  -- `none` is a panic inside `StoreInvokeDetails`.
  unfoldable pub after_invoke : SctxParse Args Payload → Option (Result Db) → Added Db
  unfolding close after_heights
  after_invoke p none = panics
  after_invoke p (some (s, changed, some e)) = close s (some e)
  after_invoke p (some (s, false, none)) = close s none
  after_invoke p (some (s, true, none)) =
      after_heights (store_scid_interaction_height bolt heights_json p.scid p.height s)

  -- The switch on the method; a contract with another method has its variables stored, and no more.
  unfoldable pub by_method : IndexStage Args Payload Float → Store Db → Added Db
  unfolding close after_owner after_invoke
  by_method stage s =
      let p = stage.parse in
      if p.method == codes "install"
      then after_owner (
          store_owner bolt p.scid p.sender stage.headers stage.class stage.tags
            (format_int p.height) s)
      else if p.method == codes "invoke"
      then after_invoke p
          (store_invoke_details bolt invoke_json p.scid p.sender p.entrypoint p.height p s)
      else close s none

  unfoldable pub after_vars : IndexStage Args Payload Float → Result Db → Added Db
  unfolding close by_method
  after_vars stage (s, changed, some e) = close s (some e)
  after_vars stage (s, false, none) = close s (some no_vars_stored)
  after_vars stage (s, true, none) = by_method stage s

  unfoldable pub add_scid_to_index : IndexStage Args Payload Float → Store Db → Added Db
  unfolding close after_vars
  add_scid_to_index stage s =
      let p = stage.parse in
      if p.scid == []
      then close s (some no_scid)
      else if s.writing
      then waits
      else after_vars stage (
          store_scid_variable_details bolt vars_json p.scid stage.sc_vars p.height
            (record s { writing = true }))

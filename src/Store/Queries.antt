-- ===== src/Store/Queries.antt =====
-- The searches in a contract's variables in db/bbolt.go, `GetSCIDKeysByValue` and
-- `GetSCIDValuesByKey`, and `GetSCIDInteractionByAddr`.
pub mod Selection
pub mod Matching
use simple_gnomon.Prelude.{
  ◌≡◌, ℕ, Bool, true, false, ltb, nat_beq, length, Option, none, some, List, [], ◌∷◌, ◌++◌,
  if◌then◌else◌,
}
use simple_gnomon.Prelude.Int.{ℤ}
use simple_gnomon.Prelude.Bytes.{Bytes, codes, ◌==◌}
use simple_gnomon.Prelude.Assoc.{Assoc}
use simple_gnomon.Go.Strings.{slice_contains}
use simple_gnomon.Go.Json.{Codec}
use simple_gnomon.Globals.{nameservice}
use simple_gnomon.Structs.{Any, nil, float, uint, text, other, ScidVariable, NormalTx, SctxParse}
use simple_gnomon.Bolt.{Bolt}
use simple_gnomon.Store.{Store}
use simple_gnomon.Store.Owner.{get_all_owners_and_scids}
use simple_gnomon.Store.Interaction.{get_scid_interaction_height, get_interaction_index}
use simple_gnomon.Store.Invoke.{get_invoke_details_by_signer}
use simple_gnomon.Store.NormalTx.{get_all_normal_tx_by_addr}
use simple_gnomon.Store.Variables.{Vars, variables_at_topoheight}

-- The texts and the numbers found.
abbrev pub Found : Type 0
Found = List Bytes × List ℕ

module _ {Float : Type 0} (to_uint : Float → ℕ) where
  -- The callback: `none` is the panic of `k.(string)` on a value of another type.
  unfoldable pub callback : Any Float → Found → Option Found
  callback (float f) (strings, uints) = some (strings, uints ++ to_uint f ∷ [])
  callback (uint n) (strings, uints) = some (strings, uints ++ n ∷ [])
  callback (text s) (strings, uints) = some (strings ++ s ∷ [], uints)
  callback nil found = none
  callback other found = none

  -- The two switches: on the argument, and on the key or the value of a variable.
  unfoldable pub equals : Any Float → Any Float → Bool
  unfolding ◌==◌
  equals (uint input) (float f) = nat_beq input (to_uint f)
  equals (uint input) (uint n) = nat_beq input n
  equals (text input) (text s) = input == s
  equals _ _ = false

  -- The loop over the variables; `test` and `got` are their keys and values, in one order or the other.
  unfoldable pub gather :
      (ScidVariable Float → Any Float)
      → (ScidVariable Float → Any Float)
      → Any Float
      → Found
      → List (ScidVariable Float)
      → Option Found
  unfolding callback equals
  gather test got input found [] = some found
  gather test got input found (v ∷ vs) =
      if equals input (test v)
      then elim (callback (got v) found) [ none ↦ none | some more ↦ gather test got input more vs ]
      else gather test got input found vs

module _ {Db Bucket Float : Type 0} (bolt : Bolt Db Bucket) (to_uint : Float → ℕ)
    (json : Codec (List (ScidVariable Float))) (heights : Codec (List ℤ))
    (visit : Vars → Vars) where
  -- The variables at the interaction index of the height.
  unfoldable pub variables_for : Bytes → ℤ → Store Db → List (ScidVariable Float)
  unfolding get_scid_interaction_height get_interaction_index variables_at_topoheight
  variables_for scid height s =
      let interaction_height =
        get_interaction_index height (get_scid_interaction_height bolt heights scid s) in
      variables_at_topoheight bolt to_uint json visit scid interaction_height s

  unfoldable pub get_scid_keys_by_value : Bytes → Any Float → ℤ → Store Db → Option Found
  unfolding gather variables_for
  get_scid_keys_by_value scid value height s =
      gather to_uint (λ v. v.value) (λ v. v.key) value ([], []) (variables_for scid height s)

  unfoldable pub get_scid_values_by_key : Bytes → Any Float → ℤ → Store Db → Option Found
  unfolding gather variables_for
  get_scid_values_by_key scid key height s =
      gather to_uint (λ v. v.key) (λ v. v.value) key ([], []) (variables_for scid height s)

-- `if !slices.Contains(scids, scid) { scids = append(scids, scid) }`
unfoldable pub add_new : List Bytes → Bytes → List Bytes
unfolding slice_contains
add_new scids scid = if slice_contains scids scid then scids else scids ++ scid ∷ []

unfoldable pub add_txs : List Bytes → List NormalTx → List Bytes
unfolding add_new
add_txs scids [] = scids
add_txs scids (v ∷ txs) = add_txs (add_new scids v.scid) txs

module _ {Db Bucket Args Payload : Type 0} (bolt : Bolt Db Bucket) (txs : Codec (List NormalTx))
    (details : Codec (Option (SctxParse Args Payload))) (visit : Assoc Bytes → Assoc Bytes) where
  -- The loop over the contracts; `none` is a panic of the query for one of them.
  unfoldable pub add_invoked : Bytes → Store Db → List Bytes → Assoc Bytes → Option (List Bytes)
  unfolding add_new get_invoke_details_by_signer ◌==◌
  add_invoked addr s scids [] = some scids
  add_invoked addr s scids ((k, owner) ∷ m) =
      if k == nameservice
      then add_invoked addr s scids m
      else elim (get_invoke_details_by_signer bolt details k addr s) [
        | none ↦ none
        | some found ↦
            add_invoked addr s (if ltb 0 (length found) then add_new scids k else scids) m
      ]

  -- `visit` is the order in which Go visits the map of the owners.
  unfoldable pub get_scid_interaction_by_addr : Bytes → Store Db → Option (List Bytes)
  unfolding add_txs add_invoked get_all_normal_tx_by_addr get_all_owners_and_scids
  get_scid_interaction_by_addr addr s =
      add_invoked addr s (add_txs [] (get_all_normal_tx_by_addr bolt txs addr s))
        (visit (get_all_owners_and_scids bolt s))

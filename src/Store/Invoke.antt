-- ===== src/Store/Invoke.antt =====
-- The invocations of a contract in db/bbolt.go. A bucket named by the contract holds them, under keys
-- of the signer, a short form of the transaction, the height and the entrypoint.
pub mod Search
use simple_gnomon.Prelude.{
  ◌-◌, Bool, false, Option, none, some, List, [], ◌∷◌, ◌++◌, map, take, drop, length, ltb,
  if◌then◌else◌,
}
use simple_gnomon.Prelude.Int.{ℤ, ltb_ℤ}
use simple_gnomon.Prelude.Bytes.{Bytes, codes, ◌==◌}
use simple_gnomon.Prelude.Assoc.{Assoc}
use simple_gnomon.Go.Strconv.{format_int}
use simple_gnomon.Go.Strings.{split}
use simple_gnomon.Go.Sort.{sort_stable}
use simple_gnomon.Go.Json.{Codec}
use simple_gnomon.Structs.{SctxParse}
use simple_gnomon.Bolt.{Bolt, ok, err, scan}
use simple_gnomon.Bolt.Update.{marshal}
use simple_gnomon.Store.{Store, Result, write_entry}

-- `Txid[0:3] + Txid[txidLen-3:txidLen]`; `none` is the panic on a shorter text.
unfoldable pub short_txid : Bytes → Option Bytes
short_txid txid =
    if ltb (length txid) 3 then none else some (take 3 txid ++ drop (length txid - 3) txid)

unfoldable pub invoke_key : Bytes → Bytes → ℤ → Bytes → Bytes
invoke_key signer short topoheight entrypoint =
    signer ++ codes ":" ++ short ++ codes ":" ++ format_int topoheight ++ codes ":" ++ entrypoint

module _ {Args Payload : Type 0} where
  -- The order of the comparison in `sort.SliceStable`.
  abbrev pub earlier : SctxParse Args Payload → SctxParse Args Payload → Bool
  earlier a b = ltb_ℤ a.height b.height

  -- A value that is no JSON leaves a nil pointer; `none` is the panic that reading through it raises.
  unfoldable pub no_nil :
      List (Option (SctxParse Args Payload)) → Option (List (SctxParse Args Payload))
  no_nil [] = some []
  no_nil (none ∷ ps) = none
  no_nil (some a ∷ ps) = elim (no_nil ps) [ none ↦ none | some as' ↦ some (a ∷ as') ]

  unfoldable pub keep_where :
      (SctxParse Args Payload → Bool)
      → List (SctxParse Args Payload)
      → List (SctxParse Args Payload)
  keep_where test [] = []
  keep_where test (a ∷ as') = let rest = keep_where test as' in if test a then a ∷ rest else rest

  unfoldable pub sorted_details :
      (SctxParse Args Payload → Bool)
      → List (Option (SctxParse Args Payload))
      → Option (List (SctxParse Args Payload))
  unfolding no_nil keep_where sort_stable
  sorted_details test ps = elim (no_nil ps) [
    | none ↦ none
    | some as' ↦ some (sort_stable earlier (keep_where test as'))
  ]

module _ {Args Payload : Type 0} where
  -- `sort.SliceStable` over pointers: with two of them or more, each is read.
  unfoldable pub sort_pointers :
      List (Option (SctxParse Args Payload)) → Option (List (Option (SctxParse Args Payload)))
  unfolding no_nil sort_stable
  sort_pointers [] = some []
  sort_pointers (p ∷ []) = some (p ∷ [])
  sort_pointers (p ∷ q ∷ ps) = elim (no_nil (p ∷ q ∷ ps)) [
    | none ↦ none
    | some as' ↦ some (map some (sort_stable earlier as'))
  ]

module _ {Db Bucket Args Payload : Type 0} (bolt : Bolt Db Bucket)
    (json : Codec (Option (SctxParse Args Payload))) where
  -- `none` is the panic of `short_txid`. What fails to be marshalled leaves the database alone.
  unfoldable pub store_invoke_details :
      Bytes → Bytes → Bytes → ℤ → SctxParse Args Payload → Store Db → Option (Result Db)
  unfolding short_txid invoke_key
  store_invoke_details scid signer entrypoint topoheight details s =
      elim (json.marshal (some details)) [
        | err c ↦ some (s, false, some (marshal c))
        | ok text ↦ elim (short_txid details.txid) [
          | none ↦ none
          | some short ↦
              some (write_entry bolt scid (invoke_key signer short topoheight entrypoint) text s)
        ]
      ]

  abbrev pub details_of : Assoc Bytes → List (Option (SctxParse Args Payload))
  details_of m = map (λ e. json.decode e.1) m

  unfoldable pub get_all_scid_invoke_details :
      Bytes → Store Db → Option (List (Option (SctxParse Args Payload)))
  unfolding sort_pointers
  get_all_scid_invoke_details scid s = sort_pointers (details_of (scan bolt s.db scid))

  unfoldable pub get_invoke_details_by_entrypoint :
      Bytes → Bytes → Store Db → Option (List (SctxParse Args Payload))
  unfolding sorted_details ◌==◌
  get_invoke_details_by_entrypoint scid entrypoint s =
      sorted_details (λ a. a.entrypoint == entrypoint) (details_of (scan bolt s.db scid))

  unfoldable pub get_invoke_details_by_signer :
      Bytes → Bytes → Store Db → Option (List (SctxParse Args Payload))
  unfolding sorted_details split
  get_invoke_details_by_signer scid signer_part s =
      sorted_details (λ a. ltb 1 (length (split a.sender signer_part)))
        (details_of (scan bolt s.db scid))

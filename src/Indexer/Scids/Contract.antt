-- ===== src/Indexer/Scids/Contract.antt =====
-- The contract that a transaction is about, and its headers, in `work_on_scids` of
-- pkg/handling_scids.go.
use simple_gnomon.Prelude.{
  ℕ, Bool, true, false, not, ◌&&◌, ◌||◌, Option, none, some, List, [], ◌∷◌, if◌then◌else◌,
}
use simple_gnomon.Prelude.Int.{ℤ, negsuc}
use simple_gnomon.Prelude.Bytes.{Bytes, codes, ◌==◌}
use simple_gnomon.Prelude.Assoc.{Assoc}
use simple_gnomon.Go.Strings.{contains}
use simple_gnomon.Structs.{Any, SearchFilter}
use simple_gnomon.Indexer.Headers.{
  Metadata, vars_header, header_from_metadata, null_text, header_text,
}
use simple_gnomon.Indexer.Variables.{Crypto}

-- A value of type `crypto.Hash`: its text, and whether it is zero.
pub record Hash : Type 0 where
  pub text : Bytes
  pub is_zero : Bool

-- What the function reads of derohe's transaction.
pub record ScTx (Args Payload : Type 0) : Type 0 where
  -- `tx.SCDATA`, and its length
  pub scdata : Args
  pub size : ℕ
  -- `HasValue(rpc.SCCODE, rpc.DataString)` and `HasValue(rpc.SCID, rpc.DataHash)`
  pub has_code : Bool
  pub has_scid : Bool
  -- the type assertions on the values of `rpc.SCID` and "entrypoint"
  pub scid : Option Hash
  pub entrypoint : Option Bytes
  -- `tx.GetHash().String()`
  pub hash : Bytes
  pub payloads : List Payload
  pub fees : ℕ

-- The contract, the method and the entrypoint.
abbrev pub Target : Type 0
Target = Bytes × Bytes × Bytes

abbrev pub install : Bytes
install = codes "install"

abbrev pub invoke : Bytes
invoke = codes "invoke"

unfoldable pub known : Target → Option Target
unfolding ◌==◌
known (scid, method, entrypoint) = if scid == [] then none else some (scid, method, entrypoint)

-- The two tests on the data; `none` is a return.
unfoldable pub target_of : {Args Payload : Type 0} → ScTx Args Payload → Option Target
unfolding known ◌==◌
target_of tx = elim tx.has_scid [
  | false ↦ if tx.has_code then known (tx.hash, install, []) else none
  | true ↦ elim tx.scid [
    | none ↦ none
    | some value ↦ if value.text == [] || value.is_zero then none else elim tx.entrypoint [
      | none ↦ none
      | some entrypoint ↦ known (value.text, invoke, entrypoint)
    ]
  ]
]

pub record GetScParams : Type 0 where
  pub scid : Bytes
  pub code : Bool
  pub variables : Bool
  pub topo_height : ℤ

-- derohe's `GetSC_Result`, as far as it is read; the maps in the order in which Go visits them.
pub record ScResult (Float : Type 0) : Type 0 where
  pub string_keys : Assoc (Any Float)
  pub uint64_keys : List (ℕ × Any Float)
  pub code : Bytes

-- The flags and filters of the package that the function reads.
pub record Settings : Type 0 where
  pub fastsync : Bool
  pub search_filter : Bytes
  pub indices : List SearchFilter

-- What the function calls outside its package: derohe, net/url, encoding/json and `connections.GetSC`.
pub record Outside (Float : Type 0) : Type 0 where
  pub crypto : Crypto Float
  pub parse_url : Bytes → Option Bytes
  pub unmarshal : Bytes → Option Metadata
  pub get_sc : GetScParams → ScResult Float × Option ℕ

unfoldable pub params_of : Settings → ℤ → Target → GetScParams
unfolding ◌==◌
params_of settings height (scid, method, entrypoint) = record {
  scid = scid;
  code = method == install;
  variables = true;
  topo_height = if settings.fastsync then negsuc 0 else height;
}

abbrev pub no_vars : {Float : Type 0} → Assoc (Any Float) → Bool
no_vars [] = true
no_vars (e ∷ m) = false

abbrev has_signature : Bytes → Bool
has_signature code =
    contains code (
      codes
        "Function Start(listType String, duration Uint64, startPrice Uint64, charityDonateAddr String, charityDonatePerc Uint64) Uint64")
    || contains code (codes "STORE(\"docVersion\",")
    || contains code (codes "STORE(\"telaVersion\",")

module _ {Float : Type 0} (outside : Outside Float) where
  -- The headers: from the variables, from the metadata, or nulls.
  unfoldable pub headers_of : Bytes → Assoc (Any Float) → Bytes
  unfolding contains vars_header header_from_metadata header_text ◌==◌
  headers_of code keys =
      let first =
        if has_signature code then vars_header outside.crypto outside.parse_url keys else [] in
      let second =
        if first == [] && not (no_vars keys)
        then header_from_metadata outside.crypto outside.parse_url outside.unmarshal keys
        else first in
      if second == [] then header_text (null_text, null_text, null_text) else second

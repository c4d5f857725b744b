-- ===== src/Connections/Ws/Cases.antt =====
-- The cases of the web socket in connections/ws_server.go: parameters, results and errors.
use simple_gnomon.Prelude.{ℕ, ◌||◌, Option, none, some, List, [], ◌∷◌, length, if◌then◌else◌}
use simple_gnomon.Prelude.Int.{ℤ, pos}
use simple_gnomon.Prelude.Bytes.{Bytes, codes, ◌==◌}
use simple_gnomon.Bolt.{Res, ok, err}
use simple_gnomon.Bolt.Update.{Error}
use simple_gnomon.Structs.{ScidVariable}
use simple_gnomon.Structs.Requests.{
  VarsParams, AddressQuery, ScidQuery, ClassQuery, TagQuery, EntrypointQuery, TopoheightQuery,
  InteractionIndex, SignerQuery, TxCountQuery, MiniblockQuery,
}
use simple_gnomon.Store.{Store}
use simple_gnomon.Store.Stats.{get_tx_count}
use simple_gnomon.Store.Owner.{get_all_owners_and_scids}
use simple_gnomon.Store.Queries.{get_scid_keys_by_value, get_scid_values_by_key}
use simple_gnomon.Connections.Setup.{Setup}
use simple_gnomon.Connections.Values.{Value, number, variables, vars_result}

-- The errors that a response carries.
pub data WsError : Type 0 where
  -- `json.Unmarshal` on the parameters
  unmarshal : ℕ → WsError
  disconnected nil_vars : WsError
  -- the daemon did not answer
  daemon : ℕ → WsError

-- `json.Unmarshal` into a pointer to each of the parameter types; the text `null` leaves a nil pointer.
pub record Decoders (Float : Type 0) : Type 0 where
  pub vars_params : Bytes → Res (Option (VarsParams Float))
  pub address : Bytes → Res (Option AddressQuery)
  pub scid : Bytes → Res (Option ScidQuery)
  pub class : Bytes → Res (Option ClassQuery)
  pub tag : Bytes → Res (Option TagQuery)
  pub entrypoint : Bytes → Res (Option EntrypointQuery)
  pub topoheight : Bytes → Res (Option TopoheightQuery)
  pub interaction : Bytes → Res (Option InteractionIndex)
  pub signer : Bytes → Res (Option SignerQuery)
  pub tx_count : Bytes → Res (Option TxCountQuery)
  pub miniblock : Bytes → Res (Option MiniblockQuery)

-- What a case sets of `msg`: `msg.Result`, `msg.Error`, or both. Each case of the switch sets one of
-- them, since it leaves the switch by `break` after an error.
pub record Case (V : Type 0) : Type 0 where
  pub set_result : Option V
  pub set_error : Option WsError

abbrev pub result : {V : Type 0} → V → Case V
result v = record { set_result = some v; set_error = none }

abbrev pub error : {V : Type 0} → WsError → Case V
error e = record { set_result = none; set_error = some e }

-- `json.Unmarshal(*req.Params, &params)` in front of a case; `none` is the panic on a nil pointer.
unfoldable pub with_params :
    {P V : Type 0}
    → (Bytes → Res (Option P))
    → (P → Option (Case V))
    → Option Bytes
    → Option (Case V)
with_params decode rest none = none
with_params decode rest (some raw) = elim (decode raw) [
  | err c ↦ some (error (unmarshal c))
  | ok none ↦ none
  | ok (some params) ↦ rest params
]

-- The same, where the parameters are not read.
unfoldable pub ignoring_params :
    {P V : Type 0} → (Bytes → Res (Option P)) → Case V → Option Bytes → Option (Case V)
ignoring_params decode rest none = none
ignoring_params decode rest (some raw) = elim (decode raw) [
  | err c ↦ some (error (unmarshal c))
  | ok params ↦ some rest
]

-- A result that may have panicked on its way.
abbrev pub result_of : {A V : Type 0} → (A → V) → Option A → Option (Case V)
result_of f none = none
result_of f (some a) = some (result (f a))

module _ {Db Bucket Args Payload Float Info : Type 0}
    (env : Setup Db Bucket Args Payload Float Info) (decode : Decoders Float) where
  abbrev pub V : Type 0
  V = Value Args Payload Float Info

  unfoldable pub height_case : ℤ × Option Error → Case V
  height_case (h, none) = result (number h)
  height_case (h, some e) = error disconnected

  -- The switch on the type of transaction.
  unfoldable pub count_of_type : Bytes → Store Db → ℤ
  unfolding get_tx_count get_all_owners_and_scids ◌==◌
  count_of_type tx_type s =
      if tx_type == codes "registration" || tx_type == codes "burn" || tx_type == codes "normal"
      then get_tx_count env.bolt tx_type s
      else if tx_type == codes "scids"
      then pos (length (get_all_owners_and_scids env.bolt s))
      else pos 0

  unfoldable pub vars_case : List (ScidVariable Float) → Case V
  vars_case [] = error nil_vars
  vars_case (v ∷ vs) = result (variables (v ∷ vs))

  abbrev pub found_value : List Bytes × List ℕ → V
  found_value (strings, uints) = vars_result (record { keys_string = strings; keys_uint64 = uints })

  abbrev pub keys_case : Bytes → VarsParams Float → ℤ → Store Db → Option (Case V)
  keys_case scid p height s = result_of found_value (
      get_scid_keys_by_value env.bolt env.to_uint env.vars_json env.heights_json env.visit_vars scid
        p.value height s)

  abbrev pub values_case : Bytes → VarsParams Float → ℤ → Store Db → Option (Case V)
  values_case scid p height s = result_of found_value (
      get_scid_values_by_key env.bolt env.to_uint env.vars_json env.heights_json env.visit_vars scid
        p.value height s)

  -- `Get_TopoHeight` in front of a case.
  abbrev pub at_live : Res ℤ → (ℤ → Option (Case V)) → Option (Case V)
  at_live (err c) rest = some (error (daemon c))
  at_live (ok height) rest = rest height

-- ===== src/Connections/Ws.antt =====
-- The replies of the web socket in connections/ws_server.go: `reply`, and `wsHandleClient` around it.
pub mod Methods
pub mod Cases
pub mod Owners
use simple_gnomon.Prelude.{
  ℕ, ◌≡◌, Bool, true, false, ◌||◌, Option, none, some, List, [], ◌∷◌, map, length, nat_beq,
  if◌then◌else◌,
}
use simple_gnomon.Prelude.Int.{ℤ, pos}
use simple_gnomon.Prelude.Bytes.{Bytes, codes, ◌==◌}
use simple_gnomon.Bolt.{Res, ok, err}
use simple_gnomon.Bolt.Update.{Error}
use simple_gnomon.Structs.{ScidVariable}
use simple_gnomon.Structs.Requests.{
  VarsParams, AddressQuery, ScidQuery, ClassQuery, TagQuery, EntrypointQuery, TopoheightQuery,
  InteractionIndex, SignerQuery, TxCountQuery, MiniblockQuery, JsonRpcReq, JsonRpcResp,
}
use simple_gnomon.Store.{Store}
use simple_gnomon.Store.Stats.{get_last_index_height, get_tx_count}
use simple_gnomon.Store.Owner.{
  get_owner, get_all_owners_and_scids, get_all_scids, get_all_owners, get_all_classes, get_all_tags,
  get_all_headers, get_all_scids_and_headers, get_all_scids_by_class, get_all_scids_by_tag,
}
use simple_gnomon.Store.NormalTx.{get_all_normal_tx_by_addr, get_all_normal_tx_by_scid}
use simple_gnomon.Store.Invoke.{
  get_all_scid_invoke_details, get_invoke_details_by_entrypoint, get_invoke_details_by_signer,
}
use simple_gnomon.Store.Daemon.{
  get_get_info_details, get_invalid_scid_deploys, get_all_miniblock_details,
  get_miniblock_details_by_hash, get_miniblock_count_by_address,
}
use simple_gnomon.Store.Variables.{variables_at_topoheight, all_variables}
use simple_gnomon.Store.Queries.{
  get_scid_keys_by_value, get_scid_values_by_key, get_scid_interaction_by_addr,
}
use simple_gnomon.Store.Interaction.{get_scid_interaction_height, get_interaction_index}
use simple_gnomon.Connections.Setup.{Setup}
use simple_gnomon.Connections.Values.{
  Value, null, number, text, texts, heights, text_map, fee_map, txs, invokes, variables,
  vars_result, minis, mini_map, info, in_order,
}
use simple_gnomon.Connections.Ws.Methods.{
  Method, all_owners_and_scids, all_scids, all_owners, all_classes, all_tags, all_headers,
  all_scids_and_headers, all_scids_by_class, all_scids_by_tag, last_index_height, tx_count, owner,
  all_normal_tx_by_addr, all_normal_tx_by_scid, all_invoke_details, invoke_details_by_entrypoint,
  invoke_details_by_signer, get_info_details, variable_details_at_topoheight, all_variable_details,
  keys_by_value, values_by_key, live_keys_by_value, live_values_by_key, interaction_by_addr,
  interaction_height, interaction_index, invalid_deploys, all_miniblock_details,
  miniblock_details_by_hash, miniblock_count_by_address, test, method_of,
}
use simple_gnomon.Connections.Ws.Cases.{
  WsError, disconnected, Decoders, Case, result, error, with_params, ignoring_params, result_of,
  height_case, count_of_type, vars_case, keys_case, values_case, at_live,
}

module _ {Db Bucket Args Payload Float Info : Type 0}
    (env : Setup Db Bucket Args Payload Float Info) (decode : Decoders Float) where
  abbrev pub V : Type 0
  V = Value Args Payload Float Info

  -- The cases of the switch. `live` is what the daemon answers to `Get_TopoHeight`.
  unfoldable pub answer : Method → Res ℤ → Option Bytes → Store Db → Option (Case V)
  unfolding with_params ignoring_params height_case count_of_type vars_case get_all_scids in_order
  answer all_owners_and_scids live params s =
      some (result (text_map (get_all_owners_and_scids env.bolt s)))
  answer all_scids live params s = some (result (texts (get_all_scids env.bolt env.arrange s)))
  answer all_owners live params s = some (result (texts (get_all_owners env.bolt s)))
  answer all_classes live params s = some (result (texts (get_all_classes env.bolt s)))
  answer all_tags live params s = some (result (texts (get_all_tags env.bolt s)))
  answer all_headers live params s = some (result (texts (get_all_headers env.bolt s)))
  answer all_scids_and_headers live params s =
      some (result (text_map (get_all_scids_and_headers env.bolt s)))
  answer all_scids_by_class live params s =
      with_params decode.class
        (λ p. some (
          result (
            texts (
              in_order (get_all_scids_by_class env.bolt p.class s)
                (get_all_scids env.bolt env.arrange s)))))
        params
  answer all_scids_by_tag live params s =
      with_params decode.tag
        (λ p. some (
          result (
            texts (
              in_order (get_all_scids_by_tag env.bolt p.tag s)
                (get_all_scids env.bolt env.arrange s)))))
        params
  answer last_index_height live params s =
      some (height_case env decode (get_last_index_height env.bolt s))
  answer tx_count live params s =
      with_params decode.tx_count
        (λ p. some (result (number (count_of_type env decode p.tx_type s)))) params
  answer owner live params s =
      with_params decode.scid (λ p. some (result (text (get_owner env.bolt p.scid s)))) params
  answer all_normal_tx_by_addr live params s =
      with_params decode.address
        (λ p. some (result (txs (get_all_normal_tx_by_addr env.bolt env.txs_json p.address s))))
        params
  answer all_normal_tx_by_scid live params s =
      with_params decode.scid
        (λ p. some (result (txs (get_all_normal_tx_by_scid env.bolt env.txs_json p.scid s)))) params
  answer all_invoke_details live params s =
      with_params decode.scid
        (λ p. result_of invokes (get_all_scid_invoke_details env.bolt env.invoke_json p.scid s))
        params
  answer invoke_details_by_entrypoint live params s =
      with_params decode.entrypoint
        (λ p.
          result_of (λ found. invokes (map some found))
            (get_invoke_details_by_entrypoint env.bolt env.invoke_json p.scid p.entrypoint s))
        params
  answer invoke_details_by_signer live params s =
      with_params decode.signer
        (λ p.
          result_of (λ found. invokes (map some found))
            (get_invoke_details_by_signer env.bolt env.invoke_json p.scid p.signer s))
        params
  answer get_info_details live params s =
      some (result (info (get_get_info_details env.bolt env.info_json s)))
  answer variable_details_at_topoheight live params s =
      with_params decode.topoheight
        (λ p. some (
          result (
            variables (
              variables_at_topoheight env.bolt env.to_uint env.vars_json env.visit_vars p.scid
                p.topo_height s))))
        params
  answer all_variable_details live params s =
      with_params decode.scid
        (λ p. some (
          vars_case env decode
            (all_variables env.bolt env.to_uint env.vars_json env.visit_vars p.scid s)))
        params
  answer keys_by_value live params s =
      with_params decode.vars_params (λ p. keys_case env decode p.scid p p.height s) params
  answer values_by_key live params s =
      with_params decode.vars_params (λ p. values_case env decode p.scid p p.height s) params
  answer live_keys_by_value live params s =
      with_params decode.vars_params
        (λ p. at_live env decode live (λ height. keys_case env decode p.scid p height s)) params
  answer live_values_by_key live params s =
      with_params decode.vars_params
        (λ p. at_live env decode live (λ height. values_case env decode p.scid p height s)) params
  answer interaction_by_addr live params s =
      with_params decode.address
        (λ p. result_of texts (
          get_scid_interaction_by_addr env.bolt env.txs_json env.invoke_json env.visit_owners
            p.address s))
        params
  answer interaction_height live params s =
      with_params decode.scid
        (λ p.
          some (result (heights (get_scid_interaction_height env.bolt env.heights_json p.scid s))))
        params
  answer interaction_index live params s =
      with_params decode.interaction
        (λ p. some (result (number (get_interaction_index p.topo_height p.heights)))) params
  answer invalid_deploys live params s =
      ignoring_params decode.interaction
        (result (fee_map (get_invalid_scid_deploys env.bolt env.fees_json s))) params
  answer all_miniblock_details live params s =
      ignoring_params decode.interaction
        (result (mini_map (get_all_miniblock_details env.bolt env.minis_json s))) params
  answer miniblock_details_by_hash live params s =
      with_params decode.miniblock
        (λ p.
          some (result (minis (get_miniblock_details_by_hash env.bolt env.minis_json p.blid s))))
        params
  answer miniblock_count_by_address live params s =
      with_params decode.address
        (λ p.
          some
            (result (number (get_miniblock_count_by_address env.bolt env.count_json p.address s))))
        params
  answer test live params s = some (result (text (codes "test")))

  abbrev pub Resp : Type 0
  Resp = JsonRpcResp V WsError

  -- The message that a case leaves.
  unfoldable pub fill : Resp → Case V → Resp
  fill msg case = record msg {
    result = elim case.set_result [ none ↦ msg.result | some v ↦ v ];
    error = elim case.set_error [ none ↦ msg.error | some e ↦ some e ];
  }

  -- `reply`: the message and the error that it returns; an error of a case is no error of `reply`.
  unfoldable pub reply : JsonRpcReq → Res ℤ → Resp → Store Db → Option (Resp × Option WsError)
  unfolding method_of answer fill
  reply req live msg s = elim (method_of req.method) [
    | none ↦ some (msg, some disconnected)
    | some method ↦ elim (answer method live req.params s) [
      | none ↦ none
      | some case ↦ some (fill msg case, none)
    ]
  ]

  -- `wsHandleClient` on a request that has been read: the response that it writes, if there is one.
  unfoldable pub handle_client : JsonRpcReq → Res ℤ → Store Db → Option (Option Resp)
  unfolding reply
  handle_client req live s =
      let m : Resp = record { id = req.id; version = codes "2.0"; result = null; error = none } in
      elim (reply req live m s) [
        | none ↦ none
        | some (msg, none) ↦ some (some msg)
        | some (msg, some e) ↦ some none
      ]

-- ===== src/Connections/Api/Contracts.antt =====
-- The handlers of connections/api.go that read what is stored for one contract or one address.
use simple_gnomon.Prelude.{
  ℕ, Bool, true, false, not, ◌&&◌, ◌||◌, Option, none, some, List, [], ◌∷◌, map, length, is_some,
  if◌then◌else◌,
}
use simple_gnomon.Prelude.Int.{ℤ, pos, negsuc, ltb_ℤ}
use simple_gnomon.Prelude.Bytes.{Bytes, codes, ◌==◌}
use simple_gnomon.Prelude.Assoc.{Assoc, lookup, insert}
use simple_gnomon.Go.Strconv.{parse_int}
use simple_gnomon.Globals.{nameservice, gnomon_scid, testnet_gnomon_scid}
use simple_gnomon.Structs
use simple_gnomon.Structs.{SctxParse}
use simple_gnomon.Store.{Store}
use simple_gnomon.Store.Owner.{get_all_owners_and_scids}
use simple_gnomon.Store.NormalTx.{get_all_normal_tx_by_addr, get_all_normal_tx_by_scid}
use simple_gnomon.Store.Invoke.{get_all_scid_invoke_details, get_invoke_details_by_signer}
use simple_gnomon.Store.Variables.{variables_at_topoheight, all_variables}
use simple_gnomon.Store.Queries.{get_scid_keys_by_value}
use simple_gnomon.Store.Interaction.{get_scid_interaction_height, get_interaction_index}
use simple_gnomon.Connections.Setup.{Setup}
use simple_gnomon.Connections.Values.{
  Value, null, number, texts, uints, heights, txs, invokes, invoke_lists, variables,
}
use simple_gnomon.Connections.Api.Server.{
  ApiServer, Reply, Query, Encoded, once, with_read, with_stats,
}
use simple_gnomon.Connections.Api.Chain.{denied}

module _ {Db Bucket Args Payload Float Info : Type 0}
    (env : Setup Db Bucket Args Payload Float Info) where
  abbrev V : Type 0
  V = Value Args Payload Float Info

  -- A list and its length, or nothing where it is too long.
  unfoldable pub counted : ApiServer V Db → Bytes → Bytes → ℕ → V → Reply V → Encoded V
  unfolding insert
  counted server count_key key count v reply =
      if denied env server count
      then once (insert key null (insert count_key (number (pos 0)) reply))
      else once (insert key v (insert count_key (number (pos count)) reply))

  -- The loop over all contracts, in the order in which Go visits their map.
  unfoldable pub signed_lists :
      Bytes → Store Db → Assoc Bytes → Option (List (List (SctxParse Args Payload)))
  signed_lists address s [] = some []
  signed_lists address s ((k, v) ∷ m) =
      let rest = signed_lists address s m in
      elim (get_invoke_details_by_signer env.bolt env.invoke_json k address s) [
        | none ↦ none
        | some [] ↦ rest
        | some (d ∷ ds) ↦ elim rest [ none ↦ none | some more ↦ some ((d ∷ ds) ∷ more) ]
      ]

  -- The invocations of a contract that is known.
  unfoldable pub signed_details :
      Bytes → Bytes → Assoc Bytes → Store Db → Option (List (SctxParse Args Payload))
  unfolding lookup
  signed_details scid address sclist s = elim (is_some (lookup scid sclist)) [
    | true ↦ get_invoke_details_by_signer env.bolt env.invoke_json scid address s
    | false ↦ some []
  ]

  unfoldable pub invoke_index_by_scid : ApiServer V Db → Query → Encoded V
  unfolding with_stats counted signed_lists signed_details ◌==◌
  invoke_index_by_scid server q =
      let s = server.database in
      let scid = q (codes "scid") in
      let address = q (codes "address") in
      let sclist = get_all_owners_and_scids env.bolt s in
      with_stats server (λ reply.
        if not (address == []) && not (scid == [])
        then with_read (signed_details scid address sclist s) (λ found.
          counted server (codes "addrscidinvokescount") (codes "addrscidinvokes") (length found)
            (invokes (map some found)) reply)
        else if not (address == []) && (scid == [])
        then with_read (signed_lists address s (env.visit_owners sclist)) (λ found.
          counted server (codes "addrinvokescount") (codes "addrinvokes") (length found)
            (invoke_lists found) reply)
        else if (address == []) && not (scid == [])
        then with_read (get_all_scid_invoke_details env.bolt env.invoke_json scid s) (λ found.
          counted server (codes "scidinvokescount") (codes "scidinvokes") (length found)
            (invokes found) reply)
        else once reply)

  -- The height that is asked for, where it is a positive number.
  unfoldable pub asked_height : Bytes → ℤ
  asked_height given =
      let (h, fine) = parse_int given in if fine && ltb_ℤ (pos 0) h then h else negsuc 0

  unfoldable pub scid_keys_by_value : ApiServer V Db → Query → Encoded V
  unfolding with_stats asked_height insert ◌==◌
  scid_keys_by_value server q =
      let scid = q (codes "scid") in
      let value = q (codes "value") in
      let height = asked_height (q (codes "height")) in
      let found =
        get_scid_keys_by_value env.bolt env.to_uint env.vars_json env.heights_json env.visit_vars
          scid (Structs.text value) height server.database in
      with_stats server (λ reply.
        if (scid == []) || (value == [])
        then once (insert (codes "uint64keys") null (insert (codes "stringkeys") null reply))
        else with_read found (λ keys. once (
            insert (codes "uint64keys") (uints keys.1)
              (insert (codes "stringkeys") (texts keys.0) reply))))

  -- The branch with a height. A height that is no number is answered at once, and then again.
  unfoldable pub vars_at : ApiServer V Db → Bytes → Bytes → Reply V → Encoded V
  unfolding insert
  vars_at server scid height reply =
      let s = server.database in
      let (topoheight, fine) = parse_int height in
      let index =
        get_interaction_index topoheight
          (get_scid_interaction_height env.bolt env.heights_json scid s) in
      let found =
        variables_at_topoheight env.bolt env.to_uint env.vars_json env.visit_vars scid index s in
      let last =
        if denied env server (length found)
        then insert (codes "variables") null reply
        else insert (codes "scidinteractionheight") (number index)
            (insert (codes "variables") (variables found) reply) in
      if fine then once last else some (reply ∷ last ∷ [])

  unfoldable pub is_builtin : Bytes → Bool
  unfolding ◌==◌
  is_builtin scid = scid == nameservice || scid == gnomon_scid || scid == testnet_gnomon_scid

  -- The branch without one.
  unfoldable pub all_vars : ApiServer V Db → Bytes → Reply V → Encoded V
  unfolding insert is_builtin
  all_vars server scid reply =
      let s = server.database in
      let found = all_variables env.bolt env.to_uint env.vars_json env.visit_vars scid s in
      if is_builtin scid && server.config.api_throttle
      then once (insert (codes "variables") null reply)
      else if denied env server (length found)
      then once (insert (codes "variables") null reply)
      else once (
          insert (codes "scidinteractionheights")
            (heights (get_scid_interaction_height env.bolt env.heights_json scid s))
            (insert (codes "variables") (variables found) reply))

  unfoldable pub invoke_sc_vars_by_height : ApiServer V Db → Query → Encoded V
  unfolding with_stats vars_at all_vars insert ◌==◌
  invoke_sc_vars_by_height server q =
      let scid = q (codes "scid") in
      let height = q (codes "height") in
      with_stats server (λ reply.
        if scid == []
        then once (insert (codes "variables") null reply)
        else if not (height == [])
        then vars_at server scid height reply
        else all_vars server scid reply)

  abbrev pub tx_reply : V → ℕ → V → ℕ → Reply V → Reply V
  tx_reply by_addr addr_count by_scid scid_count reply =
      insert (codes "normtxwithscidbyscidcount") (number (pos scid_count)) (
        insert (codes "normtxwithscidbyscid") by_scid (
          insert (codes "normtxwithscidbyaddrcount") (number (pos addr_count))
            (insert (codes "normtxwithscidbyaddr") by_addr reply)))

  unfoldable pub normal_tx_with_scid : ApiServer V Db → Query → Encoded V
  unfolding with_stats insert ◌==◌
  normal_tx_with_scid server q =
      let s = server.database in
      let scid = q (codes "scid") in
      let address = q (codes "address") in
      let by_addr = get_all_normal_tx_by_addr env.bolt env.txs_json address s in
      let by_scid = get_all_normal_tx_by_scid env.bolt env.txs_json scid s in
      with_stats server (λ reply.
        if (address == []) && (scid == [])
        then once (insert (codes "variables") null reply)
        else if denied env server (length by_addr) || denied env server (length by_scid)
        then once (tx_reply null 0 null 0 reply)
        else once (tx_reply (txs by_addr) (length by_addr) (txs by_scid) (length by_scid) reply))

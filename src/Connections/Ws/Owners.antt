-- ===== src/Connections/Ws/Owners.antt =====
-- From `StoreOwner` of db/bbolt.go to the answer of connections/ws_server.go on the owner.
use simple_gnomon.Prelude.{
  ◌≡◌, refl, sym, ap, ◌∙◌, Bool-cases, inl, inr, Option, none, some, if◌then◌else◌,
}
use simple_gnomon.Prelude.Int.{ℤ}
use simple_gnomon.Prelude.Bytes.{Bytes, codes, ◌==◌}
use simple_gnomon.Bolt.{Res, ok, Laws}
use simple_gnomon.Structs.Requests.{ScidQuery, JsonRpcReq, JsonRpcResp}
use simple_gnomon.Store.{Store}
use simple_gnomon.Store.Owner.{store_owner, get_owner}
use simple_gnomon.Store.Owner.Records.{store_owner_answers}
use simple_gnomon.Connections.Setup.{Setup}
use simple_gnomon.Connections.Values.{Value, text}
use simple_gnomon.Connections.Ws.Cases.{WsError, Decoders, with_params}
use simple_gnomon.Connections.Ws.Methods.{method_of}
use simple_gnomon.Connections.Ws.{answer, fill, reply, handle_client}

module _ {Db Bucket Args Payload Float Info : Type 0}
    (env : Setup Db Bucket Args Payload Float Info) (decode : Decoders Float) where
  -- The response to a request for an owner.
  abbrev pub owner_response :
      Option Bytes → Bytes → JsonRpcResp (Value Args Payload Float Info) WsError
  owner_response id name = record {
    id = id;
    version = codes "2.0";
    result = text name;
    error = none;
  }

  owner_answered :
      (id : Option Bytes) (raw : Bytes) (query : ScidQuery) (live : Res ℤ) (s : Store Db)
      → decode.scid raw ≡ ok (some query)
      → handle_client env decode
          (record { id = id; method = codes "GetOwner"; params = some raw })
          live
          s
        ≡ some (some (owner_response id (get_owner env.bolt query.scid s)))
  unfolding handle_client reply method_of answer with_params fill ◌==◌
  owner_answered id raw query live s decoded = rw (decoded, handle_client) refl

  -- After a StoreOwner without an error, the web socket answers "GetOwner" for the contract with the
  -- owner that was stored, and for every other contract as it would have before, under the request's
  -- id and without an error, if the parameters decode.
  pub stored_owner_answered :
      Laws env.bolt
      → (scid owner headers class tags height raw : Bytes) (id : Option Bytes) (query : ScidQuery)
        (live : Res ℤ) (s : Store Db)
      → (store_owner env.bolt scid owner headers class tags height s).2 ≡ none
      → decode.scid raw ≡ ok (some query)
      → let request : JsonRpcReq = record {
        id = id;
        method = codes "GetOwner";
        params = some raw;
      } in
        handle_client env decode request live
          (store_owner env.bolt scid owner headers class tags height s).0
        ≡ (if scid == query.scid
            then some (some (owner_response id owner))
            else handle_client env decode request live s)
  stored_owner_answered laws scid owner headers class tags height raw id query live s fine decoded =
      let s' = (store_owner env.bolt scid owner headers class tags height s).0 in
      let now : get_owner env.bolt query.scid s'
          ≡ (if scid == query.scid then owner else get_owner env.bolt query.scid s) =
        (store_owner_answers env.bolt laws scid owner headers class tags height query.scid s
          fine).0 in
      let answer_now = owner_answered id raw query live s' decoded in
      elim (Bool-cases (scid == query.scid)) [
        | inl same ↦
            let new : get_owner env.bolt query.scid s' ≡ owner = now ∙ rw same refl in
            answer_now ∙ ap (λ o. some (some (owner_response id o))) new ∙ rw same refl
        | inr differs ↦
            let old : get_owner env.bolt query.scid s' ≡ get_owner env.bolt query.scid s =
              now ∙ rw differs refl in
            answer_now
            ∙ ap (λ o. some (some (owner_response id o))) old
            ∙ sym (owner_answered id raw query live s decoded)
            ∙ rw differs refl
      ]

-- ===== src/Connections/Agreement.antt =====
-- The two servers, connections/api.go and connections/ws_server.go, on the same question.
use simple_gnomon.Prelude.{Option, none}
use simple_gnomon.Prelude.Bytes.{Bytes, codes}
use simple_gnomon.Structs
use simple_gnomon.Structs.Requests.{JsonRpcResp}
use simple_gnomon.Store.{Store}
use simple_gnomon.Store.Queries.{Found}
use simple_gnomon.Connections.Setup.{Setup}
use simple_gnomon.Connections.Values.{Value, vars_result}
use simple_gnomon.Connections.Ws.Cases.{WsError, Decoders}

module _ {Db Bucket Args Payload Float Info : Type 0}
    (env : Setup Db Bucket Args Payload Float Info) (decode : Decoders Float) where
  abbrev pub keys_response :
      Option Bytes → Found → JsonRpcResp (Value Args Payload Float Info) WsError
  keys_response id found = record {
    id = id;
    version = codes "2.0";
    result = vars_result (record { keys_string = found.0; keys_uint64 = found.1 });
    error = none;
  }

-- ===== src/Structs/Requests.antt =====
-- The requests of the web socket, their parameters and their replies, of structs/structures.go. The
-- raw JSON of an id or of parameters is a text, absent for a nil pointer.
use simple_gnomon.Prelude.{ℕ, Bool, Option, List}
use simple_gnomon.Prelude.Int.{ℤ}
use simple_gnomon.Prelude.Bytes.{Bytes}
use simple_gnomon.Structs.{Any}

pub record VarsParams (Float : Type 0) : Type 0 where
  pub scid : Bytes
  pub value : Any Float
  pub height : ℤ
  pub max : Bool

pub record VarsResult : Type 0 where
  pub keys_string : List Bytes
  pub keys_uint64 : List ℕ

pub record AddressQuery : Type 0 where
  pub address : Bytes

pub record ScidQuery : Type 0 where
  pub scid : Bytes

pub record ClassQuery : Type 0 where
  pub class : Bytes

pub record TagQuery : Type 0 where
  pub tag : Bytes

pub record EntrypointQuery : Type 0 where
  pub scid : Bytes
  pub entrypoint : Bytes

pub record TopoheightQuery : Type 0 where
  pub scid : Bytes
  pub topo_height : ℤ

pub record InteractionIndex : Type 0 where
  pub heights : List ℤ
  pub topo_height : ℤ
  pub max : Bool

pub record SignerQuery : Type 0 where
  pub scid : Bytes
  pub signer : Bytes

pub record TxCountQuery : Type 0 where
  pub tx_type : Bytes

pub record MiniblockQuery : Type 0 where
  pub blid : Bytes

pub record JsonRpcReq : Type 0 where
  pub id : Option Bytes
  pub method : Bytes
  pub params : Option Bytes

-- `Result` and `Error` are of any type; the model's values of them are arguments.
pub record JsonRpcResp (Value Error : Type 0) : Type 0 where
  pub id : Option Bytes
  pub version : Bytes
  pub result : Value
  pub error : Option Error

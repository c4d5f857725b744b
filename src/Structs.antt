-- ===== src/Structs.antt =====
-- The records of structs/structures.go. The arguments and payloads of a transaction are types of
-- derohe, and parameters here.
pub mod Requests
use simple_gnomon.Prelude.{ℕ, List}
use simple_gnomon.Prelude.Int.{ℤ}
use simple_gnomon.Prelude.Bytes.{Bytes}

pub record SearchFilter : Type 0 where
  pub name : Bytes
  pub terms : List Bytes

pub record MblInfo : Type 0 where
  pub hash : Bytes
  pub miner : Bytes

pub record NormalTx : Type 0 where
  pub txid : Bytes
  pub scid : Bytes
  pub fees : ℕ
  pub height : ℤ

pub record SctxParse (Args Payload : Type 0) : Type 0 where
  pub txid : Bytes
  pub scid : Bytes
  pub entrypoint : Bytes
  pub method : Bytes
  pub sc_args : Args
  pub sender : Bytes
  pub payloads : List Payload
  pub fees : ℕ
  pub height : ℤ

-- A value of type `any` in a contract's variables: what encoding/json and the daemon's client put
-- there. `other` is a value of any further type.
pub data Any (Float : Type 0) : Type 0 where
  nil : Any Float
  float : Float → Any Float
  uint : ℕ → Any Float
  text : Bytes → Any Float
  other : Any Float

pub record ScidVariable (Float : Type 0) : Type 0 where
  pub key : Any Float
  pub value : Any Float

pub record IndexStage (Args Payload Float : Type 0) : Type 0 where
  pub parse : SctxParse Args Payload
  pub headers : Bytes
  pub sc_vars : List (ScidVariable Float)
  pub sc_code : Bytes
  pub class : Bytes
  pub tags : Bytes

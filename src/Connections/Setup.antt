-- ===== src/Connections/Setup.antt =====
-- What the store's readers need beside a store: the engine, the codecs of its values, and what the
-- language leaves open.
use simple_gnomon.Prelude.{ℕ, List, Option}
use simple_gnomon.Prelude.Int.{ℤ}
use simple_gnomon.Prelude.Bytes.{Bytes}
use simple_gnomon.Prelude.Assoc.{Assoc}
use simple_gnomon.Go.Json.{Codec}
use simple_gnomon.Structs.{MblInfo, NormalTx, SctxParse, ScidVariable}
use simple_gnomon.Bolt.{Bolt}
use simple_gnomon.Store.Variables.{Vars}

pub record Setup (Db Bucket Args Payload Float Info : Type 0) : Type 0 where
  pub bolt : Bolt Db Bucket
  pub vars_json : Codec (List (ScidVariable Float))
  pub invoke_json : Codec (Option (SctxParse Args Payload))
  pub heights_json : Codec (List ℤ)
  pub txs_json : Codec (List NormalTx)
  pub minis_json : Codec (List MblInfo)
  pub count_json : Codec ℤ
  pub fees_json : Codec (Assoc ℕ)
  pub info_json : Codec (Option Info)
  -- `uint64(f)`
  pub to_uint : Float → ℕ
  -- the order in which the map of the variables is visited, and that of the owners
  pub visit_vars : Vars → Vars
  pub visit_owners : Assoc Bytes → Assoc Bytes
  -- the order that `sort.Slice` leaves by install height
  pub arrange : List (ℤ × Bytes) → List (ℤ × Bytes)

-- ===== src/Connections/Values.antt =====
-- The values that the servers of connections/ put into a reply, and the lists that both of them make.
use simple_gnomon.Prelude.{ℕ, Option, List, [], ◌∷◌, if◌then◌else◌}
use simple_gnomon.Prelude.Int.{ℤ}
use simple_gnomon.Prelude.Bytes.{Bytes}
use simple_gnomon.Prelude.Assoc.{Assoc}
use simple_gnomon.Go.Strings.{slice_contains}
use simple_gnomon.Structs.{MblInfo, NormalTx, SctxParse, ScidVariable}
use simple_gnomon.Structs.Requests.{VarsResult}

-- Types that are parameters of the store: arguments and payloads of transactions, floating point
-- numbers and the daemon's information.
pub data Value (Args Payload Float Info : Type 0) : Type 0 where
  null : Value Args Payload Float Info
  number : ℤ → Value Args Payload Float Info
  text : Bytes → Value Args Payload Float Info
  texts : List Bytes → Value Args Payload Float Info
  uints : List ℕ → Value Args Payload Float Info
  heights : List ℤ → Value Args Payload Float Info
  text_map : Assoc Bytes → Value Args Payload Float Info
  fee_map : Assoc ℕ → Value Args Payload Float Info
  txs : List NormalTx → Value Args Payload Float Info
  invokes : List (Option (SctxParse Args Payload)) → Value Args Payload Float Info
  invoke_lists : List (List (SctxParse Args Payload)) → Value Args Payload Float Info
  variables : List (ScidVariable Float) → Value Args Payload Float Info
  vars_result : VarsResult → Value Args Payload Float Info
  minis : List MblInfo → Value Args Payload Float Info
  mini_map : Assoc (List MblInfo) → Value Args Payload Float Info
  info : Option Info → Value Args Payload Float Info

-- The loop that puts the contracts of a class or a tag into the order of all contracts.
unfoldable pub in_order : List Bytes → List Bytes → List Bytes
unfolding slice_contains
in_order scids [] = []
in_order scids (each ∷ all) =
    let rest = in_order scids all in if slice_contains scids each then each ∷ rest else rest

-- ===== src/Indexer/Variables.antt =====
-- `GetSCVariables` of pkg/helpers.go: what the daemon says of a contract's variables, as the values
-- that the store keeps.
pub mod Scalars
use simple_gnomon.Prelude.{
  ℕ, ◌≡◌, Bool, true, false, not, ◌&&◌, ◌||◌, Option, none, some, List, [], ◌∷◌, ◌++◌, map, length,
  nat_beq, leb, if◌then◌else◌,
}
use simple_gnomon.Prelude.Bytes.{Bytes}
use simple_gnomon.Prelude.Assoc.{Assoc}
use simple_gnomon.Structs.{Any, nil, float, uint, text, other, ScidVariable}

-- What the code uses of encoding/hex, fmt, derohe's cryptography and derohe's rpc.
pub record Crypto (Float : Type 0) : Type 0 where
  -- `hex.DecodeString`: what is decoded before an error, and whether there is none
  pub decode_hex : Bytes → Bytes × Bool
  -- the address of a point that `DecodeCompressed` accepts
  pub address_of : Bytes → Option Bytes
  -- `crypto.HashLength`
  pub hash_length : ℕ
  -- `h.String()` of the hash with these bytes
  pub hash_string : Bytes → Bytes
  -- `crypto.HashHexToHash(str).IsZero()`
  pub is_zero_hex : Bytes → Bool
  -- `fmt.Sprintf("%v", value)`
  pub show : Any Float → Bytes
  -- `uint64(f)`
  pub to_uint : Float → ℕ

unfoldable pub is_letter : ℕ → Bool
is_letter c = (leb b'A' c && leb c b'Z') || (leb b'a' c && leb c b'z')

unfoldable pub all_letters : Bytes → Bool
unfolding is_letter
all_letters [] = true
all_letters (c ∷ s) = is_letter c && all_letters s

-- `^[A-Za-z]+$`
unfoldable pub is_alpha : Bytes → Bool
unfolding all_letters
is_alpha [] = false
is_alpha (c ∷ s) = all_letters (c ∷ s)

module _ {Float : Type 0} (crypto : Crypto Float) where
  -- A text, or the hash whose bytes it is.
  unfoldable pub hash_or_text : Bytes → Bytes
  unfolding is_alpha
  hash_or_text str =
      let h = crypto.hash_string str in
      if nat_beq (length str) crypto.hash_length
      then (if nat_beq (length h) 64 && not (is_alpha str)
          then (if not (crypto.is_zero_hex str) then str else h)
          else str)
      else str

  unfoldable pub decoded_text : Bytes → Bytes
  unfolding hash_or_text
  decoded_text cval =
      let dstr = (crypto.decode_hex cval).0 in
      elim (crypto.address_of dstr) [ some addr ↦ addr | none ↦ hash_or_text dstr ]

  -- The switch on the type of a value.
  unfoldable pub contract_value : Any Float → Any Float
  unfolding decoded_text hash_or_text
  contract_value (float f) = uint (crypto.to_uint f)
  contract_value (uint n) = uint n
  contract_value (text cval) = text (decoded_text cval)
  contract_value nil = text (hash_or_text (crypto.show nil))
  contract_value other = text (hash_or_text (crypto.show other))

  -- The two maps come in the orders in which Go visits them.
  unfoldable pub get_sc_variables :
      Assoc (Any Float) → List (ℕ × Any Float) → List (ScidVariable Float)
  unfolding contract_value
  get_sc_variables keysstring keysuint64 =
      map (λ e. record { key = text e.0; value = contract_value e.1 }) keysstring
      ++ map (λ e. record { key = uint e.0; value = contract_value e.1 }) keysuint64

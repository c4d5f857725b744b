-- ===== src/Indexer/Variables/Scalars.antt =====
-- The variables that `GetSCVariables` of pkg/helpers.go makes are of the types that the store merges.
use simple_gnomon.Prelude.{ℕ, ◌≡◌, refl, some, List, [], ◌∷◌, map, All, All-append}
use simple_gnomon.Prelude.Assoc.{Assoc}
use simple_gnomon.Structs.{Any, nil, float, uint, text, other, ScidVariable}
use simple_gnomon.Store.Variables.{Scalar, number, string, key_of, value_of}
use simple_gnomon.Indexer.Variables.{
  Crypto, hash_or_text, decoded_text, contract_value, get_sc_variables,
}

module _ {Float : Type 0} (crypto : Crypto Float) (to_uint : Float → ℕ) where
  -- The store takes the key and the value of a variable, and the value is not nil.
  abbrev pub Merges : ScidVariable Float → Type 0
  Merges v =
      ((k : Scalar) × (key_of to_uint v.key ≡ some k))
      × ((w : Scalar) × (value_of to_uint v.value ≡ some (some w)))

  contract_value-scalar :
      (v : Any Float) → (w : Scalar) × (value_of to_uint (contract_value crypto v) ≡ some (some w))
  unfolding contract_value value_of
  contract_value-scalar nil = (string (hash_or_text crypto (crypto.show nil)), refl)
  contract_value-scalar (float f) = (number (crypto.to_uint f), refl)
  contract_value-scalar (uint n) = (number n, refl)
  contract_value-scalar (text s) = (string (decoded_text crypto s), refl)
  contract_value-scalar other = (string (hash_or_text crypto (crypto.show other)), refl)

  strings_Merge :
      (m : Assoc (Any Float))
      → All Merges (map (λ e. record { key = text e.0; value = contract_value crypto e.1 }) m)
  unfolding key_of
  strings_Merge [] = tt
  strings_Merge ((k, v) ∷ m) = (((string k, refl), contract_value-scalar v), strings_Merge m)

  numbers_Merge :
      (m : List (ℕ × Any Float))
      → All Merges (map (λ e. record { key = uint e.0; value = contract_value crypto e.1 }) m)
  unfolding key_of
  numbers_Merge [] = tt
  numbers_Merge ((k, v) ∷ m) = (((number k, refl), contract_value-scalar v), numbers_Merge m)

  -- Every variable that is made of the daemon's answer is one that the merge of variables takes, with
  -- a value that is not nil.
  pub get_sc_variables-Merges :
      (keysstring : Assoc (Any Float)) (keysuint64 : List (ℕ × Any Float))
      → All Merges (get_sc_variables crypto keysstring keysuint64)
  unfolding get_sc_variables
  get_sc_variables-Merges keysstring keysuint64 =
      All-append Merges _ _ (strings_Merge keysstring) (numbers_Merge keysuint64)

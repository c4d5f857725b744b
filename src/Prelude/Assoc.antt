-- ===== src/Prelude/Assoc.antt =====
-- Association lists on byte keys: Go maps, whose order nothing may depend on, and the entries of a
-- bucket, which are kept in the order of their keys.
use simple_gnomon.Prelude.Tests.{if◌then◌else◌}
use simple_gnomon.Prelude.Bytes.{Bytes, ◌==◌, ==_iff, bytes_ltb}
use mathlib.Core.Path.{◌≡◌, refl}
use mathlib.Core.Option.{Option, none, some}
use mathlib.Core.List.{List, [], ◌∷◌}
use native.Mathlib.Omega.{arith}

abbrev pub Assoc {ℓ} : Type ℓ → Type ℓ
Assoc V = List (Bytes × V)

module _ {ℓ} {Value : Type ℓ} where
  unfoldable pub lookup : Bytes → Assoc Value → Option Value
  lookup key [] = none
  lookup key (entry ∷ entries) = if entry.0 == key then some entry.1 else lookup key entries

  -- `m[key] = value`
  unfoldable pub insert : Bytes → Value → Assoc Value → Assoc Value
  insert key value [] = (key, value) ∷ []
  insert key value (entry ∷ entries) =
      if entry.0 == key then (key, value) ∷ entries else entry ∷ insert key value entries

  -- An insertion among entries in the order of their keys.
  unfoldable pub insert_key : Bytes → Value → Assoc Value → Assoc Value
  insert_key key value [] = (key, value) ∷ []
  insert_key key value (entry ∷ entries) =
      if entry.0 == key
      then (key, value) ∷ entries
      else if bytes_ltb key entry.0
      then (key, value) ∷ entry ∷ entries
      else entry ∷ insert_key key value entries

  pub lookup-insert :
      (written read : Bytes) (value : Value) (entries : Assoc Value)
      → lookup read (insert written value entries)
        ≡ (if written == read then some value else lookup read entries)
  unfolding lookup insert
  lookup-insert written read value [] = refl
  lookup-insert written read value (entry ∷ entries) = ground (
    arith,
    ==_iff entry.0 read,
    ==_iff written read,
    ==_iff entry.0 written,
    lookup-insert written read value entries,
  )

  pub lookup-insert_key :
      (written read : Bytes) (value : Value) (entries : Assoc Value)
      → lookup read (insert_key written value entries)
        ≡ (if written == read then some value else lookup read entries)
  unfolding lookup insert_key
  lookup-insert_key written read value [] = refl
  lookup-insert_key written read value (entry ∷ entries) = ground (
    arith,
    ==_iff entry.0 read,
    ==_iff written read,
    ==_iff entry.0 written,
    lookup-insert_key written read value entries,
  )

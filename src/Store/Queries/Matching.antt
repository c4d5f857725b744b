-- ===== src/Store/Queries/Matching.antt =====
-- What the searches in a contract's variables in db/bbolt.go find.
use simple_gnomon.Prelude.{ℕ, ◌≡◌, Option, some, List}
use simple_gnomon.Prelude.Int.{ℤ}
use simple_gnomon.Prelude.Bytes.{Bytes}
use simple_gnomon.Go.Json.{Codec}
use simple_gnomon.Structs.{Any, ScidVariable}
use simple_gnomon.Bolt.{Bolt, scan}
use simple_gnomon.Store.{Store}
use simple_gnomon.Store.Interaction.{get_scid_interaction_height, get_interaction_index}
use simple_gnomon.Store.Variables.{Vars, Scalar, vars_bucket}
use simple_gnomon.Store.Variables.Listed.{Visits, latest}
use simple_gnomon.Store.Queries.{variables_for}
use simple_gnomon.Store.Queries.Selection.{asked}

module _ {Db Bucket Float : Type 0} (bolt : Bolt Db Bucket) (to_uint : Float → ℕ)
    (json : Codec (List (ScidVariable Float))) (heights : Codec (List ℤ))
    (visit : Vars → Vars) where
  -- What the snapshots up to the interaction index of a height have last for a key: no value, nil, or
  -- a number or a text.
  abbrev pub seen : Bytes → ℤ → Store Db → Scalar → Option (Option Scalar)
  seen scid height s =
      latest to_uint json (scan bolt s.db (vars_bucket scid))
        (get_interaction_index height (get_scid_interaction_height bolt heights scid s))

  -- The keys that have the value searched for, and the values of the key searched for.
  abbrev pub HasValue : Bytes → Any Float → ℤ → Store Db → Scalar → Type 0
  HasValue scid value height s k =
      (v : Scalar) × (asked to_uint value ≡ some v) × (seen scid height s k ≡ some (some v))

  abbrev pub IsOfKey : Bytes → Any Float → ℤ → Store Db → Scalar → Type 0
  IsOfKey scid key height s v =
      (k : Scalar) × (asked to_uint key ≡ some k) × (seen scid height s k ≡ some (some v))

  module _ (scid : Bytes) (height : ℤ) (s : Store Db) (visits : Visits visit) where
    abbrev listed : List (ScidVariable Float)
    listed = variables_for bolt to_uint json heights visit scid height s

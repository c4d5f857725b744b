-- ===== src/Start/Backend.antt =====
-- `set_up_backend` of pkg/backend.go. The file system and the opening of the databases are
-- parameters.
pub mod Exclusions
use simple_gnomon.Prelude.{ℕ, Bool, true, false, Option, none, some, List, [], ◌∷◌, ◌++◌}
use simple_gnomon.Prelude.Bytes.{Bytes, codes, ◌==◌}
use simple_gnomon.Structs.{SearchFilter}
use simple_gnomon.Bolt.{Res, ok, err}
use simple_gnomon.Store.{Store}
use simple_gnomon.Start.Flags.{Flags}
use simple_gnomon.Start.Filters.{
  Excluded, filters_of, groups_of, exclusion_of, default_filters, default_exclusions,
}

-- What `os.Mkdir` returns.
pub data Made : Type 0 where
  made there : Made
  failed : ℕ → Made

-- A file under config/ that holds values of a type: whether `os.Stat` finds it, and what the calls
-- on it and on its directory return.
pub record ConfigFile (A : Type 0) : Type 0 where
  pub exists : Bool
  pub mkdir : Made
  pub marshal : A → Res Bytes
  pub write : Bytes → Option ℕ
  -- `os.OpenFile` and `io.ReadAll`
  pub read : Res Bytes
  -- `json.Unmarshal`: the value and the error
  pub unmarshal : Bytes → A × Option ℕ

-- `json.MarshalIndent` and `os.WriteFile`
unfoldable pub write_config : {A : Type 0} → ConfigFile A → A → Option ℕ
write_config file a = elim (file.marshal a) [ err c ↦ some c | ok text ↦ file.write text ]

-- The values of the file, or the defaults, which are written to it. An error comes with what the
-- variable holds by then.
unfoldable pub load_config : {A : Type 0} → ConfigFile A → A → A → A × Option ℕ
unfolding write_config
load_config file current defaults = elim file.exists [
  | false ↦ elim file.mkdir [
    | failed c ↦ (defaults, some c)
    | made ↦ (defaults, write_config file defaults)
    | there ↦ (defaults, write_config file defaults)
  ]
  | true ↦ elim file.read [ err c ↦ (current, some c) | ok text ↦ file.unmarshal text ]
]

abbrev is_empty : {A : Type 0} → List A → Bool
is_empty [] = true
is_empty (a ∷ l) = false

-- The package's `indices` after the first part.
unfoldable pub set_up_searches :
    ConfigFile (List SearchFilter) → Flags → List SearchFilter → List SearchFilter × Option ℕ
unfolding load_config filters_of ◌==◌
set_up_searches file flags indices = elim (flags.search_filter == []) [
  | false ↦ (indices ++ filters_of flags.search_filter, none)
  | true ↦ elim (is_empty indices) [
    | true ↦ load_config file indices default_filters
    | false ↦ (indices, none)
  ]
]

unfoldable pub set_up_exclusions : ConfigFile (List Excluded) → Flags → List Excluded × Option ℕ
unfolding load_config groups_of exclusion_of ◌==◌
set_up_exclusions file flags = elim (flags.exclusions == []) [
  | false ↦ (groups_of exclusion_of flags.exclusions, none)
  | true ↦ load_config file [] default_exclusions
]

-- The loop over the exclusions.
unfoldable pub exclude_each : {Db : Type 0} → List Excluded → Store Db → Store Db
exclude_each [] s = s
exclude_each (e ∷ excludes) s =
    exclude_each excludes (record s { exclusions = s.exclusions ++ e.scid ∷ [] })

-- `indices`, and the two databases unless there is an error.
unfoldable pub set_up_backend :
    {Db : Type 0}
    → (Bytes → Res (Store Db))
    → ConfigFile (List SearchFilter)
    → ConfigFile (List Excluded)
    → Flags
    → List SearchFilter
    → List SearchFilter × Res (Store Db × Store Db)
unfolding set_up_searches set_up_exclusions exclude_each
set_up_backend new_bbolt_db search_file exclude_file flags indices =
    let (searches, e) = set_up_searches search_file flags indices in
    let (excludes, e') = set_up_exclusions exclude_file flags in
    elim e [
      | some c ↦ (searches, err c)
      | none ↦ elim e' [
        | some c ↦ (searches, err c)
        | none ↦ elim (new_bbolt_db (codes "GNOMON.db")) [
          | err c ↦ (searches, err c)
          | ok b ↦ elim (new_bbolt_db (codes "GNOMON.db.bak")) [
            | err c ↦ (searches, err c)
            | ok bb ↦ (searches, ok (exclude_each excludes b, exclude_each excludes bb))
          ]
        ]
      ]
    ]

-- ===== src/Store/Variables.antt =====
-- The variables of a contract in db/bbolt.go: a snapshot for each height at which the contract changed,
-- and the merge of the snapshots up to a height.
pub mod Merge
pub mod Entries
pub mod Heights
pub mod Copies
pub mod Listed
use simple_gnomon.Prelude.{
  ◌≡◌, ℕ, Bool, true, false, ◌&&◌, Option, none, some, List, [], ◌∷◌, ◌++◌, map, nat_beq,
  if◌then◌else◌,
}
use simple_gnomon.Prelude.Int.{ℤ, ltb_ℤ, eq_ℤ}
use simple_gnomon.Prelude.Bytes.{Bytes, codes, ◌==◌}
use simple_gnomon.Prelude.Assoc.{Assoc}
use simple_gnomon.Go.Strconv.{format_int, parse_int}
use simple_gnomon.Go.Sort.{sort_stable}
use simple_gnomon.Go.Json.{Codec}
use simple_gnomon.Structs.{Any, nil, float, uint, text, other, ScidVariable}
use simple_gnomon.Bolt.{Bolt, ok, err, scan}
use simple_gnomon.Bolt.Update.{marshal}
use simple_gnomon.Store.{Store, Result}
use simple_gnomon.Store.Daemon.{write_json}

abbrev pub vars_bucket : Bytes → Bytes
vars_bucket scid = scid ++ codes "vars"

-- A key of the map `vs2k`, and a value of it that is not nil.
pub data Scalar : Type 0 where
  number : ℕ → Scalar
  string : Bytes → Scalar

unfoldable pub scalar_eq : Scalar → Scalar → Bool
unfolding ◌==◌
scalar_eq (number a) (number b) = nat_beq a b
scalar_eq (string s) (string t) = s == t
scalar_eq (number a) (string t) = false
scalar_eq (string s) (number b) = false

-- The map from keys to values; `none` is a nil value.
abbrev pub Vars : Type 0
Vars = List (Scalar × Option Scalar)

unfoldable pub set_var : Scalar → Option Scalar → Vars → Vars
set_var k v [] = (k, v) ∷ []
set_var k v ((j, w) ∷ m) = if scalar_eq j k then (k, v) ∷ m else (j, w) ∷ set_var k v m

unfoldable pub get_var : Scalar → Vars → Option (Option Scalar)
get_var k [] = none
get_var k ((j, w) ∷ m) = if scalar_eq j k then some w else get_var k m

-- Snapshots by height; of two for one height the later read stays.
unfoldable pub set_snapshot : {A : Type 0} → ℤ → A → List (ℤ × A) → List (ℤ × A)
set_snapshot h a [] = (h, a) ∷ []
set_snapshot h a ((j, b) ∷ m) = if eq_ℤ j h then (h, a) ∷ m else (j, b) ∷ set_snapshot h a m

unfoldable pub get_snapshot : {A : Type 0} → ℤ → List (ℤ × List A) → List A
get_snapshot h [] = []
get_snapshot h ((j, a) ∷ m) = if eq_ℤ j h then a else get_snapshot h m

-- `break` at the first height above the one asked for.
unfoldable pub up_to : ℤ → List ℤ → List ℤ
up_to topoheight [] = []
up_to topoheight (h ∷ hs) =
    let rest = up_to topoheight hs in if ltb_ℤ topoheight h then [] else h ∷ rest

-- `to_uint` is Go's conversion `uint64(f)`.
module _ {Float : Type 0} (to_uint : Float → ℕ) where
  -- The key of a variable, if it is a number or a text.
  unfoldable pub key_of : Any Float → Option Scalar
  key_of (float f) = some (number (to_uint f))
  key_of (uint n) = some (number n)
  key_of (text s) = some (string s)
  key_of nil = none
  key_of other = none

  -- What the map is set to: nothing for a value of another type, nil for nil.
  unfoldable pub value_of : Any Float → Option (Option Scalar)
  value_of (float f) = some (some (number (to_uint f)))
  value_of (uint n) = some (some (number n))
  value_of (text s) = some (some (string s))
  value_of nil = some none
  value_of other = none

  -- One round of the inner loop.
  unfoldable pub merge_var : Vars → ScidVariable Float → Vars
  unfolding key_of value_of set_var scalar_eq
  merge_var m v = elim (key_of v.key) [
    | none ↦ m
    | some k ↦ elim (value_of v.value) [ none ↦ m | some w ↦ set_var k w m ]
  ]

  unfoldable pub merge_snapshot : Vars → List (ScidVariable Float) → Vars
  unfolding merge_var
  merge_snapshot m [] = m
  merge_snapshot m (v ∷ vs) = merge_snapshot (merge_var m v) vs

  unfoldable pub merge_heights : List (ℤ × List (ScidVariable Float)) → Vars → List ℤ → Vars
  unfolding merge_snapshot get_snapshot
  merge_heights results m [] = m
  merge_heights results m (h ∷ hs) =
      merge_heights results (merge_snapshot m (get_snapshot h results)) hs

  abbrev pub scalar_any : Scalar → Any Float
  scalar_any (number n) = uint n
  scalar_any (string s) = text s

  -- The second loop: the entries whose value is not nil.
  unfoldable pub variables_of : Vars → List (ScidVariable Float)
  variables_of [] = []
  variables_of ((k, none) ∷ m) = variables_of m
  variables_of ((k, some v) ∷ m) =
      record { key = scalar_any k; value = scalar_any v } ∷ variables_of m

-- The same loops as `GetAllSCIDVariableDetails` has them, in a copy of its own.
module _ {Float : Type 0} (to_uint : Float → ℕ) where
  -- The inner switch, on the value.
  unfoldable pub all_set : Scalar → Any Float → Vars → Vars
  unfolding set_var scalar_eq
  all_set k (float f) m = set_var k (some (number (to_uint f))) m
  all_set k (uint n) m = set_var k (some (number n)) m
  all_set k (text s) m = set_var k (some (string s)) m
  all_set k nil m = set_var k none m
  all_set k other m = m

  -- The outer switch, on the key.
  unfoldable pub all_put : Any Float → Any Float → Vars → Vars
  unfolding all_set
  all_put (float f) v m = all_set (number (to_uint f)) v m
  all_put (uint n) v m = all_set (number n) v m
  all_put (text s) v m = all_set (string s) v m
  all_put nil v m = m
  all_put other v m = m

  unfoldable pub all_merge_snapshot : Vars → List (ScidVariable Float) → Vars
  unfolding all_put
  all_merge_snapshot m [] = m
  all_merge_snapshot m (v ∷ vs) = all_merge_snapshot (all_put v.key v.value m) vs

  unfoldable pub all_merge_heights : List (ℤ × List (ScidVariable Float)) → Vars → List ℤ → Vars
  unfolding all_merge_snapshot get_snapshot
  all_merge_heights results m [] = m
  all_merge_heights results m (h ∷ hs) =
      all_merge_heights results (all_merge_snapshot m (get_snapshot h results)) hs

  -- The second loop.
  unfoldable pub all_variables_of : Vars → List (ScidVariable Float)
  all_variables_of [] = []
  all_variables_of ((k, none) ∷ m) = all_variables_of m
  all_variables_of ((number n, some v) ∷ m) =
      record { key = uint n; value = scalar_any to_uint v } ∷ all_variables_of m
  all_variables_of ((string s, some v) ∷ m) =
      record { key = text s; value = scalar_any to_uint v } ∷ all_variables_of m

unfoldable pub lowest_first : List ℤ → List ℤ
unfolding sort_stable
lowest_first heights = sort_stable (λ a b. ltb_ℤ a b) heights

module _ {Float : Type 0} (json : Codec (List (ScidVariable Float))) where
  -- The loop over the cursor: the heights as met, and the snapshots. The error of `ParseInt` is
  -- dropped.
  unfoldable pub read_snapshots :
      List ℤ × List (ℤ × List (ScidVariable Float))
      → Assoc Bytes
      → List ℤ × List (ℤ × List (ScidVariable Float))
  unfolding set_snapshot
  read_snapshots found [] = found
  read_snapshots (heights, results) ((k, v) ∷ m) =
      read_snapshots
        (heights ++ (parse_int k).0 ∷ [], set_snapshot (parse_int k).0 (json.decode v) results) m

module _ {Db Bucket Float : Type 0} (bolt : Bolt Db Bucket)
    (json : Codec (List (ScidVariable Float))) where
  unfoldable pub store_scid_variable_details :
      Bytes → List (ScidVariable Float) → ℤ → Store Db → Result Db
  unfolding write_json
  store_scid_variable_details scid variables topoheight s =
      write_json bolt json (vars_bucket scid) (format_int topoheight) variables s

module _ {Db Bucket Float : Type 0} (bolt : Bolt Db Bucket) (to_uint : Float → ℕ)
    (json : Codec (List (ScidVariable Float))) (visit : Vars → Vars) where
  -- `visit` is the order in which Go visits the map in this call; another call may have another.
  unfoldable pub variables_at_topoheight : Bytes → ℤ → Store Db → List (ScidVariable Float)
  unfolding read_snapshots lowest_first up_to merge_heights variables_of
  variables_at_topoheight scid topoheight s =
      let (heights, results) = read_snapshots json ([], []) (scan bolt s.db (vars_bucket scid)) in
      variables_of to_uint
        (visit (merge_heights to_uint results [] (up_to topoheight (lowest_first heights))))

  unfoldable pub all_variables : Bytes → Store Db → List (ScidVariable Float)
  unfolding read_snapshots lowest_first all_merge_heights all_variables_of
  all_variables scid s =
      let (heights, results) = read_snapshots json ([], []) (scan bolt s.db (vars_bucket scid)) in
      all_variables_of to_uint (visit (all_merge_heights to_uint results [] (lowest_first heights)))

-- ===== src/Start/Flags.antt =====
-- The flags of pkg/flags.go.
pub mod Bounds
use simple_gnomon.Prelude.{
  ℕ, ◌≡◌, Bool, true, false, ◌||◌, Option, none, some, List, [], ◌∷◌, if◌then◌else◌,
}
use simple_gnomon.Prelude.Int.{ℤ, pos, negsuc, max_ℤ}
use simple_gnomon.Prelude.Bytes.{Bytes, codes, ◌==◌}
use simple_gnomon.Go.Strconv.{parse_int}
use simple_gnomon.Go.Strings.{contains, split, slice_contains}

-- The package's variables, and the two entries of derohe's `Arguments` that the parser sets.
pub record Flags : Type 0 where
  pub endpoint : Bytes
  pub ws_endpoint : Bytes
  pub api_endpoint : Bytes
  pub starting_height : ℤ
  pub ending_height : ℤ
  pub search_filter : Bytes
  pub exclusions : Bytes
  pub parallel_blocks : ℤ
  pub default_num_blocks : ℤ
  pub fastsync : Bool
  pub store_minis : Bool
  pub progress : Bool
  pub silent : Bool
  pub simulator : Option Bool
  pub testnet : Option Bool

-- The variables before the parser runs.
abbrev pub initial : Flags
initial = record {
  endpoint = [];
  ws_endpoint = [];
  api_endpoint = [];
  starting_height = pos 0;
  ending_height = pos 0;
  search_filter = [];
  exclusions = [];
  parallel_blocks = pos 0;
  default_num_blocks = pos 5;
  fastsync = false;
  store_minis = false;
  progress = false;
  silent = false;
  simulator = none;
  testnet = none;
}

-- `strconv.Atoi` in front of an assignment; `none` is its error.
abbrev pub with_number : Bytes → (ℤ → Flags) → Option Flags
with_number value set = let (n, fine) = parse_int value in if fine then some (set n) else none

-- The flags with a value.
unfoldable pub set_value : Bytes → Bytes → Flags → Option Flags
unfolding parse_int ◌==◌
set_value flag value f =
    if flag == codes "--daemon-rpc-address"
    then some (record f { endpoint = value })
    else if flag == codes "--ws-address"
    then some (record f { ws_endpoint = value })
    else if flag == codes "--api-address"
    then some (record f { api_endpoint = value })
    else if flag == codes "--start-topoheight"
    then with_number value (λ n. record f { starting_height = n })
    else if flag == codes "--ending-topoheight"
    then with_number value (λ n. record f { ending_height = max_ℤ n (negsuc 0) })
    else if flag == codes "--search-filter"
    then some (record f { search_filter = value })
    else if flag == codes "--sf-scid-exclusions"
    then some (record f { exclusions = value })
    else if flag == codes "--num-parallel-blocks"
    then with_number value (λ n. record f { parallel_blocks = max_ℤ n (pos 0) })
    else some f

-- The flags without one.
unfoldable pub set_switch : Bytes → Flags → Flags
unfolding ◌==◌
set_switch each f =
    if each == codes "--simulator"
    then record f { simulator = some true }
    else if each == codes "--testnet"
    then record f { testnet = some true }
    else if each == codes "--fastsync"
    then record f { fastsync = true }
    else if each == codes "--enable-miniblock-lookup"
    then record f { store_minis = true }
    else if each == codes "--progress"
    then record f { progress = true }
    else if each == codes "--silent"
    then record f { silent = true }
    else f

-- How `parseFlags` ends: without an error, with one of `Atoi`, in a panic on the index of `parts`, or
-- in `os.Exit(0)`. An error leaves the flags before it as they were set.
pub data Parsed : Type 0 where
  parsed : Flags → Parsed
  refused : Flags → Parsed
  panicked : Parsed
  helped versioned : Parsed

-- A round of the loop, in front of the rest.
unfoldable pub set_parts : List Bytes → Flags → (Flags → Parsed) → Parsed
unfolding set_value
set_parts (flag ∷ value ∷ more) f rest = elim (set_value flag value f) [
  | none ↦ refused f
  | some f' ↦ rest f'
]
set_parts _ f rest = panicked

unfoldable pub parse_each : List Bytes → Flags → Parsed
unfolding set_parts set_switch
parse_each [] f = parsed f
parse_each (each ∷ args) f = elim (contains each (codes "=")) [
  | true ↦ set_parts (split each (codes "=")) f (λ f'. parse_each args f')
  | false ↦ parse_each args (set_switch each f)
]

unfoldable pub parse_flags : List Bytes → Flags → Parsed
unfolding parse_each
parse_flags args f =
    if slice_contains args (codes "--help") || slice_contains args (codes "-h")
    then helped
    else if slice_contains args (codes "--version") || slice_contains args (codes "-v")
    then versioned
    else if slice_contains args (codes "--testnet")
    then parse_each args f
    else parse_each args (record f { testnet = some false })

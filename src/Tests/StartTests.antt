-- ===== src/Tests/StartTests.antt =====
-- The start of the indexer and the stages of contracts, at concrete inputs.
use simple_gnomon.Prelude.{
  ℕ, ◌≡◌, ◌⊎◌, ◌↔◌, In, refl, inl, true, false, Option, none, some, List, [], ◌∷◌, ◌++◌, map, All,
  arith,
}
use simple_gnomon.Prelude.Int.{pos}
use simple_gnomon.Prelude.Bytes.{Bytes, codes}
use simple_gnomon.Prelude.Assoc.{Assoc, lookup}
use simple_gnomon.Go.Json.{Codec}
use simple_gnomon.Go.Strings.{join}
use simple_gnomon.Structs.{Any, SearchFilter, float, text, other}
use simple_gnomon.Bolt.{Res, ok, err}
use simple_gnomon.Bolt.Memory.{Db}
use simple_gnomon.Store.{Store}
use simple_gnomon.Globals.{nameservice, gnomon_scid}
use simple_gnomon.Indexer.Fastsync.{Importable, height_at, importables_of}
use simple_gnomon.Indexer.Fastsync.Importables.{IsListed, importables_of_lem}
use simple_gnomon.Start.Flags.{initial, parse_flags}
use simple_gnomon.Start.Flags.Bounds.{EndsWell, parse_flags-EndsWell}
use simple_gnomon.Start.Filters.{Excluded, filters_of, default_filters, default_exclusions}
use simple_gnomon.Start.Backend.{ConfigFile, made, set_up_exclusions, exclude_each, set_up_backend}
use simple_gnomon.Start.Backend.Exclusions.{with_daemon, excluded_unread}
use simple_gnomon.Start.Filters.Pieces.{IsGroup, numbered, filters_of-join}
use simple_gnomon.Indexer.Variables.{Crypto, get_sc_variables}
use simple_gnomon.Indexer.Variables.Scalars.{Merges, get_sc_variables-Merges}
use simple_gnomon.Indexer.Scids.{Work, work_on_scids}
use simple_gnomon.Indexer.Scids.Contract.{
  ScTx, Target, GetScParams, ScResult, known, target_of, Settings, Outside,
}
use simple_gnomon.Indexer.Scids.Queue.{Writable, Queued, work_on_scids-Queued}
use simple_gnomon.Tests.Samples.{bolt, blank, runs}

abbrev launch_args : List Bytes
launch_args =
    codes "gnomon"
    ∷ codes "--ending-topoheight=-7"
    ∷ codes "--num-parallel-blocks=x"
    ∷ codes "--testnet"
    ∷ []

parse_flags-EndsWell_example : EndsWell (parse_flags launch_args initial)
parse_flags-EndsWell_example = parse_flags-EndsWell launch_args initial (omega arith, omega arith)

abbrev filter : List Bytes
filter = codes "one" ∷ codes "two" ∷ []

abbrev last_filter : List Bytes
last_filter = codes "three" ∷ []

are_groups : All IsGroup (filter ∷ last_filter ∷ [])
are_groups = (
  ((refl, (refl, (refl, tt))), ((refl, (refl, (refl, tt))), tt)),
  (((refl, (refl, (refl, (refl, (refl, tt))))), tt), tt),
)

filters_of-join_example :
    filters_of
      (join (map (λ terms. join terms (codes ";")) (filter ∷ last_filter ∷ [])) (codes ";;;"))
    ≡ numbered 0 (filter ∷ last_filter ∷ [])
filters_of-join_example = filters_of-join filter (last_filter ∷ []) are_groups

-- Numbers stand for floating point numbers, and no text is the address of a point.
abbrev crypto : Crypto ℕ
crypto = record {
  decode_hex = λ s. (s, true);
  address_of = λ s. none;
  hash_length = 32;
  hash_string = λ s. s ++ s;
  is_zero_hex = λ s. true;
  show = λ v. codes "?";
  to_uint = λ n. n;
}

abbrev named : Assoc (Any ℕ)
named = (codes "name", text (codes "dero")) ∷ (codes "odd", other) ∷ []

get_sc_variables-Merges_example :
    All (Merges crypto (λ n. n)) (get_sc_variables crypto named ((7, float 9) ∷ []))
get_sc_variables-Merges_example = get_sc_variables-Merges crypto (λ n. n) named ((7, float 9) ∷ [])

abbrev fees_json : Codec (Assoc ℕ)
fees_json = record { marshal = λ m. ok []; decode = λ s. [] }

abbrev outside : Outside ℕ
outside = record {
  crypto = crypto;
  parse_url = λ s. some s;
  unmarshal = λ s. none;
  get_sc = λ p. (record { string_keys = named; uint64_keys = []; code = codes "Function" }, none);
}

abbrev settings : Settings
settings = record { fastsync = false; search_filter = []; indices = [] }

abbrev installs : ScTx ℕ ℕ
installs = record {
  scdata = 0;
  size = 1;
  has_code = true;
  has_scid = false;
  scid = none;
  entrypoint = none;
  hash = codes "aa";
  payloads = [];
  fees = 5;
}

abbrev idle : Work Db ℕ ℕ ℕ
idle = record { store = blank; scid_db_queue = []; errors = [] }

work_on_scids-Queued_example :
    let after =
      (work_on_scids bolt fees_json outside settings
        (pos 9)
        (codes "ann")
        installs
        idle).scid_db_queue in
    (after ≡ [])
    ⊎ ((target : Target) × (target_of installs ≡ some target)
        × Writable target
        × Queued bolt fees_json outside settings (pos 9) (codes "ann") target installs [] after)
work_on_scids-Queued_example =
    work_on_scids-Queued bolt fees_json outside settings (pos 9) (codes "ann") installs idle

-- One contract that is listed at height 12.
abbrev listing : Assoc (Any ℕ)
listing = (gnomon_scid, float 1) ∷ (gnomon_scid ++ codes "height", float 12) ∷ []

abbrev listed_one : Importable
listed_one = record { hash = gnomon_scid; height = pos 12 }

listed : importables_of pos (pos 9) listing listing ≡ some (listed_one ∷ [])
unfolding importables_of height_at lookup runs
listed = refl

importables_of_example :
    In listed_one (listed_one ∷ []) ↔ IsListed pos (pos 9) listing listing listed_one
importables_of_example = importables_of_lem pos (pos 9) listing listing _ listed listed_one

-- A first start: neither file exists.
abbrev missing_file : {A : Type 0} → A → ConfigFile A
missing_file a = record {
  exists = false;
  mkdir = made;
  marshal = λ b. ok [];
  write = λ s. none;
  read = err 2;
  unmarshal = λ s. (a, some 3);
}

abbrev search_file : ConfigFile (List SearchFilter)
search_file = missing_file []

abbrev exclude_file : ConfigFile (List Excluded)
exclude_file = missing_file []

abbrev opens : Bytes → Res (Store Db)
opens name = ok blank

abbrev hardcoded : Excluded
hardcoded = record {
  name = codes "NAMESERVICE";
  scid = nameservice;
  reason = codes "Hardcoded Contract";
}

abbrev excluding : Store Db
excluding = exclude_each default_exclusions blank

first_start :
    set_up_backend opens search_file exclude_file initial []
    ≡ (default_filters, ok (excluding, excluding))
unfolding set_up_backend runs
first_start = refl

names_excluded : In hardcoded (set_up_exclusions exclude_file initial).0
unfolding set_up_exclusions runs
names_excluded = inl refl

abbrev named_call : ScTx ℕ ℕ
named_call = record installs {
  has_scid = true;
  scid = some (record { text = nameservice; is_zero = false });
  entrypoint = some (codes "Register");
}

names_called : target_of named_call ≡ some (nameservice, codes "invoke", codes "Register")
unfolding target_of known runs
names_called = refl

abbrev unavailable : GetScParams → ScResult ℕ × Option ℕ
unavailable p = (record { string_keys = []; uint64_keys = []; code = [] }, some 7)

abbrev excluding_work : Work Db ℕ ℕ ℕ
excluding_work = record idle { store = excluding }

excluded_unread_example :
    work_on_scids bolt fees_json outside settings (pos 9) (codes "ann") named_call excluding_work
    ≡ work_on_scids bolt fees_json
        (with_daemon unavailable outside)
        settings
        (pos 9)
        (codes "ann")
        named_call
        excluding_work
excluded_unread_example =
    excluded_unread opens search_file exclude_file initial [] bolt fees_json outside settings
      unavailable default_filters excluding excluding hardcoded (pos 9) (codes "ann")
      (nameservice, codes "invoke", codes "Register") named_call excluding_work first_start
      names_excluded names_called refl (inl refl)

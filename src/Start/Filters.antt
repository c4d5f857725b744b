-- ===== src/Start/Filters.antt =====
-- The filters and exclusions of pkg/backend.go, from the flags.
pub mod Pieces
use simple_gnomon.Prelude.{ℕ, zero, suc, Bool, true, false, not, List, [], ◌∷◌, ◌++◌, if◌then◌else◌}
use simple_gnomon.Prelude.Bytes.{Bytes, codes}
use simple_gnomon.Globals.{nameservice, gnomon_scid}
use simple_gnomon.Go.Strconv.{format_uint}
use simple_gnomon.Go.Strings.{contains, split}
use simple_gnomon.Structs.{SearchFilter}

-- `callback` in front of `action`: a filter of the flag, cut into its terms.
unfoldable pub filter_of : ℕ → Bytes → SearchFilter
unfolding contains split format_uint
filter_of i filter = record {
  name = codes "Filter " ++ format_uint i;
  terms = if contains filter (codes ";") then split filter (codes ";") else filter ∷ [];
}

-- `for i, filter := range …`, from a number on.
unfoldable pub number_each : {A : Type 0} → (ℕ → Bytes → A) → ℕ → List Bytes → List A
number_each f i [] = []
number_each f i (x ∷ xs) = f i x ∷ number_each f (suc i) xs

-- The switch on ";;;", which both flags have.
unfoldable pub groups_of : {A : Type 0} → (ℕ → Bytes → A) → Bytes → List A
unfolding number_each contains split
groups_of f given =
    if contains given (codes ";;;")
    then number_each f 0 (split given (codes ";;;"))
    else f 0 given ∷ []

unfoldable pub filters_of : Bytes → List SearchFilter
unfolding groups_of filter_of
filters_of search = groups_of filter_of search

pub record Excluded : Type 0 where
  pub name : Bytes
  pub scid : Bytes
  pub reason : Bytes

unfoldable pub exclusion_of : ℕ → Bytes → Excluded
unfolding format_uint
exclusion_of i scid = record {
  name = codes "Exclusion " ++ format_uint i;
  scid = scid;
  reason = codes "exclusion flag";
}

-- What is searched and excluded without flags and files.
abbrev pub default_filters : List SearchFilter
default_filters =
    record {
      name = codes "g45";
      terms =
          codes "G45-NFT"
          ∷ codes "G45-AT"
          ∷ codes "G45-C"
          ∷ codes "G45-FAT"
          ∷ codes "G45-NAME"
          ∷ codes "T345"
          ∷ [];
    }
    ∷ record { name = codes "nfa"; terms = codes "ART-NFA-MS1" ∷ [] }
    ∷ record { name = codes "tela"; terms = codes "docVersion" ∷ codes "telaVersion" ∷ [] }
    ∷ []

abbrev pub default_exclusions : List Excluded
default_exclusions =
    record { name = codes "NAMESERVICE"; scid = nameservice; reason = codes "Hardcoded Contract" }
    ∷ record {
      name = codes "Gnomon Smart Contract";
      scid = gnomon_scid;
      reason = codes "Large Contract";
    }
    ∷ []

-- ===== src/Indexer/Classify.antt =====
-- The class and the tags of a contract's code in `work_on_scids` of pkg/handling_scids.go.
pub mod Tags
pub mod Class
use simple_gnomon.Prelude.{
  ◌≡◌, ◌≢◌, ◌↔◌, ◌⊎◌, refl, sym, subst, ◌∙◌, true, false, ◌&&◌, not, Option, none, some, List, [],
  ◌∷◌, ◌++◌, if◌then◌else◌, In, All, In-append_or, In-append_left, In-append_right, Bool-cases, inl,
  inr,
}
use simple_gnomon.Prelude.Bytes.{Bytes, codes, ◌==◌, ==_iff, ==_ne}
use simple_gnomon.Go.Strings.{contains, join}
use simple_gnomon.Go.Sort.{sort_bytes}
use simple_gnomon.Globals.{nameservice, gnomon_scid}
use simple_gnomon.Structs.{SearchFilter}

-- The inner loop: the first term that the code contains, empty if there is none.
unfoldable pub first_term : Bytes → List Bytes → Bytes
unfolding contains
first_term code [] = []
first_term code (t ∷ ts) = let rest = first_term code ts in if contains code t then t else rest

-- The loop over the indices: it goes on while the class is empty.
unfoldable pub class_of : Bytes → List SearchFilter → Bytes
unfolding first_term ◌==◌
class_of code [] = []
class_of code (f ∷ fs) =
    let rest = class_of code fs in
    let class = first_term code f.terms in if class == [] then rest else class

-- The two switches on the contract and on the class.
unfoldable pub named_class : Bytes → Bytes → Bytes
unfolding ◌==◌
named_class scid class =
    if scid == nameservice
    then codes "NAMESERVICE"
    else if scid == gnomon_scid
    then codes "GNOMONSC"
    else if class == []
    then codes "null"
    else if class == codes "docVersion"
    then codes "TELA-DOC-1"
    else if class == codes "telaVersion"
    then codes "TELA-INDEX-1"
    else class

-- The name of an index, once for each of its terms that the code contains.
unfoldable pub tags_in : Bytes → Bytes → List Bytes → List Bytes
unfolding contains
tags_in code name [] = []
tags_in code name (t ∷ ts) =
    let rest = tags_in code name ts in if contains code t then name ∷ rest else rest

-- What the loop over the indices appends to the tags.
unfoldable pub index_tags : Bytes → List SearchFilter → List Bytes
unfolding tags_in
index_tags code [] = []
index_tags code (f ∷ fs) = tags_in code f.name f.terms ++ index_tags code fs

abbrev pub all_tag : Bytes
all_tag = codes "all"

-- The tags: every contract has the first one.
unfoldable pub tags_of : Bytes → List SearchFilter → List Bytes
unfolding index_tags
tags_of code indices = all_tag ∷ index_tags code indices

-- The class, and the tags as one text; `none` is the return on a search that does not match.
unfoldable pub classify : Bytes → List SearchFilter → Bytes → Bytes → Option (Bytes × Bytes)
unfolding class_of named_class tags_of sort_bytes join ◌==◌
classify search_filter indices scid code =
    let class = class_of code indices in
    if not (search_filter == []) && class == []
    then none
    else some (named_class scid class, join (sort_bytes (tags_of code indices)) (codes ","))

-- ===== src/Indexer/Classify/Class.antt =====
-- The class that `work_on_scids` of pkg/handling_scids.go gives a contract, and which it leaves out.
use simple_gnomon.Prelude.{
  ◌≡◌, ◌≢◌, ◌↔◌, ◌⊎◌, refl, sym, subst, ◌∙◌, true, false, none, List, [], ◌∷◌, In, All, Bool-cases,
  inl, inr,
}
use simple_gnomon.Prelude.Bytes.{Bytes, ◌==◌, ==_iff, ==_ne}
use simple_gnomon.Go.Strings.{contains}
use simple_gnomon.Structs.{SearchFilter}
use simple_gnomon.Indexer.Classify.{first_term, class_of, tags_in, index_tags, classify}
use simple_gnomon.Indexer.Classify.Tags.{Matches, In-index_tags}

-- A term of one of the indices.
abbrev pub IsTerm : Bytes → List SearchFilter → Type 0
IsTerm t [] = ⊥
IsTerm t (f ∷ fs) = In t f.terms ⊎ IsTerm t fs

-- What the code contains, out of a list of terms.
abbrev Contained : Bytes → List Bytes → Bytes → Type 0
Contained code ts t = In t ts × (contains code t ≡ true)

first_term_hit :
    (code t : Bytes) (ts : List Bytes) → contains code t ≡ true → first_term code (t ∷ ts) ≡ t
unfolding first_term
first_term_hit code t ts hit = rw hit refl

first_term_miss :
    (code t : Bytes) (ts : List Bytes)
    → contains code t ≡ false
    → first_term code (t ∷ ts) ≡ first_term code ts
unfolding first_term
first_term_miss code t ts miss = rw miss refl

first_term_nil : (code : Bytes) → first_term code [] ≡ []
unfolding first_term
first_term_nil code = refl

first_term_lem :
    (code : Bytes) (ts : List Bytes)
    → first_term code ts ≢ []
    → Contained code ts (first_term code ts)
first_term_lem code [] h = absurd (h (first_term_nil code))
first_term_lem code (t ∷ ts) h = elim (Bool-cases (contains code t)) [
  | inl hit ↦
      let e = first_term_hit code t ts hit in
      subst (Contained code (t ∷ ts)) (sym e) (inl refl, hit)
  | inr miss ↦
      let e = first_term_miss code t ts miss in
      let (i, found) = first_term_lem code ts (λ none'. h (e ∙ none')) in
      subst (Contained code (t ∷ ts)) (sym e) (inr i, found)
]

-- A term of an index that the code contains.
abbrev pub IsFound : Bytes → List SearchFilter → Bytes → Type 0
IsFound code indices t = IsTerm t indices × (contains code t ≡ true)

class_of_nil : (code : Bytes) → class_of code [] ≡ []
unfolding class_of
class_of_nil code = refl

class_of_next :
    (code : Bytes) (f : SearchFilter) (fs : List SearchFilter)
    → (first_term code f.terms == []) ≡ true
    → class_of code (f ∷ fs) ≡ class_of code fs
unfolding class_of
class_of_next code f fs empty = rw empty refl

class_of_here :
    (code : Bytes) (f : SearchFilter) (fs : List SearchFilter)
    → (first_term code f.terms == []) ≡ false
    → class_of code (f ∷ fs) ≡ first_term code f.terms
unfolding class_of
class_of_here code f fs full = rw full refl

-- A class that is not empty is a term of one of the indices, and the code contains it.
pub class_of_lem :
    (code : Bytes) (indices : List SearchFilter)
    → class_of code indices ≢ []
    → IsFound code indices (class_of code indices)
class_of_lem code [] h = absurd (h (class_of_nil code))
class_of_lem code (f ∷ fs) h = elim (Bool-cases (first_term code f.terms == [])) [
  | inl empty ↦
      let e = class_of_next code f fs empty in
      let (i, found) = class_of_lem code fs (λ none'. h (e ∙ none')) in
      subst (IsFound code (f ∷ fs)) (sym e) (inr i, found)
  | inr full ↦
      let e = class_of_here code f fs full in
      let (i, found) = first_term_lem code f.terms (λ none'. h (e ∙ none')) in
      subst (IsFound code (f ∷ fs)) (sym e) (inl i, found)
]

-- No term is empty.
abbrev pub NoEmptyTerm : List SearchFilter → Type 0
NoEmptyTerm indices = All (λ f. All (λ t. t ≢ []) f.terms) indices

-- A class that is empty goes with no tag.
first_term_none :
    (code name : Bytes) (ts : List Bytes)
    → All (λ t. t ≢ []) ts
    → first_term code ts ≡ []
    → tags_in code name ts ≡ []
unfolding tags_in
first_term_none code name [] full h = refl
first_term_none code name (t ∷ ts) full h = elim (Bool-cases (contains code t)) [
  | inl hit ↦ absurd (full.0 (sym (first_term_hit code t ts hit) ∙ h))
  | inr miss ↦
      rw miss (first_term_none code name ts full.1 (sym (first_term_miss code t ts miss) ∙ h))
]

class_of_none :
    (code : Bytes) (indices : List SearchFilter)
    → NoEmptyTerm indices
    → class_of code indices ≡ []
    → index_tags code indices ≡ []
unfolding index_tags
class_of_none code [] full h = refl
class_of_none code (f ∷ fs) full h = elim (Bool-cases (first_term code f.terms == [])) [
  | inl empty ↦
      let e = (==_iff (first_term code f.terms) []).0 empty in
      let none_here = first_term_none code f.name f.terms full.0 e in
      let none_later = class_of_none code fs full.1 (sym (class_of_next code f fs empty) ∙ h) in
      rw (none_here, none_later) refl
  | inr found ↦
      let e = sym (class_of_here code f fs found) ∙ h in
      let empty = (==_iff (first_term code f.terms) []).1 e in absurd (cc (empty, found))
]

found-Matches :
    (code t : Bytes) (indices : List SearchFilter)
    → IsFound code indices t
    → (name : Bytes) × Matches code name indices
found-Matches code t [] (i, found) = elim i [ ]
found-Matches code t (f ∷ fs) (inl i, found) = (f.name, inl (refl, (t, i, found)))
found-Matches code t (f ∷ fs) (inr i, found) =
    let (name, m) = found-Matches code t fs (i, found) in (name, inr m)

-- A class that is not empty goes with a tag.
tagged :
    (code : Bytes) (indices : List SearchFilter)
    → class_of code indices ≢ []
    → index_tags code indices ≢ []
tagged code indices h e =
    let (name, m) =
      found-Matches code (class_of code indices) indices (class_of_lem code indices h) in
    subst (In name) e ((In-index_tags code name indices).1 m)

classify_kept :
    (search_filter : Bytes) (indices : List SearchFilter) (scid code : Bytes)
    → (class_of code indices == []) ≡ false
    → classify search_filter indices scid code ≢ none
unfolding classify
classify_kept search_filter indices scid code kept e = elim (Bool-cases (search_filter == [])) [
  | inl empty ↦ absurd (cc (rw (empty, kept) at e))
  | inr given ↦ absurd (cc (rw (given, kept) at e))
]

classify_out :
    (search_filter : Bytes) (indices : List SearchFilter) (scid code : Bytes)
    → search_filter ≢ []
    → class_of code indices ≡ []
    → classify search_filter indices scid code ≡ none
unfolding classify
classify_out search_filter indices scid code given e =
    rw (==_ne search_filter [] given, (==_iff (class_of code indices) []).1 e) refl

-- Under a search filter that is not empty, where no term is empty, a contract is left out exactly
-- if it has no tag from the indices.
pub classify-none :
    (search_filter scid code : Bytes) (indices : List SearchFilter)
    → search_filter ≢ []
    → NoEmptyTerm indices
    → (classify search_filter indices scid code ≡ none) ↔ (index_tags code indices ≡ [])
classify-none search_filter scid code indices given full =
    elim (Bool-cases (class_of code indices == [])) [
      | inl empty ↦
          let e = (==_iff (class_of code indices) []).0 empty in
          (
            λ h. class_of_none code indices full e,
            λ h. classify_out search_filter indices scid code given e,
          )
      | inr kept ↦
          let ne : class_of code indices ≢ [] =
            λ e. let empty = (==_iff (class_of code indices) []).1 e in absurd (cc (empty, kept)) in
          (
            λ h. absurd (classify_kept search_filter indices scid code kept h),
            λ h. absurd (tagged code indices ne h),
          )
    ]

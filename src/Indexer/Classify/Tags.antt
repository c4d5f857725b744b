-- ===== src/Indexer/Classify/Tags.antt =====
-- The tags that `work_on_scids` of pkg/handling_scids.go gives a contract.
use simple_gnomon.Prelude.{
  ◌≡◌, ◌↔◌, ◌⊎◌, refl, sym, subst, true, List, [], ◌∷◌, In, In-append_or, In-append_left,
  In-append_right, Bool-cases, inl, inr,
}
use simple_gnomon.Prelude.Bytes.{Bytes, codes}
use simple_gnomon.Go.Strings.{contains}
use simple_gnomon.Structs.{SearchFilter}
use simple_gnomon.Indexer.Classify.{tags_in, index_tags, tags_of}

-- A term of one of the indices that the code contains.
abbrev pub Matches : Bytes → Bytes → List SearchFilter → Type 0
Matches code name [] = ⊥
Matches code name (f ∷ fs) =
    ((name ≡ f.name) × ((t : Bytes) × In t f.terms × (contains code t ≡ true)))
    ⊎ Matches code name fs

In-tags_in :
    (code tag name : Bytes) (ts : List Bytes)
    → In tag (tags_in code name ts)
    → (tag ≡ name) × ((t : Bytes) × In t ts × (contains code t ≡ true))
unfolding tags_in
In-tags_in code tag name [] i = elim i [ ]
In-tags_in code tag name (t ∷ ts) i = elim (Bool-cases (contains code t)) [
  | inl hit ↦
      let i' : In tag (name ∷ tags_in code name ts) = rw hit at i in
      elim i' [
        | inl e ↦ (e, (t, inl refl, hit))
        | inr j ↦ let (e, (u, k, found)) = In-tags_in code tag name ts j in (e, (u, inr k, found))
      ]
  | inr miss ↦
      let (e, (u, k, found)) = In-tags_in code tag name ts (rw miss at i) in (e, (u, inr k, found))
]

tags_in-In :
    (code name t : Bytes) (ts : List Bytes)
    → In t ts
    → contains code t ≡ true
    → In name (tags_in code name ts)
unfolding tags_in
tags_in-In code name t [] i hit = elim i [ ]
tags_in-In code name t (u ∷ ts) (inl e) hit =
    rw (subst (λ x. contains code x ≡ true) e hit) (inl refl)
tags_in-In code name t (u ∷ ts) (inr i) hit = elim (Bool-cases (contains code u)) [
  | inl yes' ↦ rw yes' (inl refl)
  | inr no' ↦ rw no' (tags_in-In code name t ts i hit)
]

-- An index gives its name as a tag exactly if the code contains one of its terms.
pub In-index_tags :
    (code tag : Bytes) (indices : List SearchFilter)
    → In tag (index_tags code indices) ↔ Matches code tag indices
unfolding index_tags
In-index_tags code tag [] = (λ i. i, λ m. m)
In-index_tags code tag (f ∷ fs) =
    let (to, from) = In-index_tags code tag fs in
    (
      λ i. elim (In-append_or tag (tags_in code f.name f.terms) (index_tags code fs) i) [
        | inl j ↦ inl (In-tags_in code tag f.name f.terms j)
        | inr j ↦ inr (to j)
      ],
      λ m. elim m [
        | inl (e, (t, i, hit)) ↦
            In-append_left tag (tags_in code f.name f.terms) (index_tags code fs) (
              subst (λ n. In n (tags_in code f.name f.terms)) (sym e)
                (tags_in-In code f.name t f.terms i hit))
        | inr later ↦
            In-append_right tag (tags_in code f.name f.terms) (index_tags code fs) (from later)
      ],
    )

-- A contract is tagged with a name exactly if the name is "all", or its code contains a term of an
-- index of that name.
pub In-tags_of :
    (code tag : Bytes) (indices : List SearchFilter)
    → In tag (tags_of code indices) ↔ ((tag ≡ codes "all") ⊎ Matches code tag indices)
unfolding tags_of
In-tags_of code tag indices =
    let (to, from) = In-index_tags code tag indices in
    (
      λ i. elim i [ inl e ↦ inl e | inr j ↦ inr (to j) ],
      λ h. elim h [ inl e ↦ inl e | inr m ↦ inr (from m) ],
    )

-- ===== src/Start/Filters/Pieces.antt =====
-- The search filter of pkg/backend.go comes back from its text.
use simple_gnomon.Prelude.{
  ℕ, suc, ◌≡◌, refl, ap, ◌∙◌, false, ◌&&◌, List, [], ◌∷◌, ◌++◌, map, nat_beq, All, arith,
}
use simple_gnomon.Prelude.Bytes.{Bytes, codes}
use simple_gnomon.Go.Strconv.{format_uint}
use simple_gnomon.Go.Strings.{has_prefix, join}
use simple_gnomon.Go.Strings.Parts.{Quiet, contains-append, contains-Quiet, split-join}
use simple_gnomon.Structs.{SearchFilter}
use simple_gnomon.Start.Filters.{filter_of, number_each, groups_of, filters_of}

-- A text without a semicolon.
abbrev Plain : Bytes → Type 0
Plain s = All (λ c. nat_beq c b';' ≡ false) s

-- A term: a text that is not empty, without a semicolon.
abbrev pub IsTerm : Bytes → Type 0
IsTerm [] = ⊥
IsTerm (c ∷ s) = Plain (c ∷ s)

-- The terms of a filter.
abbrev pub IsGroup : List Bytes → Type 0
IsGroup [] = ⊥
IsGroup (t ∷ ts) = All IsTerm (t ∷ ts)

-- A text without two semicolons in a row, and without one at the end.
abbrev Calm : Bytes → Type 0
Calm [] = Unit
Calm (c ∷ []) = nat_beq c b';' ≡ false
Calm (c ∷ d ∷ s) = ((nat_beq c b';' && nat_beq d b';') ≡ false) × Calm (d ∷ s)

-- A calm text that begins with no semicolon.
abbrev Good : Bytes → Type 0
Good [] = ⊥
Good (c ∷ s) = (nat_beq c b';' ≡ false) × Calm (c ∷ s)

abbrev one : Bytes
one = codes ";"

abbrev three : Bytes
three = codes ";;;"

Plain-Quiet : (s : Bytes) → Plain s → Quiet one s
unfolding has_prefix
Plain-Quiet [] p = tt
Plain-Quiet (c ∷ s) (h, p) = (λ rest. ground (arith, h), ground (arith, h), Plain-Quiet s p)

Calm-Quiet : (s : Bytes) → Calm s → Quiet three s
unfolding has_prefix
Calm-Quiet [] h = tt
Calm-Quiet (c ∷ []) h = (λ rest. ground (arith, h), ground (arith, h), tt)
Calm-Quiet (c ∷ d ∷ s) (h, calm) =
    (λ rest. ground (arith, h), ground (arith, h), Calm-Quiet (d ∷ s) calm)

term_Good : (t : Bytes) → IsTerm t → Good t
term_Good [] h = h
term_Good (c ∷ []) (h, u) = (h, h)
term_Good (c ∷ d ∷ s) (h, p) = (h, (ground (arith, h), (term_Good (d ∷ s) p).1))

joined_Good : (t rest : Bytes) → IsTerm t → Good rest → Good (t ++ one ++ rest)
joined_Good [] rest h g = absurd h
joined_Good (c ∷ []) (r ∷ rest) (h, u) (first, calm) =
    (h, (ground (arith, h), (ground (arith, first), calm)))
joined_Good (c ∷ []) [] h g = absurd g
joined_Good (c ∷ d ∷ s) rest (h, p) g = (h, (ground (arith, h), (joined_Good (d ∷ s) rest p g).1))

group_Good : (t : Bytes) (ts : List Bytes) → All IsTerm (t ∷ ts) → Good (join (t ∷ ts) one)
unfolding join
group_Good t [] (h, u) = term_Good t h
group_Good t (v ∷ ts) (h, hs) = joined_Good t (join (v ∷ ts) one) h (group_Good v ts hs)

Good-Calm : (s : Bytes) → Good s → Calm s
Good-Calm [] g = absurd g
Good-Calm (c ∷ s) g = g.1

IsTerm-Plain : (t : Bytes) → IsTerm t → Plain t
IsTerm-Plain [] h = absurd h
IsTerm-Plain (c ∷ s) h = h

terms_Quiet : (ts : List Bytes) → All IsTerm ts → All (Quiet one) ts
terms_Quiet [] h = tt
terms_Quiet (t ∷ ts) (h, hs) = (Plain-Quiet t (IsTerm-Plain t h), terms_Quiet ts hs)

group_Quiet : (g : List Bytes) → IsGroup g → Quiet three (join g one)
group_Quiet [] h = absurd h
group_Quiet (t ∷ ts) h =
    Calm-Quiet (join (t ∷ ts) one) (Good-Calm (join (t ∷ ts) one) (group_Good t ts h))

groups_Quiet :
    (gs : List (List Bytes)) → All IsGroup gs → All (Quiet three) (map (λ g. join g one) gs)
groups_Quiet [] h = tt
groups_Quiet (g ∷ gs) (h, hs) = (group_Quiet g h, groups_Quiet gs hs)

-- The text of a group's terms gives the terms back.
filter_of-join :
    (i : ℕ) (g : List Bytes)
    → IsGroup g
    → filter_of i (join g one) ≡ record { name = codes "Filter " ++ format_uint i; terms = g }
unfolding filter_of join
filter_of-join i [] h = absurd h
filter_of-join i (t ∷ []) (h, u) =
    rw (contains-Quiet b';' [] t (Plain-Quiet t (IsTerm-Plain t h))) refl
filter_of-join i (t ∷ v ∷ ts) h = rw (contains-append t one (join (v ∷ ts) one)) (
    ap (λ l. record { name = codes "Filter " ++ format_uint i; terms = l })
      (split-join b';' [] t (v ∷ ts) (terms_Quiet (t ∷ v ∷ ts) h)))

-- The filters with their numbers.
abbrev pub numbered : ℕ → List (List Bytes) → List SearchFilter
numbered i [] = []
numbered i (g ∷ gs) =
    record { name = codes "Filter " ++ format_uint i; terms = g } ∷ numbered (suc i) gs

filters_numbered :
    (i : ℕ) (gs : List (List Bytes))
    → All IsGroup gs
    → number_each filter_of i (map (λ g. join g one) gs) ≡ numbered i gs
unfolding number_each
filters_numbered i [] h = refl
filters_numbered i (g ∷ gs) (h, hs) =
    ap (λ x. x ∷ number_each filter_of (suc i) (map (λ g. join g one) gs)) (filter_of-join i g h)
    ∙ ap (λ l. record { name = codes "Filter " ++ format_uint i; terms = g } ∷ l)
        (filters_numbered (suc i) gs hs)

-- The search filter's text, with ";" between the terms of a filter and ";;;" between the filters,
-- gives these filters, numbered from 0: for one filter or more, each of one term or more, where no
-- term is empty or has a semicolon.
pub filters_of-join :
    (g : List Bytes) (gs : List (List Bytes))
    → All IsGroup (g ∷ gs)
    → filters_of (join (map (λ terms. join terms (codes ";")) (g ∷ gs)) (codes ";;;"))
      ≡ numbered 0 (g ∷ gs)
unfolding filters_of groups_of join
filters_of-join g [] (h, u) =
    rw (contains-Quiet b';' (codes ";;") (join g one) (group_Quiet g h), groups_of)
      (ap (λ x. x ∷ []) (filter_of-join 0 g h))
filters_of-join g (k ∷ gs) h =
    let texts = map (λ terms. join terms one) gs in
    rw (contains-append (join g one) three (join (join k one ∷ texts) three), groups_of)
      (ap (number_each filter_of 0) (
          split-join b';' (codes ";;") (join g one) (join k one ∷ texts)
            (groups_Quiet (g ∷ k ∷ gs) h))
        ∙ filters_numbered 0 (g ∷ k ∷ gs) h)

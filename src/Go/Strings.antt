-- ===== src/Go/Strings.antt =====
-- Go's `strings` as the program uses it, on lists of bytes.
pub mod Contains
pub mod Parts
use simple_gnomon.Prelude.{
  ℕ, zero, suc, ◌-◌, Bool, true, false, ◌&&◌, ◌||◌, List, [], ◌∷◌, ◌++◌, map, length, nat_beq, leb,
  if◌then◌else◌, ◌+◌,
}
use simple_gnomon.Prelude.Bytes.{Bytes, ◌==◌}

-- `strings.HasPrefix(s, p)`
unfoldable pub has_prefix : Bytes → Bytes → Bool
has_prefix s [] = true
has_prefix [] (p ∷ ps) = false
has_prefix (c ∷ s) (p ∷ ps) = nat_beq c p && has_prefix s ps

-- `strings.Contains(s, sub)`
unfoldable pub contains : Bytes → Bytes → Bool
contains [] sub = has_prefix [] sub
contains (c ∷ s) sub = has_prefix (c ∷ s) sub || contains s sub

-- The pieces between the separators. `skip` is what is left of a separator that began earlier, and
-- `piece` is the piece so far.
unfoldable pub split_from : Bytes → ℕ → Bytes → Bytes → List Bytes
split_from sep skip piece [] = piece ∷ []
split_from sep (suc skip) piece (c ∷ s) = split_from sep skip piece s
split_from sep zero piece (c ∷ s) =
    let hit = has_prefix (c ∷ s) sep in
    let rest =
      split_from sep (if hit then length sep - 1 else 0) (if hit then [] else piece ++ c ∷ []) s in
    if hit then piece ∷ rest else rest

-- `strings.Split(s, sep)`; an empty separator splits off every character.
unfoldable pub split : Bytes → Bytes → List Bytes
unfolding split_from
split s [] = map (λ c. c ∷ []) s
split s (c ∷ sep) = split_from (c ∷ sep) 0 [] s

-- `strings.Join(parts, sep)`
unfoldable pub join : List Bytes → Bytes → Bytes
join [] sep = []
join (s ∷ []) sep = s
join (s ∷ t ∷ more) sep = s ++ sep ++ join (t ∷ more) sep

-- `slices.Contains(list, s)`
unfoldable pub slice_contains : List Bytes → Bytes → Bool
slice_contains [] s = false
slice_contains (t ∷ list) s = t == s || slice_contains list s

-- `strings.ToLower` on ASCII.
unfoldable pub to_lower : Bytes → Bytes
to_lower [] = []
to_lower (c ∷ s) = (if leb b'A' c && leb c b'Z' then c + 32 else c) ∷ to_lower s

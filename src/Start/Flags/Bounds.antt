-- ===== src/Start/Flags/Bounds.antt =====
-- The parser of pkg/flags.go does not panic, and keeps the bounds of the numbers that it sets.
use simple_gnomon.Prelude.{
  ℕ, zero, suc, ◌≡◌, refl, ap, subst, sym, true, false, Option, none, some, List, [], ◌∷◌, ◌++◌,
  nat_beq, arith, inl, inr, Bool-cases, Option-cases, if_either, length, ◌-◌, ◌||◌,
}
use simple_gnomon.Prelude.Int.{ℤ, pos, negsuc, ◌≤ℤ◌, max_ℤ}
use simple_gnomon.Prelude.Bytes.{Bytes, codes, ◌==◌}
use simple_gnomon.Go.Strconv.{parse_int}
use simple_gnomon.Go.Strings.{has_prefix, contains, split_from, split, slice_contains}
use simple_gnomon.Start.Flags.{
  Flags, with_number, set_value, set_switch, Parsed, parsed, refused, panicked, helped, versioned,
  set_parts, parse_each, parse_flags,
}

-- A list of at least two texts.
abbrev Two : List Bytes → Type 0
Two l = (a : Bytes) × (b : Bytes) × (more : List Bytes) × (l ≡ a ∷ b ∷ more)

split_from_some :
    (sep : Bytes) (skip : ℕ) (piece s : Bytes)
    → (b : Bytes) × (more : List Bytes) × (split_from sep skip piece s ≡ b ∷ more)
unfolding split_from
split_from_some sep skip piece [] = (piece, [], refl)
split_from_some sep (suc skip) piece (c ∷ s) = split_from_some sep skip piece s
split_from_some sep zero piece (c ∷ s) = elim (Bool-cases (has_prefix (c ∷ s) sep)) [
  | inl hit ↦ (piece, split_from sep (length sep - 1) [] s, rw hit refl)
  | inr miss ↦ let (b, more, e) = split_from_some sep 0 (piece ++ c ∷ []) s in (b, more, rw miss e)
]

split_from-Two :
    (c : ℕ) (piece s : Bytes) → contains s (c ∷ []) ≡ true → Two (split_from (c ∷ []) 0 piece s)
unfolding split_from contains has_prefix
split_from-Two c piece [] h = absurd (cc)
split_from-Two c piece (d ∷ s) h = elim (Bool-cases (nat_beq d c)) [
  | inl hit ↦
      let (b, more, e) = split_from_some (c ∷ []) 0 [] s in
      (piece, b, more, rw hit (ap (λ l. piece ∷ l) e))
  | inr miss ↦
      let (a, b, more, e) = split_from-Two c (piece ++ d ∷ []) s (rw miss at h) in
      (a, b, more, rw miss e)
]

split-Two : (s : Bytes) (c : ℕ) → contains s (c ∷ []) ≡ true → Two (split s (c ∷ []))
unfolding split
split-Two s c h = split_from-Two c [] s h

-- The last height is at least -1, and the number of blocks at least 0.
abbrev pub InBounds : Flags → Type 0
InBounds f = (negsuc 0 ≤ℤ f.ending_height) × (pos 0 ≤ℤ f.parallel_blocks)

-- A way for the parser to end that is no panic and keeps the bounds.
abbrev pub EndsWell : Parsed → Type 0
EndsWell (parsed f) = InBounds f
EndsWell (refused f) = InBounds f
EndsWell panicked = ⊥
EndsWell helped = Unit
EndsWell versioned = Unit

-- Where there is no error, the flags are in bounds.
abbrev Kept : Option Flags → Type 0
Kept none = Unit
Kept (some f) = InBounds f

with_number-Kept :
    (value : Bytes) (set : ℤ → Flags) → ((n : ℤ) → InBounds (set n)) → Kept (with_number value set)
with_number-Kept value set h =
    if_either Kept (parse_int value).1 (some (set (parse_int value).0)) none (h (parse_int value).0)
      tt

set_value-Kept : (flag value : Bytes) (f : Flags) → InBounds f → Kept (set_value flag value f)
unfolding set_value
set_value-Kept flag value f h = if_either Kept (flag == codes "--daemon-rpc-address") _ _ h (
    if_either Kept (flag == codes "--ws-address") _ _ h (
      if_either Kept (flag == codes "--api-address") _ _ h (
        if_either Kept (flag == codes "--start-topoheight") _ _
          (with_number-Kept value (λ n. record f { starting_height = n }) (λ n. h))
          (if_either Kept (flag == codes "--ending-topoheight") _ _
            (with_number-Kept value (λ n. record f { ending_height = max_ℤ n (negsuc 0) })
              (λ n. (ground arith, h.1)))
            (if_either Kept (flag == codes "--search-filter") _ _ h (
              if_either Kept (flag == codes "--sf-scid-exclusions") _ _ h (
                if_either Kept (flag == codes "--num-parallel-blocks") _ _
                  (with_number-Kept value (λ n. record f { parallel_blocks = max_ℤ n (pos 0) })
                    (λ n. (h.0, ground arith)))
                  h)))))))

set_switch-InBounds : (each : Bytes) (f : Flags) → InBounds f → InBounds (set_switch each f)
unfolding set_switch
set_switch-InBounds each f h =
    if_either (λ g. InBounds g) (each == codes "--simulator") _ _ h
      (if_either (λ g. InBounds g) (each == codes "--testnet") _ _ h
        (if_either (λ g. InBounds g) (each == codes "--fastsync") _ _ h
          (if_either (λ g. InBounds g) (each == codes "--enable-miniblock-lookup") _ _ h
            (if_either (λ g. InBounds g) (each == codes "--progress") _ _ h
              (if_either (λ g. InBounds g) (each == codes "--silent") _ _ h h)))))

set_parts-EndsWell :
    (parts : List Bytes) (f : Flags) (rest : Flags → Parsed)
    → Two parts
    → InBounds f
    → ((f' : Flags) → InBounds f' → EndsWell (rest f'))
    → EndsWell (set_parts parts f rest)
unfolding set_parts
set_parts-EndsWell parts f rest (flag, value, more, e) h k =
    subst (λ l. EndsWell (set_parts l f rest)) (sym e)
      (elim (Option-cases (set_value flag value f)) [
        | inl bad ↦ rw (bad, set_parts) h
        | inr (f', fine) ↦
            rw (fine, set_parts) (k f' (subst (λ o. Kept o) fine (set_value-Kept flag value f h)))
      ])

parse_each-EndsWell : (args : List Bytes) (f : Flags) → InBounds f → EndsWell (parse_each args f)
unfolding parse_each
parse_each-EndsWell [] f h = h
parse_each-EndsWell (each ∷ args) f h = elim (Bool-cases (contains each (codes "="))) [
  | inl valued ↦
      rw (valued, parse_each)
        (set_parts-EndsWell (split each (codes "=")) f (λ f'. parse_each args f')
          (split-Two each b'=' valued) h (λ f' k. parse_each-EndsWell args f' k))
  | inr switch ↦
      rw (switch, parse_each)
        (parse_each-EndsWell args (set_switch each f) (set_switch-InBounds each f h))
]

-- Whatever the arguments are, parsing the flags does not panic, and the flags that it leaves, also
-- with an error, have a last height of at least -1 and a number of parallel blocks of at least 0, if
-- those that it began with have.
pub parse_flags-EndsWell :
    (args : List Bytes) (f : Flags) → InBounds f → EndsWell (parse_flags args f)
unfolding parse_flags
parse_flags-EndsWell args f h =
    if_either (λ p. EndsWell p)
      (slice_contains args (codes "--help") || slice_contains args (codes "-h")) _ _ tt
      (if_either (λ p. EndsWell p)
        (slice_contains args (codes "--version") || slice_contains args (codes "-v")) _ _ tt
        (if_either (λ p. EndsWell p) (slice_contains args (codes "--testnet")) _ _
          (parse_each-EndsWell args f h)
          (parse_each-EndsWell args (record f { testnet = some false }) h)))

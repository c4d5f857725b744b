-- ===== src/Prelude/Bytes.antt =====
-- Go's strings and byte slices, as lists of bytes.
use Prim.Native.Nat.{ℕ}
use Prim.Native.Char.{code}
use Prim.Native.String.{String}
use mathlib.Core.Path.{◌≡◌, refl, ap, sym}
use mathlib.Core.Logic.{◌↔◌, ◌≢◌}
use mathlib.Core.Bool.{Bool, true, false, ◌&&◌}
use mathlib.Core.List.{List, [], ◌∷◌, ◌++◌}
use native.Mathlib.Omega.{arith}
use simple_gnomon.Prelude.Lists.{length, length-append}
use simple_gnomon.Prelude.Tests.{nat_beq, if◌then◌else◌, Bool-cases}

abbrev pub Bytes : Type 0
Bytes = List ℕ

-- A literal: its code points, which are its bytes since every literal of the program is ASCII.
abbrev pub codes : String → Bytes
codes String.[] = []
codes (String.◌∷◌ c s) = code c ∷ codes s

infix 50 ◌==◌
unfoldable pub ◌==◌ : Bytes → Bytes → Bool
[] == [] = true
[] == (b ∷ t) = false
(a ∷ s) == [] = false
(a ∷ s) == (b ∷ t) = nat_beq a b && (s == t)

pub ==_iff : (s t : Bytes) → ((s == t) ≡ true) ↔ (s ≡ t)
unfolding ◌==◌
==_iff [] [] = ground arith
==_iff [] (b ∷ t) = ground arith
==_iff (a ∷ s) [] = ground arith
==_iff (a ∷ s) (b ∷ t) = ground (arith, ==_iff s t)

pub ==_refl : (s : Bytes) → (s == s) ≡ true
==_refl s = (==_iff s s).1 refl

pub ==_ne : (s t : Bytes) → s ≢ t → (s == t) ≡ false
==_ne s t h = ground (arith, ==_iff s t)

-- The order of Go's `<` on strings, and of the keys of a bucket.
unfoldable pub bytes_ltb : Bytes → Bytes → Bool
bytes_ltb s [] = false
bytes_ltb [] (b ∷ t) = true
bytes_ltb (a ∷ s) (b ∷ t) =
    if nat_beq a b then bytes_ltb s t else simple_gnomon.Prelude.Tests.ltb a b

pub append_cancel_left : (s t u : Bytes) → s ++ t ≡ s ++ u → t ≡ u
append_cancel_left [] t u h = h
append_cancel_left (a ∷ s) t u h = append_cancel_left s t u (cc)

length_grows : (b : ℕ) (t u : Bytes) → u ≢ b ∷ (t ++ u)
length_grows b t u e = omega (arith, ap length e, length-append t u)

pub append_cancel_right : (s t u : Bytes) → s ++ u ≡ t ++ u → s ≡ t
append_cancel_right [] [] u h = refl
append_cancel_right [] (b ∷ t) u h = absurd (length_grows b t u h)
append_cancel_right (a ∷ s) [] u h = absurd (length_grows a s u (sym h))
append_cancel_right (a ∷ s) (b ∷ t) u h = cc (append_cancel_right s t u (cc))

-- Texts with different suffixes of one length are different.
pub append_suffix : (s t u v : Bytes) → length u ≡ length v → s ++ u ≡ t ++ v → u ≡ v
append_suffix [] [] u v l h = h
append_suffix [] (b ∷ t) u v l h = absurd (omega (arith, ap length h, length-append t v))
append_suffix (a ∷ s) [] u v l h = absurd (omega (arith, ap length h, length-append s u))
append_suffix (a ∷ s) (b ∷ t) u v l h = append_suffix s t u v l (cc)

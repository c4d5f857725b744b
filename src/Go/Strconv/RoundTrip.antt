-- ===== src/Go/Strconv/RoundTrip.antt =====
-- Reading back a formatted integer: `ParseInt(FormatInt(n, 10), 10, 64)`.
use simple_gnomon.Prelude.{
  ℕ, zero, suc, ◌+◌, ◌/◌, ◌%◌, ◌≤◌, ◌<◌, ◌≡◌, refl, true, [], ◌∷◌, arith, ltb, Bool-cases, inl, inr,
  lt→ltb, ◌∙◌, Bool, false,
}
use simple_gnomon.Prelude.Int.{ℤ, pos, negsuc, IsInt64}
use simple_gnomon.Prelude.Bytes.{Bytes}
use simple_gnomon.Go.Strconv.{
  digits, format_uint, format_int, value, scan_digits, signed, magnitude, parse_int,
  scan_digits-digits,
}

-- A formatted number begins with a digit.
record Begins (s : Bytes) : Type 0 where
  first : ℕ
  more : Bytes
  shape : s ≡ first ∷ more
  low : 48 ≤ first
  high : first ≤ 57

digits-Begins : (f n : ℕ) (rest : Bytes) → n < f → Begins (digits f n rest)
unfolding digits
digits-Begins zero n rest h = absurd (omega arith)
digits-Begins (suc f) n rest h = elim (Bool-cases (ltb n 10)) [
  | inl small ↦
      rw small (record {
        first = 48 + n;
        more = rest;
        shape = refl;
        low = omega arith;
        high = ground arith;
      })
  | inr large ↦ rw large (digits-Begins f (n / 10) ((48 + n % 10) ∷ rest) (ground arith))
]

scan_digits-format_uint :
    (n : ℕ) → n < 18446744073709551616 → scan_digits 0 (format_uint n) ≡ value n
unfolding scan_digits format_uint
scan_digits-format_uint n h = scan_digits-digits (suc n) n [] (omega arith) h

format_uint-Begins : (n : ℕ) → Begins (format_uint n)
unfolding format_uint
format_uint-Begins n = digits-Begins (suc n) n [] (omega arith)

-- A text that begins with a digit is read as a magnitude, whichever the sign.
magnitude_digits :
    (neg : Bool) (s : Bytes) → Begins s → magnitude neg s ≡ signed neg (scan_digits 0 s)
unfolding magnitude
magnitude_digits neg [] b = cc (b.shape)
magnitude_digits neg (c ∷ s) b = refl

parse_int_digits : (s : Bytes) → Begins s → parse_int s ≡ magnitude false s
unfolding parse_int
parse_int_digits [] b = absurd (cc (b.shape))
parse_int_digits (c ∷ s) b = ground (arith, b.shape, b.low, b.high)

parse_int_minus : (s : Bytes) → parse_int (b'-' ∷ s) ≡ magnitude true s
unfolding parse_int
parse_int_minus s = refl

-- Parsing the decimal form of an int64 gives the int64 back, with no error.
pub parse_int-format_int : (z : ℤ) → IsInt64 z → parse_int (format_int z) ≡ (z, true)
unfolding format_int signed
parse_int-format_int (pos n) h =
    let b = format_uint-Begins n in
    parse_int_digits (format_uint n) b
    ∙ magnitude_digits false (format_uint n) b
    ∙ rw (scan_digits-format_uint n (omega arith)) (rw (lt→ltb n _ h.0))
parse_int-format_int (negsuc n) h =
    let b = format_uint-Begins (suc n) in
    parse_int_minus (format_uint (suc n))
    ∙ magnitude_digits true (format_uint (suc n)) b
    ∙ rw (scan_digits-format_uint (suc n) (omega arith))
        (rw (lt→ltb n 9223372036854775808 (omega arith)))

-- ===== src/Go/Strconv.antt =====
-- Go's `strconv` as the program uses it: `FormatInt(n, 10)` and `Itoa`, `ParseInt(s, 10, 64)` and
-- `Atoi` on a 64-bit machine.
pub mod RoundTrip
use simple_gnomon.Prelude.{
  ℕ, zero, suc, ◌+◌, ◌-◌, ◌*◌, ◌/◌, ◌%◌, ◌<◌, ◌≡◌, Bool, true, false, ◌&&◌, [], ◌∷◌, arith, ltb,
  leb, nat_beq, if◌then◌else◌,
}
use simple_gnomon.Prelude.Int.{ℤ, pos, negsuc}
use simple_gnomon.Prelude.Bytes.{Bytes}

-- The decimal digits of a number in front of a text. Each round divides by ten, so that more fuel
-- than the number is enough.
pub digits : ℕ → ℕ → Bytes → Bytes
digits zero n rest = rest
digits (suc f) n rest =
    let more = digits f (n / 10) ((48 + n % 10) ∷ rest) in
    if ltb n 10 then (48 + n) ∷ rest else more

unfoldable pub format_uint : ℕ → Bytes
unfolding digits
format_uint n = digits (suc n) n []

-- `strconv.FormatInt(n, 10)`
unfoldable pub format_int : ℤ → Bytes
unfolding format_uint
format_int (pos n) = format_uint n
format_int (negsuc n) = b'-' ∷ format_uint (suc n)

pub data Scan : Type 0 where
  value : ℕ → Scan
  syntax range : Scan

-- The digits of `ParseUint`, with the value so far; it stops where 64 bits are passed.
unfoldable pub scan_digits : ℕ → Bytes → Scan
scan_digits n [] = value n
scan_digits n (c ∷ s) =
    let n' = n * 10 + (c - 48) in
    let more = scan_digits n' s in
    if leb b'0' c && leb c b'9'
    then (if ltb n' 18446744073709551616 then more else range)
    else syntax

-- The range of int64 on a scanned magnitude; out of range the nearest value comes with the error.
unfoldable pub signed : Bool → Scan → ℤ × Bool
signed neg syntax = (pos 0, false)
signed false range = (pos 9223372036854775807, false)
signed true range = (negsuc 9223372036854775807, false)
signed false (value n) =
    if ltb n 9223372036854775808 then (pos n, true) else (pos 9223372036854775807, false)
signed true (value zero) = (pos 0, true)
signed true (value (suc n)) =
    if ltb n 9223372036854775808 then (negsuc n, true) else (negsuc 9223372036854775807, false)

pub magnitude : Bool → Bytes → ℤ × Bool
unfolding scan_digits signed
magnitude neg [] = (pos 0, false)
magnitude neg (c ∷ s) = signed neg (scan_digits 0 (c ∷ s))

-- `strconv.ParseInt(s, 10, 64)`: the value, and whether the error is nil.
unfoldable pub parse_int : Bytes → ℤ × Bool
unfolding magnitude
parse_int [] = (pos 0, false)
parse_int (c ∷ s) =
    if nat_beq c b'+'
    then magnitude false s
    else if nat_beq c b'-'
    then magnitude true s
    else magnitude false (c ∷ s)

-- Scanning the digits of a number arrives at the number.
pub scan_digits-digits :
    (f n : ℕ) (rest : Bytes)
    → n < f
    → n < 18446744073709551616
    → scan_digits 0 (digits f n rest) ≡ scan_digits n rest
unfolding scan_digits digits
scan_digits-digits zero n rest h k = absurd (omega arith)
scan_digits-digits (suc f) n rest h k =
    ground (arith, scan_digits-digits f (n / 10) ((48 + n % 10) ∷ rest))

-- ===== src/GoLib/Strconv.antt =====
-- package strconv: FormatInt and ParseInt in base 10 for 64 bits. ParseInt returns a value beside its
-- error: 0 for bad syntax, the nearest bound when out of range.
pub mod RoundTrip
use Prim.Native.String.{[], ◌∷◌}
use mathlib.Core.List
use payrouter.Prelude.{
  ℕ, zero, suc, ◌+◌, ◌-◌, ◌*◌, ◌/◌, ◌%◌, ◌^◌, ◌≤◌, ◌<◌, String, Char, code, Bool, true, false, not,
  ◌&&◌, ◌||◌, Option, none, some, ◌≡◌, refl, ap, ◌∙◌, arith, eqb, leb, ltb, is_empty, ◌+++◌,
  if◌then◌else◌, Bool-cases, inl, inr,
}
use payrouter.GoLib.Int64.{ℤ, pos, negsuc}
use payrouter.GoLib.Strings.{nth}

pub data NumError : Type 0 where
  syntax range : NumError

abbrev pub digit_char : ℕ → Char
digit_char d = nth "0123456789abcdef" d

format_loop : ℕ → ℕ → String → String
format_loop zero n acc = acc
format_loop (suc f) n acc = elim (ltb n 10) [
  | true ↦ digit_char n ∷ acc
  | false ↦ format_loop f (n / 10) (digit_char (n % 10) ∷ acc)
]

format_nat : ℕ → String
unfolding format_loop
format_nat n = format_loop (suc n) n []

-- strconv.FormatInt(n, 10)
unfoldable pub format_int : ℤ → String
unfolding format_nat
format_int (pos n) = format_nat n
format_int (negsuc n) = "-" ∷ format_nat (suc n)

abbrev max_uint64 : ℕ
max_uint64 = 2 ^ 64 - 1

-- The loop of ParseUint: it stops at the first digit that leaves the range of uint64.
scan : String → ℕ → ℕ × Option NumError
scan [] n = (n, none)
scan (c ∷ s) n =
    let d = code c - b'0' in
    let rest = scan s (n * 10 + d) in
    if not (leb b'0' (code c) && leb (code c) b'9')
    then (0, some syntax)
    else if ltb max_uint64 (n * 10 + d)
    then (max_uint64, some range)
    else rest

parse_uint : String → ℕ × Option NumError
unfolding scan
parse_uint [] = (0, some syntax)
parse_uint (c ∷ s) = scan (c ∷ s) 0

-- The sign is put back, and the range of int64 is checked.
signed : Bool → ℕ × Option NumError → ℤ × Option NumError
signed neg (un, some syntax) = (pos 0, some syntax)
signed false (un, e) = if leb (2 ^ 63) un then (pos (2 ^ 63 - 1), some range) else (pos un, none)
signed true (un, e) =
    if ltb (2 ^ 63) un
    then (negsuc (2 ^ 63 - 1), some range)
    else if eqb un 0
    then (pos 0, none)
    else (negsuc (un - 1), none)

-- strconv.ParseInt(s, 10, 64)
unfoldable pub parse_int : String → ℤ × Option NumError
unfolding parse_uint signed
parse_int [] = (pos 0, some syntax)
parse_int (c ∷ s) =
    if eqb (code c) b'+'
    then signed false (parse_uint s)
    else if eqb (code c) b'-'
    then signed true (parse_uint s)
    else signed false (parse_uint (c ∷ s))

max_int64 : parse_int "9223372036854775807" ≡ (pos 9223372036854775807, none)
unfolding parse_int
max_int64 = refl

above_max : parse_int "9223372036854775808" ≡ (pos 9223372036854775807, some range)
unfolding parse_int
above_max = refl

min_int64 : parse_int (format_int (negsuc 9223372036854775807)) ≡ (negsuc 9223372036854775807, none)
unfolding parse_int format_int
min_int64 = refl

-- ===== src/GoLib/Strconv/RoundTrip.antt =====
-- package strconv: FormatInt and ParseInt together.
use Prim.Native.String.{[], ◌∷◌}
use payrouter.Prelude.{
  ℕ, zero, suc, ◌+◌, ◌-◌, ◌*◌, ◌/◌, ◌%◌, ◌^◌, ◌≤◌, ◌<◌, String, code, Bool, true, false, ◌&&◌, none,
  ◌≡◌, refl, ap, ◌∙◌, arith, eqb, leb, ltb, is_empty, Bool-cases, inl, inr, all_below,
  all_below_sound, eqb_iff,
}
use payrouter.GoLib.Int64.{pos}
use payrouter.GoLib.Strings.{Chars}
use payrouter.GoLib.Strconv.{
  digit_char, format_loop, format_nat, format_int, max_uint64, scan, parse_uint, signed, parse_int,
}

abbrev pub is_digit : ℕ → Bool
is_digit c = leb b'0' c && leb c b'9'

digit_table : all_below 10 (λ d. eqb (code (digit_char d)) (b'0' + d)) ≡ true
unfolding all_below
digit_table = refl

code-digit_char : (d : ℕ) → d < 10 → code (digit_char d) ≡ b'0' + d
code-digit_char d h = (eqb_iff _ _).0 (all_below_sound 10 _ d digit_table h)

scan-digit_char :
    (d n : ℕ) (s : String)
    → d < 10
    → n * 10 + d ≤ max_uint64
    → scan (digit_char d ∷ s) n ≡ scan s (n * 10 + d)
unfolding scan
scan-digit_char d n s h k = rw (code-digit_char d h) (rw (cut d) (ground arith))
  where
    cut : (e : ℕ) → b'0' + e - b'0' ≡ e
    cut e = omega arith

last_digit : (n : ℕ) → n / 10 * 10 + n % 10 ≡ n
last_digit n = omega arith

first_digit : (n : ℕ) → 0 * 10 + n ≡ n
first_digit n = omega arith

scan-format_loop :
    (f n : ℕ) (s : String) → n < f → n ≤ max_uint64 → scan (format_loop f n s) 0 ≡ scan s n
unfolding format_loop
scan-format_loop zero n s h k = absurd (omega arith)
scan-format_loop (suc f) n s h k = elim (Bool-cases (ltb n 10)) [
  | inl e ↦
      rw (e, format_loop)
        (scan-digit_char n 0 s (ground arith) (omega arith) ∙ ap (scan s) (first_digit n))
  | inr e ↦
      rw (e, format_loop)
        (scan-format_loop f (n / 10) (digit_char (n % 10) ∷ s) (ground arith) (omega arith)
          ∙ scan-digit_char (n % 10) (n / 10) s (omega arith) (omega arith)
          ∙ ap (scan s) (last_digit n))
]

scan-nil : (n : ℕ) → scan [] n ≡ (n, none)
unfolding scan
scan-nil n = refl

digit_char-is_digit : (d : ℕ) → d < 10 → is_digit (code (digit_char d)) ≡ true
digit_char-is_digit d h = rw (code-digit_char d h) (ground arith)

format_loop-Chars : (f n : ℕ) (s : String) → Chars is_digit s → Chars is_digit (format_loop f n s)
unfolding format_loop
format_loop-Chars zero n s h = h
format_loop-Chars (suc f) n s h = elim (Bool-cases (ltb n 10)) [
  | inl e ↦ rw (e, format_loop) (digit_char-is_digit n (ground arith), h)
  | inr e ↦
      rw (e, format_loop)
        (format_loop-Chars f (n / 10) (digit_char (n % 10) ∷ s)
          (digit_char-is_digit (n % 10) (omega arith), h))
]

format_loop-ne-nil :
    (f n : ℕ) (s : String) → is_empty s ≡ false → is_empty (format_loop f n s) ≡ false
unfolding format_loop
format_loop-ne-nil zero n s h = h
format_loop-ne-nil (suc f) n s h = elim (Bool-cases (ltb n 10)) [
  | inl e ↦ rw (e, format_loop)
  | inr e ↦ rw (e, format_loop) (format_loop-ne-nil f (n / 10) _ refl)
]

format_nat-ne-nil : (n : ℕ) → is_empty (format_nat n) ≡ false
unfolding format_nat format_loop
format_nat-ne-nil n = elim (Bool-cases (ltb n 10)) [
  | inl e ↦ rw (e, format_loop)
  | inr e ↦ rw (e, format_loop) (format_loop-ne-nil n (n / 10) _ refl)
]

-- A number is printed in digits only.
pub format_int-Chars : (n : ℕ) → Chars is_digit (format_int (pos n))
unfolding format_int format_nat
format_int-Chars n = format_loop-Chars (suc n) n [] tt

parse_uint-scan : (s : String) → is_empty s ≡ false → parse_uint s ≡ scan s 0
unfolding parse_uint
parse_uint-scan [] h = cc
parse_uint-scan (c ∷ s) h = refl

parse_int-digits :
    (s : String) → is_empty s ≡ false → Chars is_digit s → parse_int s ≡ signed false (parse_uint s)
unfolding parse_int
parse_int-digits [] h k = cc
parse_int-digits (c ∷ s) h k = ground (arith, k.0)

-- ParseInt reads back every number of int64 that FormatInt prints, without an error.
pub parse_int-format_int : (n : ℕ) → n < 2 ^ 63 → parse_int (format_int (pos n)) ≡ (pos n, none)
unfolding format_int
parse_int-format_int n h =
    parse_int-digits (format_nat n) (format_nat-ne-nil n) (format_int-Chars n)
    ∙ ap (signed false) (parse_uint-scan (format_nat n) (format_nat-ne-nil n) ∙ read)
    ∙ fits
  where
    read : scan (format_nat n) 0 ≡ (n, none)
    read =
        unfold format_nat in scan-format_loop (suc n) n [] (omega arith) (omega arith) ∙ scan-nil n

    fits : signed false (n, none) ≡ (pos n, none)
    fits = unfold signed in ground arith

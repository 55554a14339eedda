-- ===== src/GoLib/Hex.antt =====
-- package encoding/hex: EncodeToString and DecodeString. A byte is a number below 256.
use Prim.Native.String.{[], ◌∷◌}
use payrouter.Prelude.{
  ℕ, ◌+◌, ◌-◌, ◌*◌, ◌/◌, ◌%◌, ◌<◌, String, Char, code, Bool, true, ◌&&◌, Option, none, some, List,
  ◌≡◌, refl, ap, ◌∙◌, arith, eqb, leb, ltb, if◌then◌else◌, all_below, all_below_sound, eqb_iff, All,
}
use payrouter.GoLib.Strconv.{digit_char}
use payrouter.GoLib.Strings.{Chars}

-- hex.EncodeToString
unfoldable pub encode : List ℕ → String
encode List.[] = []
encode (List.◌∷◌ b bs) = digit_char (b / 16) ∷ digit_char (b % 16) ∷ encode bs

-- The value of a digit, in either case; 16 for any other character.
digit_value : ℕ → ℕ
digit_value c =
    if leb b'0' c && leb c b'9'
    then c - b'0'
    else if leb b'a' c && leb c b'f'
    then c - b'a' + 10
    else if leb b'A' c && leb c b'F'
    then c - b'A' + 10
    else 16

-- hex.DecodeString; `none` is a digit out of place or an odd length.
unfoldable pub decode : String → Option (List ℕ)
unfolding digit_value
decode [] = some List.[]
decode (c ∷ []) = none
decode (c ∷ d ∷ s) =
    let rest = decode s in
    if ltb (digit_value (code c)) 16 && ltb (digit_value (code d)) 16
    then elim rest [
      | none ↦ none
      | some bs ↦ some (List.◌∷◌ (digit_value (code c) * 16 + digit_value (code d)) bs)
    ]
    else none

abbrev pub IsBytes : List ℕ → Type 0
IsBytes = All (λ b. b < 256)

value_table : all_below 16 (λ d. eqb (digit_value (code (digit_char d))) d) ≡ true
unfolding all_below digit_value
value_table = refl

digit_value-digit_char : (d : ℕ) → d < 16 → digit_value (code (digit_char d)) ≡ d
digit_value-digit_char d h = (eqb_iff _ _).0 (all_below_sound 16 _ d value_table h)

decode-digits :
    (c d : Char) (s : String) (u v : ℕ)
    → digit_value (code c) ≡ u
    → digit_value (code d) ≡ v
    → u < 16
    → v < 16
    → decode (c ∷ d ∷ s)
      ≡ elim (decode s) [ none ↦ none | some bs ↦ some (List.◌∷◌ (u * 16 + v) bs) ]
unfolding decode
decode-digits c d s u v p q h k = ground arith

-- Decoding gives back the bytes that were encoded.
pub decode-encode : (bs : List ℕ) → IsBytes bs → decode (encode bs) ≡ some bs
unfolding encode
decode-encode List.[] h = unfold decode in refl
decode-encode (List.◌∷◌ b bs) h =
    decode-digits (digit_char (b / 16)) (digit_char (b % 16)) (encode bs) (b / 16) (b % 16)
      (digit_value-digit_char (b / 16) (omega arith))
      (digit_value-digit_char (b % 16) (omega arith)) (omega arith) (omega arith)
    ∙ rw (decode-encode bs h.1) (ap (λ n. some (List.◌∷◌ n bs)) (whole b))
  where
    whole : (n : ℕ) → n / 16 * 16 + n % 16 ≡ n
    whole n = omega arith

-- What holds of the sixteen digits holds of every character that `encode` writes.
pub encode-Chars :
    (p : ℕ → Bool)
    → all_below 16 (λ d. p (code (digit_char d))) ≡ true
    → (bs : List ℕ) → IsBytes bs
    → Chars p (encode bs)
unfolding encode
encode-Chars p t List.[] h = tt
encode-Chars p t (List.◌∷◌ b bs) h = (
  all_below_sound 16 _ (b / 16) t (omega arith),
  (all_below_sound 16 _ (b % 16) t (omega arith), encode-Chars p t bs h.1),
)

-- ===== src/Webhook/Signer.antt =====
-- internal/webhook/signer.go. HMAC-SHA256 is a parameter `hmac key message`; a duration is a count of
-- nanoseconds.
pub mod RoundTrip
use Prim.Native.String.{[], ◌∷◌}
use mathlib.Core.List
use payrouter.Prelude.{
  ℕ, ◌/◌, ◌^◌, String, Bool, true, false, ◌&&◌, ◌||◌, Option, none, some, List, Result, ok, err,
  eqb, ltb, is_empty, has_prefix, ◌==◌, ◌+++◌, if◌then◌else◌, length,
}
use payrouter.GoLib.Int64.{ℤ, pos, negsuc, sub_int64, ltb_ℤ}
use payrouter.GoLib.Strings.{split_on, cut, trim_space}
use payrouter.GoLib.Strconv.{format_int, parse_int}
use payrouter.GoLib.Hex.{encode, decode}

-- ErrInvalidSignature
pub data SignatureError : Type 0 where
  invalid_signature : SignatureError

-- subtle.ConstantTimeCompare(x, y) == 1
unfoldable pub bytes_equal : List ℕ → List ℕ → Bool
bytes_equal List.[] List.[] = true
bytes_equal (List.◌∷◌ a xs) (List.◌∷◌ b ys) = eqb a b && bytes_equal xs ys
bytes_equal _ _ = false

-- One part of the header, between commas.
signature_part : String → ℤ × String → ℤ × String
signature_part part (timestamp, v1) = elim (cut b'=' (trim_space part)) [
  | none ↦ (timestamp, v1)
  | some (key, value) ↦
      if key == "t"
      then ((parse_int value).0, v1)
      else if key == "v1"
      then (timestamp, value)
      else (timestamp, v1)
]

signature_parts : List String → ℤ × String → ℤ × String
signature_parts List.[] found = found
signature_parts (List.◌∷◌ part rest) found = signature_parts rest (signature_part part found)

is_zero : ℤ → Bool
is_zero (pos n) = eqb n 0
is_zero (negsuc n) = false

unfoldable pub parse_signature : String → Option (ℤ × String)
unfolding signature_part signature_parts is_zero
parse_signature header =
    let (timestamp, v1) = signature_parts (split_on b',' header) (pos 0, []) in
    if is_zero timestamp || is_empty v1 then none else some (timestamp, v1)

-- `tolerance > 0 && now-t > int64(tolerance.Seconds())`
unfoldable pub is_stale : ℕ → ℤ → ℤ → Bool
is_stale tolerance now t = ltb 0 tolerance && ltb_ℤ (pos (tolerance / 10 ^ 9)) (sub_int64 now t)

-- "<timestamp>.<body>"
unfoldable pub signed_payload : ℤ → String → String
signed_payload t body = format_int t +++ "." +++ body

-- The comparison of the decoded signature with the one that is due.
compare_signature : List ℕ → Option (List ℕ) → Result SignatureError (Unit {0})
compare_signature want none = err invalid_signature
compare_signature want (some got) =
    if eqb (length got) (length want) && bytes_equal want got then ok tt else err invalid_signature

module _ (hmac : String → String → List ℕ) where
  unfoldable pub sign : String → String → ℤ → String
  unfolding signed_payload
  sign body secret now =
      "t=" +++ format_int now +++ ",v1=" +++ encode (hmac secret (signed_payload now body))

  verify_at : String → String → ℤ → ℕ → ℤ × String → Result SignatureError (Unit {0})
  verify_at body secret now tolerance (t, sig) =
      if is_stale tolerance now t
      then err invalid_signature
      else compare_signature (hmac secret (signed_payload t body)) (decode sig)

  unfoldable pub verify : String → String → String → ℤ → ℕ → Result SignatureError (Unit {0})
  unfolding verify_at compare_signature
  verify body header secret now tolerance = elim (parse_signature header) [
    | none ↦ err invalid_signature
    | some found ↦ verify_at body secret now tolerance found
  ]

-- prefixForSecret
unfoldable pub prefix_for_secret : String → String
prefix_for_secret s = if is_empty s then [] else if has_prefix s "whsec_" then s else "whsec_" +++ s

-- ===== src/Webhook/Signer/RoundTrip.antt =====
-- internal/webhook/signer.go: Sign and Verify together.
use Prim.Native.String.{[], ◌∷◌}
use payrouter.Prelude.{
  ℕ, ◌/◌, ◌^◌, ◌-◌, ◌≤◌, ◌<◌, String, Bool, true, false, not, ◌&&◌, Option, none, some, List, ok,
  ◌≡◌, refl, ap, ◌∙◌, arith, ◌⊎◌, inl, inr, eqb, ◌==◌, ◌+++◌, if◌then◌else◌, length, code,
  all_below, append_assoc, Bool-cases, Option-cases,
}
use payrouter.GoLib.Int64.{ℤ, pos, sub_int64-pos}
use payrouter.GoLib.Strings.{
  split_on, Chars, Chars-weaken, other_than, not_space, is_space, split_on-append, split_on-whole,
  cut-append, trim_space-whole,
}
use payrouter.GoLib.Strconv.{format_int, parse_int, digit_char}
use payrouter.GoLib.Strconv.RoundTrip.{is_digit, format_int-Chars, parse_int-format_int}
use payrouter.GoLib.Hex.{encode, decode, IsBytes, decode-encode, encode-Chars}
use payrouter.Webhook.Signer.{
  bytes_equal, signature_part, signature_parts, is_zero, parse_signature, is_stale, signed_payload,
  compare_signature, sign, verify_at, verify,
}

bytes_equal_refl : (xs : List ℕ) → bytes_equal xs xs ≡ true
unfolding bytes_equal
bytes_equal_refl List.[] = refl
bytes_equal_refl (List.◌∷◌ a xs) = ground (arith, bytes_equal_refl xs)

bytes_equal→eq : (xs ys : List ℕ) → bytes_equal xs ys ≡ true → xs ≡ ys
unfolding bytes_equal
bytes_equal→eq List.[] List.[] h = refl
bytes_equal→eq List.[] (List.◌∷◌ b ys) h = cc
bytes_equal→eq (List.◌∷◌ a xs) List.[] h = cc
bytes_equal→eq (List.◌∷◌ a xs) (List.◌∷◌ b ys) h = ground (arith, bytes_equal→eq xs ys)

-- A character of the header that is no comma and no space.
abbrev token : ℕ → Bool
token c = not (eqb c b',') && not (is_space c)

digit-token : (c : ℕ) → is_digit c ≡ true → token c ≡ true
unfolding is_space
digit-token c h = ground arith

token-other : (c : ℕ) → token c ≡ true → other_than b',' c ≡ true
token-other c h = ground arith

token-not_space : (c : ℕ) → token c ≡ true → not_space c ≡ true
token-not_space c h = ground arith

hex_tokens : all_below 16 (λ d. token (code (digit_char d))) ≡ true
unfolding all_below is_space
hex_tokens = refl

t_part : (n : ℕ) → Chars token ("t=" +++ format_int (pos n))
unfolding is_space
t_part n = (refl, (refl, Chars-weaken is_digit token digit-token _ (format_int-Chars n)))

v1_part : (bs : List ℕ) → IsBytes bs → Chars token ("v1=" +++ encode bs)
unfolding is_space
v1_part bs h = (refl, (refl, (refl, encode-Chars token hex_tokens bs h)))

signature_part-key :
    (key value : String) (found : ℤ × String)
    → Chars token (key +++ "=" ∷ value)
    → Chars (other_than b'=') key
    → signature_part (key +++ "=" ∷ value) found ≡ (
        if key == "t"
        then ((parse_int value).0, found.1)
        else if key == "v1"
        then (found.0, value)
        else found)
unfolding signature_part
signature_part-key key value found h k =
    rw (trim_space-whole _ (Chars-weaken token not_space token-not_space _ h), signature_part)
      (rw (cut-append b'=' "=" key value k refl, signature_part) refl)

module _ (n : ℕ) (bs : List ℕ) (k : n < 2 ^ 63) (b : IsBytes bs) where
  stamp_part : signature_part ("t=" +++ format_int (pos n)) (pos 0, []) ≡ (pos n, [])
  stamp_part =
      signature_part-key "t" (format_int (pos n)) (pos 0, []) (t_part n) (refl, tt)
      ∙ rw (parse_int-format_int n k)

  hex_part : signature_part ("v1=" +++ encode bs) (pos n, []) ≡ (pos n, encode bs)
  hex_part = signature_part-key "v1" (encode bs) (pos n, []) (v1_part bs b) (refl, (refl, tt))

  header_split :
      split_on b',' ("t=" +++ format_int (pos n) +++ ",v1=" +++ encode bs)
      ≡ List.◌∷◌ ("t=" +++ format_int (pos n)) (List.◌∷◌ ("v1=" +++ encode bs) List.[])
  header_split =
      ap (split_on b',') (append_assoc ("t=" +++ format_int (pos n)) ",v1=" (encode bs))
      ∙ split_on-append b',' "," ("t=" +++ format_int (pos n)) ("v1=" +++ encode bs)
          (Chars-weaken token (other_than b',') token-other ("t=" +++ format_int (pos n))
            (t_part n))
          refl
      ∙ ap (List.◌∷◌ ("t=" +++ format_int (pos n))) (
          split_on-whole b',' _
            (Chars-weaken token (other_than b',') token-other ("v1=" +++ encode bs) (v1_part bs b)))

  header_parts :
      signature_parts
        (split_on b',' ("t=" +++ format_int (pos n) +++ ",v1=" +++ encode bs))
        (pos 0, [])
      ≡ (pos n, encode bs)
  unfolding signature_parts
  header_parts =
      ap (λ ps. signature_parts ps (pos 0, [])) header_split
      ∙ ap (signature_part ("v1=" +++ encode bs)) stamp_part
      ∙ hex_part

-- The header of a time `n` and a signature `bs` is read back as those two.
pub parse_signature-header :
    (n : ℕ) (bs : List ℕ)
    → 0 < n
    → n < 2 ^ 63
    → IsBytes bs
    → 0 < length bs
    → parse_signature ("t=" +++ format_int (pos n) +++ ",v1=" +++ encode bs)
      ≡ some (pos n, encode bs)
unfolding parse_signature is_zero encode
parse_signature-header n List.[] h k b l = elim l [ ]
parse_signature-header n (List.◌∷◌ c bs) h k b l =
    rw (header_parts n (List.◌∷◌ c bs) k b, parse_signature) (ground arith)

not_stale :
    (tolerance now n : ℕ)
    → n ≤ now
    → now < 2 ^ 63
    → (tolerance ≡ 0) ⊎ (now - n ≤ tolerance / 10 ^ 9)
    → is_stale tolerance (pos now) (pos n) ≡ false
unfolding is_stale
not_stale tolerance now n k l fresh = rw (sub_int64-pos now n l k) (ground arith)

compare_signature_refl : (want : List ℕ) → compare_signature want (some want) ≡ ok tt
unfolding compare_signature
compare_signature_refl want = ground (arith, bytes_equal_refl want)

compare_signature-ok :
    (want : List ℕ) (got : Option (List ℕ)) → compare_signature want got ≡ ok tt → got ≡ some want
unfolding compare_signature
compare_signature-ok want none h = cc
compare_signature-ok want (some got) h = ground (arith, bytes_equal→eq want got)

module _ (hmac : String → String → List ℕ) where
  verify_at-ok :
      (body secret sig : String) (now t : ℤ) (tolerance : ℕ)
      → verify_at hmac body secret now tolerance (t, sig) ≡ ok tt
      → (is_stale tolerance now t ≡ false)
        × (decode sig ≡ some (hmac secret (signed_payload t body)))
  unfolding verify_at
  verify_at-ok body secret sig now t tolerance h = elim (Bool-cases (is_stale tolerance now t)) [
    | inl e ↦ ground arith
    | inr e ↦ (e, compare_signature-ok _ (decode sig) (ground arith))
  ]

  -- Verify accepts the header that Sign wrote for the same body and secret at a positive time `n`
  -- not after `now`, both in int64, when the tolerance is 0 or its whole seconds cover the age; the
  -- HMAC is any function whose digests are non-empty sequences of bytes.
  pub verify-sign :
      (body secret : String) (n now tolerance : ℕ)
      → 0 < n
      → n ≤ now
      → now < 2 ^ 63
      → ((key message : String) → IsBytes (hmac key message) × (0 < length (hmac key message)))
      → (tolerance ≡ 0) ⊎ (now - n ≤ tolerance / 10 ^ 9)
      → verify hmac body (sign hmac body secret (pos n)) secret (pos now) tolerance ≡ ok tt
  unfolding sign verify
  verify-sign body secret n now tolerance h k l digest fresh =
      let mac = hmac secret (signed_payload (pos n) body) in
      let good = digest secret (signed_payload (pos n) body) in
      rw (parse_signature-header n mac h (omega arith) good.0 good.1, verify)
        (rw (not_stale tolerance now n k l fresh, verify_at)
          (rw (decode-encode mac good.0) (compare_signature_refl mac)))

  -- Verify accepts only a header that holds a time `t` and a signature `sig`, where `t` is not stale
  -- at `now` and `sig` is the hex text of the HMAC of that time and the body under the secret.
  pub verify-ok :
      (body header secret : String) (now : ℤ) (tolerance : ℕ)
      → verify hmac body header secret now tolerance ≡ ok tt
      → (t : ℤ) × (sig : String) × (parse_signature header ≡ some (t, sig))
        × (is_stale tolerance now t ≡ false)
        × (decode sig ≡ some (hmac secret (signed_payload t body)))
  unfolding verify
  verify-ok body header secret now tolerance h = elim (Option-cases (parse_signature header)) [
    | inl e ↦ ground arith
    | inr ((t, sig), e) ↦
        let parts = verify_at-ok body secret sig now t tolerance (ground arith) in
        (t, sig, e, parts.0, parts.1)
  ]

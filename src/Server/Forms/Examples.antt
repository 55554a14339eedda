-- ===== src/Server/Forms/Examples.antt =====
-- A form with two fields and a large index.
use payrouter.Prelude.{
  ℕ, ◌+◌, ◌^◌, ◌<◌, String, some, List, [], ◌∷◌, Dict, lookup, ◌≡◌, refl, ap, ◌∙◌, inl, inr, arith,
}
use payrouter.GoLib.Int64.{pos}
use payrouter.GoLib.Strconv.{parse_int}
use payrouter.Server.Forms.{inner_key, before_bracket, read_index}
use payrouter.Server.Forms.Greatest.{Names, index_of_field}
use payrouter.Server.Forms.Indices.{Rounds, collect_payment_method_types-Rounds}

abbrev two_fields : Dict (List String)
two_fields =
    ("payment_method_types[9000000]", "id_qris" ∷ [])
    ∷ ("payment_method_types[3]", "id_ewallet" ∷ [])
    ∷ []

below : (i j : ℕ) → i < 9000001 → some (pos i) ≡ some (pos j) → j + 1 < 2 ^ 63
below i j h e = let same : i ≡ j = ground (arith, e) in omega (arith, h, same)

two_fields-small : (j : ℕ) → Names j two_fields → j + 1 < 2 ^ 63
unfolding inner_key before_bracket read_index parse_int
two_fields-small j (k, v, vs, inl a, e) =
    below 9000000 j (omega arith) (ap index_of_field (ap (λ (x : String × List String). x.0) a) ∙ e)
two_fields-small j (k, v, vs, inr (inl a), e) =
    below 3 j (omega arith) (ap index_of_field (ap (λ (x : String × List String). x.0) a) ∙ e)
two_fields-small j (k, v, vs, inr (inr m), e) = absurd m

collect_payment_method_types-Rounds_example : Rounds two_fields
unfolding lookup inner_key before_bracket read_index parse_int
collect_payment_method_types-Rounds_example =
    collect_payment_method_types-Rounds 3 two_fields refl
      ("payment_method_types[3]", "id_ewallet", [], inr (inl refl), refl) two_fields-small

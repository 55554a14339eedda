-- ===== src/Orchestrator/OrderId.antt =====
-- internal/orchestrator/router.go: NormalizeChannel, FormatOrderID and ExtractGatewayFromOrderID.
use Prim.Native.String.{◌∷◌}
use payrouter.Prelude.{
  String, code, ◌||◌, Option, none, some, List, ◌≡◌, refl, ap, sym, In, ◌∙◌, inl, inr, ◌==◌, ◌+++◌,
  if◌then◌else◌,
}
use payrouter.GoLib.Strings.{
  split_on, join, trim_space, to_lower, Chars, other_than, split_on-append, split_on-cons,
  join-split_on,
}

unfoldable pub normalize_channel : String → String
normalize_channel raw =
    let ch = to_lower (trim_space raw) in
    if ch == "card" || ch == "credit_card"
    then "credit_card"
    else if ch == "qris" || ch == "id_qris"
    then "qris"
    else if ch == "virtual_account" || ch == "id_virtual_account" || ch == "bank_transfer"
    then "virtual_account"
    else if ch == "ewallet_gopay" || ch == "gopay"
    then "ewallet_gopay"
    else if ch == "ewallet_shopeepay" || ch == "shopeepay"
    then "ewallet_shopeepay"
    else if ch == "retail_outlet" || ch == "over_the_counter" || ch == "convenience_store"
    then "retail_outlet"
    else ch

-- The three-letter code of a provider, "mdt" for one that is not known.
unfoldable pub prefix_of : String → String
prefix_of provider_name =
    let p = to_lower provider_name in
    if p == "xendit"
    then "xnd"
    else if p == "doku"
    then "dku"
    else if p == "mayar"
    then "myr"
    else "mdt"

unfoldable pub format_order_id : String → String → String
format_order_id provider_name raw_id = "pf_" +++ prefix_of provider_name +++ "_" +++ raw_id

-- The switch on the second part of the order id.
gateway_of : String → Option String
gateway_of p =
    if p == "mdt"
    then some "midtrans"
    else if p == "xnd"
    then some "xendit"
    else if p == "myr"
    then some "mayar"
    else if p == "dku"
    then some "doku"
    else none

extract_parts : String → List String → String × String
extract_parts order_id (List.◌∷◌ first (List.◌∷◌ second (List.◌∷◌ third rest))) =
    if first == "pf"
    then elim (gateway_of second) [
      | none ↦ ("unknown", order_id)
      | some name ↦ (name, join "_" (List.◌∷◌ third rest))
    ]
    else ("unknown", order_id)
extract_parts order_id _ = ("unknown", order_id)

unfoldable pub extract_gateway_from_order_id : String → String × String
unfolding extract_parts gateway_of
extract_gateway_from_order_id order_id = extract_parts order_id (split_on b'_' order_id)

-- The providers that have a code.
abbrev pub providers : List String
providers = List.◌∷◌ "midtrans" (List.◌∷◌ "xendit" (List.◌∷◌ "doku" (List.◌∷◌ "mayar" List.[])))

split-prefixed :
    (head code raw_id : String)
    → Chars (other_than b'_') head
    → Chars (other_than b'_') code
    → split_on b'_' (head +++ "_" ∷ (code +++ "_" ∷ raw_id))
      ≡ List.◌∷◌ head (List.◌∷◌ code (split_on b'_' raw_id))
split-prefixed head code raw_id h k =
    split_on-append b'_' "_" head _ h refl
    ∙ ap (List.◌∷◌ head) (split_on-append b'_' "_" code raw_id k refl)

-- With the two parts of a tag in front, the rest of the id is given back whole.
extract_parts-tagged :
    (order_id code name raw_id : String)
    → gateway_of code ≡ some name
    → extract_parts order_id (List.◌∷◌ "pf" (List.◌∷◌ code (split_on b'_' raw_id))) ≡ (name, raw_id)
extract_parts-tagged order_id code name raw_id h =
    let (p, ps, e) = split_on-cons b'_' raw_id in
    ap (λ l. extract_parts order_id (List.◌∷◌ "pf" (List.◌∷◌ code l))) e
    ∙ unfold extract_parts in
      rw h (ap (λ s. (name, s)) (ap (join "_") (sym e) ∙ join-split_on "_" raw_id))

extract_parts-pi :
    (order_id : String) (ps : List String)
    → extract_parts order_id (List.◌∷◌ "pi" ps) ≡ ("unknown", order_id)
unfolding extract_parts
extract_parts-pi order_id List.[] = refl
extract_parts-pi order_id (List.◌∷◌ p List.[]) = refl
extract_parts-pi order_id (List.◌∷◌ p (List.◌∷◌ q ps)) = refl

module _ (raw_id : String) where
  extract-tagged :
      (code name : String)
      → Chars (other_than b'_') code
      → gateway_of code ≡ some name
      → extract_gateway_from_order_id ("pf" +++ "_" ∷ (code +++ "_" ∷ raw_id)) ≡ (name, raw_id)
  unfolding extract_gateway_from_order_id
  extract-tagged code name k h =
      ap (extract_parts _) (split-prefixed "pf" code raw_id (refl, (refl, tt)) k)
      ∙ extract_parts-tagged _ code name raw_id h

  -- The tag that FormatOrderID puts in front of an id is taken off again: for each of the four
  -- providers, and any id, ExtractGatewayFromOrderID gives back the provider and the id.
  pub extract-format :
      (name : String)
      → In name providers
      → extract_gateway_from_order_id (format_order_id name raw_id) ≡ (name, raw_id)
  unfolding format_order_id prefix_of to_lower gateway_of
  extract-format name (inl e) =
      rw (← e) (extract-tagged "mdt" "midtrans" (refl, (refl, (refl, tt))) refl)
  extract-format name (inr (inl e)) =
      rw (← e) (extract-tagged "xnd" "xendit" (refl, (refl, (refl, tt))) refl)
  extract-format name (inr (inr (inl e))) =
      rw (← e) (extract-tagged "dku" "doku" (refl, (refl, (refl, tt))) refl)
  extract-format name (inr (inr (inr (inl e)))) =
      rw (← e) (extract-tagged "myr" "mayar" (refl, (refl, (refl, tt))) refl)
  extract-format name (inr (inr (inr (inr x)))) = absurd x

  -- An id of the facade's own, `pi_…`, names no gateway.
  pub extract-pi : extract_gateway_from_order_id ("pi_" +++ raw_id) ≡ ("unknown", "pi_" +++ raw_id)
  unfolding extract_gateway_from_order_id
  extract-pi =
      ap (extract_parts _) (split_on-append b'_' "_" "pi" raw_id (refl, (refl, tt)) refl)
      ∙ extract_parts-pi _ (split_on b'_' raw_id)

-- ===== src/Adapters/Midtrans/Requests.antt =====
-- internal/adapters/midtrans/midtrans.go: the bodies of the requests, as the maps that the calls fill.
use payrouter.Prelude.{
  ℕ, zero, suc, String, Option, none, some, List, [], ◌∷◌, ◌++◌, Dict, eqb, is_empty, ◌==◌,
  if◌then◌else◌,
}
use payrouter.GoLib.Strings.{to_lower, trim_space, cut}
use payrouter.Adapters.Callbacks.{value_of}
use payrouter.Gateway.{Payer, CreatePaymentInput, RefundInput}

-- An item's name, and the URL of `callbacks`, are there where the input has them.
pub record SnapBody : Type 0 where
  pub order_id : String
  pub gross_amount : ℕ
  pub enabled_payments : List String
  pub customer : Option (Dict String)
  pub item_name : Option String
  pub finish_url : Option String

pub record RefundBody : Type 0 where
  pub amount : Option ℕ
  pub reason : Option String

-- vaCode
unfoldable pub va_code : String → Option String
va_code bank =
    let b = to_lower bank in
    if b == "bca"
    then some "bca_va"
    else if b == "bni"
    then some "bni_va"
    else if b == "bri"
    then some "bri_va"
    else if b == "permata"
    then some "permata_va"
    else if b == "mandiri"
    then some "echannel"
    else none

-- enabledPayments
unfoldable pub enabled_payments : String → Dict String → List String
unfolding va_code value_of
enabled_payments pm params =
    let wallet = value_of "wallet" params in
    let shop = value_of "store" params in
    if pm == "id_virtual_account"
    then elim (va_code (value_of "bank" params)) [
      | some va ↦ va ∷ []
      | none ↦ "bca_va" ∷ "bni_va" ∷ "bri_va" ∷ "permata_va" ∷ "echannel" ∷ []
    ]
    else if pm == "id_qris"
    then "qris" ∷ []
    else if pm == "id_ewallet"
    then (if is_empty wallet then "gopay" else to_lower wallet) ∷ []
    else if pm == "id_retail"
    then (if is_empty shop then "alfamart" else to_lower shop) ∷ []
    else []

-- splitName
unfoldable pub split_name : String → String × String
split_name name = elim (cut 32 (trim_space name)) [
  | none ↦ (trim_space name, "")
  | some (first, rest) ↦ (first, trim_space rest)
]

names : String → Dict String
unfolding split_name
names name =
    let (first, last) = split_name name in
    if is_empty name
    then []
    else ("first_name", first) ∷ (if is_empty last then [] else ("last_name", last) ∷ [])

-- customerDetails
unfoldable pub customer_details : Option Payer → Option (Dict String)
unfolding names
customer_details none = none
customer_details (some c) =
    let details =
      (if is_empty c.email then [] else ("email", c.email) ∷ [])
      ++ (if is_empty c.phone then [] else ("phone", c.phone) ∷ [])
      ++ names c.name in
    elim details [ [] ↦ none | detail ∷ rest ↦ some (detail ∷ rest) ]

-- truncate
unfoldable pub truncate : String → ℕ → String
truncate String.[] n = ""
truncate (String.◌∷◌ c s) zero = "…"
truncate (String.◌∷◌ c s) (suc n) = String.◌∷◌ c (truncate s n)

-- The body of CreatePayment.
unfoldable pub snap_body : CreatePaymentInput → SnapBody
unfolding enabled_payments customer_details truncate
snap_body input = record {
  order_id = input.reference;
  gross_amount = input.amount_minor;
  enabled_payments = enabled_payments input.payment_method_type input.method_params;
  customer = customer_details input.customer;
  item_name = (if is_empty input.description then none else some (truncate input.description 50));
  finish_url = (if is_empty input.return_url then none else some input.return_url);
}

-- The body of Refund.
unfoldable pub refund_body : RefundInput → RefundBody
refund_body input = record {
  amount = (if eqb input.amount_minor 0 then none else some input.amount_minor);
  reason = (if is_empty input.reason then none else some input.reason);
}

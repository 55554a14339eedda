-- ===== src/Orchestrator/Examples.antt =====
-- The orchestrator at concrete inputs: prices in thousandths stand for float64.
use payrouter.Prelude.{
  ℕ, ◌+◌, ◌*◌, ◌/◌, ◌^◌, String, true, false, [], ◌∷◌, Option, none, some, ok, err, ◌≡◌, refl,
  arith, inl, inr, ltb, leb, lookup, is_empty, insert, subst, ap, ◌+++◌,
}
use payrouter.Gateway.{Gateway, PaymentResult, RefundInput, other}
use payrouter.GoLib.Strings.{to_lower, trim_space, is_space}
use payrouter.Orchestrator.OrderId.{
  normalize_channel, prefix_of, extract_gateway_from_order_id, format_order_id, extract-format,
}
use payrouter.Orchestrator.Router.{
  select_best_gateway, keys, calculate_cost, Floats, OrderLaws, FeeConfig, ProviderConfig,
  RootConfig,
}
use payrouter.Orchestrator.Router.LeastCost.{Selected, select_best_gateway-least}
use payrouter.Orchestrator.Routed.{
  channel_of, Credentials, build_candidate_adapters, create_payment, refund,
}
use payrouter.Orchestrator.Routed.Tagged.{RoutesBack, create_payment-routes-back, refund-pi}

abbrev thousandths : Floats
thousandths = record {
  Float = ℕ;
  lit = λ m k. m * 1000 / 10 ^ k;
  add = λ a b. a + b;
  mul = λ a b. a * b / 1000;
  div = λ a b. a * 1000 / b;
  lt = ltb;
  le = leb;
  round = λ a. (a + 500) / 1000 * 1000;
  max_float = 10 ^ 30;
}

thousandths-laws : OrderLaws thousandths
thousandths-laws = record { lt_irrefl = λ a. ground arith; lt_trans = λ a b c h k. ground arith }

abbrev account : ℕ → FeeConfig ℕ
account fixed = record {
  type = "fixed";
  fixed = fixed * 1000;
  percentage = 0;
  vat_included = false;
}

abbrev provider : String → ℕ → ProviderConfig ℕ
provider code fixed = record {
  enabled = true;
  code = code;
  platform_fee_pct = 0;
  fees = ("virtual_account", account fixed) ∷ [];
}

-- Virtual accounts of Midtrans cost 4000, those of Xendit 4500.
abbrev fees : RootConfig ℕ
fees = record {
  version = "1.0";
  orchestrator = record {
    strategy = "lowest_fee";
    vat_rate = 110;
    fallback_priority = "midtrans" ∷ [];
  };
  providers = ("midtrans", provider "mdt" 4000) ∷ ("xendit", provider "xnd" 4500) ∷ [];
}

select_best_gateway-least_example :
    Selected thousandths thousandths-laws fees "id_virtual_account" 100000000 "xendit"
      ("midtrans" ∷ [])
select_best_gateway-least_example =
    select_best_gateway-least thousandths thousandths-laws fees "id_virtual_account" 100000000
      "xendit" ("midtrans" ∷ [])
      (λ q m. elim m [
        | inl e ↦ subst (λ s. is_empty s ≡ false) e refl
        | inr n ↦ elim n [ inl e ↦ subst (λ s. is_empty s ≡ false) e refl | inr x ↦ absurd x ]
      ])

extract-format_example :
    extract_gateway_from_order_id (format_order_id "xendit" "pi_a_b") ≡ ("xendit", "pi_a_b")
extract-format_example = extract-format "pi_a_b" "xendit" (inr (inl refl))

-- An adapter that counts its calls.
abbrev echo : String → Gateway ℕ
echo name = record {
  name = name;
  create_payment = λ i w. (
    ok (
        some (record {
          reference = "pi_1";
          gateway_reference = name;
          status = "requires_action";
          next_action = none;
          expires_at = 0;
        })),
    w + 1,
  );
  get_status = λ ref w. (err (other ref), w + 1);
  refund = λ i w. (ok none, w + 1);
  parse_webhook = λ r. (ok [], r);
}

abbrev credentials : Credentials
credentials = record {
  midtrans_server_key = "key";
  xendit_secret_key = "key";
  doku_client_id = "";
  doku_secret_key = "";
  mayar_api_key = "";
}

abbrev build : String → Option (Gateway ℕ)
build name = some (echo name)

abbrev asked : RefundInput
asked = record { reference = "re_1"; payment_reference = ""; amount_minor = 5; reason = "" }

abbrev tagged : PaymentResult
tagged = record {
  reference = "pf_mdt_pi_1";
  gateway_reference = "midtrans";
  status = "requires_action";
  next_action = none;
  expires_at = 0;
}

refund-pi_example :
    refund
      (build_candidate_adapters credentials build)
      (some (record asked { payment_reference = "pi_" +++ "1" }))
      7
    ≡ (err (other ("orchestrator: cannot route refund for reference " +++ ("pi_" +++ "1"))), 7)
refund-pi_example = refund-pi credentials build "1" asked 7

create_payment-routes-back_example :
    RoutesBack (build_candidate_adapters credentials build) none 0 1 7 "pf_mdt_pi_1" asked
unfolding create_payment build_candidate_adapters insert lookup select_best_gateway keys
    calculate_cost normalize_channel to_lower trim_space channel_of is_space format_order_id
    prefix_of
create_payment-routes-back_example =
    create_payment-routes-back thousandths (some fees) credentials build none 0 1 7 tagged asked
      refl (λ e. ground (arith, ap is_empty e))

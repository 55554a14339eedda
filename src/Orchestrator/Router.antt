-- ===== src/Orchestrator/Router.antt =====
-- internal/orchestrator/config.go and router.go: the fee schedules, CalculateCost and
-- SelectBestGateway. The float64 operations are a parameter.
pub mod LeastCost
use payrouter.Prelude.{
  ℕ, String, Bool, true, false, ◌&&◌, Option, none, some, List, [], ◌∷◌, Dict, lookup, ◌≡◌, ◌==◌,
  is_empty, if◌then◌else◌,
}
use payrouter.Orchestrator.OrderId.{normalize_channel}

-- float64: a decimal literal `lit m k` is m / 10^k.
pub record Floats : Type 1 where
  pub Float : Type 0
  pub lit : ℕ → ℕ → Float
  pub add : Float → Float → Float
  pub mul : Float → Float → Float
  pub div : Float → Float → Float
  pub lt : Float → Float → Bool
  pub le : Float → Float → Bool
  pub round : Float → Float
  pub max_float : Float

-- `<` of IEEE 754, which also holds where a NaN is compared.
pub record OrderLaws (F : Floats) : Type 0 where
  pub lt_irrefl : (a : F.Float) → F.lt a a ≡ false
  pub lt_trans : (a b c : F.Float) → F.lt a b ≡ true → F.lt b c ≡ true → F.lt a c ≡ true

pub record FeeConfig (Float : Type 0) : Type 0 where
  pub type : String
  pub fixed : Float
  pub percentage : Float
  pub vat_included : Bool

pub record ProviderConfig (Float : Type 0) : Type 0 where
  pub enabled : Bool
  pub code : String
  pub platform_fee_pct : Float
  pub fees : Dict (FeeConfig Float)

pub record OrchestratorSettings (Float : Type 0) : Type 0 where
  pub strategy : String
  pub vat_rate : Float
  pub fallback_priority : List String

pub record RootConfig (Float : Type 0) : Type 0 where
  pub version : String
  pub orchestrator : OrchestratorSettings Float
  pub providers : Dict (ProviderConfig Float)

unfoldable pub keys : {V : Type 0} → Dict V → List String
keys [] = []
keys ((k, v) ∷ m) = k ∷ keys m

module _ (F : Floats) where
  open F use {Float, lit, add, mul, div, lt, le, round, max_float}

  abbrev zero_fee : Float
  zero_fee = lit 0 0

  -- Step 1: the base fee by type.
  base_fee : FeeConfig Float → Float → Float
  base_fee fee amount =
      if fee.type == "fixed"
      then fee.fixed
      else if fee.type == "percentage"
      then mul amount fee.percentage
      else if fee.type == "mixed"
      then add (mul amount fee.percentage) fee.fixed
      else if lt zero_fee fee.percentage && lt zero_fee fee.fixed
      then add (mul amount fee.percentage) fee.fixed
      else if lt zero_fee fee.percentage
      then mul amount fee.percentage
      else fee.fixed

  -- Step 2: the platform's share.
  with_platform : Float → Float → Float → Float
  with_platform pct amount fee = if lt zero_fee pct then add fee (mul amount pct) else fee

  -- Step 3: the tax, 11 % where the configured rate is not positive.
  with_vat : Bool → Float → Float → Float
  with_vat included vat_rate fee =
      if included
      then fee
      else mul fee (add (lit 1 0) (if le vat_rate zero_fee then lit 11 2 else vat_rate))

  -- CalculateCost; `(0, false)` is `none`
  calculate : RootConfig Float → ProviderConfig Float → Float → FeeConfig Float → Float
  calculate config p amount fee =
      div
        (round (
          mul
            (with_vat fee.vat_included config.orchestrator.vat_rate
              (with_platform p.platform_fee_pct amount (base_fee fee amount)))
            (lit 100 0)))
        (lit 100 0)

  calculate_for : RootConfig Float → String → Float → Option (ProviderConfig Float) → Option Float
  calculate_for config raw_channel amount none = none
  calculate_for config raw_channel amount (some p) =
      if p.enabled
      then elim (lookup (normalize_channel raw_channel) p.fees) [
        | none ↦ none
        | some fee ↦ some (calculate config p amount fee)
      ]
      else none

  unfoldable pub calculate_cost : RootConfig Float → String → String → Float → Option Float
  unfolding calculate_for calculate with_vat with_platform base_fee
  calculate_cost config provider_name raw_channel amount =
      calculate_for config raw_channel amount (lookup provider_name config.providers)

  -- One round of the loop over the candidates; the pair is (bestProvider, minCost).
  consider : String → Option Float → String × Float → String × Float
  consider name none best = best
  consider name (some cost) (best_provider, min_cost) =
      if lt cost min_cost then (name, cost) else (best_provider, min_cost)

  module _ (config : RootConfig Float) (channel : String) (amount : Float) where
    scan_candidates : List String → String × Float → String × Float
    scan_candidates [] best = best
    scan_candidates (name ∷ rest) best =
        scan_candidates rest (consider name (calculate_cost config name channel amount) best)

    -- The first provider of the fallback queue that can price the channel.
    first_priced : List String → Option (String × Float)
    first_priced [] = none
    first_priced (name ∷ rest) = elim (calculate_cost config name channel amount) [
      | none ↦ first_priced rest
      | some cost ↦ some (name, cost)
    ]

    pub fallback : List String → String × Float
    fallback [] = ("midtrans", zero_fee)
    fallback (first ∷ rest) = elim (first_priced (first ∷ rest)) [
      | none ↦ (first, zero_fee)
      | some found ↦ found
    ]

    targets : List String → List String
    targets [] = keys config.providers
    targets (c ∷ cs) = c ∷ cs

    -- SelectBestGateway where a configuration is present; its error is always nil. Without
    -- candidates every configured provider is one.
    unfoldable pub select_configured : List String → String × Float
    unfolding scan_candidates consider fallback first_priced targets
    select_configured candidates =
        let (best_provider, min_cost) = scan_candidates (targets candidates) ("", max_float) in
        if is_empty best_provider
        then fallback config.orchestrator.fallback_priority
        else (best_provider, min_cost)

  unfoldable pub select_best_gateway :
      Option (RootConfig Float) → List String → String → Float → String × Float
  unfolding select_configured
  select_best_gateway none candidates channel amount = ("midtrans", zero_fee)
  select_best_gateway (some config) candidates channel amount =
      select_configured config channel amount candidates

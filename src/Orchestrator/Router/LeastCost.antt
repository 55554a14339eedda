-- ===== src/Orchestrator/Router/LeastCost.antt =====
-- internal/orchestrator/router.go: the fee of the gateway that SelectBestGateway picks.
use payrouter.Prelude.{
  String, true, false, Option, some, List, [], ◌∷◌, ◌≡◌, refl, sym, ap, subst, ◌∙◌, ◌⊎◌, inl, inr,
  In, is_empty, if◌then◌else◌, Bool-cases, Option-cases,
}
use payrouter.Orchestrator.Router.{
  Floats, OrderLaws, RootConfig, calculate_cost, consider, scan_candidates, fallback,
  select_best_gateway,
}

module _ (F : Floats) (laws : OrderLaws F) (config : RootConfig F.Float) (channel : String)
    (amount : F.Float) where
  abbrev cost_of : String → Option F.Float
  cost_of name = calculate_cost F config name channel amount

  -- The pair (best, cost) after a scan from (start, floor).
  record Best (names : List String) (start : String × F.Float) (best : String × F.Float)
      : Type 0 where
    origin :
        (best ≡ start)
        ⊎ (In best.0 names × (cost_of best.0 ≡ some best.1) × (F.lt best.1 start.1 ≡ true))
    least : (q : String) (d : F.Float) → In q names → cost_of q ≡ some d → F.lt d best.1 ≡ false

  -- A cost that does not undercut the old best does not undercut a lower one.
  not_under : (d old new : F.Float) → F.lt d old ≡ false → F.lt new old ≡ true → F.lt d new ≡ false
  not_under d old new h k = elim (Bool-cases (F.lt d new)) [
    | inl e ↦ cc (laws.lt_trans d new old e k)
    | inr e ↦ e
  ]

  -- Where the scan starts, no candidate need be better; where it ends, none is.
  below_start :
      (names : List String) (start best : String × F.Float) (d : F.Float)
      → Best names start best
      → F.lt d start.1 ≡ false
      → F.lt d best.1 ≡ false
  below_start names start best d b h = elim b.origin [
    | inl e ↦ rw e h
    | inr (m, c, l) ↦ not_under d start.1 best.1 h l
  ]

  one_cost : (name : String) (c d : F.Float) → cost_of name ≡ some c → cost_of name ≡ some d → c ≡ d
  one_cost name c d e p = cc

  -- A candidate that has no cost, or one that is not lower.
  Best-skip :
      (name : String) (names : List String) (start best : String × F.Float)
      → ((d : F.Float) → cost_of name ≡ some d → F.lt d start.1 ≡ false)
      → Best names start best
      → Best (name ∷ names) start best
  Best-skip name names start best h b = record {
    origin = elim b.origin [ inl e ↦ inl e | inr (m, c, l) ↦ inr (inr m, c, l) ];
    least = λ q d m p. elim m [
      | inl e ↦ below_start names start best d b (h d (subst (λ x. cost_of x ≡ some d) (sym e) p))
      | inr m' ↦ b.least q d m' p
    ];
  }

  -- A candidate that undercuts what was found before.
  Best-take :
      (name : String) (names : List String) (start best : String × F.Float) (c : F.Float)
      → cost_of name ≡ some c
      → F.lt c start.1 ≡ true
      → Best names (name, c) best
      → Best (name ∷ names) start best
  Best-take name names start best c e k b = record {
    origin = elim b.origin [
      | inl x ↦ inr (inl (sym (ap (λ (p : String × F.Float). p.0) x)), rw x e, rw x k)
      | inr (m, p, l) ↦ inr (inr m, p, laws.lt_trans best.1 c start.1 l k)
    ];
    least = λ q d m p. elim m [
      | inl x ↦
          subst (λ y. F.lt y best.1 ≡ false)
            (one_cost name c d e (subst (λ y. cost_of y ≡ some d) (sym x) p))
            (below_start names (name, c) best c b (laws.lt_irrefl c))
      | inr m' ↦ b.least q d m' p
    ];
  }

  Best-cons :
      (name : String) (names : List String) (start best : String × F.Float)
      → Best names (consider F name (cost_of name) start) best
      → Best (name ∷ names) start best
  unfolding consider
  Best-cons name names start best b = elim (Option-cases (cost_of name)) [
    | inl e ↦ Best-skip name names start best (λ d p. cc) (rw (e, consider) at b)
    | inr (c, e) ↦ elim (Bool-cases (F.lt c start.1)) [
      | inl k ↦ Best-take name names start best c e k (rw (e, k, consider) at b)
      | inr k ↦
          Best-skip name names start best
            (λ d p. subst (λ y. F.lt y start.1 ≡ false) (one_cost name c d e p) k)
            (rw (e, k, consider) at b)
    ]
  ]

  scan-Best :
      (names : List String) (start : String × F.Float)
      → Best names start (scan_candidates F config channel amount names start)
  unfolding scan_candidates
  scan-Best [] start = record { origin = inl refl; least = λ q d m. absurd m }
  scan-Best (name ∷ names) start = Best-cons name names start _ (scan-Best names _)

  abbrev scanned : String → List String → String × F.Float
  scanned first rest = scan_candidates F config channel amount (first ∷ rest) ("", F.max_float)

  pick :
      (first : String) (rest : List String)
      → select_best_gateway F (some config) (first ∷ rest) channel amount ≡ (
          if is_empty (scanned first rest).0
          then fallback F config channel amount config.orchestrator.fallback_priority
          else scanned first rest)
  unfolding select_best_gateway
  pick first rest = refl

  -- What the pick is to be, among the candidates or of the fallback queue.
  abbrev pub Selected : String → List String → Type 0
  Selected first rest =
      let best = select_best_gateway F (some config) (first ∷ rest) channel amount in
      (In best.0 (first ∷ rest)
        × (calculate_cost F config best.0 channel amount ≡ some best.1)
        × ((q : String) (d : F.Float)
            → In q (first ∷ rest)
            → calculate_cost F config q channel amount ≡ some d
            → F.lt d best.1 ≡ false))
      ⊎ (((q : String) (d : F.Float)
            → In q (first ∷ rest)
            → calculate_cost F config q channel amount ≡ some d
            → F.lt d F.max_float ≡ false)
          × (best ≡ fallback F config channel amount config.orchestrator.fallback_priority))

  -- SelectBestGateway over candidates with non-empty names, whatever strategy is configured, which the
  -- code does not read: "round_robin" and "priority" select as "lowest_fee" does. Where one of them can price the channel
  -- below the greatest float64, the gateway that is picked is a candidate, the fee beside it is that
  -- gateway's own cost, and no candidate's cost undercuts it. Where none can, the answer is that of
  -- the fallback queue.
  pub select_best_gateway-least :
      (first : String) (rest : List String)
      → ((q : String) → In q (first ∷ rest) → is_empty q ≡ false)
      → Selected first rest
  select_best_gateway-least first rest named =
      let b = scan-Best (first ∷ rest) ("", F.max_float) in
      let to = pick first rest in
      elim b.origin [
        | inl e ↦ inr ((λ q d m p. rw e at b.least q d m p), to ∙ rw e)
        | inr (m, c, l) ↦ inl (
            subst
              (λ best.
                In best.0 (first ∷ rest)
                × (cost_of best.0 ≡ some best.1)
                × ((q : String) (d : F.Float)
                    → In q (first ∷ rest)
                    → cost_of q ≡ some d
                    → F.lt d best.1 ≡ false))
              (sym (to ∙ rw (named _ m))) (m, c, b.least))
      ]

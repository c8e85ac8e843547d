-- ===== src/Sizing/Defs.antt =====
-- src/bfa/execution/sizing.py: `compute_position_sizing`, the hard cap of the governor, and the
-- notional that the governor comes to from its components.
use binance_future_agent.Base.{
  String, Bool, true, false, not, ◌&&◌, Option, none, some, List, [], ◌∷◌, ◌++◌, select,
  if◌then◌else◌, or_default,
}
use binance_future_agent.Base.Float
use binance_future_agent.Base.Float.{Float}
use binance_future_agent.Config.{AppConfig, setting}
use binance_future_agent.Models.{RiskState, active_initial_margin}

module _ (fl : Float) where
  -- `PositionSizingInput`
  pub record SizingInput : Type 0 where
    pub account_capital_usdt : fl.F
    pub max_leverage : fl.F
    pub fixed_max_notional_usdt : fl.F
    pub max_risk_per_trade_usdt : fl.F
    pub max_margin_per_position_usdt : fl.F
    pub max_margin_fraction : fl.F
    pub max_effective_notional_usdt : fl.F
    pub available_balance_usdt : Option fl.F
    pub entry_price : Option fl.F
    pub stop_price : Option fl.F
    pub min_executable_notional_usdt : Option fl.F

  -- `PositionSizingResult`
  pub record SizingResult : Type 0 where
    pub enabled : Bool
    pub max_position_notional_usdt : fl.F
    pub fixed_max_notional_usdt : fl.F
    pub max_position_margin_usdt : fl.F
    pub reasons : List String
    pub warnings : List String

module _ (fl : Float) where
  open fl use {F, add, sub, mul, div, lt, le, lit}

  -- `min(a, *values)`
  unfoldable pub least : F → List F → F
  least a [] = a
  least a (x ∷ xs) = least (Float.min fl a x) xs

  -- `_margin`
  unfoldable pub margin_of : F → F → F
  margin_of notional leverage = if le leverage (lit 0 0) then notional else div notional leverage

  -- The notional at which the stop costs the risk of a trade.
  unfoldable pub notional_of_risk : F → F → F → Option F
  notional_of_risk risk entry stop =
      let distance = div (Float.abs fl (sub entry stop)) entry in
      if le entry (lit 0 0)
      then none
      else if le distance (lit 0 0)
      then none
      else some (div risk distance)

  -- `_risk_based_notional`
  unfoldable pub risk_based_notional : SizingInput fl → Option F
  risk_based_notional sizing = elim sizing.entry_price [
    | none ↦ none
    | some entry ↦ elim sizing.stop_price [
      | none ↦ none
      | some stop ↦ notional_of_risk sizing.max_risk_per_trade_usdt entry stop
    ]
  ]

  abbrev pub optional : Option F → List F
  optional none = []
  optional (some x) = x ∷ []

  -- `leverage_notional`: the margin that the caps leave, at the leverage.
  unfoldable pub leverage_notional : SizingInput fl → F
  leverage_notional sizing =
      let balance =
        Float.min fl sizing.account_capital_usdt
          (or_default sizing.available_balance_usdt sizing.account_capital_usdt) in
      mul
        (Float.min fl sizing.max_margin_per_position_usdt (mul balance sizing.max_margin_fraction))
        sizing.max_leverage

  -- `max(0.0, min(candidates))`
  unfoldable pub sized_notional : SizingInput fl → F
  sized_notional sizing = Float.max fl (lit 0 0) (
      least sizing.max_effective_notional_usdt
        (leverage_notional sizing ∷ optional (risk_based_notional sizing)))

  abbrev below : F → Option F → Bool
  below x none = false
  below x (some bound) = lt x bound

  abbrev has_risk_cap : Option F → List String
  has_risk_cap none = []
  has_risk_cap (some x) = "stop_risk_cap" ∷ []

  -- `compute_position_sizing`
  unfoldable pub compute_position_sizing : SizingInput fl → Bool → SizingResult fl
  compute_position_sizing sizing false = record {
    enabled = false;
    max_position_notional_usdt = sizing.fixed_max_notional_usdt;
    fixed_max_notional_usdt = sizing.fixed_max_notional_usdt;
    max_position_margin_usdt = margin_of sizing.fixed_max_notional_usdt sizing.max_leverage;
    reasons = "fixed_notional_cap" ∷ [];
    warnings = [];
  }
  compute_position_sizing sizing true =
      let notional = sized_notional sizing in
      record {
        enabled = true;
        max_position_notional_usdt = fl.round 8 notional;
        fixed_max_notional_usdt = sizing.fixed_max_notional_usdt;
        max_position_margin_usdt = fl.round 8 (margin_of notional sizing.max_leverage);
        reasons =
            "effective_notional_cap"
            ∷ "margin_fraction_cap"
            ∷ has_risk_cap (risk_based_notional sizing);
        warnings =
            if below notional sizing.min_executable_notional_usdt
            then "below_min_executable_notional" ∷ []
            else [];
      }

  -- `_float_or_none(config.get(key)) or default`
  unfoldable pub number_setting : AppConfig → String → F → F
  number_setting config key default = Float.or_else fl (fl.parse (setting config key "")) default

  abbrev pub is_positive : F → Bool
  is_positive x = lt (lit 0 0) x

  -- `min(positive) if positive else 0.0`, of the positive ones of some values.
  abbrev pub least_or_zero : List F → F
  least_or_zero [] = lit 0 0
  least_or_zero (x ∷ xs) = least x xs

  -- `_portfolio_margin_cap`
  unfoldable pub portfolio_margin_cap : AppConfig → F
  portfolio_margin_cap config =
      let absolute = number_setting config "BFA_MAX_PORTFOLIO_MARGIN_USDT" (lit 0 0) in
      let capital = number_setting config "BFA_ACCOUNT_CAPITAL_USDT" (lit 0 0) in
      let fraction = number_setting config "BFA_MAX_PORTFOLIO_MARGIN_FRACTION" (lit 0 0) in
      least_or_zero (select is_positive (absolute ∷ mul capital fraction ∷ []))

  -- `_portfolio_remaining_margin`
  unfoldable pub portfolio_remaining_margin : AppConfig → Option (RiskState fl) → Option F
  portfolio_remaining_margin config none = none
  portfolio_remaining_margin config (some state) =
      let cap = portfolio_margin_cap config in
      if le cap (lit 0 0) then none else some (sub cap (active_initial_margin fl state))

  -- A margin that is left, at the leverage.
  unfoldable pub at_leverage : F → Option F → List F
  at_leverage leverage none = []
  at_leverage leverage (some margin) = mul (Float.max fl (lit 0 0) margin) leverage ∷ []

  unfoldable pub balance_of : Option (RiskState fl) → Option F
  balance_of none = none
  balance_of (some state) = state.account_available_balance_usdt

  -- The cap of the risk of a trade, where the distance of the stop is known.
  unfoldable pub stop_cap : AppConfig → Option F → List F
  stop_cap config none = []
  stop_cap config (some percent) =
      if is_positive percent
      then div (number_setting config "BFA_MAX_RISK_PER_TRADE_USDT" (lit 0 0))
          (div percent (lit 100 0))
        ∷ []
      else []

  -- The values of `cap_candidates`.
  unfoldable pub cap_candidates : AppConfig → Option F → Option (RiskState fl) → F → List F
  cap_candidates config percent state leverage =
      (number_setting config "BFA_MAX_POSITION_NOTIONAL_USDT" (lit 0 0)
        ∷ number_setting config "BFA_MAX_EFFECTIVE_NOTIONAL_USDT" (lit 0 0)
        ∷ stop_cap config percent)
      ++ (at_leverage leverage (balance_of state)
          ++ at_leverage leverage (portfolio_remaining_margin config state))

  -- `_hard_cap_notional`
  unfoldable pub hard_cap_notional : AppConfig → Option F → Option (RiskState fl) → F → F
  hard_cap_notional config percent state leverage =
      least_or_zero (select is_positive (cap_candidates config percent state leverage))

  -- `expansion_allowed`, from the signal quality, the multiplier and `guard_downsize_active`.
  unfoldable pub expansion_allowed : F → F → Bool → Bool
  expansion_allowed quality multiplier downsizing =
      le (lit 1 0) quality && (le (lit 95 2) multiplier && not downsizing)

  -- `target_notional` before the least that can be executed.
  unfoldable pub target_notional : F → F → F → F → Bool → F
  target_notional cap base multiplier quality downsizing =
      if expansion_allowed quality multiplier downsizing
      then Float.min fl cap (Float.max fl base (mul cap multiplier))
      else if downsizing
      then Float.min fl cap (mul base multiplier)
      else Float.min fl base (mul cap multiplier)

  -- The target raised to the least that can be executed; nothing where that is above the cap.
  unfoldable pub executable_target : F → Option F → F → Option F
  executable_target cap none target = some target
  executable_target cap (some minimum) target =
      if lt target minimum then if le minimum cap then some minimum else none else some target

  -- The notional of `apply_adaptive_sizing_governor` from its components on, rounded; nothing where it
  -- rejects.
  unfoldable pub governed_notional : F → F → F → F → Bool → Option F → Option F
  governed_notional cap base multiplier quality downsizing minimum =
      elim (executable_target cap minimum
        (target_notional cap base multiplier quality downsizing)) [
          | none ↦ none
          | some target ↦ some (fl.round 8 target)
        ]

unfoldable pub sizing_ops : Unit {0}
unfolding least margin_of notional_of_risk risk_based_notional leverage_notional sized_notional
    compute_position_sizing number_setting portfolio_margin_cap portfolio_remaining_margin
    at_leverage balance_of stop_cap cap_candidates hard_cap_notional expansion_allowed
    target_notional executable_target governed_notional select
sizing_ops = tt

-- ===== src/Risk/Clear.antt =====
-- When no gate of src/bfa/execution/risk.py stops an intent, part by part.
use binance_future_agent.Base.{
  String, Bool, true, false, Option, none, some, ◌==◌, ◌≡◌, ◌↔◌, ◌⊎◌, arith, is_empty,
  is_empty-append,
}
use binance_future_agent.Base.Int.{pos, ◌≤ℤ◌, ltb_ℤ}
use binance_future_agent.Base.Float.{Float}
use binance_future_agent.Base.Text.{is_blank}
use binance_future_agent.Config.{
  Mode, AppConfig, setting, float_config, multi_position_enabled, opposite_positions_enabled,
}
use binance_future_agent.Models.{
  DecisionValidationResult, RiskLimits, OrderIntent, RiskState, daily_loss,
  estimated_initial_margin,
}
use binance_future_agent.Decision.{estimate_stop_risk_usdt}
use binance_future_agent.Risk.{
  duplicate_exposure, opposite_exposure, effective_max_open_positions, effective_same_direction_cap,
  margin_after_entry, notional_after_entry, same_direction_notional_after_entry, kill_switch_active,
  is_live, still_cooling, decision_reasons, size_reasons, position_reasons, balance_short,
  portfolio_reasons, risk_too_high, live_reasons, all_reasons,
}

module _ (fl : Float) (exists : String → Bool) (limits : RiskLimits fl) (state : RiskState fl)
    (mode : Mode) (config : AppConfig) (now : String) (intent : OrderIntent fl)
    (v : DecisionValidationResult fl) where
  open fl use {F, lt, le, mul, of_int}

  abbrev pub WhenSome : {A : Type 0} → Option A → (A → Type 0) → Type 0
  WhenSome none P = Unit
  WhenSome (some x) P = P x

  -- An intent that no gate stops.
  pub record IsClear : Type 0 where
    pub decision_accepted : v.accepted ≡ true
    pub decision_trades : WhenSome v.decision (λ d. (d.decision == "pass") ≡ false)
    pub notional : lt limits.max_position_notional_usdt intent.notional_usdt ≡ false
    pub leverage : lt limits.max_leverage (of_int intent.leverage) ≡ false
    pub losses : le limits.max_daily_loss_usdt (daily_loss fl state) ≡ false
    pub single : (multi_position_enabled config ≡ true) ⊎ (state.active_positions ≤ℤ pos 0)
    pub room :
        ltb_ℤ state.active_positions (effective_max_open_positions fl intent limits config) ≡ true
    pub no_duplicate : duplicate_exposure fl intent state ≡ false
    pub no_opposite :
        (opposite_exposure fl intent state ≡ false) ⊎ (opposite_positions_enabled config ≡ true)
    pub margin :
        lt
          (float_config fl config "BFA_MAX_PORTFOLIO_MARGIN_USDT")
          (margin_after_entry fl intent state)
        ≡ false
    pub margin_fraction :
        lt
          (mul
            (float_config fl config "BFA_ACCOUNT_CAPITAL_USDT")
            (float_config fl config "BFA_MAX_PORTFOLIO_MARGIN_FRACTION"))
          (margin_after_entry fl intent state)
        ≡ false
    pub balance :
        WhenSome state.account_available_balance_usdt
          (λ available. lt available (estimated_initial_margin fl intent) ≡ false)
    pub portfolio_notional :
        lt
          (float_config fl config "BFA_MAX_PORTFOLIO_NOTIONAL_USDT")
          (notional_after_entry fl intent state)
        ≡ false
    pub same_direction :
        lt
          (effective_same_direction_cap fl intent config)
          (same_direction_notional_after_entry fl intent state)
        ≡ false
    pub cooled : still_cooling state.cooldown_until now ≡ false
    pub stop_risk :
        WhenSome v.decision
          (λ d. lt limits.max_risk_per_trade_usdt (estimate_stop_risk_usdt fl d) ≡ false)
    pub may_go_live :
        (is_live mode ≡ false)
        ⊎ ((kill_switch_active exists (setting config "BFA_KILL_SWITCH_FILE" "") ≡ false)
            × (is_blank (setting config "BINANCE_API_KEY" "") ≡ false)
            × (is_blank (setting config "BINANCE_API_SECRET" "") ≡ false))

  -- The six lists of reasons, all empty.
  abbrev pub NoReasons : Type 0
  NoReasons =
      (is_empty (decision_reasons fl exists v) ≡ true)
      × (is_empty (size_reasons fl exists limits state mode config now intent) ≡ true)
      × (is_empty (position_reasons fl exists limits state mode config now intent) ≡ true)
      × (is_empty (portfolio_reasons fl exists limits state mode config now intent) ≡ true)
      × (risk_too_high fl exists limits state mode config now intent v.decision ≡ false)
      × (is_empty (live_reasons fl exists limits state mode config now intent) ≡ true)

  pub all_reasons-NoReasons :
      (is_empty (all_reasons fl exists limits state mode config now intent v) ≡ true) ↔ NoReasons
  unfolding all_reasons
  all_reasons-NoReasons =
      rw (is_empty-append, is_empty-append, is_empty-append, is_empty-append, is_empty-append)
        (ground arith)

  decision_clear :
      (is_empty (decision_reasons fl exists v) ≡ true)
      ↔ ((v.accepted ≡ true) × WhenSome v.decision (λ d. (d.decision == "pass") ≡ false))
  unfolding decision_reasons
  decision_clear = ground arith

  size_clear : (is_empty (size_reasons fl exists limits state mode config now intent) ≡ true) ↔ (
      (lt limits.max_position_notional_usdt intent.notional_usdt ≡ false)
      × (lt limits.max_leverage (of_int intent.leverage) ≡ false)
      × (le limits.max_daily_loss_usdt (daily_loss fl state) ≡ false))
  unfolding size_reasons
  size_clear = ground arith

  position_clear :
      (is_empty (position_reasons fl exists limits state mode config now intent) ≡ true) ↔ (
        ((multi_position_enabled config ≡ true) ⊎ (state.active_positions ≤ℤ pos 0))
        × (ltb_ℤ state.active_positions (effective_max_open_positions fl intent limits config)
            ≡ true)
        × (duplicate_exposure fl intent state ≡ false)
        × ((opposite_exposure fl intent state ≡ false)
            ⊎ (opposite_positions_enabled config ≡ true)))
  unfolding position_reasons
  position_clear = ground arith

  portfolio_clear :
      (is_empty (portfolio_reasons fl exists limits state mode config now intent) ≡ true) ↔ (
        (lt
            (float_config fl config "BFA_MAX_PORTFOLIO_MARGIN_USDT")
            (margin_after_entry fl intent state)
          ≡ false)
        × (lt
              (mul
                (float_config fl config "BFA_ACCOUNT_CAPITAL_USDT")
                (float_config fl config "BFA_MAX_PORTFOLIO_MARGIN_FRACTION"))
              (margin_after_entry fl intent state)
            ≡ false)
        × WhenSome state.account_available_balance_usdt
            (λ available. lt available (estimated_initial_margin fl intent) ≡ false)
        × (lt
              (float_config fl config "BFA_MAX_PORTFOLIO_NOTIONAL_USDT")
              (notional_after_entry fl intent state)
            ≡ false)
        × (lt
              (effective_same_direction_cap fl intent config)
              (same_direction_notional_after_entry fl intent state)
            ≡ false)
        × (still_cooling state.cooldown_until now ≡ false))
  unfolding portfolio_reasons balance_short
  portfolio_clear = ground arith

  risk_clear :
      (risk_too_high fl exists limits state mode config now intent v.decision ≡ false)
      ↔ WhenSome v.decision
          (λ d. lt limits.max_risk_per_trade_usdt (estimate_stop_risk_usdt fl d) ≡ false)
  unfolding risk_too_high
  risk_clear = ground arith

  live_clear : (is_empty (live_reasons fl exists limits state mode config now intent) ≡ true) ↔ (
      (is_live mode ≡ false)
      ⊎ ((kill_switch_active exists (setting config "BFA_KILL_SWITCH_FILE" "") ≡ false)
          × (is_blank (setting config "BINANCE_API_KEY" "") ≡ false)
          × (is_blank (setting config "BINANCE_API_SECRET" "") ≡ false)))
  unfolding live_reasons
  live_clear = ground arith

  pub NoReasons-IsClear : NoReasons ↔ IsClear
  NoReasons-IsClear = (
    (λ n.
        let (accepted, trades) = decision_clear.0 n.0 in
        let (notional, leverage, losses) = size_clear.0 n.1 in
        let (single, room, no_duplicate, no_opposite) = position_clear.0 n.2 in
        let (margin, fraction, balance, total, same, cooled) = portfolio_clear.0 n.3 in
        record {
          decision_accepted = accepted;
          decision_trades = trades;
          notional = notional;
          leverage = leverage;
          losses = losses;
          single = single;
          room = room;
          no_duplicate = no_duplicate;
          no_opposite = no_opposite;
          margin = margin;
          margin_fraction = fraction;
          balance = balance;
          portfolio_notional = total;
          same_direction = same;
          cooled = cooled;
          stop_risk = risk_clear.0 n.4;
          may_go_live = live_clear.0 n.5;
        }),
    (λ c. (
      decision_clear.1 (c.decision_accepted, c.decision_trades),
      size_clear.1 (c.notional, c.leverage, c.losses),
      position_clear.1 (c.single, c.room, c.no_duplicate, c.no_opposite),
      portfolio_clear.1 (
        c.margin, c.margin_fraction, c.balance, c.portfolio_notional, c.same_direction, c.cooled,
      ),
      risk_clear.1 c.stop_risk,
      live_clear.1 c.may_go_live,
    )),
  )

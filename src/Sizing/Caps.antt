-- ===== src/Sizing/Caps.antt =====
-- The caps on a notional.
use binance_future_agent.Base.{
  Bool, true, false, Option, none, some, List, [], ◌∷◌, ◌++◌, ◌≡◌, refl, sym, ap, subst, ◌⊎◌, ◌∙◌,
  All, select, select-append, arith, Bool-cases, inl, inr,
}
use binance_future_agent.Base.Float
use binance_future_agent.Base.Float.{Float, IsOrdered}
use binance_future_agent.Config.{AppConfig}
use binance_future_agent.Models.{RiskState, active_initial_margin}
use binance_future_agent.Executor.Protection.{Called}
use binance_future_agent.Sizing.Defs.{
  portfolio_margin_cap, least, is_positive, least_or_zero, at_leverage, balance_of, stop_cap,
  portfolio_remaining_margin, cap_candidates, hard_cap_notional, number_setting,
}

All-Called : {A : Type 0} (P : A → Type 0) (xs : List A) (x : A) → All P xs → Called x xs → P x
All-Called P [] x all h = absurd h
All-Called P (y ∷ ys) x all (inl same) = subst P (sym same) all.0
All-Called P (y ∷ ys) x all (inr later) = All-Called P ys x all.1 later

Called-select :
    {A : Type 0} (test : A → Bool) (xs : List A) (x : A)
    → test x ≡ true
    → Called x xs
    → Called x (select test xs)
unfolding select
Called-select test [] x passes h = h
Called-select test (y ∷ ys) x passes (inl same) =
    let kept : test y ≡ true = rw (sym same) passes in rw kept (inl same)
Called-select test (y ∷ ys) x passes (inr later) = elim (Bool-cases (test y)) [
  | inl kept ↦ rw kept (inr (Called-select test ys x passes later))
  | inr dropped ↦ rw dropped (Called-select test ys x passes later)
]

Called-++ : {A : Type 0} (xs ys : List A) (x : A) → Called x xs ⊎ Called x ys → Called x (xs ++ ys)
Called-++ [] ys x (inl h) = absurd h
Called-++ [] ys x (inr h) = h
Called-++ (z ∷ zs) ys x (inl (inl same)) = inl same
Called-++ (z ∷ zs) ys x (inl (inr later)) = inr (Called-++ zs ys x (inl later))
Called-++ (z ∷ zs) ys x (inr h) = inr (Called-++ zs ys x (inr h))

module _ (fl : Float) where
  open fl use {F, lt, le, lit, mul, div, sub}

  -- The caps on a notional: the two that the configuration names, the risk of a trade over the distance
  -- of its stop, the available balance at the leverage, and what is left of the margin of the portfolio
  -- at the leverage, where it is capped.
  pub data IsCap (config : AppConfig) (percent : Option F) (state : Option (RiskState fl))
      (leverage : F) : F → Type 0 where
    position_notional :
        IsCap config percent state leverage
          (number_setting fl config "BFA_MAX_POSITION_NOTIONAL_USDT" (lit 0 0))
    effective_notional :
        IsCap config percent state leverage
          (number_setting fl config "BFA_MAX_EFFECTIVE_NOTIONAL_USDT" (lit 0 0))
    risk_over_stop :
        (p : F)
        → percent ≡ some p
        → lt (lit 0 0) p ≡ true
        → IsCap config percent state leverage (
            div
              (number_setting fl config "BFA_MAX_RISK_PER_TRADE_USDT" (lit 0 0))
              (div p (lit 100 0)))
    balance_at_leverage :
        (s : RiskState fl) (balance : F)
        → state ≡ some s
        → s.account_available_balance_usdt ≡ some balance
        → IsCap config percent state leverage (mul (Float.max fl (lit 0 0) balance) leverage)
    margin_at_leverage :
        (s : RiskState fl)
        → state ≡ some s
        → le (portfolio_margin_cap fl config) (lit 0 0) ≡ false
        → IsCap config percent state leverage (
            mul
              (Float.max fl
                (lit 0 0)
                (sub (portfolio_margin_cap fl config) (active_initial_margin fl s)))
              leverage)

  IsCap-Called :
      (config : AppConfig) (percent : Option F) (state : Option (RiskState fl)) (leverage x : F)
      → IsCap config percent state leverage x
      → Called x (cap_candidates fl config percent state leverage)
  unfolding cap_candidates stop_cap at_leverage balance_of portfolio_remaining_margin
  IsCap-Called config percent state leverage x position_notional = inl refl
  IsCap-Called config percent state leverage x effective_notional = inr (inl refl)
  IsCap-Called config percent state leverage x (risk_over_stop p given above) =
      rw (given, above) (inr (inr (inl refl)))
  IsCap-Called config percent state leverage x (balance_at_leverage s balance known there) = inr (
      inr (
        Called-++ (stop_cap fl config percent) _ _ (
          inr (
            Called-++ (at_leverage fl leverage (balance_of fl state)) _ _
              (inl (rw (known, there) (inl refl)))))))
  IsCap-Called config percent state leverage x (margin_at_leverage s known capped) = inr (
      inr (
        Called-++ (stop_cap fl config percent) _ _ (
          inr (
            Called-++ (at_leverage fl leverage (balance_of fl state)) _ _
              (inr (rw (known, capped) (inl refl)))))))

module _ (fl : Float) (laws : IsOrdered fl) where
  open fl use {F, lt, le, eq, lit}

  abbrev IsNumber : F → Type 0
  IsNumber x = eq x x ≡ true

  min-le :
      (a x : F)
      → IsNumber a
      → IsNumber x
      → (le (Float.min fl a x) a ≡ true)
        × (le (Float.min fl a x) x ≡ true)
        × IsNumber (Float.min fl a x)
  min-le a x na nx = ground (
    arith,
    laws.lt-le x a,
    laws.le_of_not_lt a a na na (laws.lt_irrefl a),
    laws.le_of_not_lt x x nx nx (laws.lt_irrefl x),
    laws.le_of_not_lt x a nx na,
  )

  least-le :
      (a : F) (xs : List F)
      → IsNumber a
      → All IsNumber xs
      → (le (least fl a xs) a ≡ true) × All (λ x. le (least fl a xs) x ≡ true) xs
  unfolding least
  least-le a [] na ns = (laws.le_of_not_lt a a na na (laws.lt_irrefl a), tt)
  least-le a (x ∷ xs) na (nx, ns) =
      let (first, second, number) = min-le a x na nx in
      let (below, rest) = least-le (Float.min fl a x) xs number ns in
      (
        laws.le_trans _ (Float.min fl a x) a below first,
        (laws.le_trans _ (Float.min fl a x) x below second, rest),
      )

  positive-IsNumber : (xs : List F) → All IsNumber (select (is_positive fl) xs)
  unfolding select
  positive-IsNumber [] = tt
  positive-IsNumber (x ∷ xs) = elim (Bool-cases (is_positive fl x)) [
    | inl above ↦ rw above ((laws.lt-is_number (lit 0 0) x above).1, positive-IsNumber xs)
    | inr other ↦ rw other (positive-IsNumber xs)
  ]

  least_or_zero-le :
      (xs : List F) → All IsNumber xs → All (λ x. le (least_or_zero fl xs) x ≡ true) xs
  least_or_zero-le [] ns = tt
  least_or_zero-le (x ∷ xs) ns = least-le x xs ns.0 ns.1

  -- Every cap above zero is at or above the hard cap: those of the configuration, the risk of a trade
  -- over the distance of its stop, the available balance at the leverage, and the margin left of the
  -- portfolio at the leverage; in every float order with the laws of IEEE doubles.
  pub hard_cap_notional-le :
      (config : AppConfig) (percent : Option F) (state : Option (RiskState fl)) (leverage x : F)
      → IsCap fl config percent state leverage x
      → lt (lit 0 0) x ≡ true
      → le (hard_cap_notional fl config percent state leverage) x ≡ true
  unfolding hard_cap_notional
  hard_cap_notional-le config percent state leverage x is_cap above =
      All-Called _ _ x
        (least_or_zero-le _ (positive-IsNumber (cap_candidates fl config percent state leverage)))
        (Called-select (is_positive fl) (cap_candidates fl config percent state leverage) x above
          (IsCap-Called fl config percent state leverage x is_cap))

module _ (fl : Float) where
  open fl use {F, mul, lt, lit}

  used_up :
      (leverage balance : F)
      → lt (lit 0 0) balance ≡ false
      → lt (lit 0 0) (mul (lit 0 0) leverage) ≡ false
      → select (is_positive fl) (at_leverage fl leverage (some balance)) ≡ []
  unfolding select at_leverage
  used_up leverage balance empty nothing = rw (empty, nothing) refl

  dropped :
      (xs cs ys : List F)
      → select (is_positive fl) cs ≡ []
      → select (is_positive fl) (xs ++ (cs ++ ys)) ≡ select (is_positive fl) (xs ++ ys)
  dropped xs cs ys none_left =
      select-append (is_positive fl) xs (cs ++ ys)
      ∙ ap (select (is_positive fl) xs ++◌)
          (select-append (is_positive fl) cs ys ∙ ap (◌++ select (is_positive fl) ys) none_left)
      ∙ sym (select-append (is_positive fl) xs ys)

  -- Where the available balance is not above zero, and zero times the leverage is not either, the
  -- hard cap is what it is where no balance is known.
  pub hard_cap_notional-no_balance :
      (config : AppConfig) (percent : Option F) (state : RiskState fl) (leverage balance : F)
      → state.account_available_balance_usdt ≡ some balance
      → lt (lit 0 0) balance ≡ false
      → lt (lit 0 0) (mul (lit 0 0) leverage) ≡ false
      → hard_cap_notional fl config percent (some state) leverage
        ≡ hard_cap_notional fl config percent
            (some (record state { account_available_balance_usdt = none }))
            leverage
  unfolding hard_cap_notional cap_candidates balance_of at_leverage portfolio_remaining_margin
      active_initial_margin
  hard_cap_notional-no_balance config percent state leverage balance known empty nothing =
      let front =
        number_setting fl config "BFA_MAX_POSITION_NOTIONAL_USDT" (lit 0 0)
        ∷ number_setting fl config "BFA_MAX_EFFECTIVE_NOTIONAL_USDT" (lit 0 0)
        ∷ stop_cap fl config percent in
      let back = at_leverage fl leverage (portfolio_remaining_margin fl config (some state)) in
      ap
        (λ b.
          least_or_zero fl (select (is_positive fl) (front ++ (at_leverage fl leverage b ++ back))))
        known
      ∙ ap (least_or_zero fl) (
          dropped front (at_leverage fl leverage (some balance)) back
            (used_up leverage balance empty nothing))

-- ===== src/Sizing/Governed.antt =====
-- The notional of the governor against its hard cap.
use binance_future_agent.Base.{
  Bool, true, false, Option, none, some, ◌≡◌, refl, ◌||◌, arith, Bool-cases, inl, inr,
}
use binance_future_agent.Base.Float
use binance_future_agent.Base.Float.{Float, IsOrdered}
use binance_future_agent.Sizing.Defs.{
  expansion_allowed, target_notional, executable_target, governed_notional,
}

module _ (fl : Float) (laws : IsOrdered fl) where
  open fl use {F, mul, lt, le, eq}

  -- A target at or below the cap; where there is none, a least notional was asked for that is not.
  abbrev IsWithin : F → Option F → Option F → Type 0
  IsWithin bound minimum none = (least : F) × (minimum ≡ some least) × (le least bound ≡ false)
  IsWithin bound minimum (some target) = le target bound ≡ true

  -- The same of a rounded target, against the rounded cap.
  abbrev pub IsCapped : F → Option F → Option F → Type 0
  IsCapped bound minimum none = (least : F) × (minimum ≡ some least) × (le least bound ≡ false)
  IsCapped bound minimum (some notional) = le notional (fl.round 8 bound) ≡ true

  min_cap-le : (bound x : F) → eq bound bound ≡ true → le (Float.min fl bound x) bound ≡ true
  min_cap-le bound x number = ground (
    arith,
    laws.lt-le x bound,
    laws.le_of_not_lt bound bound number number (laws.lt_irrefl bound),
  )

  executable-IsWithin :
      (bound target : F) (minimum : Option F)
      → le target bound ≡ true
      → IsWithin bound minimum (executable_target fl bound minimum target)
  unfolding executable_target
  executable-IsWithin bound target none h = h
  executable-IsWithin bound target (some minimum) h = elim (Bool-cases (lt target minimum)) [
    | inr enough ↦ rw enough h
    | inl short ↦ elim (Bool-cases (le minimum bound)) [
      | inl fits ↦ rw (short, fits) fits
      | inr too_much ↦ rw (short, too_much) (minimum, refl, too_much)
    ]
  ]

  target-le :
      (bound base multiplier quality : F) (downsizing : Bool)
      → eq bound bound ≡ true
      → (expansion_allowed fl quality multiplier downsizing || downsizing) ≡ true
      → le (target_notional fl bound base multiplier quality downsizing) bound ≡ true
  unfolding target_notional
  target-le bound base multiplier quality downsizing number h =
      elim (Bool-cases (expansion_allowed fl quality multiplier downsizing)) [
        | inl expands ↦
            rw expands (min_cap-le bound (Float.max fl base (mul bound multiplier)) number)
        | inr plain ↦
            let down : downsizing ≡ true = ground arith in
            rw (plain, down) (min_cap-le bound (mul base multiplier) number)
      ]

  rounded-IsCapped :
      ((a b : F) → le a b ≡ true → le (fl.round 8 a) (fl.round 8 b) ≡ true)
      → (bound : F) (minimum target : Option F) → IsWithin bound minimum target
      → IsCapped bound minimum (elim target [ none ↦ none | some t ↦ some (fl.round 8 t) ])
  rounded-IsCapped monotone bound minimum none h = h
  rounded-IsCapped monotone bound minimum (some t) h = monotone t bound h

  -- Where the governor expands or downsizes by its guard, the hard cap is a number, and rounding keeps
  -- the order, the notional it trades is at or below the hard cap that it reports, both rounded to
  -- eight places; and where it gives none, the least notional asked for is not within the hard cap.
  pub governed_notional-IsCapped :
      (bound base multiplier quality : F) (downsizing : Bool) (minimum : Option F)
      → ((a b : F) → le a b ≡ true → le (fl.round 8 a) (fl.round 8 b) ≡ true)
      → eq bound bound ≡ true
      → (expansion_allowed fl quality multiplier downsizing || downsizing) ≡ true
      → IsCapped bound minimum
          (governed_notional fl bound base multiplier quality downsizing minimum)
  unfolding governed_notional
  governed_notional-IsCapped bound base multiplier quality downsizing minimum monotone number h =
      rounded-IsCapped monotone bound minimum _ (
        executable-IsWithin bound _ minimum
          (target-le bound base multiplier quality downsizing number h))

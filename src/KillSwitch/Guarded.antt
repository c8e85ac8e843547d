-- ===== src/KillSwitch/Guarded.antt =====
-- The clearance of the kill switch, against the positions and the open orders of the exchange.
use binance_future_agent.Base.{
  String, Bool, true, false, List, [], ◌∷◌, ◌≡◌, refl, subst, ◌⊎◌, inl, inr, All, any, select, map,
  Bool-cases, arith, ==_iff, if◌then◌else◌,
}
use binance_future_agent.Base.Float.{Float}
use binance_future_agent.Base.Text.{upper}
use binance_future_agent.Base.Json.{Dict, get, text_or_blank}
use binance_future_agent.Config.{AppConfig, setting}
use binance_future_agent.Risk.{kill_switch_active}
use binance_future_agent.Executor.{
  Outcome, ok, err, Exchange, World, position_risk, open_algo_orders, fetch,
}
use binance_future_agent.Executor.Protection.{Called, any-Called}
use binance_future_agent.KillSwitch.Defs.{
  Files, renamed, archived, ProtectionCheck, ClearanceReport, amount_of, closes_position,
  is_open_position, is_closing_order, has_order_type, check_of, cleared, reported,
  position_protection_checks, build_clearance_report,
}
use binance_future_agent.KillSwitch.Clearance.{HasBoth, IsSafe, reported-IsSafe}

select-Called :
    {A : Type 0} (test : A → Bool) (xs : List A) (x : A)
    → Called x (select test xs)
    → Called x xs × (test x ≡ true)
unfolding select
select-Called test [] x h = absurd h
select-Called test (y ∷ ys) x h = elim (Bool-cases (test y)) [
  | inl kept ↦ elim (rw kept at h) [
    | inl here ↦ (inl here, rw here kept)
    | inr later ↦ let (among, passes) = select-Called test ys x later in (inr among, passes)
  ]
  | inr dropped ↦
      let (among, passes) = select-Called test ys x (rw dropped at h) in (inr among, passes)
]

module _ {fl : Float} where
  open fl use {lt, eq, lit}

  -- An open order that closes a position, of a type, among some orders.
  abbrev pub IsCovered : List (Dict fl) → Dict fl → String → Type 0
  IsCovered orders position kind =
      (order : Dict fl) × Called order orders
      × (upper (text_or_blank (get order "symbol")) ≡ upper (text_or_blank (get position "symbol")))
      × (upper (text_or_blank (get order "side"))
          ≡ (if lt (lit 0 0) (amount_of position) then "SELL" else "BUY"))
      × (closes_position (get order "closePosition") ≡ true)
      × (upper (text_or_blank (get order "orderType")) ≡ kind)

  covered :
      (orders : List (Dict fl)) (position : Dict fl) (kind : String)
      → any (has_order_type kind) (select (is_closing_order position) orders) ≡ true
      → IsCovered orders position kind
  unfolding has_order_type is_closing_order
  covered orders position kind h =
      let (order, among, kind_is) = any-Called (has_order_type kind) _ h in
      let (there, closing) = select-Called (is_closing_order position) orders order among in
      let symbol = upper (text_or_blank (get order "symbol")) in
      let side = upper (text_or_blank (get order "side")) in
      (
        order,
        there,
        ground (arith, ==_iff symbol (upper (text_or_blank (get position "symbol")))),
        ground (arith, ==_iff side (if lt (lit 0 0) (amount_of position) then "SELL" else "BUY")),
        ground arith,
        ground (arith, ==_iff (upper (text_or_blank (get order "orderType"))) kind),
      )

  -- Every position of some, where it is not zero, has its two closing orders among some others.
  abbrev pub AreCovered : List (Dict fl) → List (Dict fl) → Type 0
  AreCovered orders positions =
      All
        (λ position.
          (eq (amount_of position) (lit 0 0) ≡ true)
          ⊎ (IsCovered orders position "STOP_MARKET"
              × IsCovered orders position "TAKE_PROFIT_MARKET"))
        positions

  checks-AreCovered :
      (orders positions : List (Dict fl))
      → All HasBoth (map (check_of orders) (select is_open_position positions))
      → AreCovered orders positions
  unfolding select check_of is_open_position
  checks-AreCovered orders [] h = tt
  checks-AreCovered orders (position ∷ positions) h =
      elim (Bool-cases (eq (amount_of position) (lit 0 0))) [
        | inl zero_size ↦ (inl zero_size, checks-AreCovered orders positions (rw zero_size at h))
        | inr open_size ↦
            let both : All HasBoth (
                check_of orders position
                ∷ map (check_of orders) (select is_open_position positions)) =
              rw open_size at h in
            (
              inr (
                covered orders position "STOP_MARKET" both.0.0,
                covered orders position "TAKE_PROFIT_MARKET" both.0.1,
              ),
              checks-AreCovered orders positions both.1,
            )
      ]

  -- A report, with the files, from the answers of the exchange: the switch was there, every position that
  -- is not zero is covered, the file was renamed and the risk gate finds none; or the files are as they
  -- were.
  abbrev pub IsGuardedBy :
      String
      → String
      → Files
      → Outcome (List (Dict fl))
      → Outcome (List (Dict fl))
      → Outcome (ClearanceReport fl) × Files
      → Type 0
  IsGuardedBy path stamp files positions orders (err e, files') = files' ≡ files
  IsGuardedBy path stamp files positions orders (ok report, files') =
      ((report.executed ≡ true)
        × (files path ≡ true)
        × ((listed : List (Dict fl)) × (held : List (Dict fl)) × (orders ≡ ok listed)
            × (positions ≡ ok held)
            × AreCovered listed held)
        × (files' ≡ renamed path (archived path stamp) files)
        × (kill_switch_active files' path ≡ false))
      ⊎ ((report.executed ≡ false) × (files' ≡ files))

  reported-IsGuardedBy :
      (path stamp : String) (files : Files) (orders positions : List (Dict fl))
      → (report : ClearanceReport fl) (files' : Files)
      → report.position_checks ≡ map (check_of orders) (select is_open_position positions)
      → IsSafe path stamp files (ok report, files')
      → IsGuardedBy path stamp files (ok positions) (ok orders) (ok report, files')
  reported-IsGuardedBy path stamp files orders positions report files' checks
        (inl (done, there, both, moved, none_found)) =
      inl (
        done,
        there,
        (
          orders,
          positions,
          refl,
          refl,
          checks-AreCovered orders positions (subst (All HasBoth) checks both),
        ),
        moved,
        none_found,
      )
  reported-IsGuardedBy path stamp files orders positions report files' checks (inr kept) = inr kept

module _ {fl : Float} {ex : Exchange fl} where
  abbrev pub IsGuarded :
      String → String → Files → World fl ex → Outcome (ClearanceReport fl) × Files → Type 0
  IsGuarded path stamp files w =
      IsGuardedBy path stamp files (fetch (position_risk "") w).0
        (fetch (open_algo_orders "") (fetch (position_risk "") w).1).0

  checks-IsGuarded :
      (path stamp : String) (execute : Bool) (files : Files)
      (positions orders : Outcome (List (Dict fl)) × World fl ex)
      → IsGuardedBy path stamp files positions.0 orders.0 (
          reported path stamp execute files
            (elim positions.0 as (λ r. Outcome (List (ProtectionCheck fl)) × World fl ex) [
              | ok held ↦
                  elim orders.0 as (λ r. Outcome (List (ProtectionCheck fl)) × World fl ex) [
                    | ok listed ↦
                        (ok (map (check_of listed) (select is_open_position held)), orders.1)
                    | err e ↦ (err e, orders.1)
                  ]
              | err e ↦ (err e, positions.1)
            ]).0)
  unfolding cleared
  checks-IsGuarded path stamp execute files (err e, w) orders = refl
  checks-IsGuarded path stamp execute files (ok held, w) (err e, w') = refl
  checks-IsGuarded path stamp execute files (ok held, w) (ok listed, w') =
      let checks = map (check_of listed) (select is_open_position held) in
      let made = cleared path stamp execute files checks in
      reported-IsGuardedBy path stamp files listed held made.0 made.1 refl
        (reported-IsSafe path stamp execute files (ok checks))

  -- However the exchange behaves, the clearance renames the kill switch file only where it is there,
  -- and, for every position of the exchange that is not zero, a stop order and a target order of its
  -- symbol that close it are among the open orders of the exchange; the risk gate finds no switch
  -- then. Else, and on an error, it leaves the files as they were.
  pub build_clearance_report-IsGuarded :
      (config : AppConfig) (stamp : String) (execute : Bool) (files : Files) (w : World fl ex)
      → IsGuarded
          (setting config "BFA_KILL_SWITCH_FILE" "")
          stamp
          files
          w
          (build_clearance_report config stamp execute files w).0
  unfolding build_clearance_report position_protection_checks
  build_clearance_report-IsGuarded config stamp execute files w =
      let held = fetch (position_risk "") w in
      let listed = fetch (open_algo_orders "") held.1 in
      checks-IsGuarded (setting config "BFA_KILL_SWITCH_FILE" "") stamp execute files held listed

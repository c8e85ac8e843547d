-- ===== src/KillSwitch/Clearance.antt =====
-- The clearance of the kill switch: when the file goes, and what the risk gate sees then.
use binance_future_agent.Base.{
  String, Bool, true, false, not, ◌&&◌, List, [], ◌∷◌, ◌≡◌, refl, ◌⊎◌, inl, inr, All, select,
  is_empty, arith, ==_refl, Bool-cases,
}
use binance_future_agent.Base.Float.{Float}
use binance_future_agent.Risk.{kill_switch_active}
use binance_future_agent.Executor.{Outcome, ok, err}
use binance_future_agent.KillSwitch.Defs.{
  Files, renamed, archived, ProtectionCheck, ClearanceReport, is_protected, cleared, reported,
}

gone :
    (path target : String) (files : Files)
    → kill_switch_active (renamed path target files) path ≡ false
unfolding renamed
gone path target files = ground (arith, ==_refl path)

module _ {fl : Float} where
  -- Both closing orders of a position are there.
  abbrev pub HasBoth : ProtectionCheck fl → Type 0
  HasBoth check = (check.has_stop_loss ≡ true) × (check.has_take_profit ≡ true)

  checks-HasBoth :
      (checks : List (ProtectionCheck fl))
      → is_empty (select (λ check. not (is_protected check)) checks) ≡ true
      → All HasBoth checks
  unfolding select
  checks-HasBoth [] h = tt
  checks-HasBoth (check ∷ checks) h = elim (Bool-cases (is_protected check)) [
    | inl both ↦ (ground arith, checks-HasBoth checks (rw both at h))
    | inr missing ↦ ground arith
  ]

  -- A report, with the files: the switch was there, every open position had both closing orders, the
  -- file was renamed and the risk gate finds none; or the files are as they were.
  abbrev pub IsSafe : String → String → Files → Outcome (ClearanceReport fl) × Files → Type 0
  IsSafe path stamp files (err e, files') = files' ≡ files
  IsSafe path stamp files (ok report, files') =
      ((report.executed ≡ true)
        × (files path ≡ true)
        × All HasBoth report.position_checks
        × (files' ≡ renamed path (archived path stamp) files)
        × (kill_switch_active files' path ≡ false))
      ⊎ ((report.executed ≡ false) × (files' ≡ files))

  cleared-IsSafe :
      (path stamp : String) (execute : Bool) (files : Files) (checks : List (ProtectionCheck fl))
      → IsSafe path stamp files (reported path stamp execute files (ok checks))
  unfolding cleared
  cleared-IsSafe path stamp execute files checks =
      let none_missing = is_empty (select (λ check. not (is_protected check)) checks) in
      elim (Bool-cases (execute && (files path && not (not none_missing)))) [
        | inl done ↦ inl (
          done,
          ground arith,
          checks-HasBoth checks (ground arith),
          rw done refl,
          rw done (gone path (archived path stamp) files),
        )
        | inr kept ↦ inr (kept, rw kept refl)
      ]

  pub reported-IsSafe :
      (path stamp : String) (execute : Bool) (files : Files)
      → (checks : Outcome (List (ProtectionCheck fl)))
      → IsSafe path stamp files (reported path stamp execute files checks)
  reported-IsSafe path stamp execute files (ok checks) =
      cleared-IsSafe path stamp execute files checks
  reported-IsSafe path stamp execute files (err e) = refl

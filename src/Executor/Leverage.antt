-- ===== src/Executor/Leverage.antt =====
-- The leverages that the engine tries: src/bfa/execution/executor.py,
-- `_leverage_fallback_sequence`.
use binance_future_agent.Base.{
  ℕ, ◌+◌, Bool-cases, nat_eq, true, List, [], ◌∷◌, ◌≡◌, refl, inl, inr, arith, All,
}
use binance_future_agent.Base.Int.{ℤ, pos, negsuc, ◌≤ℤ◌, ltb_ℤ, max_ℤ}
use binance_future_agent.Executor.Margin.{
  lower_anchors, insert_leverage, collect_leverages, leverage_fallback_sequence,
}

-- Every value of a list is below a bound, and each is above the next.
abbrev pub Descends : ℤ → List ℤ → Type 0
Descends bound [] = Unit
Descends bound (n ∷ ns) = (ltb_ℤ n bound ≡ true) × Descends n ns

Descends-insert :
    (bound n : ℤ) (ns : List ℤ)
    → ltb_ℤ n bound ≡ true
    → Descends bound ns
    → Descends bound (insert_leverage n ns)
unfolding insert_leverage
Descends-insert bound n [] h d = (h, tt)
Descends-insert bound n (m ∷ ms) h d = ground (arith, Descends-insert m n ms)

insert-All :
    (n : ℤ) (ns : List ℤ)
    → pos 1 ≤ℤ n
    → All (λ m. pos 1 ≤ℤ m) ns
    → All (λ m. pos 1 ≤ℤ m) (insert_leverage n ns)
unfolding insert_leverage
insert-All n [] h a = (h, tt)
insert-All n (m ∷ ms) h a = ground (arith, insert-All n ms)

-- The largest value goes to the front.
insert-first :
    (n : ℕ) (ns : List ℤ)
    → Descends (pos (n + 1)) ns
    → (rest : List ℤ) × (insert_leverage (pos n) ns ≡ pos n ∷ rest)
unfolding insert_leverage
insert-first n [] d = ([], refl)
insert-first n (negsuc k ∷ ms) d = (negsuc k ∷ ms, ground arith)
insert-first n (pos k ∷ ms) d = elim (Bool-cases (nat_eq n k)) [
  | inl same ↦ (ms, ground arith)
  | inr other ↦ (pos k ∷ ms, ground arith)
]

collect-Descends :
    (n : ℕ) (anchors : List ℤ)
    → Descends (pos (n + 1 + 1)) (collect_leverages (pos (n + 1)) anchors)
unfolding collect_leverages
collect-Descends n [] = tt
collect-Descends n (a ∷ anchors) = ground (
  arith,
  collect-Descends n anchors,
  Descends-insert (pos (n + 1 + 1)) (max_ℤ a (pos 1)) (collect_leverages (pos (n + 1)) anchors),
)

collect-All : (n : ℤ) (anchors : List ℤ) → All (λ m. pos 1 ≤ℤ m) (collect_leverages n anchors)
unfolding collect_leverages
collect-All n [] = tt
collect-All n (a ∷ anchors) =
    ground
      (arith, collect-All n anchors, insert-All (max_ℤ a (pos 1)) (collect_leverages n anchors))

at_least_one : (n : ℕ) → max_ℤ (pos (n + 1)) (pos 1) ≡ pos (n + 1)
at_least_one n = ground arith

collect-first :
    (n : ℕ) (anchors : List ℤ)
    → (rest : List ℤ) × (collect_leverages (pos (n + 1)) (pos (n + 1) ∷ anchors)
        ≡ pos (n + 1) ∷ rest)
unfolding collect_leverages
collect-first n anchors =
    let (rest, e) =
      insert-first (n + 1) (collect_leverages (pos (n + 1)) anchors) (collect-Descends n anchors) in
    (rest, ground (arith, e, at_least_one n))

-- The leverages that are tried for a leverage of one or more: that leverage first, each one after
-- it below the one before, and none below one.
pub leverage_fallback_sequence-Descends :
    (n : ℕ)
    → let tried = leverage_fallback_sequence (pos (n + 1)) in
      ((rest : List ℤ) × (tried ≡ pos (n + 1) ∷ rest))
      × Descends (pos (n + 1 + 1)) tried
      × All (λ m. pos 1 ≤ℤ m) tried
unfolding leverage_fallback_sequence
leverage_fallback_sequence-Descends n = (
  collect-first n lower_anchors,
  collect-Descends n (pos (n + 1) ∷ lower_anchors),
  collect-All (pos (n + 1)) (pos (n + 1) ∷ lower_anchors),
)

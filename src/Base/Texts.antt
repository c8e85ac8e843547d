-- ===== src/Base/Texts.antt =====
-- The order of texts by code points is asymmetric.
use Prim.Native.Nat.{ℕ, zero, suc, compare as compare_ℕ, Ordering}
use Prim.Native.Char.{code}
use Prim.Native.Nat.compare as compare_ℕ
use Prim.Native.String.compare
use Prim.Native.String.{String, [], ◌∷◌, compare, then}
use mathlib.Core.Path.{◌≡◌, refl, sym, ap, ◌∙◌}
use mathlib.Core.Bool.{Bool, true, false}
use binance_future_agent.Base.Tests.{text_lt}

swapped : Ordering → Ordering
swapped Ordering.lt = Ordering.gt
swapped Ordering.eq = Ordering.eq
swapped Ordering.gt = Ordering.lt

swapped-then : (o p : Ordering) → then (swapped o) (swapped p) ≡ swapped (then o p)
unfolding swapped
swapped-then Ordering.lt p = refl
swapped-then Ordering.eq p = refl
swapped-then Ordering.gt p = refl

compare_ℕ-swapped : (m n : ℕ) → compare_ℕ n m ≡ swapped (compare_ℕ m n)
unfolding swapped
compare_ℕ-swapped zero zero = compare_ℕ.zero-zero ∙ ap swapped (sym compare_ℕ.zero-zero)
compare_ℕ-swapped zero (suc n) = compare_ℕ.suc-zero n ∙ ap swapped (sym (compare_ℕ.zero-suc n))
compare_ℕ-swapped (suc m) zero = compare_ℕ.zero-suc m ∙ ap swapped (sym (compare_ℕ.suc-zero m))
compare_ℕ-swapped (suc m) (suc n) =
    compare_ℕ.suc-suc n m ∙ compare_ℕ-swapped m n ∙ ap swapped (sym (compare_ℕ.suc-suc m n))

compare-swapped : (s t : String) → compare t s ≡ swapped (compare s t)
unfolding swapped
compare-swapped [] [] = compare.nil-nil ∙ ap swapped (sym compare.nil-nil)
compare-swapped [] (d ∷ t) = compare.cons-nil d t ∙ ap swapped (sym (compare.nil-cons d t))
compare-swapped (c ∷ s) [] = compare.nil-cons c s ∙ ap swapped (sym (compare.cons-nil c s))
compare-swapped (c ∷ s) (d ∷ t) =
    compare.cons-cons d c t s
    ∙ (λ i. then (compare_ℕ-swapped (code c) (code d) i) (compare-swapped s t i))
    ∙ swapped-then (compare_ℕ (code c) (code d)) (compare s t)
    ∙ ap swapped (sym (compare.cons-cons c d s t))

is_lt : Ordering → Bool
is_lt Ordering.lt = true
is_lt _ = false

lt-swapped : (o : Ordering) → is_lt o ≡ true → is_lt (swapped o) ≡ false
unfolding swapped is_lt
lt-swapped Ordering.lt h = refl
lt-swapped Ordering.eq h = refl
lt-swapped Ordering.gt h = cc

pub text_lt_asymm : (s t : String) → text_lt s t ≡ true → text_lt t s ≡ false
unfolding text_lt is_lt
text_lt_asymm s t h = ap is_lt (compare-swapped s t) ∙ lt-swapped (compare s t) h

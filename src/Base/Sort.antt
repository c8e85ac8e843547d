-- ===== src/Base/Sort.antt =====
-- Sorting by a test that says which of two items comes first: the order in which SQL and `sorted`
-- return rows. Items that compare as neither keep their order.
use Prim.Native.Nat.{◌+◌}
use mathlib.Core.Path.{◌≡◌, refl}
use mathlib.Core.Bool.{Bool, true, false}
use mathlib.Core.List.{List, [], ◌∷◌}
use mathlib.Core.Logic.{inl, inr}
use native.Mathlib.Omega.{arith}
use binance_future_agent.Base.Tests.{if◌then◌else◌, Bool-cases}
use binance_future_agent.Base.Lists.{count}

module _ {A : Type 0} where
  unfoldable pub insert_by : (A → A → Bool) → A → List A → List A
  insert_by first a [] = a ∷ []
  insert_by first a (x ∷ xs) =
      let rest = insert_by first a xs in if first x a then x ∷ rest else a ∷ x ∷ xs

  unfoldable pub sort_by : (A → A → Bool) → List A → List A
  sort_by first [] = []
  sort_by first (x ∷ xs) = insert_by first x (sort_by first xs)

  pub count-insert_by :
      (first : A → A → Bool) (p : A → Bool) (a : A) (xs : List A)
      → count p (insert_by first a xs) ≡ (if p a then 1 else 0) + count p xs
  unfolding count insert_by
  count-insert_by first p a [] = refl
  count-insert_by first p a (x ∷ xs) = ground (arith, count-insert_by first p a xs)

  pub count-sort_by :
      (first : A → A → Bool) (p : A → Bool) (xs : List A) → count p (sort_by first xs) ≡ count p xs
  unfolding count sort_by
  count-sort_by first p [] = refl
  count-sort_by first p (x ∷ xs) =
      ground (arith, count-sort_by first p xs, count-insert_by first p x (sort_by first xs))

  -- No item stands after one that it comes before.
  abbrev pub AllAfter : (A → A → Bool) → A → List A → Type 0
  AllAfter first a [] = Unit
  AllAfter first a (x ∷ xs) = first x a ≡ false

  abbrev pub IsInOrder : (A → A → Bool) → List A → Type 0
  IsInOrder first [] = Unit
  IsInOrder first (x ∷ xs) = AllAfter first x xs × IsInOrder first xs

  AllAfter-insert_by :
      (first : A → A → Bool) (x a : A) (xs : List A)
      → first a x ≡ false
      → AllAfter first x xs
      → AllAfter first x (insert_by first a xs)
  unfolding insert_by
  AllAfter-insert_by first x a [] h after = h
  AllAfter-insert_by first x a (y ∷ ys) h after = ground arith

  IsInOrder-insert_by :
      (first : A → A → Bool) (a : A) (xs : List A)
      → ((x y : A) → first x y ≡ true → first y x ≡ false)
      → IsInOrder first xs
      → IsInOrder first (insert_by first a xs)
  unfolding insert_by
  IsInOrder-insert_by first a [] asymm good = (tt, tt)
  IsInOrder-insert_by first a (x ∷ xs) asymm good = elim (Bool-cases (first x a)) [
    | inl before ↦ rw before (
      AllAfter-insert_by first x a xs (asymm x a before) good.0,
      IsInOrder-insert_by first a xs asymm good.1,
    )
    | inr after ↦ rw after (after, good)
  ]

  pub IsInOrder-sort_by :
      (first : A → A → Bool) (xs : List A)
      → ((x y : A) → first x y ≡ true → first y x ≡ false)
      → IsInOrder first (sort_by first xs)
  unfolding sort_by
  IsInOrder-sort_by first [] asymm = tt
  IsInOrder-sort_by first (x ∷ xs) asymm =
      IsInOrder-insert_by first x (sort_by first xs) asymm (IsInOrder-sort_by first xs asymm)

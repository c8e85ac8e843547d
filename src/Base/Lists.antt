-- ===== src/Base/Lists.antt =====
-- Lists measured by native numbers, Python's `in` on lists of texts, and the source's `_dedupe`.
use Prim.Native.Nat.{ℕ, suc, ◌+◌}
use Prim.Native.String.{String}
use mathlib.Core.Path.{◌≡◌, refl, sym}
use mathlib.Core.Bool.{Bool, true, false, ◌&&◌, ◌||◌}
use mathlib.Core.List.{List, [], ◌∷◌, ◌++◌}
use native.Mathlib.Omega.{arith}
use binance_future_agent.Base.Tests.{◌==◌, ==_iff, ==_refl, if◌then◌else◌, Bool-cases}
use mathlib.Core.Logic.{inl, inr}

module _ {ℓ} {A : Type ℓ} where
  abbrev pub length : List A → ℕ
  length [] = 0
  length (x ∷ xs) = suc (length xs)

  abbrev pub is_empty : List A → Bool
  is_empty [] = true
  is_empty (x ∷ xs) = false

  unfoldable pub any : (A → Bool) → List A → Bool
  any p [] = false
  any p (x ∷ xs) = p x || any p xs

  -- The items that pass a test, in order.
  unfoldable pub select : (A → Bool) → List A → List A
  select p [] = []
  select p (x ∷ xs) = let rest = select p xs in if p x then x ∷ rest else rest

  -- How many items pass a test.
  unfoldable pub count : (A → Bool) → List A → ℕ
  count p [] = 0
  count p (x ∷ xs) = (if p x then 1 else 0) + count p xs

  abbrev pub All {κ} : (A → Type κ) → List A → Type κ
  All P [] = Unit
  All P (x ∷ xs) = P x × All P xs

-- `value in values`
unfoldable pub contains : List String → String → Bool
contains [] s = false
contains (x ∷ xs) s = x == s || contains xs s

-- `[reason] if test else []`, the shape of every `if test: reasons.append(reason)`.
abbrev pub when : Bool → String → List String
when true r = r ∷ []
when false r = []

-- The loop of `_dedupe`: `seen` is the list built so far.
dedupe_onto : List String → List String → List String
dedupe_onto seen [] = seen
dedupe_onto seen (x ∷ xs) = dedupe_onto (if contains seen x then seen else seen ++ (x ∷ [])) xs

unfoldable pub dedupe : List String → List String
unfolding dedupe_onto
dedupe values = dedupe_onto [] values

pub contains-append :
    (xs ys : List String) (s : String) → contains (xs ++ ys) s ≡ (contains xs s || contains ys s)
unfolding contains
contains-append [] ys s = refl
contains-append (x ∷ xs) ys s = ground (arith, contains-append xs ys s)

contains_one : (x s : String) → contains (x ∷ []) s ≡ (x == s)
unfolding contains
contains_one x s = ground arith

contains-snoc_new :
    (seen : List String) (x s : String)
    → contains (if contains seen x then seen else seen ++ (x ∷ [])) s
      ≡ (contains seen s || (x == s))
contains-snoc_new seen x s = elim (Bool-cases (x == s)) [
  | inl same ↦
      rw ((==_iff x s).0 same)
        (ground (arith, contains-append seen (s ∷ []) s, contains_one s s, ==_refl s))
  | inr other ↦ ground (arith, contains-append seen (x ∷ []) s, contains_one x s)
]

contains-dedupe_onto :
    (seen xs : List String) (s : String)
    → contains (dedupe_onto seen xs) s ≡ (contains seen s || contains xs s)
unfolding dedupe_onto contains
contains-dedupe_onto seen [] s = ground arith
contains-dedupe_onto seen (x ∷ xs) s = ground (
  arith,
  contains-dedupe_onto (if contains seen x then seen else seen ++ (x ∷ [])) xs s,
  contains-snoc_new seen x s,
)

-- `_dedupe` keeps exactly the values that are there.
pub contains-dedupe : (xs : List String) (s : String) → contains (dedupe xs) s ≡ contains xs s
unfolding dedupe contains
contains-dedupe xs s = contains-dedupe_onto [] xs s

is_empty-dedupe_onto :
    (seen xs : List String) → is_empty (dedupe_onto seen xs) ≡ (is_empty seen && is_empty xs)
unfolding dedupe_onto contains
is_empty-dedupe_onto [] [] = refl
is_empty-dedupe_onto [] (x ∷ xs) = is_empty-dedupe_onto (x ∷ []) xs
is_empty-dedupe_onto (y ∷ seen) [] = refl
is_empty-dedupe_onto (y ∷ seen) (x ∷ xs) = elim (Bool-cases (y == x || contains seen x)) [
  | inl known ↦ rw known (is_empty-dedupe_onto (y ∷ seen) xs)
  | inr new ↦ rw new (is_empty-dedupe_onto (y ∷ seen ++ (x ∷ [])) xs)
]

pub is_empty-dedupe : (xs : List String) → is_empty (dedupe xs) ≡ is_empty xs
unfolding dedupe
is_empty-dedupe xs = is_empty-dedupe_onto [] xs

-- No value stands twice.
abbrev pub NoRepeats : List String → Type 0
NoRepeats [] = Unit
NoRepeats (x ∷ xs) = (contains xs x ≡ false) × NoRepeats xs

==_false_symm : (s t : String) → (s == t) ≡ false → (t == s) ≡ false
==_false_symm s t h = elim (Bool-cases (t == s)) [
  | inl same ↦ cc ((==_iff s t).1 (sym ((==_iff t s).0 same)), h)
  | inr differ ↦ differ
]

NoRepeats-snoc :
    (seen : List String) (x : String)
    → contains seen x ≡ false
    → NoRepeats seen
    → NoRepeats (seen ++ (x ∷ []))
unfolding contains
NoRepeats-snoc [] x h n = (refl, tt)
NoRepeats-snoc (y ∷ seen) x h n =
    ground (arith, NoRepeats-snoc seen x, contains-append seen (x ∷ []) y, ==_false_symm y x)

NoRepeats-dedupe_onto : (seen xs : List String) → NoRepeats seen → NoRepeats (dedupe_onto seen xs)
unfolding dedupe_onto
NoRepeats-dedupe_onto seen [] n = n
NoRepeats-dedupe_onto seen (x ∷ xs) n =
    NoRepeats-dedupe_onto (if contains seen x then seen else seen ++ (x ∷ [])) xs
      (ground (arith, NoRepeats-snoc seen x))

pub NoRepeats-dedupe : (xs : List String) → NoRepeats (dedupe xs)
unfolding dedupe
NoRepeats-dedupe xs = NoRepeats-dedupe_onto [] xs tt

pub is_empty-append {ℓ} :
    {A : Type ℓ} (xs ys : List A) → is_empty (xs ++ ys) ≡ (is_empty xs && is_empty ys)
is_empty-append [] ys = refl
is_empty-append (x ∷ xs) ys = refl

pub dedupe_one : (s : String) → dedupe (s ∷ []) ≡ s ∷ []
unfolding dedupe contains
dedupe_one s = refl

pub contains-nonempty : (xs : List String) (s : String) → contains xs s ≡ true → is_empty xs ≡ false
unfolding contains
contains-nonempty [] s h = cc
contains-nonempty (x ∷ xs) s h = refl

-- A value is in a joined list if it is in the second part.
pub contains-append_right :
    (xs ys : List String) (s : String) → contains ys s ≡ true → contains (xs ++ ys) s ≡ true
contains-append_right xs ys s h = ground (arith, contains-append xs ys s)

pub contains-append_left :
    (xs ys : List String) (s : String) → contains xs s ≡ true → contains (xs ++ ys) s ≡ true
contains-append_left xs ys s h = ground (arith, contains-append xs ys s)

pub contains-when : (b : Bool) (s : String) → b ≡ true → contains (when b s) s ≡ true
unfolding contains
contains-when b s h = ground (arith, ==_refl s)

pub select-append {ℓ} :
    {A : Type ℓ} (p : A → Bool) (xs ys : List A) → select p (xs ++ ys) ≡ select p xs ++ select p ys
unfolding select
select-append p [] ys = refl
select-append p (x ∷ xs) ys = ground (arith, select-append p xs ys)

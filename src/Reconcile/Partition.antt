-- ===== src/Reconcile/Partition.antt =====
-- The reconciliation sorts every local intent once, and its unknown orders are those of no local
-- intent.
use binance_future_agent.Base.{
  ℕ, ◌+◌, String, Bool, true, false, not, ◌&&◌, ◌||◌, Option, none, some, List, [], ◌∷◌, map, ◌≡◌,
  refl, sym, ap, ◌∙◌, arith, All, any, count, select, contains, is_none, ◌==◌, ==_refl, ==_iff,
  Bool-cases, subst, inl, inr, if◌then◌else◌,
}
use binance_future_agent.Base.Float.{Float}
use binance_future_agent.Base.Json.{Dict}
use binance_future_agent.Reconcile.Defs.{
  LocalIntent, Sorted, same_id, order_client_id, open_order_of, sorted_local, sort_locals, not_in,
  is_unknown, report_of,
}

module _ {fl : Float} where
  -- The local intents that were found so far, matched and missing.
  abbrev found : (LocalIntent fl → Bool) → Sorted fl → ℕ
  found p sorted = count p (map (λ m. m.0) sorted.matched) + count p sorted.missing

  found-sorted_local :
      (p : LocalIntent fl → Bool) (local : LocalIntent fl) (order : Option (Dict fl)) (held : Bool)
      → (rest : Sorted fl)
      → found p (sorted_local local order held rest) ≡ (if p local then 1 else 0) + found p rest
  unfolding sorted_local count
  found-sorted_local p local (some order) held rest = omega arith
  found-sorted_local p local none true rest = omega arith
  found-sorted_local p local none false rest = omega arith

  -- Every local intent is matched or missing, as often as it is there.
  found-sort_locals :
      (orders positions : List (Dict fl)) (p : LocalIntent fl → Bool)
      (locals : List (LocalIntent fl))
      → found p (sort_locals orders positions locals) ≡ count p locals
  unfolding sort_locals count
  found-sort_locals orders positions p [] = refl
  found-sort_locals orders positions p (local ∷ locals) =
      found-sorted_local p local _ _ (sort_locals orders positions locals)
      ∙ ap (λ n. (if p local then 1 else 0) + n) (found-sort_locals orders positions p locals)

  -- An order of a local intent.
  abbrev pub is_known : List (LocalIntent fl) → Dict fl → Bool
  is_known locals order = any (λ l. same_id (order_client_id order) l.client_order_id) locals

  -- The identifier leads to an open order.
  abbrev FoundIn : List (Dict fl) → Option String → Type 0
  FoundIn orders none = Unit
  FoundIn orders (some id) = is_none (open_order_of orders id) ≡ false

  abbrev HasEntry : List (Dict fl) → Dict fl → Type 0
  HasEntry orders order = FoundIn orders (order_client_id order)

  FoundIn-step :
      (first : Dict fl) (orders : List (Dict fl)) (id : Option String)
      → FoundIn orders id
      → FoundIn (first ∷ orders) id
  unfolding open_order_of
  FoundIn-step first orders none h = tt
  FoundIn-step first orders (some id) h = ground arith

  FoundIn-first :
      (first : Dict fl) (orders : List (Dict fl)) (id : Option String)
      → order_client_id first ≡ id
      → FoundIn (first ∷ orders) id
  unfolding open_order_of
  FoundIn-first first orders none own = tt
  FoundIn-first first orders (some id) own = rw own (ground (arith, ==_refl id))

  entries-step :
      (first : Dict fl) (orders os : List (Dict fl))
      → All (HasEntry orders) os
      → All (HasEntry (first ∷ orders)) os
  entries-step first orders [] all = tt
  entries-step first orders (o ∷ os) all =
      (FoundIn-step first orders (order_client_id o) all.0, entries-step first orders os all.1)

  entries : (orders : List (Dict fl)) → All (HasEntry orders) orders
  entries [] = tt
  entries (o ∷ os) =
      (FoundIn-first o os (order_client_id o) refl, entries-step o os os (entries os))

  -- The identifiers of the local intents that have an open order.
  contains-sorted_local :
      (id : String) (local : LocalIntent fl) (order : Option (Dict fl)) (held : Bool)
      (rest : Sorted fl)
      → contains (sorted_local local order held rest).matched_ids id
        ≡ ((not (is_none order) && local.client_order_id == id) || contains rest.matched_ids id)
  unfolding sorted_local contains
  contains-sorted_local id local (some order) held rest = refl
  contains-sorted_local id local none true rest = refl
  contains-sorted_local id local none false rest = refl

  agree :
      (orders : List (Dict fl)) (l id : String)
      → is_none (open_order_of orders id) ≡ false
      → (not (is_none (open_order_of orders l)) && l == id) ≡ (id == l)
  agree orders l id there = elim (Bool-cases (l == id)) [
    | inl same ↦
        subst (λ x. (not (is_none (open_order_of orders x)) && x == id) ≡ (id == x))
          (sym ((==_iff l id).0 same)) (ground arith)
    | inr differ ↦ elim (Bool-cases (id == l)) [
      | inl same ↦ cc ((==_iff l id).1 (sym ((==_iff id l).0 same)), differ)
      | inr other ↦ ground arith
    ]
  ]

  contains-sort_locals :
      (orders positions : List (Dict fl)) (id : String) (locals : List (LocalIntent fl))
      → is_none (open_order_of orders id) ≡ false
      → contains (sort_locals orders positions locals).matched_ids id
        ≡ any (λ l. same_id (some id) l.client_order_id) locals
  unfolding sort_locals any contains
  contains-sort_locals orders positions id [] there = refl
  contains-sort_locals orders positions id (local ∷ locals) there =
      contains-sorted_local id local _ _ (sort_locals orders positions locals) ∙ (λ i.
        agree orders local.client_order_id id there i
        || contains-sort_locals orders positions id locals there i)

  any_never : (locals : List (LocalIntent fl)) → any (λ l. false) locals ≡ false
  unfolding any
  any_never [] = refl
  any_never (l ∷ ls) = any_never ls

  unknown-known :
      (orders positions : List (Dict fl)) (locals : List (LocalIntent fl)) (o : Option String)
      → FoundIn orders o
      → not_in (sort_locals orders positions locals).matched_ids o
        ≡ not (any (λ l. same_id o l.client_order_id) locals)
  unfolding not_in
  unknown-known orders positions locals none there = ap not (sym (any_never locals))
  unknown-known orders positions locals (some id) there =
      ap not (contains-sort_locals orders positions id locals there)

  select-known :
      (orders positions : List (Dict fl)) (locals : List (LocalIntent fl)) (os : List (Dict fl))
      → All (HasEntry orders) os
      → select (is_unknown (sort_locals orders positions locals).matched_ids) os
        ≡ select (λ o. not (is_known locals o)) os
  unfolding select is_unknown
  select-known orders positions locals [] all = refl
  select-known orders positions locals (o ∷ os) all = λ i.
      let rest = select-known orders positions locals os all.1 i in
      if unknown-known orders positions locals (order_client_id o) all.0 i then o ∷ rest else rest

  -- A reconciliation sorts every local intent into the matched or the missing ones, as often as it is
  -- there, and its unknown orders are the open orders, in their order, whose identifier is that of no
  -- local intent.
  pub report_of-sorts :
      (orders positions : List (Dict fl)) (locals : List (LocalIntent fl))
      → (p : LocalIntent fl → Bool)
      → (count p (map (λ m. m.0) (report_of orders positions locals).matched)
            + count p (report_of orders positions locals).missing_on_exchange
          ≡ count p locals)
        × ((report_of orders positions locals).unknown_on_exchange
            ≡ select (λ o. not (is_known locals o)) orders)
  unfolding report_of
  report_of-sorts orders positions locals p = (
    found-sort_locals orders positions p locals,
    select-known orders positions locals orders (entries orders),
  )

-- ===== src/EventStore/Order.antt =====
-- What a query returns: the events in its range, each as often as it is stored, in order.
use binance_future_agent.Base.{◌≡◌, refl, List, [], ◌∷◌, Bool, arith, count, select, ◌&&◌}
use binance_future_agent.EventStore.Defs.{Event}

pub count-select :
    (p q : Event → Bool) (es : List Event) → count p (select q es) ≡ count (λ e. q e && p e) es
unfolding count select
count-select p q [] = refl
count-select p q (e ∷ es) = ground (arith, count-select p q es)

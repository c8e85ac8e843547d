-- ===== src/EventStore/Query.antt =====
-- src/bfa/event_store/store.py: `events_between`.
use binance_future_agent.Base.{
  String, ◌==◌, Bool, true, false, not, ◌&&◌, ◌||◌, Option, none, some, List, if◌then◌else◌,
  text_lt, select, ltb,
}
use binance_future_agent.Base.Text.{upper}
use binance_future_agent.Base.Sort.{sort_by}
use binance_future_agent.EventStore.Defs.{Event, Connection}

-- `symbol = ?` of SQL, which no row without a symbol meets.
unfoldable pub has_symbol : Option String → String → Bool
has_symbol none wanted = false
has_symbol (some s) wanted = s == wanted

-- The clause on the symbol; a blank one counts as missing.
unfoldable pub symbol_matches : Option String → Event → Bool
symbol_matches none e = true
symbol_matches (some wanted) e = if wanted == "" then true else has_symbol e.symbol (upper wanted)

-- `occurred_at >= ? AND occurred_at <= ?`, and the symbol.
unfoldable pub in_range : String → String → Option String → Event → Bool
in_range start end_at symbol e =
    not (text_lt e.occurred_at start)
    && (not (text_lt end_at e.occurred_at) && symbol_matches symbol e)

-- `ORDER BY occurred_at ASC, id ASC`
unfoldable pub comes_before : Event → Event → Bool
comes_before a b =
    text_lt a.occurred_at b.occurred_at || (a.occurred_at == b.occurred_at && ltb a.id b.id)

-- `EventStore.events_between`
unfoldable pub events_between : String → String → Option String → Connection → List Event
events_between start end_at symbol c =
    sort_by comes_before (select (in_range start end_at symbol) c.seen.events)

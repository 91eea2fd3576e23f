-- ===== src/Bus/Monitor.antt =====
-- bus/eventbus.go: the `transportMonitor`. Event types, listener ids and listeners are numbers; the
-- ids are not bounded. An event gives the list of the ids whose listeners are called, in order.
pub mod Listeners
mod Examples
use transport_go.Prelude.{
  ℕ, ◌+◌, ◌||◌, Bool, true, false, Option, none, some, List, [], ◌∷◌, ◌++◌, ◌==◌, if◌then◌else◌,
}

-- `map[MonitorEventListenerId]MonitorEventHandler`
abbrev pub Handlers : Type 0
Handlers = List (ℕ × ℕ)

pub record TransportMonitor : Type 0 where
  pub listeners_by_type : List (ℕ × Handlers)
  pub listeners_for_all_events : Handlers
  pub sub_id : ℕ

unfoldable pub new_monitor : TransportMonitor
new_monitor = record { listeners_by_type = []; listeners_for_all_events = []; sub_id = 0 }

unfoldable pub set_listener : ℕ → ℕ → Handlers → Handlers
set_listener id l [] = (id, l) ∷ []
set_listener id l ((k, old) ∷ hs) =
    let rest = set_listener id l hs in if k == id then (id, l) ∷ hs else (k, old) ∷ rest

unfoldable pub drop_listener : ℕ → Handlers → Handlers
drop_listener id [] = []
drop_listener id ((k, old) ∷ hs) =
    let rest = drop_listener id hs in if k == id then rest else (k, old) ∷ rest

-- One round of the loop of `addListener`.
unfoldable pub add_for_type : ℕ → ℕ → ℕ → List (ℕ × Handlers) → List (ℕ × Handlers)
add_for_type id l t [] = (t, (id, l) ∷ []) ∷ []
add_for_type id l t ((u, hs) ∷ m) =
    let rest = add_for_type id l t m in
    if u == t then (u, set_listener id l hs) ∷ m else (u, hs) ∷ rest

unfoldable pub add_for_types : ℕ → ℕ → List ℕ → List (ℕ × Handlers) → List (ℕ × Handlers)
add_for_types id l [] m = m
add_for_types id l (t ∷ ts) m = add_for_types id l ts (add_for_type id l t m)

unfoldable pub add_listener : ℕ → List ℕ → TransportMonitor → TransportMonitor × ℕ
unfolding set_listener add_for_types
add_listener l [] m = (
  record m {
    sub_id = m.sub_id + 1;
    listeners_for_all_events = set_listener (m.sub_id + 1) l m.listeners_for_all_events;
  },
  m.sub_id + 1,
)
add_listener l (t ∷ ts) m = (
  record m {
    sub_id = m.sub_id + 1;
    listeners_by_type = add_for_types (m.sub_id + 1) l (t ∷ ts) m.listeners_by_type;
  },
  m.sub_id + 1,
)

unfoldable pub drop_everywhere : ℕ → List (ℕ × Handlers) → List (ℕ × Handlers)
unfolding drop_listener
drop_everywhere id [] = []
drop_everywhere id ((t, hs) ∷ m) = (t, drop_listener id hs) ∷ drop_everywhere id m

unfoldable pub remove_listener : ℕ → TransportMonitor → TransportMonitor
unfolding drop_listener drop_everywhere
remove_listener id m = record m {
  listeners_for_all_events = drop_listener id m.listeners_for_all_events;
  listeners_by_type = drop_everywhere id m.listeners_by_type;
}

unfoldable pub for_type : ℕ → List (ℕ × Handlers) → Handlers
for_type t [] = []
for_type t ((u, hs) ∷ m) = let rest = for_type t m in if u == t then hs else rest

unfoldable pub call_each : Handlers → List ℕ
call_each [] = []
call_each ((id, l) ∷ hs) = id ∷ call_each hs

unfoldable pub send_event : ℕ → TransportMonitor → List ℕ
unfolding for_type call_each
send_event t m = call_each m.listeners_for_all_events ++ call_each (for_type t m.listeners_by_type)

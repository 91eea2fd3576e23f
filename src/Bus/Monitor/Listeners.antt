-- ===== src/Bus/Monitor/Listeners.antt =====
-- Which listeners an event reaches after one was added or removed.
use transport_go.Prelude.{
  ℕ, ◌+◌, ◌&&◌, ◌||◌, ◌≡◌, Bool, false, List, [], ◌∷◌, ◌++◌, arith, ◌==◌, leb, if◌then◌else◌,
}
use transport_go.Prelude.GoSlice.{count, length}
use transport_go.Bus.Monitor.{
  Handlers, TransportMonitor, set_listener, drop_listener, add_for_type, add_for_types,
  add_listener, drop_everywhere, for_type, call_each, send_event,
}

count-append : (j : ℕ) (xs ys : List ℕ) → count j (xs ++ ys) ≡ count j xs + count j ys
count-append j [] ys = omega arith
count-append j (x ∷ xs) ys = ground (arith, count-append j xs ys)

drop_listener-count :
    (id j : ℕ) (hs : Handlers)
    → count j (call_each (drop_listener id hs)) ≡ (if id == j then 0 else count j (call_each hs))
unfolding drop_listener call_each
drop_listener-count id j [] = ground arith
drop_listener-count id j ((k, l) ∷ hs) = ground (arith, drop_listener-count id j hs)

drop_everywhere-count :
    (id j t : ℕ) (m : List (ℕ × Handlers))
    → count j (call_each (for_type t (drop_everywhere id m)))
      ≡ (if id == j then 0 else count j (call_each (for_type t m)))
unfolding drop_everywhere for_type call_each
drop_everywhere-count id j t [] = ground arith
drop_everywhere-count id j t ((u, hs) ∷ m) =
    ground (arith, drop_everywhere-count id j t m, drop_listener-count id j hs)

set_listener-count :
    (id l j : ℕ) (hs : Handlers)
    → count j (call_each (set_listener id l hs))
      ≡ (if id == j && leb (count j (call_each hs)) 0 then 1 else count j (call_each hs))
unfolding set_listener call_each
set_listener-count id l j [] = ground arith
set_listener-count id l j ((k, old) ∷ hs) = ground (arith, set_listener-count id l j hs)

add_for_type-count :
    (id l j t u : ℕ) (m : List (ℕ × Handlers))
    → count j (call_each (for_type t (add_for_type id l u m))) ≡ (
        if (id == j && u == t) && leb (count j (call_each (for_type t m))) 0
        then 1
        else count j (call_each (for_type t m)))
unfolding add_for_type for_type call_each
add_for_type-count id l j t u [] = ground arith
add_for_type-count id l j t u ((v, hs) ∷ m) =
    ground (arith, add_for_type-count id l j t u m, set_listener-count id l j hs)

abbrev pub one_of : ℕ → List ℕ → Bool
one_of t [] = false
one_of t (u ∷ us) = u == t || one_of t us

add_for_types-count :
    (id l j t : ℕ) (ts : List ℕ) (m : List (ℕ × Handlers))
    → count j (call_each (for_type t (add_for_types id l ts m))) ≡ (
        if (id == j && one_of t ts) && leb (count j (call_each (for_type t m))) 0
        then 1
        else count j (call_each (for_type t m)))
unfolding add_for_types
add_for_types-count id l j t [] m = ground arith
add_for_types-count id l j t (u ∷ us) m = ground (
  arith,
  add_for_types-count id l j t us (add_for_type id l u m),
  add_for_type-count id l j t u m,
)

-- An event of a type reaches a listener that was added under a new id exactly once if the listener
-- is for all events or for that type, and otherwise not; it reaches the others as before.
pub send_event-add_listener :
    (l j t : ℕ) (ts : List ℕ) (m : TransportMonitor)
    → count (m.sub_id + 1) (send_event t m) ≡ 0
    → count j (send_event t (add_listener l ts m).0)
      ≡ count j (send_event t m)
        + (if (m.sub_id + 1) == j && (leb (length ts) 0 || one_of t ts) then 1 else 0)
unfolding send_event add_listener
send_event-add_listener l j t [] m fresh = ground (
  arith,
  fresh,
  count-append j (call_each m.listeners_for_all_events)
      (call_each (for_type t m.listeners_by_type)),
  count-append j (call_each (set_listener (m.sub_id + 1) l m.listeners_for_all_events))
      (call_each (for_type t m.listeners_by_type)),
  set_listener-count (m.sub_id + 1) l j m.listeners_for_all_events,
)
send_event-add_listener l j t (u ∷ us) m fresh = ground (
  arith,
  fresh,
  count-append j (call_each m.listeners_for_all_events)
      (call_each (for_type t m.listeners_by_type)),
  count-append j (call_each m.listeners_for_all_events)
      (call_each (for_type t (add_for_types (m.sub_id + 1) l (u ∷ us) m.listeners_by_type))),
  add_for_types-count (m.sub_id + 1) l j t (u ∷ us) m.listeners_by_type,
)

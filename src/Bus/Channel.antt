-- ===== src/Bus/Channel.antt =====
-- bus/channel.go: a `Channel`, its event handlers and its broker subscriptions.
-- Ids (`uuid.UUID`, compared by their text) and the identities of broker connections are numbers.
-- `channelLock` makes each method one step; a callback runs in a goroutine of its own, so `send`
-- returns the handlers that it starts, and `finish_handler` is the end of such a goroutine.
pub mod Handlers
pub mod BrokerSubs
mod Examples
use transport_go.Prelude.{
  ℕ, zero, suc, ◌+◌, ◌-◌, String, ◌&&◌, ◌||◌, Bool, true, false, Option, none, some, List, [], ◌∷◌,
  ◌++◌, ltb, leb, ◌==◌, str_eq, if◌then◌else◌,
}
use transport_go.Prelude.GoSlice.{length, get_elem?, set?}

pub record ChannelEventHandler : Type 0 where
  pub uuid : ℕ
  pub run_once : Bool
  pub run_count : ℕ

pub record Subscription : Type 0 where
  pub id : ℕ
  pub destination : String

pub record ConnectionSub : Type 0 where
  pub c : ℕ
  pub s : Subscription

pub record Channel : Type 0 where
  pub name : String
  pub event_handlers : List ChannelEventHandler
  pub galactic : Bool
  pub galactic_mapped_destination : String
  pub private_channel : Bool
  pub broker_subs : List ConnectionSub
  pub broker_conns : List ℕ
  -- The buffer of the Go channel.
  pub broker_mapped_event : List Bool

unfoldable pub new_channel : String → Channel
new_channel name = record {
  name = name;
  event_handlers = [];
  galactic = false;
  galactic_mapped_destination = "";
  private_channel = false;
  broker_subs = [];
  broker_conns = [];
  broker_mapped_event = [];
}

unfoldable pub set_private : Bool → Channel → Channel
set_private b ch = record ch { private_channel = b }

unfoldable pub set_galactic : String → Channel → Channel
set_galactic dest ch = record ch { galactic = true; galactic_mapped_destination = dest }

unfoldable pub set_local : Channel → Channel
set_local ch = record ch { galactic = false; galactic_mapped_destination = "" }

unfoldable pub contains_handlers : Channel → Bool
contains_handlers ch = ltb 0 (length ch.event_handlers)

module _ {ℓ} {A : Type ℓ} where
  -- `copy(s[i:], s[i+1:])` and the reslice.
  abbrev pub remove_at : ℕ → List A → List A
  remove_at i [] = []
  remove_at zero (x ∷ xs) = xs
  remove_at (suc i) (x ∷ xs) = x ∷ remove_at i xs

-- `removeEventHandler`, on the slice of handlers.
unfoldable pub remove_event_handler : ℕ → List ChannelEventHandler → List ChannelEventHandler
remove_event_handler index hs =
    if leb (length hs) 0 then hs else if leb (length hs) index then hs else remove_at index hs

-- A run-once handler that has run.
abbrev pub is_spent : ChannelEventHandler → Bool
is_spent h = h.run_once && ltb 0 h.run_count

-- The loop of `Send` over the copy of the slice: the handlers left in the channel, and those
-- that are started.
unfoldable pub send_loop :
    ℕ
    → List ChannelEventHandler
    → List ChannelEventHandler
    → List ChannelEventHandler × List ChannelEventHandler
unfolding remove_event_handler
send_loop n [] current = (current, [])
send_loop n (h ∷ hs) current =
    let (left, started) =
      send_loop (suc n) hs (if is_spent h then remove_event_handler n current else current) in
    if is_spent h then (left, started) else (left, h ∷ started)

unfoldable pub send : Channel → Channel × List ChannelEventHandler
unfolding send_loop
send ch =
    if ltb 0 (length ch.event_handlers)
    then (let (left, started) = send_loop 0 ch.event_handlers ch.event_handlers in
        (record ch { event_handlers = left }, started))
    else (ch, [])

-- `sendMessageToHandler` once the callback has returned: the handler's counter goes up, wherever
-- the channel still holds it.
unfoldable pub finish_handler : ℕ → List ChannelEventHandler → List ChannelEventHandler
finish_handler uuid [] = []
finish_handler uuid (h ∷ hs) =
    (if h.uuid == uuid then record h { run_count = h.run_count + 1 } else h)
    ∷ finish_handler uuid hs

unfoldable pub subscribe_handler : ChannelEventHandler → Channel → Channel
subscribe_handler h ch = record ch { event_handlers = ch.event_handlers ++ h ∷ [] }

-- The index of the first handler with this id.
unfoldable pub find_handler : ℕ → ℕ → List ChannelEventHandler → Option ℕ
find_handler i uuid [] = none
find_handler i uuid (h ∷ hs) =
    let rest = find_handler (suc i) uuid hs in if h.uuid == uuid then some i else rest

unfoldable pub unsubscribe_handler : ℕ → Channel → Channel × Bool
unfolding find_handler remove_event_handler
unsubscribe_handler uuid ch = elim (find_handler 0 uuid ch.event_handlers) [
  | none ↦ (ch, false)
  | some i ↦ (record ch { event_handlers = remove_event_handler i ch.event_handlers }, true)
]

-- Broker connections and subscriptions.
unfoldable pub has_conn : ℕ → List ℕ → Bool
has_conn c [] = false
has_conn c (d ∷ ds) = d == c || has_conn c ds

unfoldable pub add_broker_connection : ℕ → Channel → Channel
unfolding has_conn
add_broker_connection c ch =
    if has_conn c ch.broker_conns
    then ch
    else record ch { broker_conns = ch.broker_conns ++ c ∷ [] }

unfoldable pub remove_broker_connections : Channel → Channel
remove_broker_connections ch = record ch { broker_conns = [] }

unfoldable pub add_broker_subscription : ℕ → Subscription → Channel → Channel
add_broker_subscription c s ch = record ch {
  broker_subs = ch.broker_subs ++ record { c = c; s = s } ∷ [];
}

unfoldable pub is_broker_subscribed : ℕ → List ConnectionSub → Bool
is_broker_subscribed id [] = false
is_broker_subscribed id (cs ∷ rest) = id == cs.s.id || is_broker_subscribed id rest

unfoldable pub is_broker_subscribed_to_destination : ℕ → String → List ConnectionSub → Bool
is_broker_subscribed_to_destination c dest [] = false
is_broker_subscribed_to_destination c dest (cs ∷ rest) =
    (str_eq cs.s.destination dest && cs.c == c) || is_broker_subscribed_to_destination c dest rest

-- A slice of `len` elements over a backing array. `none` is a panic.
pub record Slice : Type 0 where
  pub array : List ConnectionSub
  pub len : ℕ

-- `s[len(s)-1], s[i] = s[i], s[len(s)-1]; return s[:len(s)-1]`, with Go's bounds checks.
unfoldable pub remove_sub : ℕ → Slice → Option Slice
remove_sub i s =
    if ltb i s.len
    then elim (get_elem? s.array i) [
      | none ↦ none
      | some x ↦ elim (get_elem? s.array (s.len - 1)) [
        | none ↦ none
        | some last ↦ elim (set? s.array (s.len - 1) x) [
          | none ↦ none
          | some swapped ↦ elim (set? swapped i last) [
            | none ↦ none
            | some array ↦ some (record { array = array; len = s.len - 1 })
          ]
        ]
      ]
    ]
    else none

-- The loop of `removeBrokerSubscription`. `range` fixed its length before the loop (`k` rounds
-- are left, at index `i`) and reads the array that `removeSub` writes.
unfoldable pub remove_sub_loop : ℕ → ℕ → ℕ → Slice → Option Slice
remove_sub_loop id zero i s = some s
remove_sub_loop id (suc k) i s = elim (get_elem? s.array i) [
  | none ↦ none
  | some cs ↦
      if id == cs.s.id
      then elim (remove_sub i s) [ none ↦ none | some t ↦ remove_sub_loop id k (suc i) t ]
      else remove_sub_loop id k (suc i) s
]

module _ {ℓ} {A : Type ℓ} where
  abbrev pub take : ℕ → List A → List A
  take zero xs = []
  take (suc n) [] = []
  take (suc n) (x ∷ xs) = x ∷ take n xs

unfoldable pub remove_broker_subscription : Subscription → Channel → Option Channel
remove_broker_subscription sub ch =
    elim (remove_sub_loop sub.id (length ch.broker_subs) 0
      (record { array = ch.broker_subs; len = length ch.broker_subs })) [
        | none ↦ none
        | some t ↦ some (record ch { broker_subs = take t.len t.array })
      ]

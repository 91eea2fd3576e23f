-- ===== src/Bus/Channel/Handlers.antt =====
-- `Send`, `subscribeHandler` and `unsubscribeHandler`.
use mathlib.Core.List.{append_assoc, append-nil}
use transport_go.Prelude.{
  ℕ, suc, ◌+◌, ◌≡◌, refl, ap, sym, ◌∙◌, Bool, true, false, not, none, some, List, [], ◌∷◌, ◌++◌,
  arith, ◌==◌, inl, inr, Bool-cases,
}
use transport_go.Prelude.GoSlice.{length, length-append, select, All}
use transport_go.Bus.Channel.{
  Channel, ChannelEventHandler, is_spent, remove_at, remove_event_handler, send_loop, send,
  subscribe_handler, unsubscribe_handler, find_handler,
}

abbrev pub IsLive : ChannelEventHandler → Type 0
IsLive h = is_spent h ≡ false

abbrev pub is_live : ChannelEventHandler → Bool
is_live h = not (is_spent h)

send_loop-started :
    (n : ℕ) (hs current : List ChannelEventHandler) → (send_loop n hs current).1 ≡ select is_live hs
unfolding send_loop
send_loop-started n [] current = refl
send_loop-started n (h ∷ hs) current = elim (Bool-cases (is_spent h)) [
  | inl gone ↦ ground (arith, send_loop-started (suc n) hs (remove_event_handler n current))
  | inr live ↦ ground (arith, send_loop-started (suc n) hs current)
]

-- Live handlers leave the slice alone.
send_loop-live :
    (n : ℕ) (live hs current : List ChannelEventHandler)
    → All IsLive live
    → (send_loop n (live ++ hs) current).0 ≡ (send_loop (n + length live) hs current).0
unfolding send_loop
send_loop-live n [] hs current v = ap (λ k. (send_loop k hs current).0) (omega arith)
send_loop-live n (x ∷ xs) hs current v =
    let e : suc n + length xs ≡ n + suc (length xs) = omega arith in
    ground
      (arith, v.0, send_loop-live (suc n) xs hs current v.1, ap (λ k. (send_loop k hs current).0) e)

send_loop-spent :
    (n : ℕ) (h : ChannelEventHandler) (hs current : List ChannelEventHandler)
    → is_spent h ≡ true
    → (send_loop n (h ∷ hs) current).0 ≡ (send_loop (suc n) hs (remove_event_handler n current)).0
unfolding send_loop
send_loop-spent n h hs current s = ground arith

-- Live handlers alone leave it as it is.
send_loop-live_end :
    (n : ℕ) (hs current : List ChannelEventHandler)
    → All IsLive hs
    → (send_loop n hs current).0 ≡ current
unfolding send_loop
send_loop-live_end n [] current v = refl
send_loop-live_end n (h ∷ hs) current v =
    ground (arith, v.0, send_loop-live_end (suc n) hs current v.1)

-- The first used-up handler, behind `pre`, takes away the handler at its own index.
send_loop-one_gone :
    (n : ℕ) (pre hs : List ChannelEventHandler) (h : ChannelEventHandler)
    (current : List ChannelEventHandler)
    → All IsLive pre
    → is_spent h ≡ true
    → (send_loop n (pre ++ h ∷ hs) current).0
      ≡ (send_loop (suc (n + length pre)) hs (remove_event_handler (n + length pre) current)).0
send_loop-one_gone n pre hs h current v s =
    send_loop-live n pre (h ∷ hs) current v ∙ send_loop-spent (n + length pre) h hs current s

remove_at-append :
    (pre post : List ChannelEventHandler) (x : ChannelEventHandler)
    → remove_at (length pre) (pre ++ x ∷ post) ≡ pre ++ post
remove_at-append [] post x = refl
remove_at-append (p ∷ pre) post x = rw (remove_at-append pre post x)

-- The element behind `pre` is removed.
pub remove_event_handler-append :
    (n : ℕ) (pre post : List ChannelEventHandler) (x : ChannelEventHandler)
    → n ≡ length pre
    → remove_event_handler n (pre ++ x ∷ post) ≡ pre ++ post
unfolding remove_event_handler
remove_event_handler-append n pre post x e =
    rw e (ground (arith, length-append pre (x ∷ post), remove_at-append pre post x))

-- The test for an empty slice changes nothing.
send_lem :
    (ch : Channel) (hs : List ChannelEventHandler)
    → ch.event_handlers ≡ hs
    → let r = send_loop 0 ch.event_handlers ch.event_handlers in
      send ch ≡ (record ch { event_handlers = r.0 }, r.1)
unfolding send send_loop
send_lem ch [] e = ground arith
send_lem ch (h ∷ hs) e = ground arith

send-left :
    (ch : Channel)
    → (send ch).0.event_handlers ≡ (send_loop 0 ch.event_handlers ch.event_handlers).0
send-left ch = ap (λ r. r.0.event_handlers) (send_lem ch ch.event_handlers refl)

-- A message starts exactly the handlers that have not used up their one run, in the order of
-- subscription, however many are dropped on the way.
pub send_starts_live : (ch : Channel) → (send ch).1 ≡ select is_live ch.event_handlers
send_starts_live ch =
    ap (λ r. r.1) (send_lem ch ch.event_handlers refl)
    ∙ send_loop-started 0 ch.event_handlers ch.event_handlers

-- With two used-up handlers the second removal goes by an index that the first has shifted: the
-- handler behind the second is lost in place of it, though it is live.
send_loses_live :
    (ch : Channel) (pre mid post : List ChannelEventHandler) (a b c : ChannelEventHandler)
    → ch.event_handlers ≡ pre ++ a ∷ (mid ++ b ∷ c ∷ post)
    → All IsLive pre
    → is_spent a ≡ true
    → All IsLive mid
    → is_spent b ≡ true
    → All IsLive (c ∷ post)
    → (send ch).0.event_handlers ≡ pre ++ (mid ++ b ∷ post)
send_loses_live ch pre mid post a b c e v s w t x =
    let first : ℕ = 0 + length pre in
    let second : ℕ = suc first + length mid in
    let tail = mid ++ b ∷ c ∷ post in
    send-left ch
    ∙ rw e (
        send_loop-one_gone 0 pre tail a (pre ++ a ∷ tail) v s
        ∙ send_loop-one_gone (suc first) mid (c ∷ post) b _ w t
        ∙ send_loop-live_end (suc second) (c ∷ post) _ x
        ∙ ap (remove_event_handler second) (
            remove_event_handler-append first pre tail a (omega arith)
            ∙ sym (
                append_assoc (pre ++ mid) (b ∷ []) (c ∷ post)
                ∙ append_assoc pre mid (b ∷ c ∷ post)))
        ∙ remove_event_handler-append second ((pre ++ mid) ++ b ∷ []) post c
            (omega (arith, length-append (pre ++ mid) (b ∷ []), length-append pre mid))
        ∙ append_assoc (pre ++ mid) (b ∷ []) post
        ∙ append_assoc pre mid (b ∷ post))

-- No handler of the channel has this id.
abbrev pub IsFresh : ℕ → List ChannelEventHandler → Type 0
IsFresh uuid = All (λ h. (h.uuid == uuid) ≡ false)

find_handler-append :
    (i uuid : ℕ) (hs : List ChannelEventHandler) (h : ChannelEventHandler)
    → IsFresh uuid hs
    → (h.uuid == uuid) ≡ true
    → find_handler i uuid (hs ++ h ∷ []) ≡ some (i + length hs)
unfolding find_handler
find_handler-append i uuid [] h v e = ground arith
find_handler-append i uuid (x ∷ hs) h v e =
    ground (arith, v.0, find_handler-append (suc i) uuid hs h v.1 e)

-- Unsubscribing a handler that was just subscribed under a fresh id gives the channel back.
pub unsubscribe_handler-subscribe_handler :
    (h : ChannelEventHandler) (ch : Channel)
    → IsFresh h.uuid ch.event_handlers
    → unsubscribe_handler h.uuid (subscribe_handler h ch) ≡ (ch, true)
unfolding unsubscribe_handler subscribe_handler
unsubscribe_handler-subscribe_handler h ch v = ground (
  arith,
  find_handler-append 0 h.uuid ch.event_handlers h v,
  remove_event_handler-append (0 + length ch.event_handlers) ch.event_handlers [] h,
  append-nil ch.event_handlers,
)

find_handler-fresh :
    (i uuid : ℕ) (hs : List ChannelEventHandler) → IsFresh uuid hs → find_handler i uuid hs ≡ none
unfolding find_handler
find_handler-fresh i uuid [] v = refl
find_handler-fresh i uuid (x ∷ hs) v = ground (arith, v.0, find_handler-fresh (suc i) uuid hs v.1)

-- Unsubscribing an unknown id changes nothing and says so.
unsubscribe_handler_unknown :
    (uuid : ℕ) (ch : Channel)
    → IsFresh uuid ch.event_handlers
    → unsubscribe_handler uuid ch ≡ (ch, false)
unfolding unsubscribe_handler
unsubscribe_handler_unknown uuid ch v =
    ground (arith, find_handler-fresh 0 uuid ch.event_handlers v)

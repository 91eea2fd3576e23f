-- ===== src/Bus/Store/Streams.antt =====
-- bus/store_stream.go and bus/mutation_store_stream.go, and the slice of a store's streams.
-- `Subscribe` and `Unsubscribe` give up the lock of the stream before they change the slice, under its
-- own lock: each is two steps here, between which other calls can take theirs.
use transport_go.Prelude.{
  ℕ, suc, ◌+◌, ◌-◌, String, ◌&&◌, ◌||◌, Bool, false, Option, none, some, List, [], ◌∷◌, ◌++◌, leb,
  ◌==◌, str_eq, if◌then◌else◌, is_some,
}
use transport_go.Prelude.GoSlice.{length, get_elem?, set?}
use transport_go.Bus.Channel.{take}
use transport_go.Bus.Store.{StoreChange}

-- `streamFilter` and `mutationStreamFilter`.
pub record StreamFilter : Type 0 where
  pub states : List String
  pub item_id : String
  pub match_all_items : Bool

unfoldable pub one_of : String → List String → Bool
one_of state [] = false
one_of state (s ∷ states) = str_eq s state || one_of state states

unfoldable pub matches : {V : Type 0} → StreamFilter → StoreChange V → Bool
unfolding one_of
matches f change =
    (f.match_all_items || str_eq f.item_id change.id)
    && (leb (length f.states) 0 || one_of change.state f.states)

unfoldable pub matches_mutation : List String → String → Bool
unfolding one_of
matches_mutation request_types request_type =
    leb (length request_types) 0 || one_of request_type request_types

pub record StoreStream : Type 0 where
  pub handler : Option ℕ
  pub filter : StreamFilter

-- The slice of streams without one: the last takes its place.
unfoldable pub find_stream : ℕ → List ℕ → Option ℕ
find_stream stream [] = none
find_stream stream (s ∷ streams) =
    let rest = find_stream stream streams in
    if s == stream then some 0 else elim rest [ none ↦ none | some i ↦ some (suc i) ]

unfoldable pub swap_remove : ℕ → List ℕ → List ℕ
swap_remove i streams = elim (get_elem? streams (length streams - 1)) [
  | none ↦ streams
  | some last ↦ elim (set? streams i last) [
    | none ↦ streams
    | some swapped ↦ take (length streams - 1) swapped
  ]
]

-- `onStreamUnsubscribe`, and `onMutationStreamUnsubscribe` on the other slice.
unfoldable pub on_stream_unsubscribe : ℕ → List ℕ → List ℕ
unfolding find_stream swap_remove
on_stream_unsubscribe stream streams = elim (find_stream stream streams) [
  | none ↦ streams
  | some i ↦ swap_remove i streams
]

pub data StreamError : Type 0 where
  invalid_handler stream_already_subscribed stream_not_subscribed : StreamError

-- The slice of a store, the streams that were made from it, by their numbers, and for each stream
-- how many calls of `Subscribe` and of `Unsubscribe` have changed it and not yet the slice.
pub record Streams : Type 0 where
  pub store_streams : List ℕ
  pub stream : ℕ → StoreStream
  pub registering : ℕ → ℕ
  pub unregistering : ℕ → ℕ

abbrev pub set_handler : ℕ → Option ℕ → (ℕ → StoreStream) → ℕ → StoreStream
set_handler i h stream j = if i == j then record (stream j) { handler = h } else stream j

abbrev pub set_at : ℕ → ℕ → (ℕ → ℕ) → ℕ → ℕ
set_at i n calls j = if i == j then n else calls j

-- `Subscribe` up to `onStreamSubscribe`; `none` stands for a nil handler.
unfoldable pub subscribe : ℕ → Option ℕ → Streams → Streams × Option StreamError
subscribe i none w = (w, some invalid_handler)
subscribe i (some h) w =
    if is_some (w.stream i).handler then (w, some stream_already_subscribed) else (
      record w {
        stream = set_handler i (some h) w.stream;
        registering = set_at i (w.registering i + 1) w.registering;
      },
      none,
    )

-- `onStreamSubscribe`, of a call that has come so far.
unfoldable pub register : ℕ → Streams → Streams
register i w = if leb (w.registering i) 0 then w else record w {
  store_streams = w.store_streams ++ i ∷ [];
  registering = set_at i (w.registering i - 1) w.registering;
}

-- `Unsubscribe` up to `onStreamUnsubscribe`.
unfoldable pub unsubscribe : ℕ → Streams → Streams × Option StreamError
unsubscribe i w =
    if is_some (w.stream i).handler
    then (
      record w {
        stream = set_handler i none w.stream;
        unregistering = set_at i (w.unregistering i + 1) w.unregistering;
      },
      none,
    )
    else (w, some stream_not_subscribed)

unfoldable pub unregister : ℕ → Streams → Streams
unfolding on_stream_unsubscribe
unregister i w = if leb (w.unregistering i) 0 then w else record w {
  store_streams = on_stream_unsubscribe i w.store_streams;
  unregistering = set_at i (w.unregistering i - 1) w.unregistering;
}

-- The goroutines that `onStoreChange` starts: the handlers, for this change.
unfoldable pub on_store_change : {V : Type 0} → StoreChange V → (ℕ → StoreStream) → List ℕ → List ℕ
on_store_change change stream [] = []
on_store_change change stream (i ∷ streams) =
    let rest = on_store_change change stream streams in
    if matches (stream i).filter change
    then elim (stream i).handler [ none ↦ rest | some h ↦ h ∷ rest ]
    else rest

unfoldable pub mutate : String → (ℕ → List String) → (ℕ → Option ℕ) → List ℕ → List ℕ
mutate request_type request_types handler [] = []
mutate request_type request_types handler (i ∷ streams) =
    let rest = mutate request_type request_types handler streams in
    if matches_mutation (request_types i) request_type
    then elim (handler i) [ none ↦ rest | some h ↦ h ∷ rest ]
    else rest

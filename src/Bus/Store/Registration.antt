-- ===== src/Bus/Store/Registration.antt =====
-- The slice of a store's streams against the streams' own handlers.
use transport_go.Prelude.{
  ℕ, zero, suc, ◌+◌, ◌-◌, ◌<◌, ◌≤◌, ◌≡◌, refl, Option, none, some, List, [], ◌∷◌, ◌++◌, arith, ◌==◌,
  if◌then◌else◌, is_some, Option-cases, inl, inr, leb,
}
use transport_go.Prelude.GoSlice.{length, get_elem?, set?, count, get_elem?-some, set?-some}
use transport_go.Bus.Channel.{take}
use transport_go.Bus.Store.Streams.{
  Streams, StreamError, find_stream, swap_remove, on_stream_unsubscribe, subscribe, register,
  unsubscribe, unregister,
}

abbrev one : ℕ → ℕ → ℕ
one x b = if x == b then 1 else 0

find_stream-some : (a i : ℕ) (xs : List ℕ) → find_stream a xs ≡ some i → get_elem? xs i ≡ some a
unfolding find_stream
find_stream-some a i [] h = ground arith
find_stream-some a zero (x ∷ xs) h = ground arith
find_stream-some a (suc i) (x ∷ xs) h = ground (arith, find_stream-some a i xs)

find_stream-none : (a : ℕ) (xs : List ℕ) → find_stream a xs ≡ none → count a xs ≡ 0
unfolding find_stream
find_stream-none a [] h = refl
find_stream-none a (x ∷ xs) h = ground (arith, find_stream-none a xs)

set?-count :
    (b i v x : ℕ) (xs ys : List ℕ)
    → get_elem? xs i ≡ some x
    → set? xs i v ≡ some ys
    → count b ys + one x b ≡ count b xs + one v b
set?-count b i v x [] ys g h = ground arith
set?-count b zero v x (z ∷ xs) ys g h = ground arith
set?-count b (suc i) v x (z ∷ xs) [] g h = ground arith
set?-count b (suc i) v x (z ∷ xs) (y ∷ ys) g h = ground (arith, set?-count b i v x xs ys)

take-count :
    (b n l : ℕ) (xs : List ℕ)
    → length xs ≡ suc n
    → get_elem? xs n ≡ some l
    → count b (take n xs) + one l b ≡ count b xs
take-count b zero l [] e g = ground arith
take-count b zero l (x ∷ []) e g = ground arith
take-count b zero l (x ∷ y ∷ xs) e g = ground arith
take-count b (suc n) l [] e g = ground arith
take-count b (suc n) l (x ∷ xs) e g = ground (arith, take-count b n l xs)

-- Writing the last element anywhere leaves it last.
set?-last :
    (i n l : ℕ) (xs ys : List ℕ)
    → get_elem? xs n ≡ some l
    → set? xs i l ≡ some ys
    → get_elem? ys n ≡ some l
set?-last i n l [] ys g h = ground arith
set?-last zero zero l (x ∷ xs) ys g h = ground arith
set?-last zero (suc n) l (x ∷ xs) ys g h = ground arith
set?-last (suc i) zero l (x ∷ xs) [] g h = ground arith
set?-last (suc i) zero l (x ∷ xs) (y ∷ ys) g h = ground arith
set?-last (suc i) (suc n) l (x ∷ xs) [] g h = ground arith
set?-last (suc i) (suc n) l (x ∷ xs) (y ∷ ys) g h = ground (arith, set?-last i n l xs ys)

get_elem?-bound : (i x : ℕ) (xs : List ℕ) → get_elem? xs i ≡ some x → i < length xs
get_elem?-bound i x [] h = ground arith
get_elem?-bound zero x (y ∷ xs) h = omega arith
get_elem?-bound (suc i) x (y ∷ xs) h = omega (arith, get_elem?-bound i x xs h)

swap_remove-count :
    (a b i : ℕ) (xs : List ℕ)
    → get_elem? xs i ≡ some a
    → count b (swap_remove i xs) + one a b ≡ count b xs
unfolding swap_remove
swap_remove-count a b i xs g =
    let short = get_elem?-bound i a xs g in
    let n = length xs - 1 in
    let (l, e) = get_elem?-some xs n (omega arith) in
    let (ys, s, long) = set?-some xs i l short in
    ground (
      arith,
      e,
      s,
      set?-count b i l a xs ys g s,
      take-count b n l ys (omega arith) (set?-last i n l xs ys e s),
    )

-- To unsubscribe takes one occurrence of the stream off the slice, and nothing else.
on_stream_unsubscribe-count :
    (a b : ℕ) (xs : List ℕ)
    → count b (on_stream_unsubscribe a xs)
      ≡ count b xs - (if leb (count a xs) 0 then 0 else one a b)
unfolding on_stream_unsubscribe
on_stream_unsubscribe-count a b xs = elim (Option-cases (find_stream a xs)) [
  | inl e ↦ ground (arith, e, find_stream-none a xs e)
  | inr (i, e) ↦ ground (
    arith,
    e,
    swap_remove-count a b i xs (find_stream-some a i xs e),
    swap_remove-count a a i xs (find_stream-some a i xs e),
  )
]

append-count : (b x : ℕ) (xs : List ℕ) → count b (xs ++ x ∷ []) ≡ count b xs + one x b
append-count b x [] = ground arith
append-count b x (y ∷ xs) = ground (arith, append-count b x xs)

-- At most one call on a stream is in flight, and the stream stands in the slice once while it has a
-- handler and otherwise not, but for that call: before it registers the stream is not yet there, and
-- before it unregisters still there.
abbrev pub IsRegistered : Streams → Type 0
IsRegistered w =
    (j : ℕ)
    → (count j w.store_streams + w.registering j
        ≡ (if is_some (w.stream j).handler then 1 else 0) + w.unregistering j)
      × (w.registering j + w.unregistering j ≤ 1)

-- The steps of the calls.
pub data Call : Type 0 where
  subscribes : ℕ → Option ℕ → Call
  registers : ℕ → Call
  unsubscribes : ℕ → Call
  unregisters : ℕ → Call

unfoldable pub step : Call → Streams → Streams × List (Option StreamError)
unfolding subscribe register unsubscribe unregister
step (subscribes i h) w = let (v, e) = subscribe i h w in (v, e ∷ [])
step (registers i) w = (register i w, [])
step (unsubscribes i) w = let (v, e) = unsubscribe i w in (v, e ∷ [])
step (unregisters i) w = (unregister i w, [])

unfoldable pub run : List Call → Streams → Streams × List (Option StreamError)
unfolding step
run [] w = (w, [])
run (c ∷ cs) w = let (v, es) = step c w in let (u, more) = run cs v in (u, es ++ more)

-- No call on the stream is in flight when one begins.
abbrev pub IsFree : Call → Streams → Type 0
IsFree (subscribes i h) w = w.registering i + w.unregistering i ≡ 0
IsFree (unsubscribes i) w = w.registering i + w.unregistering i ≡ 0
IsFree _ w = Unit

unfoldable pub IsApart : List Call → Streams → Type 0
unfolding step
IsApart [] w = Unit
IsApart (c ∷ cs) w = IsFree c w × IsApart cs (step c w).0

step-IsRegistered :
    (c : Call) (w : Streams) → IsFree c w → IsRegistered w → IsRegistered (step c w).0
unfolding step subscribe register unsubscribe unregister
step-IsRegistered (subscribes i none) w free r j = r j
step-IsRegistered (subscribes i (some h)) w free r j = ground (arith, r j, r i, free)
step-IsRegistered (registers i) w free r j =
    ground (arith, r j, r i, append-count j i w.store_streams)
step-IsRegistered (unsubscribes i) w free r j = ground (arith, r j, r i, free)
step-IsRegistered (unregisters i) w free r j =
    ground (arith, r j, r i, on_stream_unsubscribe-count i j w.store_streams)

-- In every history of calls of `Subscribe` and `Unsubscribe`, failed ones included, whose two steps
-- alternate in any way with those of calls on other streams, a stream without a call in flight stands
-- in the slice of the store exactly once while it has a handler and otherwise not; if a call on it is
-- in flight, it is as before that call. (It was so at first, and no call on a stream begins while
-- another one on it is in flight.)
pub run-IsRegistered :
    (cs : List Call) (w : Streams) → IsApart cs w → IsRegistered w → IsRegistered (run cs w).0
unfolding run IsApart
run-IsRegistered [] w apart r = r
run-IsRegistered (c ∷ cs) w apart r =
    run-IsRegistered cs (step c w).0 apart.1 (step-IsRegistered c w apart.0 r)

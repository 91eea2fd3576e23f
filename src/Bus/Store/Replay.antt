-- ===== src/Bus/Store/Replay.antt =====
-- The change stream of a local store against its items.
use transport_go.Prelude.{
  String, ◌≡◌, refl, false, Option, none, some, List, [], ◌∷◌, ◌++◌, arith, str_eq, if◌then◌else◌,
}
use transport_go.Prelude.GoMap.{lookup, lookup-insert, lookup-delete}
use transport_go.Bus.Store.{
  BusStore, Effect, changes, put, remove, put_internal, remove_internal, initialize,
}

-- The operations of a client that change items one at a time, or none. `Populate` and `Reset` change
-- items and tell of no change, so they are not among these.
pub data Operation (V : Type 0) : Type 0 where
  puts : String → V → String → Operation V
  removes : String → String → Operation V
  initializes : Operation V

module _ {V : Type 0} where
  unfoldable pub apply : Operation V → BusStore V → BusStore V × List (Effect V)
  apply (puts id value state) s = put id value state s
  apply (removes id state) s = (remove id state s).0
  apply initializes s = initialize s

  unfoldable pub run : List (Operation V) → BusStore V → BusStore V × List (Effect V)
  unfolding apply
  run [] s = (s, [])
  run (o ∷ os) s = let (t, es) = apply o s in let (u, more) = run os t in (u, es ++ more)

  -- What a subscriber to all changes knows of an item, from what it knew before.
  unfoldable pub replay : List (Effect V) → String → Option V → Option V
  replay [] id old = old
  replay (changes c ∷ es) id old =
      replay es id
        (if str_eq c.id id then (if c.is_delete_change then none else some c.value) else old)
  replay (_ ∷ es) id old = replay es id old

  replay-append :
      (es fs : List (Effect V)) (id : String) (old : Option V)
      → replay (es ++ fs) id old ≡ replay fs id (replay es id old)
  unfolding replay
  replay-append [] fs id old = refl
  replay-append (changes c ∷ es) fs id old =
      replay-append es fs id
        (if str_eq c.id id then (if c.is_delete_change then none else some c.value) else old)
  replay-append (Effect.sends_initialized d ∷ es) fs id old = replay-append es fs id old
  replay-append (Effect.open_store d ∷ es) fs id old = replay-append es fs id old
  replay-append (Effect.close_store d ∷ es) fs id old = replay-append es fs id old
  replay-append (Effect.update_store d v w ∷ es) fs id old = replay-append es fs id old

  apply-replay :
      (o : Operation V) (s : BusStore V) (id : String)
      → s.is_galactic ≡ false
      → lookup id (apply o s).0.items ≡ replay (apply o s).1 id (lookup id s.items)
  unfolding apply put remove put_internal remove_internal initialize replay
  apply-replay (puts k v state) s id h = ground (arith, lookup-insert k id v s.items)
  apply-replay (removes k state) s id h = ground (arith, lookup-delete k id s.items)
  apply-replay initializes s id h = ground arith

  apply-local :
      (o : Operation V) (s : BusStore V) → s.is_galactic ≡ false → (apply o s).0.is_galactic ≡ false
  unfolding apply put remove put_internal remove_internal initialize
  apply-local o s h = ground arith

  -- In a local store, a subscriber that applies the changes it is told of, in their order, to the
  -- items that the store had, knows for each id what the store holds after any calls of `Put`,
  -- `Remove` and `Initialize`.
  pub run-replay_changes :
      (os : List (Operation V)) (s : BusStore V) (id : String)
      → s.is_galactic ≡ false
      → lookup id (run os s).0.items ≡ replay (run os s).1 id (lookup id s.items)
  unfolding run replay
  run-replay_changes [] s id h = refl
  run-replay_changes (o ∷ os) s id h = ground (
    arith,
    run-replay_changes os (apply o s).0 id (apply-local o s h),
    apply-replay o s id h,
    replay-append (apply o s).1 (run os (apply o s).0).1 id (lookup id s.items),
  )

-- ===== src/Bus/StoreManager/Kinds.antt =====
-- Which stores there are, and of which kind, after any calls.
use Prim.Native.String.{String}
use transport_go.Prelude.{
  ℕ, ◌≡◌, Bool, true, false, Option, none, some, List, [], ◌∷◌, arith, str_eq, eq_iff,
  if◌then◌else◌, Option-cases, inl, inr,
}
use transport_go.Prelude.GoMap.{lookup, contains, lookup-insert, lookup-delete}
use transport_go.Bus.Channel.{Subscription}
use transport_go.Bus.Store.{new_bus_store}
use transport_go.Bus.StoreManager.{
  ManagedStore, StoreSyncChannelConfig, StoreManager, create_store, get_store, destroy_store,
  configure_store_sync_channel, new_config, opened, open_new, open_galactic_store,
}

pub data Call : Type 0 where
  creates destroys : String → Call
  opens : String → String → Call
  configures : String → ℕ → Option Subscription → String → String → Call

-- What a name stands for: nothing, a local store (`some false`) or a galactic one; and which
-- connections have a sync channel.
pub record Kinds : Type 0 where
  pub kind : String → Option Bool
  pub configured : String → Bool

-- The first call that makes a store of a name says its kind, until the store is destroyed.
abbrev pub or_new : Bool → Option Bool → Option Bool
or_new k none = some k
or_new k (some old) = some old

unfoldable pub expect : Call → Kinds → Kinds
expect (creates name) s = record s {
  kind = λ j. if str_eq name j then or_new false (s.kind j) else s.kind j;
}
expect (destroys name) s = record s { kind = λ j. if str_eq name j then none else s.kind j }
expect (opens name id) s = record s {
  kind = λ j.
      if s.configured id
      then (if str_eq name j then or_new true (s.kind j) else s.kind j)
      else s.kind j;
}
expect (configures id conn answer topic publish) s = record s {
  configured = λ j. if str_eq id j then true else s.configured j;
}

unfoldable pub expect_all : List Call → Kinds → Kinds
expect_all [] s = s
expect_all (c ∷ cs) s = expect_all cs (expect c s)

module _ {V : Type 0} where
  unfoldable pub step : Call → StoreManager V → StoreManager V
  unfolding create_store destroy_store open_galactic_store configure_store_sync_channel
  step (creates name) m = (create_store name m).0
  step (destroys name) m = (destroy_store name m).0.0
  step (opens name id) m = (open_galactic_store name id m).0.0
  step (configures id conn answer topic publish) m =
      (configure_store_sync_channel id conn answer topic publish m).0.0

  unfoldable pub run : List Call → StoreManager V → StoreManager V
  unfolding step
  run [] m = m
  run (c ∷ cs) m = run cs (step c m)

  -- The kind of the store that `GetStore` returns.
  abbrev pub kind_of : String → StoreManager V → Option Bool
  kind_of name m = elim (get_store name m) [ none ↦ none | some s ↦ some s.is_galactic ]

  abbrev pub Agree : StoreManager V → Kinds → Type 0
  Agree m s =
      ((name : String) → kind_of name m ≡ s.kind name)
      × ((id : String) → contains id m.sync_channels ≡ s.configured id)

  create_store-Agree :
      (name : String) (m : StoreManager V) (s : Kinds)
      → Agree m s
      → Agree (create_store name m).0 (expect (creates name) s)
  unfolding create_store expect get_store new_bus_store
  create_store-Agree name m s v = (
    λ j. ground (
      arith,
      v.0 j,
      v.0 name,
      eq_iff name j,
      lookup-insert name j (record { store = (new_bus_store name false).0; sync_handler = none })
          m.stores,
    ),
    λ id. ground (arith, v.1 id),
  )

  destroy_store-Agree :
      (name : String) (m : StoreManager V) (s : Kinds)
      → Agree m s
      → Agree (destroy_store name m).0.0 (expect (destroys name) s)
  unfolding destroy_store expect get_store
  destroy_store-Agree name m s v = (
    λ j. ground (arith, v.0 j, v.0 name, eq_iff name j, lookup-delete name j m.stores),
    λ id. ground (arith, v.1 id),
  )

  configure_store_sync_channel-Agree :
      (id : String) (conn : ℕ) (answer : Option Subscription) (topic publish : String)
      (m : StoreManager V) (s : Kinds)
      → Agree m s
      → Agree
          (configure_store_sync_channel id conn answer topic publish m).0.0
          (expect (configures id conn answer topic publish) s)
  unfolding configure_store_sync_channel expect get_store
  configure_store_sync_channel-Agree id conn answer topic publish m s v = (
    λ name. ground (arith, v.0 name),
    λ j. ground (
      arith,
      v.1 j,
      v.1 id,
      eq_iff id j,
      lookup-insert id j (new_config id conn topic publish) m.sync_channels,
    ),
  )

  open_new-kind_of :
      (name j : String) (config : StoreSyncChannelConfig) (m : StoreManager V)
      → kind_of j (open_new name config m).0 ≡ (if str_eq name j then some true else kind_of j m)
  unfolding open_new get_store new_bus_store
  open_new-kind_of name j config m =
      let w : ManagedStore V = opened name config m in
      ground (arith, eq_iff name j, lookup-insert name j w m.stores)

  open_galactic_store-Agree :
      (name id : String) (m : StoreManager V) (s : Kinds)
      → Agree m s
      → Agree (open_galactic_store name id m).0.0 (expect (opens name id) s)
  unfolding open_galactic_store expect get_store
  open_galactic_store-Agree name id m s v = elim (Option-cases (lookup id m.sync_channels)) [
    | inl e ↦ (λ j. ground (arith, v.0 j, v.1 id, e), λ j. ground (arith, v.1 j, e))
    | inr (config, e) ↦ elim (Option-cases (lookup name m.stores)) [
      | inl n ↦ (
        λ j.
            ground (
              arith,
              v.0 j,
              v.0 name,
              v.1 id,
              e,
              n,
              eq_iff name j,
              open_new-kind_of name j config m,
            ),
        λ j. ground (arith, v.1 j, e, n),
      )
      | inr (w, y) ↦ (
        λ j. ground (arith, v.0 j, v.0 name, v.1 id, e, y, eq_iff name j),
        λ j. ground (arith, v.1 j, e, y),
      )
    ]
  ]

  step-Agree :
      (c : Call) (m : StoreManager V) (s : Kinds) → Agree m s → Agree (step c m) (expect c s)
  unfolding step
  step-Agree (creates name) m s v = create_store-Agree name m s v
  step-Agree (destroys name) m s v = destroy_store-Agree name m s v
  step-Agree (opens name id) m s v = open_galactic_store-Agree name id m s v
  step-Agree (configures id conn answer topic publish) m s v =
      configure_store_sync_channel-Agree id conn answer topic publish m s v

  -- After any calls of the store manager, `GetStore` finds a store of a name if and only if the
  -- calls leave one, of the kind of the call that made it: the first `CreateStore`, or the first
  -- `OpenGalacticStore` with a configured connection, since the store was last destroyed. Likewise
  -- the connections with a sync channel are those that were configured.
  pub run-Agree :
      (cs : List Call) (m : StoreManager V) (s : Kinds)
      → Agree m s
      → Agree (run cs m) (expect_all cs s)
  unfolding run expect_all
  run-Agree [] m s v = v
  run-Agree (c ∷ cs) m s v = run-Agree cs (step c m) (expect c s) (step-Agree c m s v)

-- ===== src/Bus/Transaction.antt =====
-- bus/transaction.go: a `busTransaction`, its builder methods, `Commit`, and the callbacks that
-- take replies. `tr.lock` is a Go mutex, so a goroutine that takes it twice is stuck: a caller
-- says whether it holds the lock, and `deadlock` is that outcome.
-- What the transaction asks of the bus is a list of effects; the handlers it calls are named by
-- numbers. `P` is the type of payloads and `M` of messages.
pub mod Building
pub mod Deadlock
pub mod Session
mod Examples
use transport_go.Prelude.{
  ℕ, suc, ◌+◌, String, ◌&&◌, Bool, true, false, Option, none, some, List, [], ◌∷◌, ◌++◌, map, ltb,
  ◌==◌, str_eq, if◌then◌else◌,
}
use transport_go.Prelude.GoSlice.{length, get_elem?, replicate, set?}

pub data TransactionType : Type 0 where
  async_transaction sync_transaction : TransactionType

pub data TransactionState : Type 0 where
  uncommitted_state committed_state completed_state aborted_state : TransactionState

pub data TransactionError : Type 0 where
  already_committed empty_transaction : TransactionError
  store_not_found : String → TransactionError
  channel_not_found : String → TransactionError
  reply_error : String → TransactionError

-- What a transaction asks of `bus.EventBus`: is there a store, a channel of this name?
pub record BusView : Type 0 where
  pub has_store : String → Bool
  pub has_channel : String → Bool

pub record BusTransactionRequest (P : Type 0) : Type 0 where
  pub request_index : ℕ
  pub store_name : String
  pub channel_name : String
  pub payload : Option P

pub record BusTransaction (P M : Type 0) : Type 0 where
  pub transaction_type : TransactionType
  pub state : TransactionState
  pub requests : List (BusTransactionRequest P)
  pub responses : List (Option M)
  pub on_complete_handlers : List ℕ
  pub on_error_handlers : List ℕ
  pub completed_requests : ℕ

-- `sends`: a one-shot listener waits for the reply and the request is on its channel.
-- `awaits`: `WhenReady` of the store has the callback. The other two start a handler.
pub data Effect (M : Type 0) : Type 0 where
  sends : ℕ → String → Effect M
  awaits : ℕ → String → Effect M
  completes : ℕ → List (Option M) → Effect M
  fails : ℕ → TransactionError → Effect M

-- How a call ends: it returns, it waits for a lock that its own goroutine holds, or it panics.
pub data Outcome {ℓ} (A : Type ℓ) : Type ℓ where
  done : A → Outcome A
  deadlock : Outcome A
  panics : Outcome A

infixl 5 ◌>>=◌
abbrev pub ◌>>=◌ {ℓ κ} : {A : Type ℓ} {B : Type κ} → Outcome A → (A → Outcome B) → Outcome B
done a >>= f = f a
deadlock >>= f = deadlock
panics >>= f = panics

abbrev pub is_uncommitted : TransactionState → Bool
is_uncommitted uncommitted_state = true
is_uncommitted _ = false

abbrev pub is_aborted : TransactionState → Bool
is_aborted aborted_state = true
is_aborted _ = false

abbrev pub is_sync : TransactionType → Bool
is_sync sync_transaction = true
is_sync async_transaction = false

-- A method that locks, changes the transaction and returns an error or nil.
abbrev pub Reply : Type 0 → Type 0 → Type 0
Reply P M = BusTransaction P M × Option TransactionError

-- A step with its effects.
abbrev pub Acts : Type 0 → Type 0 → Type 0
Acts P M = Outcome (BusTransaction P M × List (Effect M))

module _ {P M : Type 0} where
  unfoldable pub new_bus_transaction : TransactionType → BusTransaction P M
  new_bus_transaction t = record {
    transaction_type = t;
    state = uncommitted_state;
    requests = [];
    responses = [];
    on_complete_handlers = [];
    on_error_handlers = [];
    completed_requests = 0;
  }

  check_uncommitted_state : BusTransaction P M → Option TransactionError
  check_uncommitted_state tr = if is_uncommitted tr.state then none else some already_committed

  unfoldable pub send_request_call : String → P → BusTransaction P M → Reply P M
  unfolding check_uncommitted_state
  send_request_call channel payload tr = elim (check_uncommitted_state tr) [
    | some e ↦ (tr, some e)
    | none ↦ (record tr { requests = tr.requests ++ request ∷ [] }, none)
  ]
    where
      request : BusTransactionRequest P
      request = record {
        request_index = length tr.requests;
        store_name = "";
        channel_name = channel;
        payload = some payload;
      }

  unfoldable pub wait_for_store_ready : BusView → String → BusTransaction P M → Reply P M
  unfolding check_uncommitted_state
  wait_for_store_ready bus name tr = elim (check_uncommitted_state tr) [
    | some e ↦ (tr, some e)
    | none ↦
        if bus.has_store name
        then (record tr { requests = tr.requests ++ request ∷ [] }, none)
        else (tr, some (store_not_found name))
  ]
    where
      request : BusTransactionRequest P
      request = record {
        request_index = length tr.requests;
        store_name = name;
        channel_name = "";
        payload = none;
      }

  unfoldable pub on_complete : ℕ → BusTransaction P M → Reply P M
  unfolding check_uncommitted_state
  on_complete h tr = elim (check_uncommitted_state tr) [
    | some e ↦ (tr, some e)
    | none ↦ (record tr { on_complete_handlers = tr.on_complete_handlers ++ h ∷ [] }, none)
  ]

  unfoldable pub on_error : ℕ → BusTransaction P M → Reply P M
  unfolding check_uncommitted_state
  on_error h tr = elim (check_uncommitted_state tr) [
    | some e ↦ (tr, some e)
    | none ↦ (record tr { on_error_handlers = tr.on_error_handlers ++ h ∷ [] }, none)
  ]

  -- The first argument: does the caller hold `tr.lock`?
  unfoldable pub on_transaction_error : Bool → TransactionError → BusTransaction P M → Acts P M
  on_transaction_error true e tr = deadlock
  on_transaction_error false e tr =
      if is_aborted tr.state
      then done (tr, [])
      else done (record tr { state = aborted_state }, map (λ h. fails h e) tr.on_error_handlers)

  unfoldable pub send_request :
      Bool → BusView → BusTransactionRequest P → BusTransaction P M → Acts P M
  send_request held bus req tr =
      if bus.has_channel req.channel_name
      then done (tr, sends req.request_index req.channel_name ∷ [])
      else on_transaction_error held (channel_not_found req.channel_name) tr

  unfoldable pub wait_for_store :
      Bool → BusView → BusTransactionRequest P → BusTransaction P M → Acts P M
  wait_for_store held bus req tr =
      if bus.has_store req.store_name
      then done (tr, awaits req.request_index req.store_name ∷ [])
      else on_transaction_error held (store_not_found req.store_name) tr

  unfoldable pub execute_request :
      Bool → BusView → BusTransactionRequest P → BusTransaction P M → Acts P M
  unfolding send_request wait_for_store on_transaction_error
  execute_request held bus req tr =
      if str_eq req.store_name ""
      then send_request held bus req tr
      else wait_for_store held bus req tr

  -- The loop of `startAsyncTransaction`; `Commit` holds the lock.
  unfoldable pub execute_all :
      BusView → List (BusTransactionRequest P) → BusTransaction P M → Acts P M
  execute_all bus [] tr = done (tr, [])
  execute_all bus (r ∷ rs) tr = execute_request true bus r tr >>= λ (tr', es).
      execute_all bus rs tr' >>= λ (tr'', fs). done (tr'', es ++ fs)

  unfoldable pub start_sync_transaction : BusView → BusTransaction P M → Acts P M
  start_sync_transaction bus tr = elim tr.requests [
    | [] ↦ panics
    | r ∷ _ ↦ execute_request true bus r tr
  ]

  unfoldable pub start_async_transaction : BusView → BusTransaction P M → Acts P M
  unfolding execute_all
  start_async_transaction bus tr = execute_all bus tr.requests tr

  abbrev committed : BusTransaction P M → BusTransaction P M
  committed tr = record tr {
    state = committed_state;
    responses = replicate (length tr.requests) none;
  }

  unfoldable pub commit :
      BusView
      → BusTransaction P M
      → Outcome (BusTransaction P M × List (Effect M) × Option TransactionError)
  unfolding check_uncommitted_state start_sync_transaction start_async_transaction
  commit bus tr = elim (check_uncommitted_state tr) [
    | some e ↦ done (tr, [], some e)
    | none ↦
        if length tr.requests == 0
        then done (tr, [], some empty_transaction)
        else ((if is_sync tr.transaction_type
              then start_sync_transaction bus (committed tr)
              else start_async_transaction bus (committed tr))
            >>= λ (tr', es). done (tr', es, none))
  ]

  -- After the lock is released: the handlers on completion, or the next request of a sync
  -- transaction.
  unfoldable pub after_success : BusView → BusTransactionRequest P → BusTransaction P M → Acts P M
  after_success bus req tr =
      if tr.completed_requests == length tr.requests
      then done (
        record tr { state = completed_state },
        map (λ h. completes h tr.responses) tr.on_complete_handlers,
      )
      else if is_sync tr.transaction_type && ltb (suc req.request_index) (length tr.requests)
      then elim (get_elem? tr.requests (suc req.request_index)) [
        | none ↦ panics
        | some next ↦ execute_request false bus next tr
      ]
      else done (tr, [])

  unfoldable pub on_transaction_request_success :
      BusView → BusTransactionRequest P → M → BusTransaction P M → Acts P M
  unfolding after_success
  on_transaction_request_success bus req message tr =
      if is_aborted tr.state
      then done (tr, [])
      else elim (set? tr.responses req.request_index (some message)) [
        | none ↦ panics
        | some rs ↦
            after_success bus req
              (record tr { responses = rs; completed_requests = tr.completed_requests + 1 })
      ]

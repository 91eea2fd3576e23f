-- ===== src/Plank/Server/Exchange/Examples.antt =====
-- A request that times out, whose answer comes late and goes to the next request.
use Prim.Native.String.{String}
use transport_go.Prelude.{◌≡◌, refl, ℕ, true, Option, none, some, List, [], ◌∷◌, ◌++◌}
use transport_go.Prelude.GoMap.{lookup, insert}
use transport_go.Plank.Server.Routes.{endpoint}
use transport_go.Plank.Server.Exchange.{
  Traffic, Answer, Exchange, comes, arrives, takes, times_out, payload_at, run,
}
use transport_go.Plank.Server.Exchange.Order.{arrivals, messages_of, run-messages_of}
use transport_go.Plank.Server.Exchange.Rounds.{rounds, answers_in_order, run-rounds}

abbrev with_payloads : List ℕ → Traffic ℕ String ℕ
with_payloads messages = record {
  server = record {
    rest_bridge_timeout = 1;
    bus_channels = ("svc", tt) ∷ [];
    endpoint_handler_map = ("/a-GET", endpoint "svc" 7 1) ∷ [];
    service_chan_to_bridge_endpoints = ("svc", "/a-GET" ∷ []) ∷ [];
    message_bridge_map = some (("svc", record { payload_channel = messages }) ∷ []);
    router = [];
    old_router = none;
    serving = true;
    accepts_template = λ template. true;
    service_ready_store = [];
  };
  waiting = [];
}

-- The answer 31 to the first request comes after its time-out.
abbrev late : List (Exchange ℕ)
late =
    comes 1 "/a-GET"
    ∷ times_out 1
    ∷ arrives "svc" 31
    ∷ comes 2 "/a-GET"
    ∷ arrives "svc" 32
    ∷ takes 2
    ∷ []

abbrev answered : ℕ → Option ℕ → Answer ℕ
answered id message = record { request = id; channel = "svc"; message = message }

shifted :
    run late (with_payloads [])
    ≡ some (with_payloads (32 ∷ []), answered 1 none ∷ answered 2 (some 31) ∷ [])
unfolding run lookup insert
shifted = refl

run-messages_of_example :
    (left : List ℕ) × (payload_at "svc" (with_payloads (32 ∷ [])).server ≡ some left)
    × ([] ++ arrivals "svc" late
        ≡ messages_of "svc" (answered 1 none ∷ answered 2 (some 31) ∷ []) ++ left)
unfolding lookup
run-messages_of_example =
    run-messages_of "svc" [] late (with_payloads []) (with_payloads (32 ∷ []))
      (answered 1 none ∷ answered 2 (some 31) ∷ []) refl shifted

-- With the late message 31 waiting, each request gets the answer to the one before it.
run-rounds_example :
    (t : Traffic ℕ String ℕ) × (run
        (rounds "/a-GET" "svc" ((2, 32) ∷ (3, 33) ∷ []))
        (with_payloads (31 ∷ []))
      ≡ some (t, answered 2 (some 31) ∷ answered 3 (some 32) ∷ []))
unfolding lookup answers_in_order
run-rounds_example =
    run-rounds "/a-GET" "svc" 7 1 (31 ∷ []) ((2, 32) ∷ (3, 33) ∷ []) (with_payloads (31 ∷ []))
      (refl, refl, refl)

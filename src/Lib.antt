-- ===== src/Lib.antt =====
-- Verification of transport-go, a message bus with stores, transactions, services and a STOMP server.
--
-- A bus has channels, on which handlers listen for messages, and stores, which keep items and tell
-- their streams of each change. The channel manager and the store manager keep the tables of both.
-- A transaction sends several requests over channels, or waits for stores, and tells its handlers
-- once of the end. A STOMP server gives remote clients access: each client has a connection, whose
-- loop checks the frames and raises events; the loop of the server takes the events of all
-- connections and sends messages to those that subscribed. The fabric endpoint stands between this
-- server and the bus: it maps destinations to channels, and passes requests and responses on. The
-- store sync service answers remote clients that hold copies of stores, and a galactic store is
-- such a copy. A connection of package bridge is the other side: the client of a broker. Services
-- are registered under channels; each request on the channel of a service is answered by it. Plank
-- is an HTTP server around the bus, whose routes have middleware.
--
-- Files:
--   Prelude: names of the libraries, and Go's slices (GoSlice), maps (GoMap) and int64 (Int64).
--   Bus/Transaction: bus/transaction.go. `send_request_call` is SendRequest, `send_request` is
--     sendRequest; the other names are the code's. The lock is an argument of the error path: to
--     take it twice is the outcome `deadlock`, an index out of range is `panics`. Session is a
--     committed transaction with the requests that wait for a reply; a listener is called at most
--     once for each. `BusView` says which channels and stores there are, at each step anew.
--   Bus/Channel: bus/channel.go and bus/channel_event_handler.go. `Slice` is a slice over its
--     backing array, which the removal of a broker subscription shares with the loop around it.
--   Bus/ChannelManager: bus/channel_manager.go. A channel is its value in the table.
--   Bus/Listener: bus/eventbus.go and bus/message_handler.go: the functions that make listeners
--     and those that send; `handler_wrapper`, `on_success` and `on_error` are the closures of
--     wrapMessageHandler, and the state that they share is the record `MessageHandler`. Requests
--     has the functions that make a request with its listener, and Fire and Close.
--   Bus/Monitor: the monitor of bus/eventbus.go; an event is the list of the ids that it reaches.
--   Bus/Store: bus/store.go, the local and the galactic branch of each operation; Streams has
--     bus/store_stream.go and bus/mutation_store_stream.go. What is sent or started is a list of
--     effects.
--   Bus/StoreManager: bus/store_manager.go, over the tables of stores and channels.
--   Bus/StoreSync: bus/store_sync_service.go. Links and History are about the clients and the
--     listeners of stores, Replica about a store, the service's responses to its changes and the
--     galactic store of a client.
--   Bus/Fabric: bus/fabric_endpoint.go. `map_subscription` and `unmap_subscription` are the parts
--     of addSubscription and removeSubscription behind their tests, `relay_message` is the handler
--     of a mapping; package json is a parameter.
--   Bridge/Connection: bridge/connection.go, bridge/bridge_client.go, bridge/subscription.go and
--     bridge/bridge_client_subscription.go: a connection over a WebSocket. `receive` is one round
--     of handleIncomingSTOMPFrames.
--   Service/Registry: service/service_registry.go and service/service_lifecycle_manager.go.
--   Service/Core: service/fabric_core.go, and the request handler of service/service_registry.go.
--   Service/Rest: service/rest_service.go. What it calls of Go's packages is the record `Web`.
--   Plank/Middleware: plank/pkg/middleware/middleware_manager.go. CacheControl is
--     plank/pkg/middleware/cache_control.go.
--   Plank/Server: plank/pkg/server/server.go, the record of core_models.go, and the listener of
--     initialize.go, which is `set_up_rest_bridge`. `add_bridge` is what SetHttpChannelBridge and
--     SetHttpPathPrefixChannelBridge share. Routes are those that mux is given; which templates it
--     accepts and what it finds under a name are parameters. Setup has the functions that make a server, and static routes. Override, Bridged,
--     History, Panics and Setup/Fresh have the theorems. Services is RegisterService over the
--     registry of services, whose requests to the lifecycle manager the server hears. Config is the
--     configuration: core_models.go, spa_config.go and generatePlatformServerConfig of helpers.go.
--   Plank/Server/Endpoint: plank/pkg/server/endpointer_handler_factory.go, what an endpoint writes
--     for a message, also for the answers of Service/Core; the order in which Go ranges over the
--     headers and the headers that http.Error sets are parameters. Exchange has the requests that
--     wait for the messages of their service channel.
--   Plank/Utils: plank/utils/array.go and bytes.go; Url is uri.go, Paths is the static URIs of
--     paths.go.
--   Stomp/Config: stompserver/config.go. Stomp/Text has the text functions that the parts use.
--   Stomp/Frame: what the server uses of the packages of go-stomp; headers are a parameter.
--   Stomp/Conn: stompserver/stomp_connection.go and stompserver/errors.go. Handlers has the
--     handlers of the frames behind CONNECT; the parts of a handler behind its state test are the
--     `_checked` ones. Running has the loop run, of which `select_round` is one round.
--   Stomp/Server: stompserver/server.go. `handle_branch` is a case of the switch of
--     handleConnectionEvent, `run` is the loop over a history of events.
--
-- Locks make a method one step, so histories are sequences of steps in any order. Where a method
-- takes locks one after the other it is several steps: Subscribe and Unsubscribe of a store stream
-- are two each, and the steps of the server's listener for the lifecycle manager stand in histories
-- by themselves (`set_up_rest_bridge` is that handler where it runs alone). Calls of
-- callbacks, and goroutines that are started, are values among the effects. All loops are
-- structural recursion, so there is no fuel. Integers that wrap round in the code (the versions of a
-- store, the ids of messages, heart-beats) are bit patterns of 64 bits; the counts of a slice are
-- not bounded.
--
-- Not modelled: connections to a broker over TCP, to connect and to disconnect, and the frames
-- that the client of a broker sends; the start and stop of the fabric endpoint, which hand
-- callbacks to the server; of plank the start and stop of its server, the routes of the single
-- page application, the parsing of flags, TLS and log paths, its other utilities and its
-- services. Which route of mux serves a request is not said, only what is registered. Nor,
-- since they are input and output or calls of other libraries, are the package log, all
-- sockets, the goroutines that only copy from a connection, a listener or a broker
-- subscription, the JSON of requests, and conversions by reflection (package model). Nothing
-- receives from brokerMappedEvent but tests, so only its buffer is kept. The wait for a store
-- to be ready is only a reply to the transaction that waits.
pub mod Prelude
pub mod Bridge
pub mod Bus
pub mod Plank
pub mod Service
pub mod Stomp

-- ===== src/Lib.antt =====
-- Market Stream Gateway: a model of the gateway's own logic and what it keeps to.
--
-- Paths are from the repository's root. The gateway takes market data from exchanges over upstream
-- connections and fans it out to downstream clients:
--   * Domain (src/domain.rs) is the data that every part works with: identities and keys
--     (Identity), venue symbols (Symbol), subscriptions and the keys they ask for (Subscription),
--     tickers and candles with their checks (Payload, Candles), and events (Event).
--   * Gateway.Limits, Gateway.Registry and Gateway.Hub (src/gateway.rs) are `ProviderLimits`,
--     `SubscriptionRegistry` and `GatewayHub`. The registry counts who wants which key and
--     publishes the keys that someone wants; the connections follow that snapshot. The hub numbers
--     the events that connections publish and puts them in the queues of the clients.
--   * Runtime.Commands (src/runtime.rs) is `CommandState`: the commands of one upstream connection
--     from their queue to their last acknowledgement, which decides when the connection is live.
--     Runtime.Frames and Runtime.Supervisor are what it does with the frames it receives, and what
--     the supervisor keeps between two connections.
--   * Catalog (src/catalog.rs) is `Catalog`: the instruments of each venue (Instrument), the fields of
--     a venue's listing (Wire) and its rows (Rows, a module per venue), whole listings (Pages), what
--     an endpoint is asked for (Fetch), and the snapshots with their refresh, their queries and the
--     validation of subscriptions (Store).
--   * Api (src/api.rs, src/protocol.rs) is the downstream interface: the frames (Protocol), the
--     shared `AppState` (Server), what a client's command does to the registry and the hub
--     (Commands), the life of a session (Session) and the HTTP requests (Requests). Joint puts the
--     sessions, the registry and the hub together: a command changes the registry first and the hub
--     after it, and the steps of other sessions and of the publishers may come between.
--   * Health (src/health.rs) is `HealthRegistry`: the state of every endpoint, and readiness.
--   * History (src/history.rs) answers requests for past candles: `HistoryRequest::new` (Request),
--     the loops over pages of the six venues (Pages), and `finish_result` (Finish).
-- Prelude, Set, Map and Text hold the Rust library types that these use.
--
-- How code became definitions. A method that changes state takes and returns it, with its result.
-- The registry and the hub do all their work under one lock, so a method is one step; sequences of
-- steps are the relations `Step` and `Reach`. `Result` with `?` is a do block. The text of an error
-- is kept where the code writes it. A `BTreeSet` is its sorted list; a `HashMap` or `BTreeMap` is
-- an association list. The `BTreeMap`s of instruments and of health keep the order of their keys
-- (Map/Ordered.antt), and where the order of a `HashMap` could show, it is a parameter (the totals
-- that `add` visits). A tokio channel is its waiting messages. UUIDs are numbers.
--
-- Bounds and fuel. A `u64` or `usize` is a number with its saturation, its wrap or its checked test
-- written out at 2 ^ 64 - 1; the state relation of the registry asks that its counts fit. The page
-- loops of History take fuel: `count_page` stops at 40 pages, so 41 turns are enough, whatever the
-- venue answers. The catalog's loop over Bybit's pages has the 10000 turns that the code gives it.
--
-- What is a parameter. `rust_decimal` (Domain.Payload.Decimals), Unicode's tables beyond ASCII
-- (`wide`), the unstable sort (of which only its documentation is used), a query to a venue with the
-- parse of its answer (`get`, `ask`), what the JSON library makes of a body or of a client's text
-- (`Answers`, `read`), whether the socket takes a frame (`sent`), and the catalog's and the history
-- request's uses of decimals (`WireDecimals`, `VolumeDecimals`). The theorems that need a fact about
-- these name it: no letter or digit is a space, and the order of a hash map is a permutation.
--
-- What is not modelled. The connection loop with its sockets and timers, the HTTP of the catalog, the
-- adapters' JSON, configuration, metrics but for the counters of sessions and requests, the router
-- and start-up: input, output and serialisation for the most part. Of the history client, the server
-- time that MEXC, BingX and Binance are asked for first, and the parsers.
pub mod Prelude
pub mod Set
pub mod Map
pub mod Text
pub mod Domain
pub mod Gateway
pub mod Catalog
pub mod Api
pub mod Health
pub mod History
pub mod Runtime
pub mod Tests

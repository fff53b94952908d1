-- ===== src/Lib.antt =====
-- NodePanel: the control plane that sells access to a fleet of nodes by traffic quota.
--
-- The program. An operator and a sales bot call the REST API (internal/api). Its handlers change
-- the SQLite store (internal/store), call the agents of the nodes (internal/nodeclient), where
-- each subscription has a tenant, and queue signed events for webhook consumers
-- (internal/webhook). A background collector (internal/api/collector.go) polls the usage of every
-- active tenant, stores it and raises events. The records are those of internal/domain/models.go.
--
-- The development.
--   Prelude              shared names, Boolean tests, tables as lists, Go's int64 and strings
--   Domain, Schema       internal/domain/models.go; the tables of internal/store/schema.sql
--   Wire                 the messages to nodes and to webhook consumers
--   Runtime              the environment, the state of the panel, calls that may fail
--   Store                internal/store, a module per table; Store.Effects, Store.Creation,
--                        Store.Updates, Store.Removals, Store.Quota, Store.NewNode and
--                        Store.Retention say what the calls do to the state; Store.Setup and its
--                        children are Open, applySchema and the migrations of store.go;
--                        Store.Intact and Store.Kept are about the keys and references of its
--                        tables, Store.CustomerMap and Store.Roundtrip about what callers see
--   NodeClient           internal/nodeclient/client.go; NodeClient.Calls and TenantCalls say what
--                        a call leaves alone, NodeClient.Pinned when it is written, and
--                        NodeClient.Trust is FetchCert; NodeClient.Kept serves Api.Kept
--   Webhook              internal/webhook/dispatcher.go: Queue and Order are about the channel,
--                        Delivery, Rounds and Drained about the posts
--   Config               internal/config/config.go
--   Api                  internal/api: Response and Access (api.go), Threshold, Events and
--                        Collector (collector.go), Subscriptions and Quota (subscriptions.go,
--                        keys.go), Lifecycle (lifecycle.go, and deleteNode of nodes.go), Nodes
--                        (nodes.go), Inbounds (the inbounds of nodes.go), Connection
--                        (connection info, subpage.go), Page (subPage of subpage.go), Catalogue
--                        (handlers.go, webhooks.go), Decode and Router (api.go);
--                        the children of a handler's module are about its outcomes, Api.Kept
--                        about the tables over every handler
--   Panel                cmd/panel/main.go: start, the server, the worker and the
--                        collector at work, and the end
--   Tests                a small panel, runs of the definitions on it, and the theorems applied
--
-- State. `World` is the database, the dispatcher's channel, the traces of the requests that went
-- out, and a tick for every effect so far. A handler is an `Exec Response Response`: it takes a
-- `World` and returns the response and the `World` after it; an early `return` is the error side.
-- A store call is an `Exec Err A`; each SQL statement is one step on `Db`, with its primary keys,
-- foreign keys and cascades. Strings are native strings, int64 values are integers that wrap at 64
-- bits (`wrap64`), `uint64` and period numbers are natural numbers and do not wrap.
--
-- Parameters. What the code does not implement is the record `Env`, indexed by ticks: the
-- database driver's errors, the clock, uuids, the network to nodes and consumers, JSON decoding of
-- replies, URLs, PEM, SHA-256 and HMAC. Theorems hold for every `Env`; hypotheses about it are
-- named.
--
-- Interleaving. A handler runs here without interruption; the worker of the dispatcher and a wake-
-- up of the collector are steps of their own (Panel.Step), and the process may end and start again
-- between two steps (Panel.Reaches). Loops recur on their lists; the retry loop recurs on the
-- attempts that are left.
--
-- The database. `Db` also holds what a start may find different in an older file, and whether the
-- connection enforces foreign keys (`Shape`): a new connection does not, and a pragma of Open turns
-- them on. The statements outside Store.Setup are those on a file that Open has brought into shape;
-- they check foreign keys and cascade only on a connection that enforces them, which Panel.Sound has
-- as a part.
--
-- Not modelled: the HTML template of internal/api/subpage.go and the static files of internal/web,
-- the multiplexer (chi) and JSON encoding of responses, which are parameters, request deadlines
-- other than as errors of the calls they cut short, log lines, response headers, signals, listening
-- on the socket and the grace period of a shutdown. Two rows of one time are listed in the order of
-- the table. Error texts of nodes are not cut at 4096 bytes.
pub mod Prelude
pub mod Domain
pub mod Schema
pub mod Wire
pub mod Runtime
pub mod Store
pub mod NodeClient
pub mod Webhook
pub mod Config
pub mod Api
pub mod Panel
pub mod Tests

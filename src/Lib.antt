-- ===== src/Lib.antt =====
-- A model of the router of wrangle-webhooks, a Cloudflare Worker that takes webhooks and OAuth
-- callbacks on public routes and delivers them to the developers who are connected, over a public
-- URL or a reverse tunnel.
--
-- The parts and how they interact. A public request enters `Ingress` (src/public-ingress.ts), which
-- refuses probes by `Path` (src/scanner-probe.ts, src/ingress-urls.ts, src/route-id.ts,
-- src/webhook-filter-path.ts, src/oauth-callback-path.ts), finds its route by `Index`
-- (src/router-index.ts), reads the body up to a cap (src/ingress-body.ts), classifies the request
-- by `Oauth` (src/oauth-state.ts), and hands it to the object of the route, `Route`
-- (src/durable-object.ts). That object keeps the subscribers, the OAuth bindings, the tunnel
-- sockets and the tunnel requests that wait for an answer; it selects the subscribers of a webhook
-- by `Fanout` (src/webhook-path-filter.ts, src/webhook-fanout-settings-storage.ts), sends headers
-- made by `Forward` (src/forward.ts, src/router-headers.ts) over the messages of `Tunnel`
-- (src/tunnel-protocol.ts), and proves who may take an environment by `Secrets`
-- (src/credentials.ts, src/timing-safe-equal.ts). A request to the worker is told apart by `Router`
-- (src/worker.ts); `Management` (src/management-http.ts, src/management-auth.ts) registers, keeps
-- and removes subscribers, mints the secrets of routes, opens tunnels and writes the operator's
-- settings, over the same index and routes, and checks a target by `TargetBaseUrl`
-- (src/target-base-url.ts). `Dashboard` (src/dashboard-http.ts, src/dashboard-session.ts, the
-- status of src/dashboard.ts) signs a session for who knows its password, shows the routes and the
-- logs, and has forms for the same settings. `Router.fetch` is the worker as a whole. `Sidecar` is
-- how a developer's end sees its connection and tries again (src/connection-state.ts,
-- src/connection-retry.ts), and `Sidecar.TunnelClient` its reverse tunnel (src/tunnel-client.ts);
-- it asks the management API for the paths of `Path.Links` (src/ingress-urls.ts,
-- src/tunnel-protocol.ts). `Log` is the two audit logs (src/connection-log.ts, src/inbound-log.ts
-- and their storage), and `AcceptWebhooks` is src/accept-webhooks.ts. `Base` has the shared tests,
-- lists, texts and the SQL statements over lists of rows.
--
-- State and operations. `Route.RouteState` is the state of a `RouteDurableObject`: its tables as
-- lists of rows, the alarm, the sockets that the runtime lists, the map `pending`, the promises
-- that were settled, the messages sent, the queued log events and the calls of the index. Each
-- method is a function from state to state and result with its name in snake_case (`register`,
-- `heartbeat`, `deregister`, `bind_oauth_state`, `fan_out`, `proxy_oauth`), `fetch` is
-- `connect_tunnel` and `alarm` is `run_alarm`; the time is an argument. `Ingress.Handler.World` has
-- the index and all routes, and `handle_public_ingress` acts on it. `handle_management` acts on the
-- same world, and so does `handle_dashboard`; in both a method of a route is `at_route`, which
-- delivers the calls that the route has made of the index. `Route.Inv.Reach` has the steps of a
-- route. `Sidecar.TunnelClient.TunnelClient` is a `TunnelConnection`: its fields, where `runLoop`
-- and `disconnect` wait, and what the runtime keeps of its sockets; a method runs up to its next
-- await, and `Events.on_event` is what a call, a socket or a timer does to it. `close` and `error`
-- of a socket are events of their own.
--
-- Numbers and texts. Times and sizes are natural numbers, which is what the source gives. A text is
-- the list of its UTF-16 units. Bodies are lists of bytes, which leaves base64 out. Every loop is
-- structural recursion on what it iterates over; the traversal filter decodes four times, as the
-- source does, and that is its only bound, but for the decimal text of a number, which has as much
-- fuel as the number and one more, and needs a unit for each digit. A session's number is read
-- exactly, where `parseInt` would round one beyond 2^53.
--
-- Parameters. SHA-256, HMAC, JSON, base64url, the parser of `URLSearchParams`, random digits, `URL`
-- and the sockets that take a message come from the runtime, and are arguments of what uses them.
-- The round trip of signed states assumes that the codec reads back what it wrote and that a MAC
-- has no dot, and that of a dashboard session that a MAC is in the letters of base64url.
--
-- What is not modelled: interleavings inside one operation, but for `attach_with`, which takes the
-- row that was looked up before the digest was awaited; the answers of public targets, which are
-- network I/O; table creation; the HTML of the dashboard (src/dashboard.ts), which is made from its
-- status; the rest of the sidecar (src/client.ts, src/control-server.ts) and the command line
-- (src/cli.ts), which only call the parts above or are I/O.
pub mod Base
pub mod Path
pub mod Secrets
pub mod Fanout
pub mod Oauth
pub mod Log
pub mod AcceptWebhooks
pub mod Tunnel
pub mod Route
pub mod Forward
pub mod Index
pub mod Ingress
pub mod Sidecar
pub mod TargetBaseUrl
pub mod Management
pub mod Dashboard
pub mod Router

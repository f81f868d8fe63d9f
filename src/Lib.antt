-- ===== src/Lib.antt =====
-- revproxy, a reverse proxy with several upstream nodes for each route, health checks, rate limits
-- and an outgoing SOCKS5 or HTTP proxy for each node.
--
-- A request comes in at `Engine.ServeHTTP` (Serve), is matched to a route (Routing) by host (Host),
-- path and pattern, passes the address lists (Access), the login and the token bucket
-- (Limiter), gets a node from the pool of the route (Pool, Backend), is sent with retries
-- (Forward) over a cached transport (Transport), with the headers of the route (Headers), through a
-- proxy if the node has one (Socks), and is counted and logged (Stats); where nobody answers there is a
-- page for the error (ErrorPage). main.go starts it all (Start). All of it is driven by the configuration and its store (Config), from which `Engine.Reload` makes the
-- handlers (Reload). The administration API (Admin) changes the store for those who have a session
-- (Auth); the engine follows the store through the API, a subscriber and a watcher of the file (Sync).
--
--   Config        internal/config/config.go: the types, `Default`, the lookups by id; Config/Normalize
--                 `normalize`, Config/Password `HashPassword`, `derive` and `VerifyPassword`, Config/Store
--                 `Load`, `Update`, `Subscribe`, `Reload` and `writeFile`
--   Backend       internal/proxy/upstream.go: `newBackend`, `markFail`, `markOK`, `markSuccess`
--   Pool          internal/proxy/upstream.go: `NewPool`, `Next`, `smoothWeighted`, `fnv32`
--   Health        internal/proxy/upstream.go: `HealthChecker.check`; Health/Workers `Reset` and `Stop`
--                 with the goroutines, as a step relation
--   Transport     internal/proxy/upstream.go: `TransportManager.Get`; internal/socks/socks5.go: `Key`
--   Host          internal/proxy/middleware.go: `hostMatch`, `ClientIP`, `BasicAuthOK`, `IsUpgrade`
--   Access        internal/proxy/middleware.go: `IPMatcher`
--   Limiter       internal/proxy/middleware.go: `bucket`, `Limiter`
--   Routing       internal/proxy/engine.go: `match`, `applyOutURL`, `dynDomainOf`, `resolveDynProxy`,
--                 `dynSchemeOf`, `rewriteDynamic`, `resolveProxyFn`
--   Forward       internal/proxy/engine.go: `routeRT.RoundTrip` for a route with fixed nodes, Forward/Body
--                 `countBody`
--   Headers       internal/proxy/engine.go: `rewrite`, `rewriteDynamic`, `modifyResponse`
--   ErrorPage     internal/proxy/engine.go: `errorPage`, `truncate`, `roundTripDynamic`
--   Serve         internal/proxy/engine.go: `ServeHTTP`, Serve/Recorder `statusRecorder`
--   Reload        internal/proxy/engine.go: `Reload`
--   Auth          internal/admin/auth.go: `Login`, `Token`, `Verify`, `ChangePassword`
--   Admin         internal/admin/server.go: `currentUser`, `csrfOK` and the shared steps; Admin/Api `api`,
--                 Admin/Routes `handleRoutes` and `handleRouteByID`, Admin/Proxies `handleProxies` and
--                 `handleProxyByID`, Admin/Settings the other handlers, Admin/Trial `handleProxyTest`
--                 and `handleUpstreamTest`, Admin/Site `ServeHTTP` and `serveFile`
--   Start         main.go: flags and environment, `mainHandler`, the main server, `banner`
--   Sync          main.go: the loop of the subscriber and `watchConfig`
--   Socks         internal/socks/socks5.go: `dialSOCKS5`, `socks5Auth`; Socks/Tunnel `dialHTTPConnect`,
--                 Socks/Dial `DialContext` and `timeout`
--   Stats         internal/stats/stats.go
--   Prelude       tests on numbers, lists, signed integers, Go's strings as bytes, decimal text
--   Samples       data that the tests share
--
-- Go's `int` and `int64` are ℤ with 64 bits written out, `uint64` a number modulo 2 ^ 64, a
-- string a list of bytes, a map an association list, a pointer to a node or a handler its address
-- `key`. Operations are one after the other, as their locks make them; the announcement of `Update`,
-- which comes after its lock is released, is taken together with it. In Sync the
-- updates and the reloads of the engine that belong to one request are also steps of their own. The time, random bytes and faults of the disk are arguments. Loops are structural: the
-- rounds of `RoundTrip` run on the number of attempts that are left. Token buckets count
-- in units of 10 ^ -15 tokens, exactly, where the source has `float64`; `least_conn` compares quotients
-- exactly for the same reason.
--
-- Parameters: `regexp`, `url.Parse`, `encoding/json`, HMAC-SHA256 with hexadecimal output, the IP addresses of
-- package `net`, `sort.SliceStable`, the network, the embedded files, `filepath.Join`, and the reverse
-- proxy of net/http/httputil with `SetXForwarded`.
--
-- Fuel: decimal text has at most twenty digits, enough for any number of 64 bits; the loop over the
-- head of an HTTP answer has a round for each byte of the input, and each round takes one at least.
--
-- Not modelled: `CloseIdle` in internal/proxy/upstream.go, which only calls net/http; the bodies of the
-- replies to `overview` and `system` in internal/admin/server.go and the reply of `TestUpstream`; the pages
-- of internal/proxy/templates.go and the echo; listeners and signals in main.go: network set-up,
-- JSON and HTML.
pub mod Access
pub mod Admin
pub mod Auth
pub mod Backend
pub mod Config
pub mod ErrorPage
pub mod Forward
pub mod Headers
pub mod Health
pub mod Host
pub mod Limiter
pub mod Pool
pub mod Prelude
pub mod Reload
pub mod Routing
pub mod Samples
pub mod Serve
pub mod Socks
pub mod Start
pub mod Stats
pub mod Sync
pub mod Transport

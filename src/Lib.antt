-- ===== src/Lib.antt =====
-- A model of Lura, a framework for API gateways: a gateway receives a request on an endpoint, sends
-- it to the endpoint's backends through a pipe of proxies, and merges what they answer.
--
-- Value: the `interface{}` values that decoders make and configuration holds, and Go's maps.
-- Common: Boolean tests, lists, texts, decimals, signed integers and the Option monad on native numbers.
--
-- Config (config/config.go, config/uri.go): the structs, field by field. Config.Uri has SafeCleanHost,
--   SafeCleanHosts, CleanPath and GetEndpointPath; Config.Init has Init and the steps it calls, each
--   under its name in snake case; Config.Urls has initBackendURLMappings and uniqueOutput. What the
--   regular expressions and the string functions of the standard library answer are the fields of a
--   Platform. A failed step is a Result with an error.
--   Config.Parser (config/parser.go): Parse, CheckErr and the position of an error; Config.Parser.Types
--     and Config.Parser.Normalize have the parsed structs and their normalize.
-- Proxy (proxy/proxy.go, proxy/request.go): Response, Metadata, Request, the errors.
--   Proxy.Cloning (proxy/request.go): Clone, CloneRequest and GeneratePath over a store of addresses.
--   Proxy.Formatter (proxy/formatter.go): AllowlistPrune, buildDictPath, buildDenyTree, recDelete, the two
--     filters; Proxy.Formatter.Entity: NewEntityFormatter and Format; Proxy.Formatter.Flatmap: the flatmap
--     formatter and NewFlatmapMiddleware, over the operations of the external Trees.
--   Proxy.Merging (proxy/merging.go): combineData, the accumulator, requestPart and parallelMerge, over
--     the list of arrivals in any order. Proxy.Merging.Sequential: sequentialMerge with combineData,
--     with its variables in Proxy.Merging.Progress.
--     Proxy.Merging.Choice: getMergerFactory, getResponseCombinerName and the rule for
--     cloning. Proxy.Merging.Backends: parallelMerge over the pipes of the backends.
--   Proxy.Filters (proxy/headers_filter.go, proxy/query_strings_filter.go), Proxy.Concurrent
--     (proxy/concurrent.go), Proxy.Static (proxy/static.go), Proxy.Shadow (proxy/shadow.go).
--   Proxy.Http (proxy/http.go, proxy/http_response.go): NewHTTPProxyDetailed and the response parsers,
--     over a Network that executes requests. Proxy.Stack (proxy/factory.go, proxy/balancing.go and the
--     request builder of proxy/http.go): newStack over a Pipe. Proxy.Modifiers (proxy/plugin.go): the
--     plugins' middleware, which newStack uses; Proxy.Modifiers.Loading (proxy/plugin/modifier.go and
--     plugin/plugin.go): what a load of plugins registers.
-- Graphql (transport/http/client/graphql/graphql.go, proxy/graphql.go): the options, the extractor and
--   the middleware.
-- Encoding (encoding/encoding.go, encoding/register.go): the decoders.
-- Sd (sd/subscriber.go): hosts and subscribers. Sd.Balancer (sd/loadbalancing.go): the balancers, whose
--   counter wraps at 2^64. Sd.Dnssrv (sd/dnssrv/subscriber.go): resolve, compact, normalize, gcd, update.
-- Register (register/register.go, sd/register.go, encoding/register.go, proxy/register.go).
-- Client (transport/http/client/status.go): the status handlers.
-- Server (transport/http/server/server.go): RunServer, the TLS configurations and the transport, over a
--   Machine that reads files and certificates.
-- Mux (router/mux/endpoint.go): the handler of an endpoint and the request builder. Mux.Router
--   (router/mux/router.go, router/mux/engine.go, router/helper.go): Run and the registered handlers.
--   Mux.Render (router/mux/render.go and the interceptor of router/mux/engine.go): what is written.
-- Async (async/asyncagent.go): Start.
-- Backoff (backoff/backoff.go): the waiting times, which wrap as int64.
-- Tests: concrete inputs.
--
-- `Config.Parser` makes the configuration that `Init` completes, and `Init` gives the backends of Proxy,
-- Sd and Mux their settings: Proxy.Shadow, Client and Graphql read their extra configuration,
-- Proxy.Formatter.Entity their lists, Mux.Router the endpoints. Proxy.Stack asks a balancer of Sd for a
-- host and hands the request to a client such as the one of Proxy.Http, which reads the answer with a
-- decoder of Encoding. A map's update in place is a function from the old map to the new one, except in
-- Proxy.Cloning, where aliasing matters, and in Proxy.Modifiers, where a proxy says what it leaves in the
-- request; a panic is `none` or a constructor of its own, and of a goroutine it ends the process. The order in
-- which Go iterates over a map is the order of its entries, of which the theorems assume nothing.
-- Goroutines appear by the order of what they send.
--
-- `local_gcd` recurses on fuel, of which one more than its second argument is given: the second argument
-- falls at each step. `decimal` recurses on fuel, of which a number's successor is given: each digit
-- divides the number by ten, and `decimal_enough` shows that more fuel changes nothing. All else is
-- structural recursion.
--
-- Not modelled: the routers that bind external packages (gin, chi, gorilla, negroni, httptreemux), with
-- the debug and echo handlers; the loaders of client and server plugins, logging and I/O; the
-- defaultFactory's New, with the configuration of the sequential merger; Normalize and Hash of the
-- configuration.
pub mod Common
pub mod Async
pub mod Backoff
pub mod Client
pub mod Config
pub mod Encoding
pub mod Graphql
pub mod Mux
pub mod Proxy
pub mod Register
pub mod Sd
pub mod Server
pub mod Tests
pub mod Value

-- ===== src/Lib.antt =====
-- go-holons, the Go SDK: Holon-RPC, which is JSON-RPC 2.0 over WebSocket, in pkg/holonrpc; the
-- listeners and the browser gateway of pkg/transport; and what serves and dials them.
--
-- The program. A `Server` (pkg/holonrpc/server.go) accepts WebSocket connections; each is a
-- `serverPeer`. A `Client` (client.go) holds one connection and can reconnect by itself. Both sides
-- send requests and answer them: what comes in is a request for a registered `Handler`, or the
-- response to a call that waits in a `pending` map. The server also routes requests between its
-- peers (routing.go): to one peer, to all of them, with or without telling the others. types.go has
-- the envelope. pkg/transport turns a URI into a listener for gRPC, and `WebBridge` there is a
-- gateway of its own for browsers. pkg/serve, pkg/grpcclient and the programs under cmd listen and
-- dial with these URIs.
--
-- The files, and the code that each models:
--   Common                Go's strings as code points, maps as association lists, int64 counters,
--                         the flag package (Flags)
--   Holonrpc/Value        the values of encoding/json and `map[string]any`
--   Holonrpc/Message      pkg/holonrpc/types.go
--   Holonrpc/Routing      `parseRouteHints` of pkg/holonrpc/routing.go
--   Holonrpc/Pending      the `pending` maps of server.go and client.go; Steps has their histories,
--                         Refines the state machine of one key
--   Holonrpc/Server       pkg/holonrpc/server.go with the rest of routing.go: State (the structs and
--                         the monad of their methods), Send (`writePeer` and what calls it), Invoke,
--                         Route (`routePeerRequest`, `dispatchFanOut`, the broadcasts), Request
--                         (`handlePeerRequest`, `handlePeerResponse`), Lifecycle (`Start`, `Close`,
--                         the upgrade and the end of a connection), Connection (`handleWebSocket`
--                         with its loop); the rest are proofs
--   Holonrpc/Client       pkg/holonrpc/client.go: Connection (`Connect`, `ConnectWithReconnect`,
--                         `Close`, `onDisconnect`, the attempts of `reconnectLoop`), Request
--                         (`handleRequest`, `handleResponse`), ReadLoop (`readLoop`), Invoke, Loop
--                         (`reconnectLoop`); the rest are proofs
--   Holonrpc/Reads        what the read loops of both sides meet, and the history that it makes
--   Holonrpc/RoundTrip    calls from end to end: of the server, that a client answers; in ClientCall,
--                         of a client, that the server's handler answers (Handled);
--                         in Relayed, RelayedErrors and RelayedBroadcast, of one client to
--                         another through the server
--   Transport/WebBridge   pkg/transport/wsweb.go: the bridge; Invoke has the calls of a browser
--   Transport/Listeners   the queues of `stdioListener` and `wsListener`, the close of `unixListener`
--   Transport/Uri         `Listen` and `Scheme` of transport.go, `newWSListener` of ws.go
--   Programs              pkg/serve (Serve), pkg/grpcclient (GrpcClient, Child), cmd/echo-server and
--                         cmd/echo-client (Echo has what both say of URIs, EchoServer and
--                         EchoClient their flags, `main` and exit codes); the rest are proofs
--   Tests in each part    small encoders and hosts, and a run of each theorem
--
-- Conventions. A method keeps its Go name in the spelling of this library. A locked section is one
-- step. `Start`, `Close`, `Connect`, the reconnect loop and the read loops are cut between their
-- sections, and what other goroutines do in between is a function that the model takes (`World`,
-- `Net`, `Dialer`, `WebWorld`, `Others`). Elsewhere the sections of a method that do not wait for
-- each other are one step: the beginning and the deferred function of `handleWebSocket`,
-- `onDisconnect`, the loop of `Close` over the peers, and a call of either side up to its write, so
-- that `Invoke` finds the peer that `peerExists` has found.
-- A pointer is a number and a
-- heap maps it to its struct; channels likewise. A call is cut at its `select` into `begin_…` and
-- `finish_…`. Where a `select` has two branches ready, which one Go takes is an argument. A handler
-- is a function of its params; what it does to the server is a step of its own. Counters wrap around
-- at 2^64 and are printed as int64. All recursion is on the data, so that no fuel is needed; the
-- reconnect loop runs over the list of the turns, networks and timers that it meets, a read loop over
-- the frames that it reads until a read fails.
--
-- Parameters. encoding/json and the verbs `%v` and `%q` are the record `Codec`, and `IsLawful` says
-- what the program relies on of it; `WebCodec` is the same for wsweb.go. The WebSocket library's
-- writes and dials, net, net/url, net/http, os and the child process are `World`, `Dialer`, `Net`,
-- `Host` and `Child`; a run of an echo program meets a `Process`, or a `Shell` and a `Net`.
--
-- Not modelled. The order in which Go reads a map is the order of the list. The bytes of a frame
-- are code points. Contexts are the fact that they ended. The random jitter of a reconnect,
-- read limits and close codes are left out. So are the calls of grpc, bufconn and signals, which
-- are not this repository's code; what the echo client asks of grpc is the record `Net` of EchoClient.
pub mod Common
pub mod Holonrpc
pub mod Transport
pub mod Programs

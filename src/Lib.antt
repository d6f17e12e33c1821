-- ===== src/Lib.antt =====
-- A model of streamf, a program that forwards streams between listeners, dialers, bridges and
-- portals, with theorems about it. Paths are those of the repository. A module that is named for a
-- part holds the definitions of that part; its child modules hold the proofs, and the child Runs
-- the examples.
--
-- - Sniff, Capture, Router, SniConn: the proxy that chooses a dialer by the server name in a TLS
--   ClientHello. Sniff is `parseClientHello` of sniproxy/sniff.go, with a panic as a result of its
--   own; Capture is `readClientHello` and `sniffSNI`, over the bytes that a connection is going to
--   give. Router is sniproxy/listener.go with the matchers of sniproxy/dailer.go: `new_listener` is
--   `New`, `route` the choice of a dialer in `serve`, and `serve` the whole handler up to the
--   bridge, whose arguments are then its result. SniConn is the connection of the same file that
--   replays what was sniffed. Router uses Capture, which uses Sniff; what Router hands to a bridge
--   is what SniConn reads.
-- - Datagram: internal/network/udp.go, where a UDP client is a stream, and the loop of
--   dialer/udp.go that is the same. Datagram is `run` over the bytes of the pipe that `Write`
--   fills; Datagram.Inbox is `putRead` and `Read` over the channel of datagrams that arrived.
--   Datagram.Streams is `onMessage`, which finds or accepts the stream of a client, with
--   `Close`, Datagram.Outbound the reading side in dialer/udp.go, and Datagram.Idle the goroutine that closes an idle stream, by the signals it receives.
-- - Pool: pool/pool.go, whose buffers Capture, Datagram and Relay take and give back. A buffer is
--   its identity and its capacity; the callers that have one are a list.
-- - Relay: `copyBuffer` of internal/network/bridging.go, over any writer.
-- - Websocket: the routines of the same file that copy to and from websockets, and the connection of
--   internal/httpmux/websocket.go. A message is the blocks that its reader is going to give; the
--   `ReadFrom` of a writer that has one is an argument, as its `Write` is.
-- - Bridging: `Bridging` of internal/network/bridging.go, as steps of the function, its two goroutines and a clock;
--   when a goroutine's copying ends is open.
-- - Network: internal/network/network.go, where dialers of a pipe or a portal wait for a listener
--   of their address. Network.Rendezvous is one map with its list of waiting dialers; `listen`,
--   `dialer` and `new_portal` work on two of those. Network.Binding is what a
--   listener changes, Network.Reached the sequences of calls, Network.Placed what becomes of one
--   dialer, and Network.Timely what a listener has to do with the dialers that wait.
-- - Forward: internal/udp/udp.go, the UDP forwarder. `serve` is a round of `Serve`, `close` and
--   `write` are those of `remoteConn`; an `Event` is what happens next, so that a list of them is an
--   interleaving of `Serve` with the goroutines that close sockets. Forward.Settings is `New`,
--   Forward.Idle the goroutine that closes an idle socket, by the signals it receives.
-- - HttpConnect: internal/httpmux/http.go, where `connect_http` is one request and the steps are those
--   of Dialer, with the call of `cancel`.
-- - Accept: the same loop of `Serve` in listener/basic.go, sniproxy/listener.go and
--   bridge/bridge.go, over what `Accept` returns. Accept.Serving is `serve` of the first and the last,
--   which puts Dialer and Bridging together.
-- - HttpMux: internal/httpmux/mux.go and handler.go, handlers by pattern and method; `handle` is each
--   of the six functions that register one, and `serve_http` uses the pattern that net/http picks.
-- - HttpListener: listener/http.go. HttpListener.Build is `NewHttpListener`, which registers with
--   HttpMux, opens portals on Network and closes what it made when it fails; a handler is data, and
--   `serve` runs it on a request. HttpListener.Access has the tests of credentials, and
--   HttpListener.Credentials says without them who is let through; HttpListener.Portals follows
--   `closer`. The map that `Info` shows is left out.
-- - Listener: listener/listener.go, basic.go and portal.go: `New` and the constructors, which listen
--   on Network, open a portal there, or use HttpListener; a result that is an error has the sockets
--   that are still open. Listener.Config has the settings and `TLS.Certificate` of config/listener.go.
--   `new_udp_listener`, of internal/network/udp.go, is there too.
-- - Bridge: bridge/: `New` and the four constructors, with the settings that are worked out for the
--   function that dials; `close` is `Close`.
-- - Application: `NewApplication` of forwarding/application.go, over any state and any `New` of its
--   parts; which parts it closes is part of the result. Application.Wiring is the same over the
--   `New` of Dialer, Bridge, Listener, Router and Forward, and one Network.
-- - Dialer: `Connect` of dialer/basic.go, dialer/http.go and dialer/websocket.go, as steps of the
--   caller, of its goroutine and of what stops them; `connect_loop` is `connect`, over what its
--   attempts return. The step relation leaves out that `connect` itself looks at the stops.
--   Dialer.Headers is the header of the HTTP and the websocket dialer, which HttpListener tests.
--   Dialer.Build is `New` of dialer/dialer.go and the five constructors; Dialer.Options has the
--   settings that they and the bridges read the same way.
-- - Common: tests, lists over native numbers, signed numbers and texts.
--
-- What is not in the repository is an argument: the clock's `ParseDuration`, the regular
-- expressions, the sockets (`net.Listen`, the read and write results of a connection), and which
-- buffer a `sync.Pool` returns. A `select` with several channels ready takes the choice as an
-- argument. What a connection is going to send is a list of bytes; what `copyBuffer` reads is a
-- list of blocks that ends with the error of the source.
--
-- Fuel: `extensions_loop` of Sniff gets one more than the length of the buffer and every round
-- takes four bytes at least; `drain_loop` of Datagram gets one more than the length of the stream
-- and every round takes two. Other loops are by recursion on a list.
--
-- Not modelled: what a dialer does to reach its end (TLS, HTTP/2, websockets and SOCKS), which
-- are other libraries; the HTTP interface of forwarding/, the adapters of internal/ioutil,
-- which pass calls on, and the deadlines of the connections of internal/httpmux; the websocket
-- package of third-party/, a library of another project. `handle` of HttpMux always registers its
-- pattern, where the `ServeMux` of Go panics on a pattern that is not valid or conflicts with
-- another. `close` of Forward is one step, where the code closes the socket before it takes the
-- mutex to remove the entry, so that a run has no round of `Serve` between the two.
pub mod Common
pub mod Sniff
pub mod Capture
pub mod Router
pub mod SniConn
pub mod Datagram
pub mod Pool
pub mod Relay
pub mod Websocket
pub mod Listener
pub mod Network
pub mod Forward
pub mod Accept
pub mod HttpMux
pub mod HttpListener
pub mod Application
pub mod Bridge
pub mod Bridging
pub mod Dialer
pub mod HttpConnect

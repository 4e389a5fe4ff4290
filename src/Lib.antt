-- ===== src/Lib.antt =====
-- Models of anycable-go.
--
-- The program is a WebSocket server for Action Cable. A client's connection becomes a session; the
-- controller asks an RPC server to authenticate it and to run its commands; the hub keeps which
-- session listens to which stream and hands each pub/sub message to the sessions; a queue tells the
-- RPC server about sessions that have ended; counters and gauges count all of it.
--
-- Files and sources, by their paths in the repository:
--   Base          lists, maps, tests and outcomes that the other files share. A Go map is a list of
--                 keys and values with distinct keys, in some order that no theorem depends on.
--   Common        common/common.go: SessionEnv and its merges, the results, and what a text from
--                 pub/sub is (PubSubMessageFromJSON). Common.Merge, Common.PubSub.
--   Encoders      encoders/encoder.go, encoders/json.go, the frames of ws/ws.go, and
--                 node/encoding_cache.go. Encoders.Cache.
--   Metrics       metrics/counter.go, metrics/gauge.go and the registry of metrics/metrics.go;
--                 Metrics.Running has its Run and Shutdown, Metrics.Making its FromConfig.
--   Hub           node/hub.go: one step for each message of the loop Run; Hub.run is a sequence of
--                 them. Broadcasts and remote disconnects are tasks that run later, on the hub as it
--                 is by then. Hub.Refinement has the abstract relation that the nested maps implement.
--   Disconnector  node/disconnect_queue.go and node/disconnector.go. Disconnector.Beside has the
--                 shutdown while the queue's own loop receives too.
--   Node          the struct Node of node/node.go, its hand-over to the hub's channels, HandlePubSub
--                 and the statistics. Node.Metering has its metrics in the registry, by their names.
--   Session       node/session.go: a session with its node, its channel of frames and its connection
--                 (World). Session.Writer and Session.Outgoing are its writing side, Session.Ping
--                 its timer; Session.Sections has every order of the sections under the mutex.
--   Protocol      protocol/protocol.go and the messages of protos/rpc.pb.go that it uses.
--   Commands      Authenticate, Subscribe, Unsubscribe, Perform, HandleCommand and the replies of
--                 node/node.go, with ReadMessage and Serve of node/session.go in
--                 Commands.Reading. The controller of node/controller.go is a record of answers,
--                 with the rule that a call without an error has a result, for sessions with
--                 headers, as the WebSocket handler makes them (Commands.Health).
--   Rpc           rpc/rpc.go: the client helper, the retry loop, the semaphore and the calls;
--                 Rpc.Serving puts it behind the interface of Commands.
--   Shutdown      Shutdown of node/node.go: the sessions are told and closed, and the goroutines of
--                 their endings meet the hub's loop at its channels.
--   Adapters      pubsub/http.go and pubsub/redis.go: the handler, the listener, the reconnecting.
--   GoPool        utils/gopool.go: the pool's two channels, its workers and those who wait.
--   ConnPool      pool/pool.go: the pool of connections, with every order of the steps of its calls.
--   Server        server/server.go and server/ssl_config.go: the servers that parts share by port.
--   Delivery      the HTTP adapter, the node and the hub's loop put together: what a posted message
--                 becomes in the sessions (Delivery.Redis: those of Redis), and what becomes of a session that has ended.
--   Ws            ws/handler.go: CheckOrigin, FetchHeaders, FetchUID and NewRequestInfo;
--                 Ws.Connecting has the whole handler, with the handler of a session of
--                 cli/cli.go, from the request to the session's end.
--   Runner        Run of cli/cli.go: how the parts are made and started, with the panics and
--                 the wait for ever on the way, and, by the signals, ended.
--   Stats         stats/stats.go: the sums over durations that the benchmarks print.
--
-- A panic is a value: none, panic, panicked or panics. Counters are uint64 and wrap. The retry loop
-- has fuel for 302 rounds: each repeated round sleeps 10 ms at least, and the loop repeats none
-- after 3000 ms; Rpc.Retry proves that this is enough. sendFrame, Disconnect and sendClose call
-- each other, and two rounds are enough, since the first takes the channel away; Session.Sending
-- proves it. All other loops go down a list.
--
-- The hub's loop may read any of its channels that has something (Delivery, Shutdown); who sends to
-- a full channel waits, and no bound on the waiting is assumed. Redis reconnects while its attempts
-- last: the list of rounds is what the server does, of any length.
--
-- Outside, as parameters: the JSON codec, the RPC server and its connection's state, the errors of
-- writes to a client's connection, the marshalling of a channel's state, the mapping to lower case,
-- the parser of URLs, the generator of ids, the Redis server, the loading of TLS files, and what
-- listening and serving answer; for the whole program, what its factories answer and tebata, which
-- calls the reserved functions one after the other when a signal comes.
--
-- Not modelled: real time (sleeps are sums, timers are steps), logs, the bounds of the channels of
-- broadcasts and of the queue, at which a sender waits, the handshake of a WebSocket and its frames,
-- the printers of the metrics, the muxes of the servers, whose panic at a path that is mounted twice
-- is an answer in Runner, Start of rpc/rpc.go with its dialler (the calls come after it has succeeded),
-- the benchmarks, and the flags of the command line.
pub mod Base
pub mod Common
pub mod Encoders
pub mod Metrics
pub mod Hub
pub mod Disconnector
pub mod Node
pub mod Session
pub mod Protocol
pub mod Commands
pub mod Shutdown
pub mod Rpc
pub mod Adapters
pub mod GoPool
pub mod ConnPool
pub mod Server
pub mod Delivery
pub mod Ws
pub mod Runner
pub mod Stats

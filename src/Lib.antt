-- ===== src/Lib.antt =====
-- amqplex is an AMQP 0-9-1 proxy. Clients connect to it as to a broker; it keeps a few connections to
-- the broker open (managed upstreams), one pool of them for each set of credentials, and multiplexes the
-- clients' channels over them by renumbering.
--
-- How the parts interact. The process (main.go) reads its flags and its configuration (config/config.go)
-- and starts the proxy. The accept loop (proxy/proxy.go) admits a client; the server handshake
-- (proxy/connection.go) reads its credentials and vhost; the proxy chooses or opens an upstream of the
-- pool of these credentials (proxy/proxy.go, with the client handshake of proxy/upstream.go); the client
-- registers on it. From then on the client's loop reads its frames, takes an upstream channel for each
-- Channel.Open, renumbers and queues the frames; the upstream's read loop (proxy/managed_upstream.go)
-- delivers the broker's frames to the owner of their channel. When the client leaves, its channels are
-- closed on the upstream and stay taken until the broker has confirmed that. A lost upstream drops its
-- clients and reconnects; an idle one is swept.
--
-- Which file models what:
--   Base          numbers, lists, Go's maps, big-endian words, and results with the code's errors
--   Frame         proxy/frame.go: ParseFrame, WriteFrame and the method header
--   Wire          proxy/credentials.go: short strings, long strings, tables
--   Credentials   proxy/credentials.go: StartOk with PLAIN and AMQPLAIN, Connection.Open
--   Method        proxy/connection.go: isChannelOpen and its like, and payloads the proxy builds
--   Handshake     proxy/connection.go Handle, proxy/upstream.go performUpstreamHandshake, and the head
--                 of handleConnection
--   Upstream      proxy/managed_upstream.go: the state (Upstream) and one definition for each method.
--                 Upstream/Scan has the two scans of AllocateChannel, Upstream/Invariant the invariant,
--                 Upstream/Preserve and Upstream/Steps its preservation by all operations,
--                 Upstream/Allocate, Upstream/Allocated and Upstream/Capacity what an allocation gives,
--                 Upstream/Routing and Upstream/Pending the read loop, Upstream/Reconnect the reconnect
--                 loop with its backoff and its panic, Upstream/Pump and its child the write pump, Upstream/Loop
--                 readLoop around its rounds, and Upstream/Slots the contract that the channel tables
--                 implement: each slot is free, bound to a client's channel, or closing,
--                 and changes by the events that the operations are.
--                 Upstream/Constants is what no operation changes
--   Client        proxy/connection.go: ClientConnection and its mappings
--   FrameProxy    proxy/frame_proxy.go
--   Session       proxy/proxy.go: a round of handleConnection's loop, the registration, the cleanup.
--                 Session/Run is the loop over a client's bytes up to the cleanup
--   System        one upstream, the sessions of its clients and the broker together, as a step relation:
--                 clients come, send and leave, the broker sends, the upstream fails, reconnects, is
--                 swept or stopped, in any order. System/Consistent says how the clients' mappings and
--                 the upstream's owners agree, System/Joining, System/Turns, System/Broker and
--                 System/Leaving what the turns do to that, System/Isolated has the invariant, and
--                 System/Routes what it means for the frames, and
--                 System/Stale a session that outlives a reconnect
--   Proxy         proxy/proxy.go: the table of upstreams, the limits, the sweep, Stop. Proxy/Key is
--                 getPoolKey, Proxy/Metrics is proxy/metrics.go with the text in Proxy/Metrics/Text,
--                 Proxy/Accept the accept loop, Proxy/Sweep the loop of sweeps, Proxy/Dial
--                 dialUpstream over the TLS files, Proxy/Limits and Proxy/Stopped the steps of the
--                 table, Proxy/Filed and Proxy/Tables what holds of every upstream in it
--   Delivery      proxy/connection.go: DeliverFrame and Abort on the connection of a client, under what
--                 the rounds of readLoop do to it
--   Connection    proxy/proxy.go: handleConnection as a whole up to its loop, over the handshake, the
--                 choice of an upstream and the registration
--   Config        config/config.go: LoadConfig, with viper as a parameter and, in Config/Documented,
--                 what it documents
--   Startup       main.go with NewProxy, the head of Start and startIdleCleanup of proxy/proxy.go
--   Tls           proxy/listener.go and tlsutil/tlsutil.go: which TLS configuration either side gets
--   Pool          pool/pool.go and pool/channel.go
-- A method that changes state is a function from the state to the next one, with the messages that it
-- sends as a list of effects in order (deliver, abort, channel_closed, send_upstream, close_conn).
--
-- Representation. A byte is a number, a string its bytes. A uint16 is a number, with % 65536 where
-- the code's arithmetic wraps; int is taken to be 64 bits wide and sums of lengths do not wrap. A
-- map[uint16]bool that only holds true is the set of its keys. The identity of a client or a
-- connection is a number. A reader is the list of bytes that arrive before the peer closes; a Writer
-- takes `room` bytes and then fails, so that a failed flush is a failed write. An error keeps the
-- context that credentials.go and the choice of an upstream put in front of it, and loses that of
-- the handshakes. Limits of the configuration are natural numbers: a negative one behaves as 0
-- there, except for PoolMaxChannels, of which only natural numbers are modelled.
--
-- Fuel. The fast path of AllocateChannel gets 65536 rounds: its counter is a uint16, so that a loop
-- that has not stopped by then has come round and never stops (`hangs`). The AMQPLAIN loop gets a
-- round for each byte, and each round takes one at least. The digits of a length get one more than the
-- length. The reconnect loop is given, as a list, what each attempt meets: the changes by others while
-- it sleeps and dials, and the answer of the dial. The loop of a client gets one round more than there
-- are bytes to read, and readLoop one more than come in on all the connections that the upstream is on
-- in turn; each round but the last reads one byte at least.
--
-- Operations are atomic here, as under the code's mutexes: orders of calls are sequences of steps. A
-- turn of a client, from the frame that it reads to the one that it queues, is one step too. In the
-- two loops over bytes the other goroutines are functions on the state that run before and within each
-- round. A session whose client was dropped by a failure goes on until its loop returns; what is said
-- of registered clients does not hold of it. A choice of `select` is an argument. What url.Parse, the
-- dial and the broker answer are arguments, and so is what viper answers behind the calls that
-- LoadConfig makes of it.
--
-- Not modelled: logging, locks and goroutines as such, timers, the network and the TLS library,
-- the signals and HTTP handlers of the process, and its exit.
pub mod Base
pub mod Frame
pub mod Wire
pub mod Method
pub mod Credentials
pub mod Handshake
pub mod Upstream
pub mod Client
pub mod Delivery
pub mod FrameProxy
pub mod Session
pub mod System
pub mod Proxy
pub mod Connection
pub mod Pool
pub mod Tls
pub mod Config
pub mod Startup

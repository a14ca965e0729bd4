-- ===== src/Lib.antt =====
-- The Diameter gateway: AVP data types, the Diameter header, a relay agent (DRA), the client
-- side that keeps connections to such agents, the server and the sessions of the gateway itself, and
-- the parser of the files from which AVPs and commands are generated.
--
-- How the parts fit: every message goes through pkg/connection (Wire), which reads it from a stream
-- and parses its header. AVPs carry values of models_base (Data). The agent in dra/ walks over the
-- AVPs of a message to route it, chooses a peer, rewrites the origin and the hop-by-hop id, and keeps
-- the id until the answer comes back (Dra). The client in client/ holds pools of connections, one
-- pool for each agent, and chooses among agents by priority (Client); each connection binds a source
-- port from the pool in pkg/portpool (PortPool) before it dials, and gives it back when it closes. A second pool of
-- the client keeps one connection for each address, whoever asks for it. The parser in codegen/ runs
-- when the repository is built: the types of the messages come from the definitions that it reads.
--
-- Files:
--   Prelude: shared names; tests, lists, maps, bits, big-endian bytes, signed integers, rotations,
--     totals and counts over tasks.
--   Data: models_base/*.go. Types has the interface (datatype.go, pad.go); Octets, Numbers and
--     Addresses have a decoder and the methods of each data type, `decode_x` for DecodeX and
--     `x_methods` for Serialize, Len, Padding and Type; Decoder has decoder.go. Padding,
--     RoundTrip and Reencode are about them.
--   Wire: pkg/connection/message.go and command.go. Header has ParseMessageHeader and ParseCommand,
--     Reader has ReadMessage on a stream that ends with any error. Parsing, Framing and Streams
--     are about them.
--   Dra: dra/. Header, Avp and Rewrite have the functions of avp.go under their names; Outcome is how
--     a function ends. Layout says how AVPs lie on the wire; Iterate, Routing, Proxy, Origin, Outgoing
--     and Unpadded are about them. Peers has peer.go (readMessage and the registry), Pending has
--     route.go, ProtocolError the bytes of sendProtocolError, and Node the node of node.go with
--     forwardRequest, forwardAnswer and the loop of handleConnection of start.go, whose `switch` is
--     `dispatch`. Framing, Picking, ErrorAnswer, Relay, Answering, Kept, Invariant and Waiting are
--     about these.
--   PortPool: pkg/portpool/portpool.go. Owned, Sweep, Acquiring, Releasing, Counting and Reachable are
--     about it.
--   Client: client/. State (state.go), Config (config.go), Connection (Send of connection.go),
--     ConnectionPool (connection_pool.go) and DraPool (dra_pool.go) have the code; Rotation,
--     Priority, Grouping and Delivery are about it. Lifecycle has the goroutines of
--     connection.go that open, lose, reopen and close a connection: each is a Task, and `run` is its
--     next step, what it does under one lock or in one atomic access (the two reads of a guard of
--     handleFailure count as one). Interleaving, Reconnecting and Recovery are about it.
--     Inbox has what a connection does with the messages that it reads (the body of startReadLoop from
--     dispatchMessage on); Dispatching is about it.
--     Backoff has the ceilings of `reconnect`, LocalBind the scan of dialWithLocalBind.
--     AddressPool has address_pool.go, the callers of GetOrCreateConnection and the goroutines that
--     remove connections as Tasks in the same way. SingleFlight, Waiters and Stale are about it.
--   Server: server/. Middleware has middleware.go and the handlers and their wrapping of server.go,
--     Accepting the limit on connections of server.go, Serving the loop of `serve`, Stats the counters
--     of messages; Chaining is about the middlewares, Counters and Accounts about the loop.
--   Gateway: gateway/gateway.go, its sessions; Balance is about their counters.
--   Codegen: codegen/parser.go. Strings has the functions of Go's strings and strconv that it calls,
--     on ASCII text; Defs the definitions that it builds, Fields the readers of a line, Blocks the
--     readers of an AVP's and a command's lines, Files has ParseFile, Resolve has
--     ResolveAVPReferences. A file is the list of the lines that its scanner gives; a pointer to a
--     definition is its index in the parser's `objects`. Words, Printing, AvpLines, FileLines,
--     Lookups, RoundTrip and Resolving are about these.
--   Modules named Runs, NodeRuns, LifecycleRuns, InboxRuns and AddressRuns hold tests, and one example for each result.
--
-- Conventions: bytes and machine integers are natural numbers, and wrap-around is written out; a
-- string is the list of its bytes. A function of the agent that panics returns `panic`. The clock,
-- the order of a range over a map and the choice that a select makes are arguments. So is whether
-- a write to a peer, a dial or a handshake succeeds; a write that fails counts as not sent. The
-- walk over AVPs runs on fuel, one round for each byte of the message, which is always enough; the
-- loop of `serve` has one round for each message, which has 20 bytes at least; the
-- rotations over connections and agents run as many rounds as there are of them, as the code does.
-- Calls under a lock are one step. A message of the agent is handled in one step. The additions of one
-- call to several counters are one step, and so is the check of the generation with the change of the
-- state in the watchdog's handling of a DWA or of a missed one. A panic of a goroutine of the
-- address-keyed pool ends the program. The client's
-- functions of sending see a snapshot of the connections: what other goroutines change between two
-- reads of one call is not modelled.
--
-- Not modelled: sockets and channels themselves; of a connection, the write loop, the health
-- monitor and the counters; of the agent, the capabilities exchange, the accept loop and Stop, and
-- the codec of the watchdog messages, which is a parameter; of the server, the answers to
-- base messages, the TLS handshake and what its handlers do to the connection; of the gateway, the wiring of its parts; the
-- checks and defaults of the address-keyed pool's configuration, the configuration that it gives a
-- connection, its metrics and the client over it; the connection manager; configuration files, metrics
-- and logging; the generator proper, codegen/generator.go, and the code that it generates.
pub mod Prelude
pub mod Data
pub mod Wire
pub mod Dra
pub mod PortPool
pub mod Client
pub mod Codegen
pub mod Gateway
pub mod Server

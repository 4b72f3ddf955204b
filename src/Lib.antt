-- ===== src/Lib.antt =====
-- Piko: reverse proxy servers that form a cluster by gossip. Upstreams connect out to any server and
-- register an endpoint; a request to any server is routed to an upstream of its endpoint, if need
-- be through the server that holds the connection.
--
-- The parts and the files that model them, with paths from the repository's root:
--   Gossip      pkg/gossip: every node keeps versioned entries and copies of the other nodes'.
--     Types, Sort, State   pkg/gossip/state.go: the data, and the reads (Node, LocalNode, Nodes,
--                          LiveNodes, UnreachableNodes, ToNodeState).
--     Local                UpsertLocal, DeleteLocal, LeaveLocal, CompactLocal.
--     Delta                Digest, Delta, LocalDelta, deltaEntry.
--     Apply                ApplyDigest, ApplyDelta, applyDeltaEntry.
--     Liveness             RemoveExpiredAt, UpdateLiveness.
--     Detector             pkg/gossip/failuredetector.go.
--     Discard, Floor       what a compaction entry removes from a copy.
--     Sync                 the relation between an owner's state and a copy of it (Consistent), and
--                          that deltas and the owner's updates keep it.
--     System               the steps of a cluster of such states, and its histories.
--     Published            the entries of a node as a map from keys to values.
--     Expiry, Decided      what RemoveExpiredAt removes, and what UpdateLiveness decides.
--     Windows, Samples, Suspicion   what the detector keeps, its mean against the list of the
--                          samples, and that its levels are defined.
--     Protocol             pkg/gossip/protocol.go: headers, encodeDigest, encodeDelta, decodeDigest,
--                          decodeDelta, over the codec as a parameter. Packing and Parts are about
--                          what fits a packet, Arrival and Encoding about what is read of it,
--                          Totality about arbitrary bytes.
--     Packets              the packet listener of pkg/gossip/listener.go, and gossip and gossipRound
--                          of pkg/gossip/gossip.go; Rejected, Sizes, Dispatch, Rounds and Safety are
--                          about them.
--     Streams              the stream listener, Join and Leave with their streams (Messages); Joined
--                          and Notified are about them.
--   Cluster     server/cluster: node.go (Types), state.go (State); Lookup is about LookupEndpoint.
--   Syncer      server/gossip/syncer.go, the Watcher of pkg/gossip/watcher.go: it moves what gossip
--               tells into the cluster state, and the local endpoints into gossip. Pending and
--               Handlers are about the nodes whose addresses are not known yet, Endpoints and
--               Routes about the endpoints of other nodes, Local about the local one.
--   Upstream    server/upstream/manager.go and upstream.go: LoadBalancer, Manager, with the cluster
--               state as an argument; RoundRobin, Agreement, Leaving and Routing are about them.
--     Server, Sessions     server/upstream/auth.go and server.go: the checks of a connecting upstream
--                          and the steps of all sessions, with an account of them that the code
--                          does not read; Lists and Connected are about their histories.
--   Auth        server/auth: tokens and the verifier, over the JWT library as a parameter; Keys is
--               about the keys by which a token is verified.
--   Proxy       server/proxy: httpproxy.go and tcpproxy.go; Hops is about a request on two nodes.
--   Agent       agent/client/listener.go: connect and Accept, over what a dial and yamux give;
--               Reconnect is about sessions that fail.
--   Websocket   pkg/websocket/conn.go, over the results of the library's calls; Stream is about the
--               bytes that Read gives.
--   Backoff     pkg/backoff/backoff.go; Startup is JoinOnStartup of server/gossip/gossip.go, and
--               Bounded that it ends.
--   Prelude     shared names; Strconv: strconv.FormatUint, ParseUint, Itoa and Atoi.
--   Tests       runs on small states.
--
-- How they interact: Upstream calls Cluster on connect and disconnect, and Cluster's subscriber
-- (Syncer.publish) writes the count into Gossip's local entries; Gossip's events (Types.Event) are
-- the argument of Syncer.handle, which updates Cluster; LookupEndpoint routes by it. Packets and
-- Streams apply the operations of State, Delta and Apply to what Protocol reads. Proxy asks Upstream
-- for a route; Server adds and removes the connections that Auth's tokens permit.
--
-- What stands for what: a string is the list of its bytes; an int or int64 is its 64-bit pattern, a
-- uint64 a number with its wrap-around written out; a time is in nanoseconds with 0 for the zero
-- time, and one reading of the clock serves a call; a float64 of the failure detector is the exact
-- quotient that it approximates, and its threshold a whole number; a map is an association list in
-- the order of a range over it; a panic is `none`. Every exported method runs under its mutex, so
-- that it is one step; a message handler makes several such calls, which follow each other here
-- with no other call between them. A pointer that a map holds is written through by an insert under
-- its key. Calls of the Watcher, of the subscribers and of the Prometheus gauges are values that an
-- operation gives back, in order; in pkg/gossip the gauge of a node's state is labelled by its ID.
--
-- What is outside the repository is an argument: the msgpack codec (Protocol.Codec), the sockets,
-- resolvers and shuffles (Packets.Network, Streams.StreamNetwork), the JWT library (Auth.Jwt), the
-- reverse proxy of the HTTP library (Hops.ReverseProxy), the results of the WebSocket library
-- (Websocket.Message), and whether a dial or an upgrade succeeds or a timer fires. Its documented
-- behaviour, where it is relied on, is a hypothesis: IsCodec, IsJwt, IsReverseProxy, and that a
-- shuffle adds nothing.
--
-- Fuel and bounds: the printing of numbers runs on fuel, and a number itself is enough for its
-- digits; the loops that decode a packet run on the packet's length and one more; JoinOnStartup on
-- its attempts, and a listener of the agent on its dials and turns. Versions are uint64; an update
-- is about a state whose next versions fit.
--
-- Not modelled: the log and the metrics of bytes and requests; accept loops, timers and deadlines
-- of sockets; the reverse proxy and the copying of streams, which are libraries' work; the HTTP
-- routes of the admin server; configuration and flags, the agent but for its listener, the
-- forwarder and the command line. A buffered writer counts as written at its flush, and a peer's
-- bytes as one sequence. Node expiry is modelled (Liveness) but is not a step of System.
pub mod Prelude
pub mod Strconv
pub mod Gossip
pub mod Cluster
pub mod Auth
pub mod Proxy
pub mod Websocket
pub mod Backoff
pub mod Agent
pub mod Upstream
pub mod Syncer
pub mod Tests

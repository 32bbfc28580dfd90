-- ===== src/Lib.antt =====
-- A model of noise, a peer-to-peer networking library in Go.
--
-- The program's parts. A node has an identity (peer/identity.go): an address, a public key and the
-- hash of that key, which is its place in the XOR metric. Its routing table (dht/routes.go) holds
-- the identities of other nodes in buckets by that metric. A network (network/) frames, signs and
-- sends messages over connections (stream.go, utils.go), numbers them, and puts incoming ones in
-- order (recv_window.go); what a message is, its opcode says (types/opcode/opcode.go). Plugins
-- (plugin_list.go) are called for each event in order of priority; discovery fills the routing
-- table. Resolved host names are cached (types/lru/cache.go).
--
-- The files:
-- - Base: tests on numbers, lists, Go's maps as association lists, `sort` as a stable insertion
--   sort, outcomes that may panic, results with an error, hexadecimal text.
-- - Peer: peer/identity.go. `PeerId` is `ID`; `xor_id`, `prefix_len` and `less` are its methods.
--   Peer/Bits reads a key as bits; Peer/Distance and Peer/Order are on the metric and on `Less`.
-- - Dht: dht/routes.go. `RoutingTable` has the buckets as lists, the front of a bucket first; an
--   operation is one step, since it holds the bucket's mutex. A nil bucket panics when it is
--   locked.
-- - Lru: types/lru/cache.go. `Cache` has the list of items and the map.
-- - Window: network/recv_window.go. `Window` is `RecvWindow`.
-- - Wire: network/stream.go and `SerializeMessage` of network/utils.go. A connection is the list
--   of what its reads find; a writer is the list of what its writes take.
-- - Opcode: types/opcode/opcode.go. `Registry` is the two tables.
-- - Plugins: network/plugin_list.go. `PluginList` has the map and the slice.
-- - Crypto: crypto/keypair.go and crypto/policy.go. A policy is a record of its operations.
-- - Address: network/address.go, and `FilterPeers` of network/utils.go in Address/Filter. Hosts
--   are resolved through the cache of Lru.
-- - Backoff: network/backoff/backoff.go and plugin.go (Backoff/Plugin). The loop meets a world
--   that says, round by round, how its dials end; the floating-point numbers are a parameter.
-- - Client: network/client.go, as far as a client needs no network: `StreamState`, the table
--   of requests, the queue of jobs. Client/Stream has what passes through the stream,
--   Client/Reads and Client/Prompt a call of `Read` with its signal and its timer among the
--   packets, the close and the rounds of other reads that come at their times; a round itself
--   takes no time. Client/Requests has the sections of `Request` that touch the table,
--   Client/Calls their interleavings as a relation.
-- - Network: network/network.go, network/context.go and network/message.go
--   (Network/PluginContext), and what a client does over its network. A client is known by its
--   place in `clients`, so that a pointer to it is shared. Network/Peers has `Dial`, `Client`
--   and `Close`; Messages and Sends what writes; Dispatch and Accept what is received;
--   Identity and Own the messages of one connection, where each message's goroutine ends
--   before the next message; Goroutines the goroutines of `Accept` and the client's worker,
--   step by step in any order: a push, a pop, and each submit is a step of its own; Registry,
--   Payload and Rounds what comes back from a message that was prepared; Listen the start and
--   the loop, Flush the flush loop over connections with any flush, Writes and Broadcast what
--   the broadcasts write. `World` is what comes from outside.
-- - Transport: network/transport. `Layer` is the interface, `Tcp` and `Kcp` the two transports.
-- - Builder: network/builder.go.
-- - Nat: network/nat/plugin.go, over a gateway as go-nat gives it.
-- - Policies: crypto/ed25519/ed25519.go, crypto/blake2b/blake2b.go and crypto/noop/noop.go.
-- - Discovery: network/discovery/rpc.go, where Discovery/Plugin has network/discovery/plugin.go
--   and `FindNode`. Its lookups end in any order, and a run says how many calls of `wait.Add(1)`
--   come before each `wait.Done()`.
--
-- Numbers are natural numbers, with the wrap-around of a width written out where the code can
-- reach it. Bytes and text are lists of numbers. Fuel has `widen`, the loop of `FindClosestPeers`:
-- it is given as many rounds as there are buckets, and after so many the loop's own condition is
-- false, since no bucket on either side is left. The search for nodes has as many rounds as peers
-- wait or can be found, and `Read` as many as events come and nanoseconds pass, which is shown to
-- be enough. All other loops are recursions on a list or
-- on the number of rounds that the source counts.
--
-- Not in the source, and so parameters: the BLAKE2b and ed25519 packages, protobuf's encoding and
-- cloning, run-time types, url and host parsing, sockets. Not modelled: the logger, the generated
-- messages, the mocks and the examples; and the copy of the edwards25519 arithmetic in
-- crypto/ed25519, which is Go's own package. Goroutines are modelled as far as a mutex or a channel
-- makes what they do steps; the life of a connection across several `Accept`s is not.
pub mod Address
pub mod Backoff
pub mod Base
pub mod Builder
pub mod Client
pub mod Crypto
pub mod Dht
pub mod Discovery
pub mod Lru
pub mod Nat
pub mod Network
pub mod Opcode
pub mod Peer
pub mod Plugins
pub mod Policies
pub mod Transport
pub mod Window
pub mod Wire

-- ===== src/Lib.antt =====
-- Z-Courier is a message gateway: clients keep one connection each, send packets upstream, and
-- get reliable messages downstream. This library models the parts that hold its state and its
-- wire format, each in the file named for it:
--
--   Base      what the parts share: tests, lists, strings, Go's maps and `sort.Slice`.
--   Downlink  internal/downlink: the store of messages. Downlink/Message has the data (store.go,
--             terminal.go, policy.go, capacity.go), Downlink/Identity the fingerprint
--             (identity.go), Downlink/Store, Marks, Terminal, Outbox, Retry and Retention the
--             methods of MemoryStore (memory_store.go) under the source's names in snake_case,
--             Downlink/Fairness the selection by rounds (fairness.go), and Downlink/Calls all the
--             methods that change the store as one step. Downlink/Policy is policy.go. The service
--             (service.go) is Downlink/Requests (its requests, answers and errors),
--             Downlink/Service (configuration, policy in effect, times), Downlink/System (what it
--             works on, and how its steps are composed), Downlink/Delivery (an attempt to
--             deliver), Downlink/Submission (operations on one message) and Downlink/Rounds
--             (operations on many). Downlink/Trace and Downlink/Handler relate them to the calls
--             of the store.
--   Session   internal/session/manager.go: the sessions of a node with their three indexes.
--   Protocol  pkg/sdk/protocol (codec.go, packet.go) and pkg/sdk/client/frame.go: the bytes of
--             packets and frames.
--   Cluster   internal/cluster (registry.go, memory_registry.go): which node holds which device.
--   Auth      internal/auth (auth.go, cache.go): the cache of verified tokens.
--   Signing   pkg/sdk/signing/nonce.go: the store of nonces against replays.
--   Pipeline  internal/pipeline/ratelimit.go: the limit of requests per client.
--   Router    internal/router/engine.go: which route a packet takes.
--   Resilience  internal/resilience/tracker.go: the health of a dependency.
--
-- The files called Examples apply the theorems to concrete states.
--
-- The parts meet in the gateway: a frame is decoded, its client is bound to a session, the
-- session is entered in the registry, and messages for the client are stored, claimed, sent and
-- acknowledged. The service is modelled with this composition: its attempts to deliver look in
-- the session manager, encode a packet, and go through the registry to another node if no session
-- is found; what is outside the repository or only an interface in it (connections, the peer
-- dispatcher, the publisher of terminal events, clock, contexts, random numbers, texts of errors,
-- floating-point arithmetic) is a record of functions on a world. An operation of the service is
-- not one step of the store: it is a sequence of calls. Two requests are modelled one after the
-- other; calls of the store by other activities, such as a round that holds an old batch, come
-- between two requests (Downlink/Handler) or in any order (Downlink/Calls), and
-- Downlink/Submission/Races has an acknowledgement that comes in the middle of a requeue.
--
-- A method is a function from the state to the state and a result; its mutex makes it one step,
-- so an interleaving of callers is a list of calls. The `Verify` of the token cache takes its
-- mutex twice, before and after it asks the verifier behind it; here it is one step, so the
-- theorems on it are about calls that do not overlap. Two readings of a clock in one method of
-- the message store are one. A context is what its `Err` gives, a clock and a source of ids are
-- arguments. Strings and byte slices are lists of bytes, a map is an association list with
-- distinct keys, whose order stands for the order of a `range` loop. A time is the number of
-- nanoseconds since Go's zero time. A duration or a limit that the code tests by `<= 0` alone is
-- 0 where the source has a negative number; delay and jitter of a retry are signed, and their sum
-- wraps round as an int64; the counters of attempts are not bounded. SHA-256 is a parameter: a
-- function on bytes, with results of 32 bytes, or without a collision at two texts, where a
-- theorem says so. Every loop runs over a list, so nothing needs fuel.
--
-- Not modelled: the stores on Postgres and Redis (statements that a server runs), the HTTP
-- handlers, clients and command-line programs (input and output), token verification and
-- signatures (third-party cryptography), the quotas and policies of the pipeline, the upstream
-- adapters and the configuration; of the modelled files, the listings by page, the counters of
-- sessions, metrics, and the writes to sockets.
pub mod Base
pub mod Downlink
pub mod Session
pub mod Protocol
pub mod Cluster
pub mod Resilience
pub mod Auth
pub mod Signing
pub mod Pipeline
pub mod Router

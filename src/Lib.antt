-- ===== src/Lib.antt =====
-- nostr.js: the events, filters, local store, encryption and relay connections of a TypeScript
-- library for the Nostr protocol.
--
-- The program. `src/core` has the data of the protocol: kinds, tags, events and filters.
-- `src/storage` keeps events: `decidePut` (put.ts) says what happens to an incoming event, from the
-- deletions known so far (deletion.ts) and the current winner at the event's address;
-- `applyPutMemory` carries the decision out; `MemoryIndex` (memory-index.ts) is the state of both
-- in memory, with indexes for its queries, and is what the memory store and the reactive store
-- are built on. `src/nips` has protocols on top of that, of which range reconciliation (nip77.ts)
-- and versioned encryption (nip44.ts) are here. `src/relay` holds a connection to a relay: an OK reply
-- is matched to its waiter by `OkTracker`, a COUNT reply by `CountTracker`; a `Subscription` keeps a
-- watermark for the replay after a reconnection, and `fanIn` joins subscriptions at many relays into
-- one. What travels over the wire is a message of src/core/message.ts.
--
-- The files. Base has tests, lists, integers, options, results and texts; Runtime has what the code
-- uses of JavaScript: `Map` and `Set` in insertion order, the stable `sort`, and strings as lists of
-- UTF-16 units. Core models src/core: Kind (kind.ts), Tag (tag.ts), Event (event.ts), Filter
-- (filter.ts), Collections (collections.ts), Hex (util.ts), Json (the guards of event.ts, tag.ts and
-- util.ts on values of no known type) and Message (message.ts). Storage models src/storage: Deletion
-- (deletion.ts), Put (put.ts) and MemoryIndex (memory-index.ts), whose child Query has the reads and
-- Methods the other methods. Nips/Negentropy models src/nips/nip77.ts, which finds by ranges of time
-- and id what two stores do not share: VarInt and Bound the wire format, Vector the sorted items,
-- Range and Reconcile the protocol. Nips/Nip44 models src/nips/nip44.ts. Relay models src/relay:
-- OkTracker (ok-tracker.ts, with the calls of relay.ts), CountTracker (count-tracker.ts), Subscription
-- (subscription.ts) and FanIn (fan-in.ts). A method that changes its object returns the new state; function
-- names are the source's in snake case. Children of these modules hold the proofs. Tests has the
-- events, states and messages at which the theorems are applied.
--
-- The parts meet in `MemoryIndex`: `put` asks `decidePut` with a lookup of its own tables and hands
-- its insertion and removal to `applyPutMemory` (the record `PutTarget`); the states that any calls
-- reach from a new index are the type `Reachable`. Its `negentropyItems` are what `storageFromItems`
-- takes.
--
-- Choices. Kinds and limits are natural numbers, times are integers; both are exact, which JavaScript
-- numbers are up to 2^53. `toLowerCase` changes ASCII letters, which is all there is in hex. A value
-- that may be absent is an `Option`. The set of verified event objects is a Boolean that comes with
-- the event. The callbacks of `MemoryIndex` are a list of notices. A byte buffer is the list of the
-- bytes ahead of its cursor, and an error of negentropy is a value. Loops are structural recursions
-- but for four on fuel: the digits of an integer (8, since 2^53 is less than 128^8), the bisection
-- (the size of the range), the ranges of a message (its length, since each takes a byte) and the
-- logarithm in a padded length (53 halvings, since a length is less than 2^53).
--
-- Asynchronous code is a state and the steps that may come next: a timer goes off, a promise settles,
-- a message arrives. `Reachable` is any sequence of such steps; what the runtime keeps (promises, armed
-- timers, calls that await) is part of the state. A waiter of `OkTracker` keeps its place when a later
-- one takes over its id, since its promise is still there. `heard` (Relay/FanIn/Heard.antt) reads off
-- the steps of a fan-in which EOSE messages came, apart from what its fields hold. The ciphers and
-- codings that NIP-44 calls are the record `Primitives`, what their packages document is
-- `AreDocumented`.
--
-- Not modelled: hashing and signatures (`sha256` and the hex coding are parameters), `JSON.parse` and
-- `JSON.stringify` (parameters), live groups of subscriptions, everything that only moves data over a
-- socket (connecting, clients, signers, loaders, and the driver of a negentropy session), a callback
-- that calls back into the object that called it, the SQLite and IndexedDB stores, and the
-- WebAssembly module.
pub mod Base
pub mod Core
pub mod Nips
pub mod Relay
pub mod Runtime
pub mod Storage
pub mod Tests

-- ===== src/Lib.antt =====
-- A verification library for sedsprintf_rs, a telemetry protocol: packets of a schema's types are
-- serialized into frames, sent over links by a router, queued within budgets, and delivered reliably.
--
-- The parts, the files that model them, and how they interact:
--
-- - src/lib.rs, errors and schema metadata: Error.antt (TelemetryError, TelemetryResult as Result, `?`
--   as a bind), Error/Codes.antt (the numeric codes), Schema.antt (MessageMeta and its lookups). The enums
--   DataType and DataEndpoint and their tables are generated at build time, so a Schema is a parameter
--   and a discriminant is a number.
-- - src/packet.rs: Packet.antt (Packet::new, validate, packet_id and the hash), Packet/Checks.antt, and Packet/Typed.antt
--   (the constructors from slices of numbers and the readers, generic in the type of numbers).
-- - src/serialize.rs: Serialize/Reader, Varint, Trailer, Compression, Bitmap and Header model the
--   primitives of a frame; Serialize/Encode the serializers and Serialize/Decode the decoder, the peeks,
--   the identifier of a frame and the rewrite of a reliable header. The child modules hold what is proved
--   of each. A frame is a list of bytes, a reader a buffer with an offset, as in the source.
-- - src/queue.rs: Queue.antt (BoundedDeque, one function per method), with the byte counts, the
--   invariant, and the proofs for each kind of push and removal in its child modules. The router's
--   queues are of this type; a cost and a priority are parameters.
-- - src/small_payload.rs: SmallPayload.antt; a cell of the inline buffer is empty while uninitialized.
-- - src/router.rs, reliable delivery on one stream (a side and a data type): Reliable.antt, with the
--   BTreeMap as a list of entries in Reliable/Store.antt. Reliable frames are those of Serialize.
--   Making room for a buffered frame may evict frames of its own stream: Reliable.antt says what a stream
--   loses by it (Room), and Router/Budget/Buffer.antt has the call on all streams, which makes the room.
--   Reliable/Link.antt puts a sender, a side that fails, loses, repeats and reorders, and a receiver
--   together, as a relation of steps. A frame is numbered and recorded in two steps, with the handler's
--   answer between them, and other traffic may evict frames of the receiver. The filter of duplicate packets,
--   which the router applies to what the receiver releases, is not part of it.
-- - src/router.rs, routes: Router/Settings (the sides and the tables of routes, and the calls that set
--   them), Router/Selection (which sides a packet may leave by, and which are chosen, with the cursors).
--   Router/Budget is the shared queue budget: the bytes in use, the choice of what to evict, and the loop
--   that makes room, which runs on one turn more than there are items, enough since each turn evicts one.
--   Discovery/Cadence is DiscoveryCadenceState of src/discovery.rs, which every setting resets.
--   Discovery/Sources has the announcements of endpoints and of time sources of that file.
-- - src/timesync.rs: TimeSync/Calendar (NetworkTime and the day count), TimeSync/Clock (the slewed
--   clock), TimeSync/Messages (the packets and the estimates from their moments), TimeSync/Tracker (the
--   remote sources and the leader) and TimeSync/Network (the clock of named sources). Integers with a sign
--   are those of Prelude/Int, with the wrap-around and the saturation of Prelude/Signed; a string is a
--   list of bytes and a map with strings as keys the list of its entries, in Prelude/Strings.
-- - Prelude.antt passes on the library's names, with Boolean tests, lists over the native numbers,
--   machine words, bits and sorted lists in its child modules. External.antt is what the crate takes from
--   elsewhere: CRC-32, zstd and the UTF-8 test, with the laws of theirs that the proofs use. Tests.antt
--   and its child modules hold instances of all parameters and run the theorems on them.
--
-- State is passed explicitly: an operation with `&mut self` returns the new state beside its result, on
-- every branch. Errors are values of Result; a panic, and undefined behaviour, is `none`. Words are
-- natural numbers with their wrap-around written out; a usize is 64 bits wide. The loops that shift a
-- number down recurse on its descent; the reader of a varint counts its ten rounds, as the source does; the
-- loops over a queue or a map run on as many turns as there are elements, which is enough since each turn
-- removes or passes one, and this is part of what is proved of them.
--
-- Not modelled: the feature variant without compression, text formatting of a packet, the router's dispatch and the pushes on top of its shared budget, the effects of a removed side on the queues, the relay, discovery's topologies, and the bindings and build scripts.
pub mod Prelude
pub mod Error
pub mod Schema
pub mod External
pub mod Serialize
pub mod Packet
pub mod Queue
pub mod SmallPayload
pub mod Reliable
pub mod TimeSync
pub mod Discovery
pub mod Router
pub mod Tests

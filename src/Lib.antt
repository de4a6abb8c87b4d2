-- ===== src/Lib.antt =====
-- The distributed hash table of rings-node (Rust): a Chord ring of 160-bit identifiers.
--
-- Parts, and how they interact. A node (`PeerRing`) has an identifier (`Did`), a finger table, a
-- sequence of its next successors and maybe a predecessor, each behind a mutex. `join`, `notify`,
-- `remove` and `fix_fingers` change these; `find_successor` reads them and answers a lookup itself
-- or names a node to ask next, as an action that the message handlers send. Virtual nodes are the
-- data that the ring stores under identifiers, each on the node that a lookup of it ends at. A relay
-- carries a message along a path of nodes and its report back. Long messages travel in chunks, which
-- a pool puts together again. A payload is a message with its relay and two signed verifications, by
-- sender and origin. The swarm of a node holds its ring, its session and its transports: events of the
-- transports become payloads, the message handler does what a payload asks for, and both send further
-- payloads through the transports. At intervals a node stabilizes: it notifies its successors and fixes
-- a finger. The processor is what a node offers its user: it makes connections by handing over offers and
-- answers, sends and stores. The JSON-RPC server calls it, and the backend answers the messages of applications.
--
-- Files and sources:
--   Did            rings-core/src/dht/did.rs: Did, BiasId, in_range, SortRing::sort
--   Finger         rings-core/src/dht/finger.rs: FingerTable
--   Successor      rings-core/src/dht/successor.rs: SuccessorSeq
--   VNode          rings-core/src/dht/vnode.rs, rings-core/src/dht/subring.rs: VirtualNode, Subring
--   Action         rings-core/src/dht/chord.rs: PeerRingAction, RemoteAction
--   Chord          rings-core/src/dht/chord.rs: PeerRing and its Chord methods
--   Chord/Storage  rings-core/src/dht/chord.rs: the ChordStorage methods, over the traits of
--                  rings-core/src/storage/persistence/mod.rs
--   Relay          rings-core/src/message/protocols/relay.rs: MessageRelay
--   Chunk          rings-core/src/chunk.rs: Chunk, ChunkList and its ChunkManager methods; Chunk/Listing:
--                  list_completed and list_pending
--   Session        rings-core/src/session.rs: Session, and
--                  rings-core/src/message/protocols/verify.rs: MessageVerification
--   Session/Manager  rings-core/src/session.rs: SessionManager
--   Message        rings-core/src/message/types.rs: the messages; Message/Cipher: MaybeEncrypted
--   Payload        rings-core/src/message/payload.rs: expiry and verification of a MessagePayload;
--                  Payload/New: how one is made
--   Act            steps with a state that outlives errors, as the methods below are
--   Swarm          rings-core/src/swarm.rs: the state, and what it calls; Swarm/Builder: SwarmBuilder;
--                  Swarm/Pending, Swarm/Events, Swarm/Connect: the methods; Swarm/Send: PayloadSender of
--                  rings-core/src/message/payload.rs; Swarm/Transports:
--                  rings-core/src/transports/manager.rs
--   Handler        rings-core/src/message/handlers/mod.rs: MessageHandler; Handler/Connection and
--                  Handler/Lookup: connection.rs and stabilization.rs beside it; Handler/Storage: storage.rs
--                  and subring.rs; Handler/Custom: custom.rs
--   Handler/Stabilization  rings-core/src/dht/stabilization.rs: Stabilization
--   Transport      rings-core/src/transports/default/transport.rs: send_message; Transport/Peer: the
--                  callbacks; Transport/Connection: the peer connection; Transport/Handshake:
--                  get_handshake_info and register_remote_info; Transport/Receive: a transport to which
--                  chunks come
--   Measure        src/measure.rs: PeriodicMeasure
--   Node           a node in operation: a list of inputs, each a call of the methods above
--   Processor      src/processor.rs: Processor; Processor/Message: the methods that send
--   Rpc            src/jsonrpc/server.rs: the methods; Rpc/Replies: their parameters and replies; Rpc/Names:
--                  src/jsonrpc/method.rs
--   Backend        src/backend/types.rs: BackendMessage; Backend/Service: src/backend/service
--   Ecc            rings-core/src/ecc/mod.rs; Ecc/Default, Ecc/Eip191 and Ecc/Ed25519:
--                  rings-core/src/ecc/signers.rs; Ecc/Text: rings-core/src/ecc/types.rs
--   Encoder        rings-core/src/message/encoder.rs, and the virtual nodes made of texts and payloads
--   Elgamal        rings-core/src/ecc/elgamal.rs
--   Kv             rings-core/src/storage/persistence/kv.rs: KvStorage
--   Network        lookups over several nodes, as the FindSuccessorSend handler of
--                  rings-core/src/message/handlers/connection.rs passes them on
--   Error          rings-core/src/err.rs and src/error.rs, as far as the above returns errors
--   Base           shared helpers: Boolean tests and lists over the native numbers, insertion sort
--
-- Correspondence. A `Did` is the number that its 20 bytes spell; a `BigUint` is a number. A `Vec` is
-- a list; an index out of range and an `unwrap` of nothing are the outcome `panic` of `Result`. A
-- method that takes `&mut self`, or writes through a mutex, returns the new state; a method that can
-- fail returns a `Result`. Narrow integers keep their wrap-around: the finger index is a `u8`,
-- `len() as u8` is taken modulo 256, `size as u32` modulo 2^32. A mutex is its value and whether it
-- is poisoned; the methods hold their locks to the end, so each is one step; `fix_fingers`, which
-- takes them several times, is one step as well. Names are the source's, in the spelling of this
-- language: `min` and `max` of a sequence are `min_did` and `max_did`, the field `data` of a virtual
-- node is `payload`, `max` is `max_num`. A method of the swarm or of a handler is a step `Act`: from the
-- state of the swarm to a result and the new state, which stays written when the result is an error. An
-- `Arc<Transport>` is the transport's identifier. The ring that a handler shares with the swarm is the
-- one of the state. A method runs to its end before the next begins: tasks that interleave at an
-- `await` are not modelled. A message struct is the arguments of its constructor of `Message`. The field
-- `data` of a payload is `content`.
--
-- Loops run over lists or count down from a bound that the code has: `join` over `size`, `closest`
-- from `size - 1` down, the refill of `remove` over the span of slots it found. Cutting a message
-- has one round for each byte, and takes at least one byte in each. `handle_message` calls itself on the
-- messages of a `MultiCall`, which are parts of the message.
--
-- Parameters. The persistent storage is the record `Persistence`: the theorems that use it assume the
-- laws of a map (`IsMap`). The local cache is the record `Cache`. sha1, hex parsing, base58 and
-- serde_json are the record `Codec`: the theorem on subrings assumes that a JSON object starts with a
-- brace and that base58 rejects a brace. The signature schemes, and the printing of what they sign,
-- are the records `Signers` and `KeySigner`: the theorem on new payloads assumes that a signature
-- verifies under the address of its key. ecies and bincode are the record `Cipher`. The WebRTC
-- transports, the clock, random identifiers, the coding of payloads and the counters of a measure are
-- the record `Rtc` over any type of states. The callback and the validator of the application are
-- steps on the state of the swarm. The data channel below a transport is the record `DataChannel`: one
-- theorem assumes that it logs what it took (`IsLogged`), one that it takes at most what it is given
-- (`IsChannel`). The WebRTC library that `DefaultTransport` drives is the record `Webrtc`; the theorems on handshakes
-- and on arriving messages assume that its JSON and bincode read back what they wrote (`Reads`, `ReadsBack`). The
-- swarm does not see `DefaultTransport` but `Rtc`. The storage of a measure is the record `CounterStorage`. The clock is an argument
-- `now`, or read from the state of `Rtc`: code that reads it several times in one call is read at one
-- time here. The JSON-RPC client of the processor is the record `Client`, the HTTP client and the codings
-- of the backend the record `Web`, JSON and base64 the record `Json`. libsecp256k1, ed25519_dalek and keccak256
-- are the record `Curve`, of which the theorem on signatures assumes that the key it recovers from a
-- signature is the one that signed (`IsCurve`). The field and the points of libsecp256k1 are the record `Group`:
-- the theorem on encryption assumes that a field element has the bytes it was read from, that points add
-- up as in a group, and that a key is read as the point it was made of (`IsCurveField`, `IsGroup`).
-- base58 and UTF-8 are the records `Base58` and `KeyBase58`. sled is the record `Sled`, which the theorem on the
-- storage takes as a map of bytes (`IsSled`).
--
-- Not modelled: the transports for the browser and for tests, the channels of the async runtime, the parsing of
-- ICE servers, the arithmetic of elliptic curves (other crates), the hex texts of
-- keys, the gzip coding of payloads, the browser's storage (IndexedDB), the HTTP service around the RPC
-- methods, the browser bindings, the configuration and the command line.
mod Base
pub mod Error
pub mod Did
pub mod Finger
pub mod Successor
pub mod VNode
pub mod Action
pub mod Chord
pub mod Network
pub mod Relay
pub mod Chunk
pub mod Session
pub mod Payload
pub mod Message
pub mod Act
pub mod Swarm
pub mod Handler
pub mod Transport
pub mod Measure
pub mod Backend
pub mod Processor
pub mod Rpc
pub mod Ecc
pub mod Elgamal
pub mod Encoder
pub mod Kv
pub mod Node

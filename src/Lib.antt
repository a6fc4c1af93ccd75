-- ===== src/Lib.antt =====
-- Samizdat: a verification library for a peer-to-peer network of content.
--
-- The program has four parts: a library of shared types (common/src), a node that stores objects,
-- collections and series and serves them over HTTP (node/src), a hub that introduces nodes to each
-- other (hub/src), and tools around them (cli/src, proxy/src). What the parts agree on are hashes: an
-- object is the root of a Merkle tree over the hashes of its chunks, a collection is the root of a
-- Patricia map from the hashes of item paths to the hashes of objects, and a node proves to another
-- node that an item belongs to a collection by a path in that map. The node keeps its state in tables of
-- a key-value store, and the hub checks that no query is sent to it twice.
--
-- The files and the code that they model:
--
--   Hash.antt         common/src/hash.rs: Hash, its comparison, rehash
--   Merkle.antt       common/src/hash.rs: MerkleTree (from, root, len, hashes, proof_for),
--                     InclusionProof::proves and Hash::is_proved_by
--   Patricia.antt     common/src/patricia_map.rs, in four parts:
--     Patricia/Segment.antt   bits, Side, Segment (from_bits, bits, follow, split_at)
--     Patricia/Tree.antt      Node, Child, and the loops of insert, update and proof_for
--     Patricia/Proof.antt     PatriciaProof and is_in
--     Patricia/Map.antt       PatriciaMap (new, root, insert, from_iter, proof_for)
--   Codec.antt        what is serialised with the crate bincode
--   Database.antt     node/src/db/mod.rs: Table, and the batches that are written to the tables
--   Objects.antt      node/src/models/object.rs, in three parts:
--     Objects/Header.antt     ObjectHeader (new, reissue, read, buffer)
--     Objects/Building.antt   ObjectMetadata, ObjectStatistics, ObjectRef::build and import
--     Objects/Reading.antt    ContentIter, ChunkIter, and the other methods of ObjectRef: metadata, touch,
--                             content, chunks, reissue, drop_if_exists_with, find
--   Transfer.antt     node/src/system/file_transfer/mod.rs: send_object, recv_object and what they call
--     Transfer/Items.antt     send_item and recv_item
--   Series.antt       node/src/models/series.rs: SeriesOwner, SeriesRef and Edition;
--                     common/src/pki.rs: Signed
--   Vacuum.antt       node/src/vacuum.rs: vacuum
--   Matcher.antt      node/src/system/transport/matcher.rs: Matcher
--   Cipher.antt       common/src/cipher.rs: TransferCipher and OpaqueEncrypted
--   Riddle.antt       common/src/riddles.rs: Riddle, MessageRiddle
--   Bookmark.antt     node/src/db/mod.rs: MergeOperation, the merge operator of the table of bookmarks;
--                     node/src/models/bookmark.rs: Bookmark
--   Replay.antt       hub/src/replay_resistance.rs: check, and the clean-up task of new
--   Rpc.antt          common/src/rpc.rs: the messages between nodes and hubs; ChannelAddr
--   Hub.antt          hub/src/rpc, in four parts:
--     Hub/Sampler.antt        node_sampler.rs: Statistics, Experiment, sample
--     Hub/Room.antt           room.rs: Room; mod.rs: Node
--     Hub/Resolving.antt      mod.rs: candidates_for_resolution
--     Hub/Requests.antt       hub_server.rs: HubServer; hub_as_node.rs: HubAsNodeServer; mod.rs:
--                             edition_for_request, announce_edition, get_identity
--   Lookup.antt       the lookups by a riddle: find of SeriesRef, SubscriptionRef, Identity and
--                     CollectionItem, in node/src/models
--   Identity.antt     node/src/models/identity.rs; common/src/pow.rs: ProofOfWork
--   Subscription.antt node/src/models/subscription.rs
--   NodeServer.antt   node/src/system/node_server.rs: NodeServer
--   HubConnection.antt  node/src/system/mod.rs: HubConnection and Hubs
--   Redirects.antt    node/src/http/redirects.rs: maybe_redirect and what it calls, general_redirect
--   Resolvers.antt    node/src/http/resolvers.rs: resolve_object, resolve_item, resolve_series,
--                     resolve_identity
--   KvStore.antt      node/src/http/kvstore.rs: get, put, delete, clear
--   Channel.antt      common/src/keyed_channel.rs: KeyedChannel and RecvStream
--   Text.antt         the operations of Rust's str that paths are taken apart with
--   Collection.antt   node/src/models/collection.rs: normalize, the canonical form of an item path
--     Collection/Items.antt   CollectionItem (is_valid, object) and CollectionRef::build
--     Collection/Tables.antt  the tables of items: insert, drop_if_exists_with, get
--   Access.antt       node/src/access.rs: AccessRight, Entity, from_path
--   Store.antt        node/src/db/mod.rs: a table as a function from keys to values
--   Auth.antt         node/src/http/auth.rs: the handlers of granted rights
--     Auth/Requests.antt      the filters that authenticate a request
--   Examples.antt     tests, and each theorem on an input
--   Prelude.antt      the names and lemmas that the others share
--
-- The child modules of a component hold the proofs about it. A component's operations have the names of
-- the methods. An operation that changes its receiver returns the new one.
--
-- A panic (an `expect`, an index out of bounds) is the outer `none` of an operation's result, and an
-- `Option` or a `Result` of the source is kept inside it. A byte is a number below 256, a hash is a list
-- of bytes, and `IsHash` says that it has 28 of them. A `u8` and an `i16` wrap around, as in a release
-- build: an `i16` is its bit pattern. Where a call changes the tables before it fails, its result is an
-- `Ending` or a `Chunking` that keeps them, with a panic as a case of its own. The stream of a received
-- object says how a call ends in which it fails: with an error where a message is too long, with a
-- panic where brotli cannot decompress one.
--
-- The recursion of the Patricia map follows the tree, so that it needs no fuel: the loop of `insert`
-- goes down by one child in each round, and that of `is_in` follows the list of the proof. The levels of
-- a Merkle tree are made on fuel, as many rounds as there are leaves: each level has half of the hashes
-- of the one below, rounded up, so that this is never used up.
--
-- A source of bytes is the list of what its iterator yields, `none` for an error. The loops of `build`
-- and `import` run on fuel, two rounds more than there are bytes: a round that does not end the loop has
-- filled a chunk, so that it takes at least one byte from the source, as long as the written header is
-- shorter than a chunk. An error inside these loops leaves the chunks that were written before it. The
-- vacuum pops from its heap, so that its loop follows the list of the heap's entries. The calls of a
-- matcher are steps of a relation, each being what is done under one lock, in any order, with the timers
-- that the calls leave behind.
--
-- The parts meet as follows. `Objects.Building` takes the tree from `Merkle` and the bookmark from
-- `Bookmark`, and writes one batch to the tables of `Database`; `Transfer` reads chunks with
-- `Objects.Reading`, sends them through `Cipher`, and makes the object again with the import of
-- `Objects.Building`. A query goes from `HubConnection` to
-- `Hub.Requests`, which makes a resolution of it; `Hub.Resolving` passes this on to nodes and other hubs
-- and checks what comes back; a node answers with `NodeServer`, and what it then sends is received by
-- `HubConnection` with `Transfer`. The vacuum asks `Bookmark` what may be dropped and drops with `Objects.Reading`.
--
-- Parameters, since their code is not in the repository: the hash function (`digest`, for SHA3-224), of
-- which some theorems ask that its values have 28 bytes; the serialisation of `bincode`, of which they
-- ask that what was written is read back; the cipher of aes_gcm_siv, the compression of brotli, the signatures of ed25519_dalek, the URLs of the crate url, and how
-- warp tries a second filter when the first rejects. The key-value store is a function from keys to
-- values whose own errors are not modelled, iteration over a table is an argument, and so are time and
-- random numbers. The usefulness by which the vacuum ranks objects is a floating point number, and stands
-- as a parameter of which only the order is used.
--
-- A remote call is the function of the one who answers it; its failures, the order in which concurrent
-- calls end (`buffer_unordered` of the crate futures, of which a theorem asks that it yields no outcomes but
-- those of its calls), the numbers that are drawn and what arrives on a channel are arguments. A task that is
-- spawned is part of the result of the call that spawns it. The chain of hubs that a resolution goes down
-- is a recursion on their number.
--
-- Not modelled: setting up connections (QUIC, hole punching, reconnecting, throttling), the filters of
-- warp that pick HTTP requests, the random priorities of peers (floating point), the advance of an owner
-- of a series, the replay resistance of the node, which is commented out in the source, the iterator of
-- the Patricia map, the command line, the proxy and the JavaScript client. They are mostly calls of
-- other libraries, or wait for a model of these.
pub mod Prelude
pub mod Hash
pub mod Patricia
pub mod Merkle
pub mod Store
pub mod Bookmark
pub mod Replay
pub mod Channel
pub mod Text
pub mod Collection
pub mod Access
pub mod Auth
pub mod Codec
pub mod Cipher
pub mod Database
pub mod Objects
pub mod Transfer
pub mod Series
pub mod Vacuum
pub mod Matcher
pub mod Riddle
pub mod Rpc
pub mod Hub
pub mod Lookup
pub mod Identity
pub mod Subscription
pub mod NodeServer
pub mod HubConnection
pub mod Redirects
pub mod KvStore
pub mod Resolvers
pub mod Examples

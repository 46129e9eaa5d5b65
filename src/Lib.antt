-- ===== src/Lib.antt =====
-- chiyocore: a model of the firmware's storage, mesh node, radio loop and companion, and
-- what is proved of them.
--
-- The program is firmware for a LoRa mesh. A partition of the flash holds a small filesystem of
-- directories and files; the stores of contacts and channels keep their entries there, with caches
-- in memory; a mesh node receives packets, drops those that it has seen, decrypts the messages that
-- are meant for it with the keys of its contacts and channels, acknowledges them, and hands them to
-- its layers. A radio loop feeds it and sends what it puts into a channel. The companion is a layer of
-- the node and the server of an app: it saves messages to a log on flash, and answers the commands of
-- the app with the node's operations. The ping bot is a second layer.
--
-- Which file models what (paths from the root of the repository):
--   - firmware/chiyo-hal/src/storage.rs: Hal/Partition (FsPartition: offsets and guards on 32-bit
--     words), Hal/Keys and Hal/Directory (the byte formats), Hal/Filesystem (ChiyoFilesystem: get,
--     set, delete, and its mutex) with Listing (directory_entries, the reader and the loops over it)
--     and Objects (get_deser, get_or_insert, get_persistable, PersistedObject). Hal/MapStore is the
--     interface of the crate sequential_storage; Hal/Outcome is what a call can come to.
--   - firmware/chiyocore/src/simple_mesh/storage: Storage/HashLog and Storage/Messages (packet_log.rs),
--     Storage/Contacts (contact.rs), Storage/Channels (channel.rs), Storage/KeyCache
--     (shared_key_cache.rs), Storage/MessageLog (message_log.rs), and Storage/Search (binary_search_by
--     of a slice).
--   - firmware/chiyocore/src/psram_vec.rs: PsramVec, the store of a sorted map in a vector.
--   - firmware/chiyocore/src/lora.rs: Lora (Radio: cad_check, tx and run, over the record Driver for the
--     crate lora_phy) and Lora/Channel (LoraTaskChannel and run_handler).
--   - firmware/chiyocore/src/ping_bot.rs: PingBot.
--   - firmware/chiyocore/src/simple_mesh/layer.rs: Mesh/Layer, the methods of a layer as events.
--   - firmware/chiyocore/src/simple_mesh/mod.rs: Mesh/Types (SimpleMesh as Node, and Env), Mesh/Send,
--     Mesh/Decode, Mesh/Receive (the receiving methods, dispatch and packet) and Mesh/Retry
--     (send_with_retry). Mesh/Monad is the calls of a node.
--   - firmware/companion/src/companion_protocol/tcp.rs: Companion/Tcp, the frames of the TCP front end,
--     with what the handler of a frame and the flush after it come to.
--   - firmware/companion/src/companionv2: Companion/Session (Companion, and Host for the codecs and keys
--     it uses), Companion/Handler with Signing, Mesh and Stores below it (companion_proto_handler.rs),
--     Companion/Layer (the layer of mod.rs) and Companion/Build (add_channels of build.rs).
--     Companion/Reply is what a method answers.
--   - firmware/companion/src/companion_protocol/protocol.rs: Companion/Protocol (CompanionHandler,
--     HostCommand and parse_packet).
--   - firmware/chiyocore/src/builder.rs: Builder (ChiyocoreFs::new and its partitions, the stages of
--     Chiyocore from setup to run, and the building of nodes and layers). Storage/MeshStorage is
--     MeshStorage of storage/mod.rs, which it opens.
--   - builder/src/gen_main.rs: Boot, the code that is generated into a firmware: the slots in which
--     nodes keep their identity and advertisement, the variables, the default channels, and, in Boot/Main,
--     main for a firmware with one node, from Chiyocore::setup to the loop over the packets.
--   - firmware/chiyocore/src/crypto.rs: Crypto (HardwareAES over a record for the peripheral).
--   - firmware/chiyocore/src/ntp.rs: Ntp, its times.
--   - the tasks of firmware/chiyocore/src/lora.rs, of simple_mesh/mod.rs and of the companion's tcp.rs:
--     Locks, a model of its own of the locks that they hold and wait for, in any interleaving. RemoveContact
--     waits there for a mutex that it holds itself; any other call under a lock is taken to return.
--   The modules below these hold proofs. Tests runs the model at concrete inputs, on the flash map, the
--   codec and the node of Tests/World and the session of Tests/Host.
--
-- How state is modelled. A call of the filesystem takes the flash and its mutex and returns them with
-- an Outcome: a value, an error, a panic, or a wait that never ends. A call of a node takes the node
-- and its layers' state, in the same way. The error paths keep every change made before them. Packets
-- handed to the radio and wakes of the ack table are appended to lists in the node.
--
-- What is a parameter. The flash map (with the laws of Hal/MapStore), the hash functions, the key
-- exchange, the cipher and the codecs of the crates postcard and meshcore are not code of the
-- repository: they are fields of Env or arguments. Records for types of these crates have the fields
-- that the source reads. The hash maps of the crate litemap are functions. The radio's driver, the
-- queue on flash, the AES peripheral, the signing key, the random bytes and, for Locks, the locks of the
-- crate embassy_sync are interfaces, with their laws as hypotheses.
--
-- Bounds and fuel. Offsets are 32-bit words with wrap-around; counts of directory entries are 16-bit.
-- A loop over a directory of n entries runs on n + 1 rounds of fuel, of which the last finds the end, and
-- panics if it had to go on. The loop over a read of n bytes runs on n + 1 rounds, since
-- each drops a byte. send_with_retry runs on 8 rounds, seven attempts and the last test of
-- its condition. cad_check runs on 6 rounds, five tries and the last test. The loop of
-- partition_dedup_by runs on as many rounds as the slice is long: the first reads at one, and the last
-- finds the end. The radio loop has no end; it runs on a list of what each round meets, of any length.
-- binary_search_by is modelled by its documented result, found by a scan.
--
-- Not modelled: the drivers of flash and radio, the pins, the peripherals and the set-up of the radio;
-- timing and Wi-Fi, and the loops of NTP that wait for the network; the spawning of tasks, and what the
-- generators under builder print besides the code that Boot models; two nodes that share the stores; the
-- bump allocator; a wait for a full channel of the radio. Outside Locks there are no interleavings:
-- layers of a tuple run one after the other, and a packet or a command of the app is handled as a whole.
pub mod Base
pub mod Hal
pub mod Storage
pub mod Mesh
pub mod Companion
pub mod Lora
pub mod PingBot
pub mod PsramVec
pub mod Boot
pub mod Builder
pub mod Crypto
pub mod Ntp
pub mod Locks
pub mod Tests

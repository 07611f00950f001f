-- ===== src/Lib.antt =====
-- The peer-to-peer file synchronisation engine of this repository. A node cuts its files into chunks
-- by their content, stores each chunk in a file that is named by its hash, and keeps for each path
-- the newest version that it knows, with a vector clock. Two nodes synchronise by sending each other
-- all their versions; a node merges what it receives, asks for the chunks it lacks, and writes the
-- files out. Its versions are saved to a journal, which is read back when the node is started again.
--
-- The parts, and the code they model:
--   Sha256       sha256.hpp, sha256.cpp: `hash`, `combine`, `to_hex`, and the context behind them.
--                A context's buffer holds the bytes that are filled, so `buf_len` is its length.
--   RollingHash  rolling_hash.hpp, the head of chunker.cpp, chunker_gear_table.inc
--   Chunker      chunker.hpp, chunker.cpp. The inner loop is `scan`, the outer one `chunk_loop`.
--   MerkleTree   merkle_tree.hpp, merkle_tree.cpp. The constructor `null` is the null pointer; a
--                leaf index of -1 is `none`.
--   VectorClock  vector_clock.hpp, vector_clock.cpp
--   FileEntry    file_entry.hpp
--   CrdtStore    crdt_store.hpp, crdt_store.cpp. A method that changes the store returns the new one.
--   EntryCodec   entry_codec.hpp, entry_codec.cpp
--   FileStore    file_store.hpp, file_store.cpp
--   SyncEngine   sync_engine.hpp, sync_engine.cpp. `engine` is a node's members with a given store;
--                Report is the line that `ingest_file` prints.
--   Network      network.hpp, network.cpp: Sockets is `TcpSocket` over the calls of the operating system,
--                a parameter (`Kernel`, `send` and `recv`), Frames the connection as a list of pieces
--                (`send_frame`, `recv_all`, `recv_frame`), Messages the payloads, Session the loops of
--                `run_sync_session`, and Rounds that function as the phases in which a node waits for
--                its peer. Schedules is two nodes with the messages on their way, received in any order.
--   Node         node.hpp, node.cpp
--   CommandLine  main.cpp: a run is a function of the arguments and the disk to the exit code, what is
--                printed, and the disk. What the connection does, the outcome of connecting and the texts of
--                exceptions are its parameter `World`.
-- A session uses the engine's store, its chunk files and its journal; the engine uses the chunker, the
-- trees, the store and the line format, which manifests and journal share.
-- Below them stand Prelude (numbers, lists, byte strings), Map (`std::map` over strings, as a list in
-- ascending order of its keys), Exceptions, and Streams (`std::getline`, decimal output,
-- `std::stoull` and `std::stoi`).
--
-- A byte string is a list of numbers. Unsigned arithmetic wraps around by `% 2 ^ 32` and `% 2 ^ 64`
-- where the code computes with `uint32_t` and `uint64_t`; offsets and sizes of a file in memory do
-- not reach these bounds. What the code throws is the value `throw` of the type `Result`. The disk is
-- a map from files to contents, passed along; a file stands under the one path that `resolve` in
-- FileStore/Paths makes of all that name it, by their `.` and `..`. A path that the user or a peer names
-- is kept as it is written until a file is opened: `passes` tells the places that it leads through, where
-- `create_directories` throws if there is a file, and `names_directory` whether it can name a directory
-- only, which is not opened for writing. A directory is there as long as a file stands below it. The
-- directory of a node is taken as the one that its path names, and a directory with the name of a chunk
-- file is not considered; empty directories, symbolic links and other writes that fail are not modelled.
--
-- Fuel: the outer loop of `chunk` is given the length of the input, since each round takes a byte or
-- more; `update` of a hash context likewise; the padding loop is given 64 rounds, and ends sooner;
-- the tree over n chunks is built with fuel n, since both halves of two chunks or more are shorter;
-- decimal printing is given 20 rounds, the digits of the largest 64-bit number;
-- a CHUNK_DATA payload is read with its length as fuel, since each record takes 36 bytes or more;
-- `send_all` is given the number of its bytes, and `recv_all` the number of bytes that are wanted, since
-- each round takes a byte or more; the loop that counts the bits of the mask is given 64 rounds, since it
-- halves a 64-bit number.
--
-- Not modelled: in what order a run prints to its two outputs. `run_sync_session` takes what the
-- connection does as a list of events: a message comes in and the answer goes out or not, or `recv` fails.
-- Schedules is about two nodes for which no such call fails; there a frame is sent without waiting, so that
-- a connection holds any number of bytes, and a frame of 4 GiB or more, whose length `send_frame` cuts, is
-- left open: no step receives it.
mod Prelude
pub mod Map
pub mod Sha256
pub mod VectorClock
pub mod FileEntry
pub mod CrdtStore
pub mod RollingHash
pub mod Chunker
pub mod MerkleTree
pub mod Exceptions
pub mod Streams
pub mod EntryCodec
pub mod FileStore
pub mod SyncEngine
pub mod Network
pub mod Node
pub mod CommandLine
mod Fixtures

-- ===== src/SyncEngine.antt =====
-- sync_engine.hpp, sync_engine.cpp: one node's chunker, chunk files, CRDT store and journal.
pub mod Layout
pub mod Room
pub mod Aside
pub mod Journal
pub mod Ingest
pub mod Complete
pub mod Report
pub mod RoomTests
pub mod Tests
use p2p_sync_engine.Prelude.{
  ℕ, ◌+◌, Bool, true, false, Bytes, List, [], ◌∷◌, ◌++◌, Option, none, some, map, codes,
  if◌then◌else◌, length, replicate,
}
use p2p_sync_engine.Map.{Map, find, insert}
use p2p_sync_engine.Exceptions.{Result, ok, throw, ◌>>=◌}
use p2p_sync_engine.Streams.{getlines}
use p2p_sync_engine.Sha256.{Digest}
use p2p_sync_engine.Chunker
use p2p_sync_engine.Chunker.{Chunk, Chunker, default_chunker}
use p2p_sync_engine.MerkleTree
use p2p_sync_engine.MerkleTree.{MerkleTree, hash_of, is_empty}
use p2p_sync_engine.FileEntry.{FileEntry, has_content}
use p2p_sync_engine.CrdtStore
use p2p_sync_engine.CrdtStore.{CrdtStore}
use p2p_sync_engine.FileStore
use p2p_sync_engine.FileStore.Paths.{resolve}
use p2p_sync_engine.FileStore.{FileStore, Disk}
use p2p_sync_engine.FileStore.Chunks.{put_chunks}
use p2p_sync_engine.EntryCodec.{entry_to_line, line_to_entry}

-- The engine's own fields; the disk is passed beside it.
pub record SyncEngine : Type 0 where
  pub node_id : Bytes
  pub data_dir : Bytes
  pub materialized_dir : Bytes
  pub chunker : Chunker
  pub blobs : FileStore
  pub store : CrdtStore

-- The file of the journal.
abbrev pub journal_path : SyncEngine → Bytes
journal_path e = resolve (e.data_dir ++ codes "/store.meta")

-- The loop over the lines of the journal.
unfoldable pub load_lines : CrdtStore → List Bytes → Result CrdtStore
load_lines s [] = ok s
load_lines s ([] ∷ lines) = load_lines s lines
load_lines s ((c ∷ line) ∷ lines) = do
  entry ← line_to_entry (c ∷ line)
  load_lines (CrdtStore.load_entry s entry) lines

-- No journal yet: nothing to restore.
unfoldable pub load_text : CrdtStore → Option Bytes → Result CrdtStore
load_text s none = ok s
load_text s (some text) = load_lines s (getlines b'\n' text)

unfoldable pub load_journal : SyncEngine → Disk → Result SyncEngine
unfolding load_lines load_text
load_journal e disk = do
  store ← load_text e.store (find (journal_path e) disk)
  ok (record e { store = store })

-- The members as the constructor initialises them, with `store` for its empty store.
abbrev pub engine : Bytes → Bytes → CrdtStore → SyncEngine
engine node_id data_dir store = record {
  node_id = node_id;
  data_dir = data_dir;
  materialized_dir = data_dir ++ codes "/files";
  chunker = default_chunker;
  blobs = record { root = data_dir ++ codes "/blobstore" };
  store = store;
}

-- The constructor.
unfoldable pub new : Bytes → Bytes → Disk → Result SyncEngine
new node_id data_dir disk = do
  blobs ← FileStore.new (data_dir ++ codes "/blobstore") disk
  made ← FileStore.create_directories data_dir disk
  load_journal (record (engine node_id data_dir (CrdtStore.init node_id)) { blobs = blobs }) disk

unfoldable pub journal_text : List FileEntry → Bytes
journal_text [] = []
journal_text (e ∷ entries) = entry_to_line e ++ (b'\n' ∷ journal_text entries)

unfoldable pub save_journal : SyncEngine → Disk → Disk
unfolding journal_text
save_journal e disk =
    FileStore.write (journal_path e) (journal_text (CrdtStore.all_entries e.store)) disk

-- `materialize` of an entry that was looked up: nothing is written without content.
unfoldable pub materialize_entry : SyncEngine → Bytes → Option FileEntry → Disk → Result Disk
materialize_entry e path none disk = ok disk
materialize_entry e path (some entry) disk =
    if has_content entry
    then FileStore.materialize e.blobs e.materialized_dir path entry.chunk_hashes disk
    else ok disk

unfoldable pub materialize : SyncEngine → Bytes → Disk → Result Disk
unfolding materialize_entry
materialize e path disk = materialize_entry e path (CrdtStore.get e.store path) disk

-- The sum of the sizes of the chunks.
pub total_size : List Chunk → ℕ
total_size [] = 0
total_size (c ∷ cs) = length c.content + total_size cs

abbrev pub root_of : MerkleTree → Digest
root_of t = if is_empty t then replicate 32 0 else hash_of t.root

-- The version that `ingest_file` records: chunks, their hashes, the Merkle root and the size.
unfoldable pub recorded : SyncEngine → Bytes → Bytes → SyncEngine
unfolding total_size
recorded e path bytes =
    let chunks = Chunker.chunk e.chunker bytes in
    record e {
      store =
          CrdtStore.put_local e.store path (map (λ (c : Chunk). c.hash) chunks)
            (root_of (MerkleTree.build chunks)) (total_size chunks);
    }

-- Behind `materialize`: on an exception the disk is left as it is then.
unfoldable pub ingest_rest : SyncEngine → Disk → Result Disk → Disk × Result SyncEngine
ingest_rest e disk (ok disk') = (save_journal e disk', ok e)
ingest_rest e disk (throw x) = (disk, throw x)

-- The disk that is left, and the engine with the new version, which the caller reads, or an exception.
unfoldable pub ingest_file : SyncEngine → Bytes → Bytes → Disk → Disk × Result SyncEngine
unfolding recorded ingest_rest
ingest_file e path bytes disk =
    let e' = recorded e path bytes in
    let stored = put_chunks e.blobs (Chunker.chunk e.chunker bytes) disk in
    ingest_rest e' stored (materialize e' path stored)

unfoldable pub delete_file : SyncEngine → Bytes → Disk → SyncEngine × Disk
delete_file e path disk =
    let e' : SyncEngine = record e { store = CrdtStore.delete_local e.store path } in
    (e', save_journal e' disk)

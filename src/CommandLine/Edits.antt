-- ===== src/CommandLine/Edits.antt =====
-- One run of the program that edits the node's files, and the next one that starts on the same disk.
use p2p_sync_engine.Prelude.{false, Bytes, List, [], ◌∷◌, ◌++◌, some, codes, ◌≡◌}
use p2p_sync_engine.FileEntry.{FileEntry}
use p2p_sync_engine.CrdtStore.{CrdtStore, delete_local}
use p2p_sync_engine.FileStore.{Disk, blocked}
use p2p_sync_engine.FileStore.Chunks.{put_chunks}
use p2p_sync_engine.Chunker
use p2p_sync_engine.FileStore.Inside.{IsInside}
use p2p_sync_engine.FileStore.{append_path, read_file}
use p2p_sync_engine.SyncEngine
use p2p_sync_engine.SyncEngine.{SyncEngine, engine, recorded}
use p2p_sync_engine.Node
use p2p_sync_engine.Node.{Node}
use p2p_sync_engine.CommandLine.{is_flag}

-- `bytes` is what the source file holds.
pub data Edit : Type 0 where
  add : (path source bytes : Bytes) → Edit
  rm : (path : Bytes) → Edit

abbrev pub command_of : Edit → Bytes
command_of (add path source bytes) = codes "add"
command_of (rm path) = codes "rm"

-- What stands behind the command.
abbrev pub operands : Edit → List Bytes
operands (add path source bytes) = path ∷ source ∷ []
operands (rm path) = path ∷ []

abbrev node_args : Bytes → Bytes → Edit → List Bytes
node_args node_id data_dir edit =
    node_id ∷ codes "--data" ∷ data_dir ∷ command_of edit ∷ operands edit

abbrev pub command_line : Bytes → Bytes → Edit → List Bytes
command_line node_id data_dir edit = codes "--id" ∷ node_args node_id data_dir edit

-- The edit of the store.
abbrev pub edited : Bytes → CrdtStore → Edit → CrdtStore
edited data_dir s (add path source bytes) =
    (recorded (engine s.node_id data_dir s) path bytes).store
edited data_dir s (rm path) = delete_local s path

-- The edit can be made: its arguments are not taken for flags, the source file is there, and no file is
-- where the new one needs a directory.
abbrev pub CanEdit : Bytes → CrdtStore → Disk → Edit → Type 0
CanEdit data_dir s disk (add path source bytes) =
    (is_flag path ≡ false)
    × (is_flag source ≡ false)
    × (read_file source disk ≡ some bytes)
    × (blocked (append_path (data_dir ++ codes "/files") path) (
          put_chunks (engine s.node_id data_dir s).blobs
            (Chunker.chunk (engine s.node_id data_dir s).chunker bytes) disk)
        ≡ false)
    × IsInside path
CanEdit data_dir s disk (rm path) = is_flag path ≡ false

-- The engine after the edit.
abbrev edited_engine : Bytes → CrdtStore → Edit → SyncEngine
edited_engine data_dir s edit = engine s.node_id data_dir (edited data_dir s edit)

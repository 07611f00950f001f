-- ===== src/Node.antt =====
-- node.hpp, node.cpp: a node owns an engine. What a method prints is returned as text.
use p2p_sync_engine.Prelude.{
  Bool, Bytes, List, [], ◌∷◌, ◌++◌, none, some, codes, length, if◌then◌else◌,
}
use p2p_sync_engine.Exceptions.{Result, ok, throw, runtime_error, ◌>>=◌}
use p2p_sync_engine.Streams.{print}
use p2p_sync_engine.VectorClock.{to_string}
use p2p_sync_engine.FileEntry.{FileEntry}
use p2p_sync_engine.CrdtStore
use p2p_sync_engine.FileStore.{Disk, read_file}
use p2p_sync_engine.SyncEngine
use p2p_sync_engine.SyncEngine.{SyncEngine, ingest_file, delete_file}
use p2p_sync_engine.Network.Rounds.{Event, Phase, run_sync_session}

pub record Node : Type 0 where
  pub engine : SyncEngine

unfoldable pub new : Bytes → Bytes → Disk → Result Node
new node_id data_dir disk = do e ← SyncEngine.new node_id data_dir disk; ok (record { engine = e })

-- The bytes of the source file, which must be there.
unfoldable pub source_bytes : Bytes → Disk → Result Bytes
source_bytes source disk = elim (read_file source disk) [
  | none ↦ throw (runtime_error (codes "cannot open source file: " ++ source))
  | some bytes ↦ ok bytes
]

unfoldable pub added : Disk × Result SyncEngine → Disk × Result Node
added (disk, ok e) = (disk, ok (record { engine = e }))
added (disk, throw x) = (disk, throw x)

-- The disk that is left, and the node or an exception.
unfoldable pub add_file : Node → Bytes → Bytes → Disk → Disk × Result Node
unfolding added
add_file n logical_path source_path disk = elim (source_bytes source_path disk) [
  | ok bytes ↦ added (ingest_file n.engine logical_path bytes disk)
  | throw x ↦ (disk, throw x)
]

unfoldable pub remove_file : Node → Bytes → Disk → Node × Disk
remove_file n logical_path disk =
    let done = delete_file n.engine logical_path disk in (record { engine = done.0 }, done.1)

-- One line of the listing.
unfoldable pub list_line : FileEntry → Bytes
list_line e =
    if e.deleted
    then codes "  [deleted]  "
      ++ (e.path ++ (codes "  clock=" ++ (to_string e.clock ++ codes "\n")))
    else codes "  "
      ++ (e.path
          ++ (codes "  ("
              ++ (print e.size
                  ++ (codes " bytes, "
                      ++ (print (length e.chunk_hashes)
                          ++ (codes " chunks)  clock="
                              ++ (to_string e.clock
                                  ++ (codes "  last_writer="
                                      ++ (e.last_writer ++ codes "\n")))))))))

unfoldable pub list_lines : List FileEntry → Bytes
unfolding list_line
list_lines [] = []
list_lines (e ∷ entries) = list_line e ++ list_lines entries

unfoldable pub list_files : Node → Bytes
unfolding list_lines
list_files n = list_lines (CrdtStore.all_entries n.engine.store)

-- `sync_with` and `listen_and_sync` behind the connection: the phase that the session is in after the
-- events of the connection.
unfoldable pub sync : Node → Disk → Bool × List Event → Phase
sync n disk (opens, events) = (run_sync_session n.engine disk opens events).0

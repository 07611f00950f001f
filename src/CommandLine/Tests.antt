-- ===== src/CommandLine/Tests.antt =====
-- Runs of the program.
use p2p_sync_engine.Prelude.{false, Bytes, List, [], ◌∷◌, ◌≡◌, ◌≢◌, refl, codes, str_eq, sym, ◌∙◌}
use p2p_sync_engine.Map.{insert}
use p2p_sync_engine.Exceptions.{throw, runtime_error}
use p2p_sync_engine.Sha256
use p2p_sync_engine.VectorClock
use p2p_sync_engine.Chunker
use p2p_sync_engine.MerkleTree
use p2p_sync_engine.FileEntry.{FileEntry}
use p2p_sync_engine.FileStore.{Disk}
use p2p_sync_engine.FileStore.Chunks.{put_chunks}
use p2p_sync_engine.FileStore.Paths.{resolve}
use p2p_sync_engine.SyncEngine
use p2p_sync_engine.SyncEngine.{SyncEngine, engine, save_journal}
use p2p_sync_engine.CommandLine.{World, is_flag, main, split_args}
use p2p_sync_engine.CommandLine.Edits.{Edit, add, command_line}
use p2p_sync_engine.CommandLine.Outcomes.{Ends, main-Ends}
use p2p_sync_engine.Fixtures.{node_a, path_f, store_a}

-- No peer, and no network.
abbrev alone : World
alone = record {
  what = λ x. codes "?";
  connect_to = λ host port. throw (runtime_error (codes "connect"));
  accept_once = λ port. throw (runtime_error (codes "bind"));
}

abbrev source : Bytes
source = codes "s"

-- What is left of an earlier run, and a source file.
abbrev disk : Disk
disk = save_journal (engine node_a (codes "d") store_a) (insert (resolve source) (7 ∷ []) [])

abbrev edit : Edit
edit = add path_f source (7 ∷ [])

abbrev new_version : FileEntry
new_version = record {
  path = path_f;
  chunk_hashes = Sha256.hash (7 ∷ []) ∷ [];
  merkle_root = Sha256.hash (7 ∷ []);
  clock = record { counters = (node_a, 2) ∷ [] };
  last_writer = node_a;
  deleted = false;
  size = 1;
}

-- The engine of the node, and its disk behind the chunks of the file.
abbrev edited_engine : SyncEngine
edited_engine = engine node_a (codes "d") store_a

abbrev with_chunks : Disk
with_chunks = put_chunks edited_engine.blobs (Chunker.chunk edited_engine.chunker (7 ∷ [])) disk

abbrev listing : List Bytes
listing = command_line node_a (codes "d") edit

command_found : (split_args listing ([], [])).0 ≡ codes "add"
unfolding split_args is_flag str_eq
command_found = refl

other_words : (codes "add" ≢ codes "listen") × (codes "add" ≢ codes "sync")
other_words = ((λ q. cc), (λ q. cc))

main-Ends_example : Ends disk (main alone listing disk)
main-Ends_example =
    main-Ends alone listing disk (λ q. other_words.0 (sym command_found ∙ q))
      (λ q. other_words.1 (sym command_found ∙ q))

-- ===== src/SyncEngine/Ingest.antt =====
-- A file that is ingested: its chunks on disk, its materialized copy.
use p2p_sync_engine.Prelude.{ℕ, false, Bytes, List, some, ◌≡◌, refl, ◌∙◌, str_eq_refl}
use p2p_sync_engine.Map.{find, find-insert}
use p2p_sync_engine.Sha256.{Digest}
use p2p_sync_engine.Chunker
use p2p_sync_engine.MerkleTree
use p2p_sync_engine.FileEntry.{FileEntry}
use p2p_sync_engine.VectorClock
use p2p_sync_engine.CrdtStore
use p2p_sync_engine.CrdtStore.{CrdtStore, put_local, known_clock}
use p2p_sync_engine.FileStore
use p2p_sync_engine.SyncEngine.{SyncEngine}

-- What a put leaves under its path.
pub get-put_local :
    (s : CrdtStore) (path : Bytes) (chunk_hashes : List Digest) (merkle_root : Digest) (size : ℕ)
    → (entry : FileEntry) × ((CrdtStore.get (put_local s path chunk_hashes merkle_root size) path
          ≡ some entry)
        × ((entry.chunk_hashes ≡ chunk_hashes) × (entry.deleted ≡ false)))
unfolding put_local CrdtStore.get
get-put_local s path chunk_hashes merkle_root size =
    let entry : FileEntry = record {
      path = path;
      chunk_hashes = chunk_hashes;
      merkle_root = merkle_root;
      clock = VectorClock.increment (known_clock (find path s.entries)) s.node_id;
      last_writer = s.node_id;
      deleted = false;
      size = size;
    } in
    (entry, (find-insert path path entry s.entries ∙ (rw (str_eq_refl path) refl), (refl, refl)))

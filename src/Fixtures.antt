-- ===== src/Fixtures.antt =====
-- Test data: clocks and versions of two nodes.
use p2p_sync_engine.Prelude.{Bytes, [], ◌∷◌, codes, replicate, false}
use p2p_sync_engine.Sha256.{Digest}
use p2p_sync_engine.VectorClock.{VectorClock}
use p2p_sync_engine.FileEntry.{FileEntry}
use p2p_sync_engine.CrdtStore.{CrdtStore}

abbrev pub node_a : Bytes
node_a = codes "a"

abbrev pub node_b : Bytes
node_b = codes "b"

abbrev pub path_f : Bytes
path_f = codes "f.txt"

abbrev pub clock_a : VectorClock
clock_a = record { counters = (codes "a", 1) ∷ [] }

abbrev pub clock_b : VectorClock
clock_b = record { counters = (codes "b", 1) ∷ [] }

-- After `clock_a`.
abbrev pub clock_ab : VectorClock
clock_ab = record { counters = (codes "a", 1) ∷ (codes "b", 2) ∷ [] }

abbrev pub version : Digest → VectorClock → Bytes → FileEntry
version d clock writer = record {
  path = codes "f.txt";
  chunk_hashes = d ∷ [];
  merkle_root = d;
  clock = clock;
  last_writer = writer;
  deleted = false;
  size = 5;
}

-- Two concurrent versions, and one that comes after the first.
abbrev pub version_a : FileEntry
version_a = version (replicate 32 1) clock_a node_a

abbrev pub version_b : FileEntry
version_b = version (replicate 32 2) clock_b node_b

abbrev pub version_ab : FileEntry
version_ab = version (replicate 32 3) clock_ab node_b

abbrev pub store_a : CrdtStore
store_a = record { node_id = node_a; entries = (path_f, version_a) ∷ [] }

abbrev pub store_b : CrdtStore
store_b = record { node_id = node_b; entries = (path_f, version_b) ∷ [] }

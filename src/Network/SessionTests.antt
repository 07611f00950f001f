-- ===== src/Network/SessionTests.antt =====
-- The theorems on whole sessions: a node with one file, and one that has none.
use p2p_sync_engine.Prelude.{
  List, inr, ◌≡◌, refl, sym, subst, Bytes, [], ◌∷◌, none, some, true, false, Bool, codes, replicate,
  All, str_eq, if◌then◌else◌,
}
use p2p_sync_engine.Prelude.{◌++◌}
use p2p_sync_engine.Sha256.{Digest}
use p2p_sync_engine.Map.{find, insert}
use p2p_sync_engine.Exceptions.{Exception, runtime_error, ok}
use p2p_sync_engine.FileEntry.{FileEntry}
use p2p_sync_engine.CrdtStore
use p2p_sync_engine.CrdtStore.{CrdtStore}
use p2p_sync_engine.CrdtStore.Invariant.{IsValid}
use p2p_sync_engine.FileStore.{Disk, chunk_path, has_chunk}
use p2p_sync_engine.FileStore.Presence.{exists-insert_own}
use p2p_sync_engine.SyncEngine.{SyncEngine, engine, ingest_file, recorded, delete_file}
use p2p_sync_engine.SyncEngine.RoomTests.{OneFile, OneFile-IsTidy, free_d}
use p2p_sync_engine.SyncEngine.Complete.{IsComplete, IsTidy, local_edits-IsComplete}
use p2p_sync_engine.Fixtures.{node_a, node_b, path_f, version_a, store_a}
use p2p_sync_engine.Network.Rounds.{Event, arrives, opening}
use p2p_sync_engine.VectorClock.Merge.{IsValid as IsValidClock}
use p2p_sync_engine.CrdtStore.{CrdtStore}

abbrev node : SyncEngine
node = engine node_a (codes "d") store_a

abbrev chunk_file : Bytes
chunk_file = chunk_path node.blobs (replicate 32 1)

abbrev disk : Disk
disk = insert chunk_file (5 ∷ 6 ∷ []) []

abbrev peer : SyncEngine
peer = engine node_b (codes "p") (CrdtStore.init node_b)

chunk_there : has_chunk node.blobs (replicate 32 1) disk ≡ true
unfolding has_chunk
chunk_there = exists-insert_own chunk_file (5 ∷ 6 ∷ []) []

only_version : (k : Bytes) (x : FileEntry) → CrdtStore.get store_a k ≡ some x → x ≡ version_a
unfolding CrdtStore.get find
only_version k x h = by_path (str_eq path_f k) h
  where
    by_path : (b : Bool) → (if b then some version_a else none) ≡ some x → x ≡ version_a
    by_path true q = cc
    by_path false q = cc

node-IsComplete : IsComplete node disk
node-IsComplete k x h =
    subst (λ (y : FileEntry). All (λ d. has_chunk node.blobs d disk ≡ true) y.chunk_hashes)
      (sym (only_version k x h)) (chunk_there, tt)

-- Both disks have room for the one file.
node_room : IsTidy (OneFile (codes "d")) node disk
unfolding insert
node_room =
    OneFile-IsTidy (codes "d") node_a store_a version_a disk refl (room.chunk (replicate 32 1), tt)
      free_d
  where
    room : IsTidy (OneFile (codes "d")) node []
    room = OneFile-IsTidy (codes "d") node_a store_a version_a [] refl tt free_d

abbrev wanted : List Digest
wanted = replicate 32 1 ∷ []

abbrev answer : Bytes
answer = replicate 32 1 ++ (0 ∷ 0 ∷ 0 ∷ 2 ∷ 5 ∷ 6 ∷ [])

abbrev OnlyA : FileEntry → Type 0
OnlyA e = e ≡ version_a

local_edits-IsComplete_example :
    ((disk' : Disk) × (ingest_file node path_f (7 ∷ []) disk
        ≡ (disk', ok (recorded node path_f (7 ∷ []))))
      × IsComplete (recorded node path_f (7 ∷ [])) disk'
      × IsTidy (OneFile (codes "d")) (recorded node path_f (7 ∷ [])) disk')
    × IsComplete (delete_file node path_f disk).0 (delete_file node path_f disk).1
    × IsTidy (OneFile (codes "d")) (delete_file node path_f disk).0 (delete_file node path_f disk).1
local_edits-IsComplete_example =
    local_edits-IsComplete (OneFile (codes "d")) node path_f (7 ∷ []) disk node_room
      (inr (inr refl), free_d) node-IsComplete

abbrev no_request : Exception
no_request = runtime_error (codes "expected CHUNK_REQUEST frame from peer")

-- The peer goes away behind its manifest.
abbrev manifest_only : List Event
manifest_only = arrives (opening peer) true ∷ arrives none true ∷ []

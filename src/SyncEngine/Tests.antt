-- ===== src/SyncEngine/Tests.antt =====
-- The theorems on the engine at concrete engines.
use p2p_sync_engine.Prelude.{[], ◌∷◌, ◌≡◌, refl, arith, codes}
use p2p_sync_engine.Map.{find}
use p2p_sync_engine.Exceptions.{ok}
use p2p_sync_engine.Chunker
use p2p_sync_engine.CrdtStore
use p2p_sync_engine.CrdtStore.Invariant.{IsValid}
use p2p_sync_engine.FileStore.{FileStore, Disk, create_directories, is_below_file, is_directory}
use p2p_sync_engine.FileStore.Chunks.{put_chunks}
use p2p_sync_engine.SyncEngine.{SyncEngine, engine, new, save_journal}
use p2p_sync_engine.SyncEngine.Aside.{HasDirectories}
use p2p_sync_engine.SyncEngine.Journal.{new-save_journal}
use p2p_sync_engine.EntryCodec.Tests.{version_a-IsWireable}
use p2p_sync_engine.Fixtures.{node_a, store_a}

pub store_a-IsValid : IsValid store_a
store_a-IsValid = record {
  sorted = (tt, tt);
  entries_at = (
    record { at_path = refl; valid_clock = record { sorted = (tt, tt); fits = (omega arith, tt) } },
    tt,
  );
}

-- The first run in a directory.
empty_disk-HasDirectories : HasDirectories (codes "d") []
unfolding create_directories is_below_file find
empty_disk-HasDirectories = (refl, refl)

new-save_journal_example :
    new node_a (codes "d") (save_journal (engine node_a (codes "d") store_a) [])
    ≡ ok (engine node_a (codes "d") store_a)
unfolding is_directory
new-save_journal_example =
    new-save_journal (codes "d") store_a [] empty_disk-HasDirectories refl store_a-IsValid
      (version_a-IsWireable, tt)

abbrev pub fresh : SyncEngine
fresh = engine node_a (codes "d") (CrdtStore.init node_a)

-- The disk with the chunks stored.
abbrev stored : Disk
stored = put_chunks fresh.blobs (Chunker.chunk fresh.chunker (7 ∷ [])) []

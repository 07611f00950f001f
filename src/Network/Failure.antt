-- ===== src/Network/Failure.antt =====
-- A session that ends with an exception, and the journal.
use p2p_sync_engine.Prelude.{◌⊎◌, Bytes, ◌++◌, ◌≡◌, codes, All}
use p2p_sync_engine.SyncEngine.{save_journal}
use p2p_sync_engine.FileEntry.{FileEntry}
use p2p_sync_engine.CrdtStore.{CrdtStore}
use p2p_sync_engine.FileStore.{Disk}
use p2p_sync_engine.SyncEngine.{SyncEngine}
use p2p_sync_engine.FileStore.Inside.{IsInside}
use p2p_sync_engine.SyncEngine.Aside.{Sight, sight}
use p2p_sync_engine.Network.Rounds.{
  Phase, wait_manifest, wait_request, wait_chunks, wait_done, finished, failed, send_failed,
  recv_failed,
}

-- An engine on the directory, whatever it holds.
pub record IsOn (data_dir : Bytes) (e : SyncEngine) : Type 0 where
  pub files : e.materialized_dir ≡ data_dir ++ codes "/files"
  pub chunks : e.blobs ≡ record { root = data_dir ++ codes "/blobstore" }

module _ (data_dir : Bytes) (before : Sight data_dir) where
  -- The merged store is in the journal.
  abbrev pub WasSaved : SyncEngine → Disk → Type 0
  WasSaved e disk = (d : Disk) × (disk ≡ save_journal e d)

  -- Until the session is done, a node that is started reads what it would have read before.
  abbrev Unsaved : Phase → Type 0
  Unsaved (wait_manifest e disk) = IsOn data_dir e × (sight data_dir disk ≡ before)
  Unsaved (wait_request e disk m) =
      IsOn data_dir e × (sight data_dir disk ≡ before) × All IsInside m.materialize_paths
  Unsaved (wait_chunks e disk m) =
      IsOn data_dir e × (sight data_dir disk ≡ before) × All IsInside m.materialize_paths
  Unsaved (wait_done e disk stats) = WasSaved e disk
  Unsaved (finished e disk stats) = Unit
  Unsaved (failed e disk x) =
      (sight data_dir disk ≡ before) ⊎ (WasSaved e disk × ((x ≡ send_failed) ⊎ (x ≡ recv_failed)))

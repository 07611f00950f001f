-- ===== src/Network/Agreement.antt =====
-- A session between two nodes that never changed one file independently.
use p2p_sync_engine.VectorClock.Merge.{IsValid as IsValidClock}
use p2p_sync_engine.FileEntry.{FileEntry}
use p2p_sync_engine.CrdtStore.{CrdtStore}
use p2p_sync_engine.SyncEngine.{SyncEngine}

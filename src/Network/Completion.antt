-- ===== src/Network/Completion.antt =====
-- A session between two nodes in good order.
use p2p_sync_engine.Prelude.{Bytes, List, ◌≡◌}
use p2p_sync_engine.CrdtStore.{CrdtStore, all_entries}
use p2p_sync_engine.CrdtStore.Convergence.{merge_all}
use p2p_sync_engine.FileStore.{Disk}
use p2p_sync_engine.SyncEngine.{SyncEngine}
use p2p_sync_engine.SyncEngine.Complete.{IsComplete, IsTidy}
use p2p_sync_engine.Network.Session.{SyncStats}
use p2p_sync_engine.Network.Rounds.{Message, Phase, finished}
use p2p_sync_engine.Network.Schedules.{Net}

-- The node has finished, with this store, and all chunk files of it are on its disk.
abbrev pub HasCompleted : Phase → CrdtStore → Type 0
HasCompleted p store =
    (e : SyncEngine) × (disk : Disk) × (stats : SyncStats) × (p ≡ finished e disk stats)
    × (e.store ≡ store)
    × IsComplete e disk

abbrev net : Phase → Phase → List Message → List Message → Net
net a b to_a to_b = record { a = a; b = b; to_a = to_a; to_b = to_b }

-- The files of the merged store do not stand in each other's way.
abbrev pub HasRoom : (Bytes → Type 0) → SyncEngine → Disk → SyncEngine → Type 0
HasRoom Used e disk p =
    IsTidy Used (record e { store = merge_all e.store (all_entries p.store) }) disk

-- ===== src/Network/Merges.antt =====
-- The merge loop of a session: the store it leaves, its counts, and the chunks it asks for.
use p2p_sync_engine.Prelude.{
  ℕ, ◌+◌, Bytes, List, [], ◌∷◌, Option, none, some, ◌≡◌, refl, ap, ◌∙◌, arith, length,
}
use p2p_sync_engine.FileEntry.{FileEntry}
use p2p_sync_engine.CrdtStore
use p2p_sync_engine.CrdtStore.{
  MergeOutcome, MergeResult, CrdtStore, applied_remote, kept_local, no_change, conflict_forked,
  merge_remote,
}
use p2p_sync_engine.CrdtStore.Convergence.{merge_all}
use p2p_sync_engine.FileStore.{FileStore, Disk}
use p2p_sync_engine.Network.Session.{
  SyncStats, Merging, need_forked, record_outcome, merge_entry, merge_entries,
}

-- The entries that were counted, whatever became of them.
abbrev pub counted : SyncStats → ℕ
counted s =
    s.entries_applied_remote + (s.entries_kept_local + (s.entries_no_change + s.conflicts_forked))

need_forked-keeps :
    (fs : FileStore) (disk : Disk) (path : Bytes) (o : Option FileEntry) (m : Merging)
    → ((need_forked fs disk path o m).store ≡ m.store)
      × ((need_forked fs disk path o m).stats ≡ m.stats)
unfolding need_forked
need_forked-keeps fs disk path none m = (refl, refl)
need_forked-keeps fs disk path (some forked) m = (refl, refl)

record_outcome-counts :
    (fs : FileStore) (disk : Disk) (re : FileEntry) (r : MergeResult) (o : MergeOutcome)
    (m : Merging)
    → ((record_outcome fs disk re r o m).store ≡ m.store)
      × (counted (record_outcome fs disk re r o m).stats ≡ counted m.stats + 1)
unfolding record_outcome
record_outcome-counts fs disk re r applied_remote m = (refl, omega arith)
record_outcome-counts fs disk re r kept_local m = (refl, omega arith)
record_outcome-counts fs disk re r no_change m = (refl, omega arith)
record_outcome-counts fs disk re r conflict_forked m =
    let k =
      need_forked-keeps fs disk r.conflict_path (CrdtStore.get m.store r.conflict_path)
        (record m { stats = record m.stats { conflicts_forked = m.stats.conflicts_forked + 1 } }) in
    (k.0, ap counted k.1 ∙ omega arith)

-- The loop leaves the store that merges of the received entries alone give, in their order, whatever is
-- on the disk, and counts each entry once.
pub merge_entries-merge_all :
    (fs : FileStore) (disk : Disk) (entries : List FileEntry) (m : Merging)
    → ((merge_entries fs disk entries m).store ≡ merge_all m.store entries)
      × (counted (merge_entries fs disk entries m).stats ≡ counted m.stats + length entries)
unfolding merge_entries merge_entry merge_all
merge_entries-merge_all fs disk [] m = (refl, omega arith)
merge_entries-merge_all fs disk (re ∷ rest) m =
    let merged = merge_remote m.store re in
    let m' = record_outcome fs disk re merged.1 merged.1.outcome (record m { store = merged.0 }) in
    let step =
      record_outcome-counts fs disk re merged.1 merged.1.outcome (record m { store = merged.0 }) in
    let later = merge_entries-merge_all fs disk rest m' in
    (later.0 ∙ ap (λ s. merge_all s rest) step.0, omega (arith, later.1, step.1))

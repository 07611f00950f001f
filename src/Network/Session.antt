-- ===== src/Network/Session.antt =====
-- network.hpp, network.cpp: the loops of `run_sync_session`.
use p2p_sync_engine.Prelude.{
  ℕ, ◌+◌, Bool, true, Bytes, List, [], ◌∷◌, ◌++◌, Option, none, some, ◌==◌, if◌then◌else◌, length,
}
use p2p_sync_engine.Map.{Map, insert}
use p2p_sync_engine.Exceptions.{Exception, Result, ok, throw, runtime_error, ◌>>=◌}
use p2p_sync_engine.Sha256.{Digest, to_hex}
use p2p_sync_engine.FileEntry.{FileEntry}
use p2p_sync_engine.CrdtStore
use p2p_sync_engine.CrdtStore.{
  MergeOutcome, MergeResult, CrdtStore, applied_remote, kept_local, no_change, conflict_forked,
  merge_remote,
}
use p2p_sync_engine.EntryCodec.{hex_to_digest}
use p2p_sync_engine.FileStore
use p2p_sync_engine.FileStore.{FileStore, Disk}
use p2p_sync_engine.SyncEngine
use p2p_sync_engine.SyncEngine.{SyncEngine, save_journal}
use p2p_sync_engine.Network.Frames.{Frame}

pub record SyncStats : Type 0 where
  pub entries_sent : ℕ
  pub entries_applied_remote : ℕ
  pub entries_kept_local : ℕ
  pub entries_no_change : ℕ
  pub conflicts_forked : ℕ
  pub chunks_fetched : ℕ

abbrev pub no_stats : SyncStats
no_stats = record {
  entries_sent = 0;
  entries_applied_remote = 0;
  entries_kept_local = 0;
  entries_no_change = 0;
  conflicts_forked = 0;
  chunks_fetched = 0;
}

-- What the merge loop works on; `needed_hex`, a set, is a map to `true`.
pub record Merging : Type 0 where
  pub store : CrdtStore
  pub needed_hex : Map Bool
  pub materialize_paths : List Bytes
  pub stats : SyncStats

-- `if (!engine.blobs().has_chunk(h)) needed_hex.insert(sha256::to_hex(h));` for each hash.
unfoldable pub need_chunks : FileStore → Disk → List Digest → Map Bool → Map Bool
need_chunks fs disk [] needed = needed
need_chunks fs disk (h ∷ hashes) needed =
    need_chunks fs disk hashes
      (if FileStore.has_chunk fs h disk then needed else insert (to_hex h) true needed)

-- The case of a fork, for the entry at the conflict path.
unfoldable pub need_forked : FileStore → Disk → Bytes → Option FileEntry → Merging → Merging
need_forked fs disk path none m = m
need_forked fs disk path (some forked) m = record m {
  needed_hex = need_chunks fs disk forked.chunk_hashes m.needed_hex;
  materialize_paths = m.materialize_paths ++ (path ∷ []);
}

-- The switch on the outcome; `m` holds the store after the merge.
unfoldable pub record_outcome :
    FileStore → Disk → FileEntry → MergeResult → MergeOutcome → Merging → Merging
unfolding need_forked
record_outcome fs disk re r applied_remote m = record m {
  needed_hex = need_chunks fs disk re.chunk_hashes m.needed_hex;
  materialize_paths = m.materialize_paths ++ (re.path ∷ []);
  stats = record m.stats { entries_applied_remote = m.stats.entries_applied_remote + 1 };
}
record_outcome fs disk re r conflict_forked m =
    need_forked fs disk r.conflict_path (CrdtStore.get m.store r.conflict_path)
      (record m { stats = record m.stats { conflicts_forked = m.stats.conflicts_forked + 1 } })
record_outcome fs disk re r kept_local m = record m {
  stats = record m.stats { entries_kept_local = m.stats.entries_kept_local + 1 };
}
record_outcome fs disk re r no_change m = record m {
  stats = record m.stats { entries_no_change = m.stats.entries_no_change + 1 };
}

unfoldable pub merge_entry : FileStore → Disk → FileEntry → Merging → Merging
merge_entry fs disk re m =
    let merged = merge_remote m.store re in
    record_outcome fs disk re merged.1 merged.1.outcome (record m { store = merged.0 })

-- The loop over the entries of the peer.
unfoldable pub merge_entries : FileStore → Disk → List FileEntry → Merging → Merging
merge_entries fs disk [] m = m
merge_entries fs disk (re ∷ rest) m = merge_entries fs disk rest (merge_entry fs disk re m)

-- A frame of the expected kind, or the exception.
unfoldable pub expect : ℕ → Bytes → Option Frame → Result Bytes
expect kind message none = throw (runtime_error message)
expect kind message (some f) =
    if f.kind == kind then ok f.payload else throw (runtime_error message)

-- The digests of `needed_hex`, in its order.
unfoldable pub needed_digests : Map Bool → Result (List Digest)
needed_digests [] = ok []
needed_digests ((h, mark) ∷ needed) = do
  d ← hex_to_digest h
  ds ← needed_digests needed
  ok (d ∷ ds)

-- The loop over the paths to write out: the disk it leaves, and what it throws.
unfoldable pub materialize_all : SyncEngine → List Bytes → Disk → Disk × Option Exception
materialize_all e [] disk = (disk, none)
materialize_all e (p ∷ paths) disk = elim (SyncEngine.materialize e p disk) [
  | ok disk' ↦ materialize_all e paths disk'
  | throw x ↦ (disk, some x)
]

abbrev pub start : SyncEngine → Merging
start e = record {
  store = e.store;
  needed_hex = [];
  materialize_paths = [];
  stats = record no_stats { entries_sent = length (CrdtStore.all_entries e.store) };
}

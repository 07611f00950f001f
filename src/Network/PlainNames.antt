-- ===== src/Network/PlainNames.antt =====
-- Paths that come from a peer and stay inside the directory of the files.
use p2p_sync_engine.Prelude.{
  Bool, true, false, Bytes, List, [], ◌∷◌, Option, none, some, ◌≡◌, ◌≢◌, refl, sym, subst,
  if◌then◌else◌, ◌==◌, codes, All, All-append,
}
use p2p_sync_engine.Exceptions.{Exception, ok, throw, runtime_error, ◌>>=◌}
use p2p_sync_engine.FileEntry.{FileEntry}
use p2p_sync_engine.FileStore.{FileStore, Disk}
use p2p_sync_engine.Network.Session.{
  Merging, need_forked, record_outcome, merge_entry, merge_entries, expect,
}
use p2p_sync_engine.Network.Messages.{parse_manifest}
use p2p_sync_engine.Streams.Lines.{Lacks}
use p2p_sync_engine.CrdtStore.{
  MergeResult, MergeOutcome, applied_remote, conflict_forked, kept_local, no_change, merge_remote,
}
use p2p_sync_engine.CrdtStore.Merging.{conflict_path-merge_remote}
use p2p_sync_engine.FileStore.Inside.{IsInside}
use p2p_sync_engine.SyncEngine.Layout.Conflicts.{make_conflict_path-IsInside}
use p2p_sync_engine.Network.Rounds.{Message, Event, arrives, breaks}

-- An entry with names that a path inside a directory can be made of.
abbrev pub HasPlainNames : FileEntry → Type 0
HasPlainNames x = IsInside x.path × Lacks b'/' x.last_writer

-- A message whose entries, if it is a manifest, have plain names.
abbrev pub ManifestIsPlain : Message → Type 0
ManifestIsPlain none = Unit
ManifestIsPlain (some f) =
    (entries : List FileEntry) → parse_manifest f.payload ≡ ok entries → All HasPlainNames entries

-- The message that comes in, if one does, is such.
abbrev pub EventIsPlain : Event → Type 0
EventIsPlain (arrives f goes_out) = ManifestIsPlain f
EventIsPlain breaks = Unit

-- The paths that a merge records.
need_forked-IsInside :
    (fs : FileStore) (disk : Disk) (path : Bytes) (o : Option FileEntry) (m : Merging)
    → IsInside path
    → All IsInside m.materialize_paths
    → All IsInside (need_forked fs disk path o m).materialize_paths
unfolding need_forked
need_forked-IsInside fs disk path none m h a = a
need_forked-IsInside fs disk path (some forked) m h a =
    All-append IsInside m.materialize_paths (path ∷ []) a (h, tt)

record_outcome-IsInside :
    (fs : FileStore) (disk : Disk) (re : FileEntry) (r : MergeResult) (o : MergeOutcome)
    (m : Merging)
    → IsInside re.path
    → (o ≡ conflict_forked → IsInside r.conflict_path)
    → All IsInside m.materialize_paths
    → All IsInside (record_outcome fs disk re r o m).materialize_paths
unfolding record_outcome
record_outcome-IsInside fs disk re r applied_remote m h c a =
    All-append IsInside m.materialize_paths (re.path ∷ []) a (h, tt)
record_outcome-IsInside fs disk re r conflict_forked m h c a =
    need_forked-IsInside fs disk r.conflict_path _ _ (c refl) a
record_outcome-IsInside fs disk re r kept_local m h c a = a
record_outcome-IsInside fs disk re r no_change m h c a = a

pub merge_entries-IsInside :
    (fs : FileStore) (disk : Disk) (entries : List FileEntry) (m : Merging)
    → All HasPlainNames entries
    → All IsInside m.materialize_paths
    → All IsInside (merge_entries fs disk entries m).materialize_paths
unfolding merge_entries merge_entry
merge_entries-IsInside fs disk [] m h a = a
merge_entries-IsInside fs disk (re ∷ rest) m h a =
    let r = merge_remote m.store re in
    merge_entries-IsInside fs disk rest _ h.1 (
      record_outcome-IsInside fs disk re r.1 r.1.outcome _ h.0.0
        (λ forked.
          subst IsInside (sym (conflict_path-merge_remote m.store re forked))
            (make_conflict_path-IsInside re.path re.last_writer h.0.0 h.0.1))
        a)

throw-ne-ok : {A : Type 0} (x : Exception) (a : A) → throw x ≢ ok a
throw-ne-ok x a h = cc

-- What is expected of the peer's first message.
pub expected-plain :
    (f : Message) (entries : List FileEntry)
    → ManifestIsPlain f
    → (expect 1 (codes "expected MANIFEST frame from peer") f
        >>= (λ payload. parse_manifest payload))
      ≡ ok entries
    → All HasPlainNames entries
unfolding expect
expected-plain none entries plain q = absurd (throw-ne-ok _ entries q)
expected-plain (some f) entries plain q = by_kind (f.kind == 1) q
  where
    by_kind :
        (b : Bool)
        → ((if b
              then ok f.payload
              else throw (runtime_error (codes "expected MANIFEST frame from peer")))
            >>= (λ payload. parse_manifest payload))
          ≡ ok entries
        → All HasPlainNames entries
    by_kind true r = plain entries r
    by_kind false r = absurd (throw-ne-ok _ entries r)

-- ===== src/Network/Spared.antt =====
-- What does not depend on the files that a session writes is left as it is.
use p2p_sync_engine.Prelude.{
  Bool, true, false, Bytes, List, [], ◌∷◌, Option, none, some, ◌≡◌, refl, ◌∙◌, if◌then◌else◌, subst,
  All,
}
use p2p_sync_engine.Map.{insert}
use p2p_sync_engine.Exceptions.{Exception, Result, ok, throw, ◌>>=◌, filesystem_error}
use p2p_sync_engine.Sha256.{Digest}
use p2p_sync_engine.Chunker.{Chunk}
use p2p_sync_engine.FileEntry.{FileEntry, has_content}
use p2p_sync_engine.CrdtStore
use p2p_sync_engine.CrdtStore.{CrdtStore}
use p2p_sync_engine.FileStore
use p2p_sync_engine.FileStore.{
  FileStore, Disk, exists, chunk_path, put_chunk, reassemble, append_path, join_path, write_path,
  blocked, is_directory, write, write_out,
}
use p2p_sync_engine.FileStore.Paths.{names_directory}
use p2p_sync_engine.FileStore.Chunks.{put_chunks}
use p2p_sync_engine.SyncEngine.{SyncEngine, materialize, materialize_entry}
use p2p_sync_engine.Network.Session.{materialize_all}
use p2p_sync_engine.CrdtStore.{
  MergeResult, MergeOutcome, applied_remote, conflict_forked, kept_local, no_change, merge_remote,
}
use p2p_sync_engine.FileStore.Inside.{IsInside}

-- `see` shows something of the disk, and no write to a file that is `Unseen` changes it.
module _ {A : Type 0} (see : Disk → A) (Unseen : Bytes → Type 0)
    (same : (q content : Bytes) (disk : Disk)
      → Unseen q
      → see (insert q content disk) ≡ see disk) where
  module _ (fs : FileStore) (apart : (hash : Digest) → Unseen (chunk_path fs hash)) where
    pub put_chunks-elsewhere :
        (cs : List Chunk) (disk : Disk) → see (put_chunks fs cs disk) ≡ see disk
    unfolding put_chunks put_chunk
    put_chunks-elsewhere [] disk = refl
    put_chunks-elsewhere (c ∷ cs) disk =
        put_chunks-elsewhere cs (put_chunk fs c disk) ∙ one (exists (chunk_path fs c.hash) disk)
      where
        one :
            (taken : Bool)
            → see (if taken then disk else insert (chunk_path fs c.hash) c.content disk) ≡ see disk
        one true = refl
        one false = same (chunk_path fs c.hash) c.content disk (apart c.hash)

  -- What `materialize` leaves, if it throws nothing.
  abbrev Leaves : Disk → Result Disk → Type 0
  Leaves disk (ok disk') = see disk' ≡ see disk
  Leaves disk (throw x) = Unit

  module _ (e : SyncEngine)
      (apart : (path : Bytes) → IsInside path → Unseen (join_path e.materialized_dir path)) where
    write-elsewhere :
        (path content : Bytes) (disk : Disk)
        → IsInside path
        → see (write_path (append_path e.materialized_dir path) content disk) ≡ see disk
    unfolding write_path write join_path
    write-elsewhere path content disk inside =
        by_name (names_directory (append_path e.materialized_dir path))
          (is_directory (join_path e.materialized_dir path) disk)
      where
        by_name :
            (b b' : Bool)
            → see (
                if b
                then disk
                else if b'
                then disk
                else insert (join_path e.materialized_dir path) content disk)
              ≡ see disk
        by_name true b' = refl
        by_name false true = refl
        by_name false false =
            same (join_path e.materialized_dir path) content disk (apart path inside)

    written-Leaves :
        (path : Bytes) (stop : Bool) (o : Result Bytes) (disk : Disk)
        → IsInside path
        → Leaves disk (
            if stop
            then throw filesystem_error
            else o >>= (λ bytes. ok (write_path (append_path e.materialized_dir path) bytes disk)))
    written-Leaves path true o disk inside = tt
    written-Leaves path false (ok bytes) disk inside = write-elsewhere path bytes disk inside
    written-Leaves path false (throw x) disk inside = tt

    materialize_entry-Leaves :
        (path : Bytes) (o : Option FileEntry) (disk : Disk)
        → IsInside path
        → Leaves disk (materialize_entry e path o disk)
    unfolding materialize_entry FileStore.materialize write_out
    materialize_entry-Leaves path none disk inside = refl
    materialize_entry-Leaves path (some entry) disk inside = branch (has_content entry)
      where
        branch :
            (b : Bool)
            → Leaves disk (
                if b
                then FileStore.materialize e.blobs e.materialized_dir path entry.chunk_hashes disk
                else ok disk)
        branch true =
            written-Leaves path (blocked (append_path e.materialized_dir path) disk)
              (reassemble e.blobs entry.chunk_hashes disk) disk inside
        branch false = refl

    pub materialize-elsewhere :
        (path : Bytes) (disk disk' : Disk)
        → IsInside path
        → materialize e path disk ≡ ok disk'
        → see disk' ≡ see disk
    unfolding materialize
    materialize-elsewhere path disk disk' inside h =
        subst (Leaves disk) h
          (materialize_entry-Leaves path (CrdtStore.get e.store path) disk inside)

    pub materialize_all-elsewhere :
        (paths : List Bytes) (disk : Disk)
        → All IsInside paths
        → see (materialize_all e paths disk).0 ≡ see disk
    unfolding materialize_all materialize
    materialize_all-elsewhere [] disk inside = refl
    materialize_all-elsewhere (path ∷ paths) disk inside =
        go (materialize_entry e path (CrdtStore.get e.store path) disk)
          (materialize_entry-Leaves path (CrdtStore.get e.store path) disk inside.0)
          (λ d. materialize_all-elsewhere paths d inside.1)
      where
        go :
            (r : Result Disk)
            → Leaves disk r
            → ((d : Disk) → see (materialize_all e paths d).0 ≡ see d)
            → see
                (elim r as (λ _. Disk × Option Exception) [
                  | ok disk' ↦ materialize_all e paths disk'
                  | throw x ↦ (disk, some x)
                ]).0
              ≡ see disk
        go (ok disk') l rest = rest disk' ∙ l
        go (throw x) l rest = refl

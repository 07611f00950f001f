-- ===== src/SyncEngine/Complete.antt =====
-- Engines whose chunk files are all there.
use p2p_sync_engine.Prelude.{
  ◌⊎◌, inl, inr, str_eq_iff, Bool, true, false, Bytes, List, [], ◌∷◌, Option, none, some, ◌≡◌, refl,
  sym, ap, subst, ◌∙◌, map, All, if◌then◌else◌, str_eq,
}
use p2p_sync_engine.Map.{find, insert, find-insert}
use p2p_sync_engine.Exceptions.{ok}
use p2p_sync_engine.Sha256.{Digest}
use p2p_sync_engine.Chunker
use p2p_sync_engine.Chunker.{Chunk}
use p2p_sync_engine.FileEntry.{FileEntry, has_content}
use p2p_sync_engine.CrdtStore
use p2p_sync_engine.CrdtStore.{
  CrdtStore, put_local, delete_local, known_clock, known_entry, tombstone,
}
use p2p_sync_engine.FileStore
use p2p_sync_engine.FileStore.{
  Disk, has_chunk, chunk_path, append_path, join_path, blocked, write_path,
}
use p2p_sync_engine.FileStore.Paths.{passes}
use p2p_sync_engine.FileStore.Tree.{
  IsApart, IsUsed, not-blocked, write-IsUsed, write_path-IsUsed, put_chunks-IsUsed,
}
use p2p_sync_engine.FileStore.Chunks.{put_chunks}
use p2p_sync_engine.FileStore.Presence.{
  Keeps, HasAll, HasAll-Keeps, write-Keeps, write_path-Keeps, put_chunks-Keeps, put_chunks-has,
  materialize-HasAll,
}
use p2p_sync_engine.SyncEngine.{
  SyncEngine, journal_path, save_journal, materialize, materialize_entry, recorded, ingest_rest,
  ingest_file, delete_file, root_of, total_size,
}
use p2p_sync_engine.MerkleTree
use p2p_sync_engine.SyncEngine.Ingest.{get-put_local}

-- The chunk files of every version in the store are on the disk.
abbrev pub IsComplete : SyncEngine → Disk → Type 0
IsComplete e disk =
    (k : Bytes) (x : FileEntry)
    → CrdtStore.get e.store k ≡ some x
    → HasAll e.blobs disk x.chunk_hashes

pub IsComplete-Keeps :
    (e : SyncEngine) (d d' : Disk) → Keeps d d' → IsComplete e d → IsComplete e d'
IsComplete-Keeps e d d' keeps c k x g = HasAll-Keeps e.blobs d d' x.chunk_hashes keeps (c k x g)

pub save_journal-Keeps : (e : SyncEngine) (disk : Disk) → Keeps disk (save_journal e disk)
unfolding save_journal
save_journal-Keeps e disk = write-Keeps (journal_path e) _ disk

-- An entry whose chunks are there is written out, if its directories can be made; it may have no
-- content, or there may be none.
materialize_entry-writes :
    (e : SyncEngine) (path : Bytes) (o : Option FileEntry) (disk : Disk)
    → ((x : FileEntry)
        → o ≡ some x
        → HasAll e.blobs disk x.chunk_hashes
          × (blocked (append_path e.materialized_dir path) disk ≡ false))
    → (disk' : Disk) × (materialize_entry e path o disk ≡ ok disk')
      × ((disk' ≡ disk)
          ⊎ ((x : FileEntry) × (content : Bytes) × (o ≡ some x)
              × (disk' ≡ write_path (append_path e.materialized_dir path) content disk)))
unfolding materialize_entry
materialize_entry-writes e path none disk h = (disk, refl, inl refl)
materialize_entry-writes e path (some x) disk h = branch (has_content x)
  where
    branch :
        (b : Bool)
        → (disk' : Disk) × ((if b
              then FileStore.materialize e.blobs e.materialized_dir path x.chunk_hashes disk
              else ok disk)
            ≡ ok disk')
          × ((disk' ≡ disk)
              ⊎ ((y : FileEntry) × (content : Bytes) × (some x ≡ some y)
                  × (disk' ≡ write_path (append_path e.materialized_dir path) content disk)))
    branch true =
        let out =
          materialize-HasAll e.blobs e.materialized_dir path x.chunk_hashes disk (h x refl).0
            (h x refl).1 in
        (_, out.1, inr (x, out.0, refl, refl))
    branch false = (disk, refl, inl refl)

-- The file of the path may be written, and the path, as it is written, leads through no place where a
-- file may stand.
abbrev pub IsClear : (Bytes → Type 0) → SyncEngine → Bytes → Type 0
IsClear Used e path =
    Used (join_path e.materialized_dir path)
    × ((k : Bytes) → Used k → passes (append_path e.materialized_dir path) k ≡ false)

-- The node may write its files, and no file on the disk stands in the way of one of them.
pub record IsTidy (Used : Bytes → Type 0) (e : SyncEngine) (disk : Disk) : Type 0 where
  pub apart : IsApart Used
  pub used : IsUsed Used disk
  pub chunk : (hash : Digest) → Used (chunk_path e.blobs hash)
  pub journal : Used (journal_path e)
  pub file : (k : Bytes) (x : FileEntry) → CrdtStore.get e.store k ≡ some x → IsClear Used e k

module _ (Used : Bytes → Type 0) where
  pub on_disk : (e : SyncEngine) (d d' : Disk) → IsTidy Used e d → IsUsed Used d' → IsTidy Used e d'
  on_disk e d d' t u = record {
    apart = t.apart;
    used = u;
    chunk = t.chunk;
    journal = t.journal;
    file = t.file;
  }

  -- A complete engine writes out every path without an exception, and nothing goes away.
  pub materialize-IsComplete :
      (e : SyncEngine) (path : Bytes) (disk : Disk)
      → IsTidy Used e disk
      → IsComplete e disk
      → (disk' : Disk) × (materialize e path disk ≡ ok disk')
        × Keeps disk disk'
        × IsTidy Used e disk'
  unfolding materialize join_path
  materialize-IsComplete e path disk t c =
      let out =
        materialize_entry-writes e path (CrdtStore.get e.store path) disk
          (λ x q. (c path x q, not-blocked Used _ disk (t.file path x q).1 t.used)) in
      let kept = after out.0 out.2 in (out.0, out.1, kept.0, kept.1)
    where
      after :
          (d : Disk)
          → (d ≡ disk)
            ⊎ ((x : FileEntry) × (content : Bytes) × (CrdtStore.get e.store path ≡ some x)
                × (d ≡ write_path (append_path e.materialized_dir path) content disk))
          → Keeps disk d × IsTidy Used e d
      after d (inl q) = subst (λ x. Keeps disk x × IsTidy Used e x) (sym q) ((λ p h. h), t)
      after d (inr (x, content, g, q)) =
          subst (λ y. Keeps disk y × IsTidy Used e y) (sym q)
            (
              write_path-Keeps (append_path e.materialized_dir path) content disk,
              on_disk e disk _ t (
                  write_path-IsUsed Used (append_path e.materialized_dir path) content disk
                    (t.file path x g).0 t.used),
            )

All-map_hash :
    (P : Digest → Type 0) (cs : List Chunk)
    → All (λ (c : Chunk). P c.hash) cs
    → All P (map (λ (c : Chunk). c.hash) cs)
All-map_hash P [] h = tt
All-map_hash P (c ∷ cs) h = (h.0, All-map_hash P cs h.1)

-- A store after a write of `entry`, if the chunks of `entry` are there.
written-IsComplete :
    (e : SyncEngine) (path : Bytes) (entry : FileEntry) (store : CrdtStore) (d d' : Disk)
    → store.entries ≡ insert path entry e.store.entries
    → HasAll e.blobs d' entry.chunk_hashes
    → Keeps d d'
    → IsComplete e d
    → IsComplete (record e { store = store }) d'
unfolding CrdtStore.get
written-IsComplete e path entry store d d' q own keeps c k x g =
    let read : (if str_eq path k then some entry else find k e.store.entries) ≡ some x =
      sym (ap (find k) q ∙ find-insert k path entry e.store.entries) ∙ g in
    by_path (str_eq path k) read
  where
    by_path :
        (b : Bool)
        → (if b then some entry else find k e.store.entries) ≡ some x
        → HasAll e.blobs d' x.chunk_hashes
    by_path true p =
        let same : entry ≡ x = cc in subst (λ y. HasAll e.blobs d' y.chunk_hashes) same own
    by_path false p = HasAll-Keeps e.blobs d d' x.chunk_hashes keeps (c k x p)

-- A file is ingested without an exception: the chunks that its new version is written out from have
-- just been stored, and its directories can be made.
pub ingest_file-returns :
    (e : SyncEngine) (path bytes : Bytes) (disk : Disk)
    → blocked
        (append_path e.materialized_dir path)
        (put_chunks e.blobs (Chunker.chunk e.chunker bytes) disk)
      ≡ false
    → (left : Disk) × (materialize
          (recorded e path bytes)
          path
          (put_chunks e.blobs (Chunker.chunk e.chunker bytes) disk)
        ≡ ok left)
      × (ingest_file e path bytes disk
          ≡ (save_journal (recorded e path bytes) left, ok (recorded e path bytes)))
unfolding ingest_file ingest_rest recorded materialize
ingest_file-returns e path bytes disk free =
    let chunks = Chunker.chunk e.chunker bytes in
    let stored : Disk = put_chunks e.blobs chunks disk in
    let e' = recorded e path bytes in
    let got =
      get-put_local e.store path (map (λ (k : Chunk). k.hash) chunks)
        (root_of (MerkleTree.build chunks)) (total_size chunks) in
    let there : HasAll e.blobs stored got.0.chunk_hashes =
      subst (HasAll e.blobs stored) (sym got.1.1.0) (
        All-map_hash (λ h. has_chunk e.blobs h stored ≡ true) chunks
          (put_chunks-has e.blobs chunks disk)) in
    let out = materialize_entry-writes e' path (some got.0) stored (λ x q.
      let same : got.0 ≡ x = cc in
      (subst (λ (y : FileEntry). HasAll e.blobs stored y.chunk_hashes) same there, free)) in
    let written = ap (λ o. materialize_entry e' path o stored) got.1.0 ∙ out.1 in
    (out.0, written, ap (ingest_rest e' stored) written)

-- The files of a store after a write.
written-file :
    (Used : Bytes → Type 0) (e : SyncEngine) (path : Bytes) (entry : FileEntry) (store : CrdtStore)
    → store.entries ≡ insert path entry e.store.entries
    → IsClear Used e path
    → ((k : Bytes) (x : FileEntry) → CrdtStore.get e.store k ≡ some x → IsClear Used e k)
    → (k : Bytes) (x : FileEntry) → CrdtStore.get store k ≡ some x
    → IsClear Used e k
unfolding CrdtStore.get
written-file Used e path entry store q own file k x g =
    by_path (str_eq path k) refl
      (sym (ap (find k) q ∙ find-insert k path entry e.store.entries) ∙ g)
  where
    by_path :
        (b : Bool)
        → str_eq path k ≡ b
        → (if b then some entry else find k e.store.entries) ≡ some x
        → IsClear Used e k
    by_path true s p = subst (IsClear Used e) ((str_eq_iff path k).0 s) own
    by_path false s p = file k x p

-- Let no file on the disk of a complete engine, nor the file that is ingested or deleted, stand in the
-- way of another, and let no path of them, as it is written, lead through a file. Ingesting throws nothing then, and the engine is complete afterwards, with no file in
-- the way of another; so it is after a deletion.
pub local_edits-IsComplete :
    (Used : Bytes → Type 0) (e : SyncEngine) (path bytes : Bytes) (disk : Disk)
    → IsTidy Used e disk
    → IsClear Used e path
    → IsComplete e disk
    → ((disk' : Disk) × (ingest_file e path bytes disk ≡ (disk', ok (recorded e path bytes)))
        × IsComplete (recorded e path bytes) disk'
        × IsTidy Used (recorded e path bytes) disk')
      × IsComplete (delete_file e path disk).0 (delete_file e path disk).1
      × IsTidy Used (delete_file e path disk).0 (delete_file e path disk).1
unfolding ingest_file ingest_rest recorded delete_file put_local delete_local tombstone save_journal
local_edits-IsComplete Used e path bytes disk t own c =
    let chunks = Chunker.chunk e.chunker bytes in
    let stored : Disk = put_chunks e.blobs chunks disk in
    let e' = recorded e path bytes in
    let now : IsComplete e' stored =
      written-IsComplete e path _ e'.store disk stored refl
        (All-map_hash (λ h. has_chunk e.blobs h stored ≡ true) chunks
          (put_chunks-has e.blobs chunks disk))
        (put_chunks-Keeps e.blobs chunks disk) c in
    let tidy : IsTidy Used e' stored = record {
      apart = t.apart;
      used = put_chunks-IsUsed Used e.blobs chunks disk t.chunk t.used;
      chunk = t.chunk;
      journal = t.journal;
      file = written-file Used e path _ e'.store refl own t.file;
    } in
    let out = materialize-IsComplete Used e' path stored tidy now in
    let buried = tombstone (known_entry (find path e.store.entries)) path e.store.node_id in
    (
      (
        save_journal e' out.0,
        ap (ingest_rest e' stored) out.1,
        IsComplete-Keeps e' out.0 (save_journal e' out.0) (save_journal-Keeps e' out.0)
            (IsComplete-Keeps e' stored out.0 out.2 now),
        on_disk Used e' out.0 _ out.3
            (write-IsUsed Used (journal_path e) _ out.0 t.journal out.3.used),
      ),
      written-IsComplete e path buried (delete_local e.store path) disk _ refl tt
          (save_journal-Keeps (record e { store = delete_local e.store path }) disk) c,
      record {
        apart = t.apart;
        used = write-IsUsed Used (journal_path e) _ disk t.journal t.used;
        chunk = t.chunk;
        journal = t.journal;
        file = written-file Used e path buried (delete_local e.store path) refl own t.file;
      },
    )

-- ===== src/FileStore/Tree.antt =====
-- Files that do not stand in each other's way: none is where another one needs a directory.
use p2p_sync_engine.Prelude.{
  Bool, true, false, Bytes, List, [], ◌∷◌, ◌≡◌, ◌≢◌, refl, subst, ap, ◌∙◌, ◌||◌, none, some,
  if◌then◌else◌, str_eq-false, compare_bytes, eq_of_compare_bytes, Ordering-cases, inl, inr,
}
use p2p_sync_engine.Map.{find, find-insert, insert, Every, insert-Every}
use p2p_sync_engine.Exceptions.{Result, ok, throw, filesystem_error}
use p2p_sync_engine.Sha256.{Digest}
use p2p_sync_engine.Chunker.{Chunk}
use p2p_sync_engine.FileStore.Paths.{is_above, resolve, passes, names_directory}
use p2p_sync_engine.FileStore.{
  FileStore, Disk, exists, chunk_path, put_chunk, blocked, is_below_file, write_path,
  create_directories, is_directory, write,
}
use p2p_sync_engine.FileStore.Chunks.{put_chunks}

-- A file that is neither at the path nor above it is not in its way.
pub record IsAside (path k : Bytes) : Type 0 where
  pub elsewhere : k ≢ path
  pub not_above : is_above k path ≡ false

is_below_file-insert :
    (path k content : Bytes) (disk : Disk)
    → is_above k path ≡ false
    → is_below_file path (insert k content disk) ≡ is_below_file path disk
unfolding is_below_file insert
is_below_file-insert path k content [] h = rw h refl
is_below_file-insert path k content ((j, c) ∷ disk) h = elim (Ordering-cases (compare_bytes k j)) [
  | inl e ↦ rw (e, insert, h) refl
  | inr (inl e) ↦
      let same : k ≡ j = eq_of_compare_bytes k j e in
      rw (e, insert, subst (λ x. is_above x path ≡ false) same h, h) refl
  | inr (inr e) ↦ rw (e, insert, is_below_file-insert path k content disk h) refl
]

-- Whether the directories can be made does not depend on such a file.
pub create_directories-insert :
    (path k content : Bytes) (disk : Disk)
    → IsAside (resolve path) k
    → create_directories path (insert k content disk) ≡ create_directories path disk
unfolding create_directories
create_directories-insert path k content disk a =
    let full = resolve path in
    let same : find full (insert k content disk) ≡ find full disk =
      find-insert full k content disk ∙ (rw (str_eq-false k full a.elsewhere) refl) in
    ap
      (λ o.
        made
          (elim o [ none ↦ false | some c ↦ true ] || is_below_file full (insert k content disk)))
      same
    ∙ ap (λ b. made (exists full disk || b)) (is_below_file-insert full k content disk a.not_above)
  where
    made : Bool → Result {0} Unit
    made b = if b then throw filesystem_error else ok tt

-- A file elsewhere does not make a directory of the path.
pub is_directory-insert :
    (path k content : Bytes) (disk : Disk)
    → is_above path k ≡ false
    → is_directory path (insert k content disk) ≡ is_directory path disk
unfolding is_directory insert
is_directory-insert path k content [] h = rw h refl
is_directory-insert path k content ((j, c) ∷ disk) h = elim (Ordering-cases (compare_bytes k j)) [
  | inl e ↦ rw (e, insert, h) refl
  | inr (inl e) ↦
      let same : k ≡ j = eq_of_compare_bytes k j e in
      rw (e, insert, subst (λ x. is_above path x ≡ false) same h, h) refl
  | inr (inr e) ↦ rw (e, insert, is_directory-insert path k content disk h) refl
]

-- `Used` holds of the files that a node may write.
module _ (Used : Bytes → Type 0) where
  -- All files on the disk are such.
  abbrev pub IsUsed : Disk → Type 0
  IsUsed = Every (λ k content. Used k)

  -- None stands above another one.
  abbrev pub IsApart : Type 0
  IsApart = (k j : Bytes) → Used k → Used j → is_above k j ≡ false

  pub not-blocked :
      (full : Bytes) (disk : Disk)
      → ((k : Bytes) → Used k → passes full k ≡ false)
      → IsUsed disk
      → blocked full disk ≡ false
  unfolding blocked
  not-blocked full [] free h = refl
  not-blocked full ((k, content) ∷ disk) free h = rw (free k h.0) (not-blocked full disk free h.1)

  pub not-directory :
      IsApart
      → (full : Bytes) (disk : Disk) → Used full
      → IsUsed disk
      → is_directory full disk ≡ false
  unfolding is_directory
  not-directory apart full [] u h = refl
  not-directory apart full ((k, content) ∷ disk) u h =
      rw (apart full k u h.0) (not-directory apart full disk u h.1)

  pub insert-IsUsed :
      (path content : Bytes) (disk : Disk)
      → Used path
      → IsUsed disk
      → IsUsed (insert path content disk)
  insert-IsUsed path content disk u h = insert-Every (λ k c. Used k) path content disk u h

  pub write-IsUsed :
      (path content : Bytes) (disk : Disk)
      → Used path
      → IsUsed disk
      → IsUsed (write path content disk)
  unfolding write
  write-IsUsed path content disk u h = by_test (is_directory path disk)
    where
      by_test : (b : Bool) → IsUsed (if b then disk else insert path content disk)
      by_test true = h
      by_test false = insert-IsUsed path content disk u h

  pub write_path-IsUsed :
      (path content : Bytes) (disk : Disk)
      → Used (resolve path)
      → IsUsed disk
      → IsUsed (write_path path content disk)
  unfolding write_path
  write_path-IsUsed path content disk u h = by_name (names_directory path)
    where
      by_name : (b : Bool) → IsUsed (if b then disk else write (resolve path) content disk)
      by_name true = h
      by_name false = write-IsUsed (resolve path) content disk u h

  pub put_chunks-IsUsed :
      (fs : FileStore) (cs : List Chunk) (disk : Disk)
      → ((hash : Digest) → Used (chunk_path fs hash))
      → IsUsed disk
      → IsUsed (put_chunks fs cs disk)
  unfolding put_chunks put_chunk
  put_chunks-IsUsed fs [] disk u h = h
  put_chunks-IsUsed fs (c ∷ cs) disk u h =
      put_chunks-IsUsed fs cs (put_chunk fs c disk) u (by_test (exists (chunk_path fs c.hash) disk))
    where
      by_test :
          (b : Bool) → IsUsed (if b then disk else insert (chunk_path fs c.hash) c.content disk)
      by_test true = h
      by_test false = insert-IsUsed (chunk_path fs c.hash) c.content disk (u c.hash) h

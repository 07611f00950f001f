-- ===== src/SyncEngine/Aside.antt =====
-- The files of a node are not in the way of the directories that its constructor makes.
use p2p_sync_engine.Prelude.{
  ℕ, suc, str_eq-false, Option, ◌+◌, get_or, str_eq, false, Bytes, [], ◌∷◌, ◌++◌, ◌≡◌, ◌≢◌, refl,
  sym, ap, ◌∙◌, codes, append_assoc, arith, length, length-append,
}
use p2p_sync_engine.Sha256.{Digest}
use p2p_sync_engine.Map.{find, insert, find-insert}
use p2p_sync_engine.Exceptions.{Result, ok, throw, ◌>>=◌}
use p2p_sync_engine.CrdtStore
use p2p_sync_engine.FileStore
use p2p_sync_engine.FileStore.{
  FileStore, Disk, create_directories, chunk_path, join_path, append_path,
}
use p2p_sync_engine.FileStore.Paths.{
  is_absolute, starts_with, is_above, walk, read, enter, resolve, render,
}
use p2p_sync_engine.FileStore.Inside.{IsInside}
use p2p_sync_engine.FileStore.Tree.{IsAside, create_directories-insert}
use p2p_sync_engine.SyncEngine.{SyncEngine, engine, new, load_journal, load_text}
use p2p_sync_engine.SyncEngine.Layout.{prefix, resolve-below, cancel_left}
use p2p_sync_engine.SyncEngine.Layout.Names.{chunk_name}
use p2p_sync_engine.SyncEngine.Layout.Places.{
  journal, journal-prefix, chunk_path-prefix, chunks-prefix,
}
use p2p_sync_engine.SyncEngine.Room.{starts_with-append}

-- A longer path is not above a shorter one.
starts_with-longer :
    (xs ys : Bytes) (n : ℕ) → length xs ≡ suc n + length ys → starts_with xs ys ≡ false
unfolding starts_with
starts_with-longer [] ys n h = absurd (omega (arith, h))
starts_with-longer (x ∷ xs) [] n h = refl
starts_with-longer (x ∷ xs) (y ∷ ys) n h =
    rw (starts_with-longer xs ys n (omega (arith, h))) (grind arith)

IsAside-longer : (path k : Bytes) (n : ℕ) → length k ≡ suc n + length path → IsAside path k
unfolding is_above
IsAside-longer path k n h = record {
  elsewhere = λ q. omega (arith, ap length q, h);
  not_above =
      starts_with-longer (k ++ (b'/' ∷ [])) path (suc n)
        (omega (arith, h, length-append {0} k (b'/' ∷ [])));
}

below_directory : (dir t k : Bytes) → k ≡ prefix dir ++ (b'/' ∷ t) → IsAside (resolve dir) k
unfolding resolve is_absolute walk render is_above starts_with enter str_eq
below_directory [] t k h = record {
  elsewhere = λ q. omega (arith, ap (λ x. get_or x 0 0) (sym h ∙ q));
  not_above = rw h refl;
}
below_directory (c ∷ dir) t k h =
    IsAside-longer (resolve (c ∷ dir)) k (length t)
      (omega (arith, ap length h, length-append {0} (prefix (c ∷ dir)) (b'/' ∷ t)))

-- The directories of the constructor, and a file that is not in their way.
module _ (data_dir : Bytes) where
  abbrev pub chunks_dir : Bytes
  chunks_dir = (data_dir ++ codes "/blobstore") ++ codes "/chunks"

  abbrev pub AreAside : Bytes → Type 0
  AreAside k = IsAside (resolve data_dir) k × IsAside (resolve chunks_dir) k

  aside :
      (k t : Bytes)
      → k ≡ prefix data_dir ++ (b'/' ∷ t)
      → starts_with ((b'/' ∷ t) ++ (b'/' ∷ [])) (codes "/blobstore/chunks") ≡ false
      → (b'/' ∷ t) ≢ codes "/blobstore/chunks"
      → AreAside k
  unfolding is_above
  aside k t h not ne = (
    below_directory data_dir t k h,
    record {
      elsewhere = λ q. ne (cancel_left (prefix data_dir) _ _ (sym h ∙ q ∙ chunks-prefix data_dir));
      not_above =
          rw
            (
              h,
              chunks-prefix data_dir,
              append_assoc (prefix data_dir) (b'/' ∷ t) (b'/' ∷ []),
              starts_with-append (prefix data_dir) ((b'/' ∷ t) ++ (b'/' ∷ []))
                  (codes "/blobstore/chunks"),
            )
            not;
    },
  )

  pub journal-AreAside : AreAside (journal data_dir)
  unfolding starts_with
  journal-AreAside =
      aside (journal data_dir) (codes "store.meta") (journal-prefix data_dir) refl
        (λ q. omega (arith, ap length q))

  pub chunk_path-AreAside :
      (hash : Digest)
      → AreAside (chunk_path (record { root = data_dir ++ codes "/blobstore" }) hash)
  unfolding starts_with
  chunk_path-AreAside hash =
      aside _ (codes "blobstore/chunks/" ++ chunk_name hash) (chunk_path-prefix data_dir hash) refl
        (λ q. omega (arith, ap length q))

  -- A path that stays inside.
  pub join_path-AreAside :
      (path : Bytes) → IsInside path → AreAside (join_path (data_dir ++ codes "/files") path)
  unfolding starts_with join_path append_path walk read enter str_eq
  join_path-AreAside path inside =
      let joined : append_path (data_dir ++ codes "/files") path
          ≡ (data_dir ++ codes "/files") ++ (b'/' ∷ path) =
        rw inside.0 refl in
      let below = resolve-below data_dir (codes "files") (λ a s. refl) path inside.1 in
      aside _ (codes "files" ++ below.0) (ap resolve joined ∙ below.1) refl
        (λ q. omega (arith, ap (λ x. get_or x 1 0) q))

  above_journal :
      (k t : Bytes)
      → k ≡ prefix data_dir ++ (b'/' ∷ t)
      → starts_with (codes "/store.meta/") (b'/' ∷ t) ≡ false
      → is_above (journal data_dir) k ≡ false
  unfolding is_above
  above_journal k t h not =
      rw
        (
          h,
          journal-prefix data_dir,
          append_assoc (prefix data_dir) (codes "/store.meta") (b'/' ∷ []),
          starts_with-append (prefix data_dir) (codes "/store.meta/") (b'/' ∷ t),
        )
        not

  pub is_above-chunk_path :
      (hash : Digest)
      → is_above
          (journal data_dir)
          (chunk_path (record { root = data_dir ++ codes "/blobstore" }) hash)
        ≡ false
  unfolding starts_with
  is_above-chunk_path hash =
      above_journal _ (codes "blobstore/chunks/" ++ chunk_name hash)
        (chunk_path-prefix data_dir hash) refl

  pub is_above-join_path :
      (path : Bytes)
      → IsInside path
      → is_above (journal data_dir) (join_path (data_dir ++ codes "/files") path) ≡ false
  unfolding starts_with join_path append_path walk read enter str_eq
  is_above-join_path path inside =
      let joined : append_path (data_dir ++ codes "/files") path
          ≡ (data_dir ++ codes "/files") ++ (b'/' ∷ path) =
        rw inside.0 refl in
      let below = resolve-below data_dir (codes "files") (λ a s. refl) path inside.1 in
      above_journal _ (codes "files" ++ below.0) (ap resolve joined ∙ below.1) refl

  -- The directories can be made, or are there.
  abbrev pub HasDirectories : Disk → Type 0
  HasDirectories disk =
      (create_directories chunks_dir disk ≡ ok tt) × (create_directories data_dir disk ≡ ok tt)

  -- What a node that is started reads of the disk: the journal, and whether its directories can be made.
  abbrev pub Sight : Type 0
  Sight = Option Bytes × Result {0} Unit × Result {0} Unit

  abbrev pub sight : Disk → Sight
  sight disk = (
    find (journal data_dir) disk,
    create_directories chunks_dir disk,
    create_directories data_dir disk,
  )

  pub sights :
      {text text' : Option Bytes} {chunks chunks' files files' : Result {0} Unit}
      → text ≡ text'
      → chunks ≡ chunks'
      → files ≡ files'
      → Path Sight (text, chunks, files) (text', chunks', files')
  sights h h' h'' = cc

  -- A file that is not in the way, and not the journal, is not seen.
  abbrev pub Unseen : Bytes → Type 0
  Unseen k = AreAside k × (journal data_dir ≢ k)

  pub unseen :
      (k content : Bytes) (disk : Disk) → Unseen k → sight (insert k content disk) ≡ sight disk
  unseen k content disk u =
      sights
        (find-insert (journal data_dir) k content disk
          ∙ (rw (str_eq-false k (journal data_dir) (λ e. u.1 (sym e))) refl))
        (create_directories-insert chunks_dir k content disk u.0.1)
        (create_directories-insert data_dir k content disk u.0.0)

  -- The constructor reads nothing else.
  abbrev pub started : Bytes → Sight → Result SyncEngine
  started node_id (text, made, made') =
      (made >>= (λ m. ok (record { root = data_dir ++ codes "/blobstore" })))
      >>= (λ (blobs : FileStore). made' >>= (λ m.
          load_text (CrdtStore.init node_id) text
          >>= (λ store. ok (record (engine node_id data_dir store) { blobs = blobs }))))

  pub new-sight :
      (node_id : Bytes) (disk : Disk) → new node_id data_dir disk ≡ started node_id (sight disk)
  unfolding new FileStore.new load_journal
  new-sight node_id disk = refl

  -- A node that came up has its directories.
  pub new-HasDirectories :
      (node_id : Bytes) (disk : Disk) (e : SyncEngine)
      → new node_id data_dir disk ≡ ok e
      → HasDirectories disk
  new-HasDirectories node_id disk e h = inverted _ _ _ (sym (new-sight node_id disk) ∙ h)
    where
      inverted :
          (text : Option Bytes) (made made' : Result {0} Unit)
          → started node_id (text, made, made') ≡ ok e
          → (made ≡ ok tt) × (made' ≡ ok tt)
      inverted text (ok m) (ok m') q = (refl, refl)
      inverted text (ok m) (throw x) q = cc
      inverted text (throw x) made' q = cc

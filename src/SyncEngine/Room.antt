-- ===== src/SyncEngine/Room.antt =====
-- The files that a node may write: chunk files, the journal and the files of its paths.
use p2p_sync_engine.Prelude.{
  ℕ, Bool, true, false, Bytes, [], ◌∷◌, ◌++◌, ◌≡◌, refl, ◌∙◌, codes, if◌then◌else◌, inl, inr, some,
  ◌==◌, ◌⊎◌, append_assoc, arith,
}
use p2p_sync_engine.Sha256.{Digest}
use p2p_sync_engine.Streams.Lines.{Lacks}
use p2p_sync_engine.FileEntry.{FileEntry}
use p2p_sync_engine.CrdtStore
use p2p_sync_engine.CrdtStore.{CrdtStore}
use p2p_sync_engine.FileStore.{Disk, chunk_path, append_path, join_path}
use p2p_sync_engine.FileStore.Paths.{passes, starts_with, is_above}
use p2p_sync_engine.FileStore.Tree.{IsApart, IsUsed}
use p2p_sync_engine.SyncEngine.{engine}
use p2p_sync_engine.SyncEngine.Complete.{IsTidy}
use p2p_sync_engine.SyncEngine.Layout.{prefix}
use p2p_sync_engine.SyncEngine.Layout.Names.{chunk_name, chunk_name-plain}
use p2p_sync_engine.SyncEngine.Layout.Places.{journal, journal-prefix, chunk_path-prefix}

starts_with-same : (c : ℕ) (xs ys : Bytes) → starts_with (c ∷ xs) (c ∷ ys) ≡ starts_with xs ys
unfolding starts_with
starts_with-same c xs ys = grind arith

pub starts_with-append : (ps xs ys : Bytes) → starts_with (ps ++ xs) (ps ++ ys) ≡ starts_with xs ys
starts_with-append [] xs ys = refl
starts_with-append (p ∷ ps) xs ys =
    starts_with-same p (ps ++ xs) (ps ++ ys) ∙ starts_with-append ps xs ys

-- A name has no file below another name.
starts_with-name : (t name : Bytes) → Lacks b'/' name → starts_with (t ++ (b'/' ∷ [])) name ≡ false
unfolding starts_with
starts_with-name [] [] l = refl
starts_with-name [] (c ∷ name) l = grind arith
starts_with-name (a ∷ t) [] l = refl
starts_with-name (a ∷ t) (c ∷ name) l = by_first (a == c) (starts_with-name t name l.1)
  where
    by_first : (b : Bool) {rest : Bool} → rest ≡ false → (if b then rest else false) ≡ false
    by_first true h = h
    by_first false h = refl

-- A file does not stand above itself.
pub is_above_self : (k : Bytes) → is_above k k ≡ false
unfolding is_above starts_with
is_above_self [] = refl
is_above_self (c ∷ k) = starts_with-same c (k ++ (b'/' ∷ [])) k ∙ is_above_self k

-- `Files` holds of the files of the node's paths. They stand in the directory of the files, and none
-- stands above another one.
module _ (data_dir : Bytes) (Files : Bytes → Type 0)
    (below : (k : Bytes)
      → Files k
      → (tail : Bytes) × (k ≡ prefix data_dir ++ (codes "/files" ++ tail)))
    (apart : IsApart Files) where
  -- A chunk file, the journal or one of the files.
  abbrev pub InRoom : Bytes → Type 0
  InRoom k =
      ((name : Bytes) × Lacks b'/' name
        × (k ≡ prefix data_dir ++ (codes "/blobstore/chunks/" ++ name)))
      ⊎ ((k ≡ prefix data_dir ++ codes "/store.meta") ⊎ Files k)

  differ :
      (x y : Bytes) {k j : Bytes}
      → starts_with (x ++ (b'/' ∷ [])) y ≡ false
      → k ≡ prefix data_dir ++ x
      → j ≡ prefix data_dir ++ y
      → is_above k j ≡ false
  unfolding is_above
  differ x y h p q =
      rw
        (
          p,
          q,
          append_assoc (prefix data_dir) x (b'/' ∷ []),
          starts_with-append (prefix data_dir) (x ++ (b'/' ∷ [])) y,
          h,
        )
        refl

  -- None of them stands above another one.
  pub InRoom-IsApart : IsApart InRoom
  unfolding starts_with
  InRoom-IsApart k j (inl (t, l, p)) (inl (t', l', q)) =
      differ (codes "/blobstore/chunks/" ++ t) (codes "/blobstore/chunks/" ++ t')
        (starts_with-append (codes "/blobstore/chunks/") (t ++ (b'/' ∷ [])) t'
          ∙ starts_with-name t t' l')
        p q
  InRoom-IsApart k j (inl (t, l, p)) (inr (inl q)) =
      differ (codes "/blobstore/chunks/" ++ t) (codes "/store.meta") refl p q
  InRoom-IsApart k j (inl (t, l, p)) (inr (inr u)) =
      differ (codes "/blobstore/chunks/" ++ t) (codes "/files" ++ (below j u).0) refl p
        (below j u).1
  InRoom-IsApart k j (inr (inl p)) (inl (t, l, q)) =
      differ (codes "/store.meta") (codes "/blobstore/chunks/" ++ t) refl p q
  InRoom-IsApart k j (inr (inl p)) (inr (inl q)) =
      differ (codes "/store.meta") (codes "/store.meta") refl p q
  InRoom-IsApart k j (inr (inl p)) (inr (inr u)) =
      differ (codes "/store.meta") (codes "/files" ++ (below j u).0) refl p (below j u).1
  InRoom-IsApart k j (inr (inr u)) (inl (t, l, q)) =
      differ (codes "/files" ++ (below k u).0) (codes "/blobstore/chunks/" ++ t) refl (below k u).1
        q
  InRoom-IsApart k j (inr (inr u)) (inr (inl q)) =
      differ (codes "/files" ++ (below k u).0) (codes "/store.meta") refl (below k u).1 q
  InRoom-IsApart k j (inr (inr u)) (inr (inr v)) = apart k j u v

  pub chunk_path-InRoom :
      (hash : Digest) → InRoom (chunk_path (record { root = data_dir ++ codes "/blobstore" }) hash)
  chunk_path-InRoom hash =
      inl (chunk_name hash, (chunk_name-plain hash).0, chunk_path-prefix data_dir hash)

  pub journal-InRoom : InRoom (journal data_dir)
  journal-InRoom = inr (inl (journal-prefix data_dir))

  -- A node over the directory, whose paths have such files and lead through none, is tidy.
  pub engine-IsTidy :
      (node_id : Bytes) (s : CrdtStore) (disk : Disk)
      → IsUsed InRoom disk
      → ((k : Bytes) (x : FileEntry)
          → CrdtStore.get s k ≡ some x
          → Files (join_path (data_dir ++ codes "/files") k)
            × ((j : Bytes)
                → InRoom j
                → passes (append_path (data_dir ++ codes "/files") k) j ≡ false))
      → IsTidy InRoom (engine node_id data_dir s) disk
  engine-IsTidy node_id s disk used file = record {
    apart = InRoom-IsApart;
    used = used;
    chunk = chunk_path-InRoom;
    journal = journal-InRoom;
    file = λ k x h. (inr (inr (file k x h).0), (file k x h).1);
  }

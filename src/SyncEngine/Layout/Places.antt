-- ===== src/SyncEngine/Layout/Places.antt =====
-- Where the journal, the chunk files and the files of a node stand.
use p2p_sync_engine.Prelude.{
  true, Bytes, [], ◌∷◌, ◌++◌, codes, str_eq, ◌≡◌, ◌≢◌, refl, sym, ap, subst, ◌∙◌, arith,
  append_assoc, append-nil,
}
use p2p_sync_engine.Sha256.{Digest}
use p2p_sync_engine.FileStore.{chunk_path, append_path, join_path}
use p2p_sync_engine.FileStore.Paths.{enter, read, walk, render, resolve}
use p2p_sync_engine.FileStore.Inside.{IsInside, stays, insert-stays}
use p2p_sync_engine.SyncEngine.Layout.{
  root, root-append, absolute_in, above_in, prefix, resolve-directory, resolve-file, resolve-below,
  cancel_left, second_differs,
}
use p2p_sync_engine.SyncEngine.Layout.Names.{walk-plain, chunk_name, chunk_name-plain}

-- The files under one directory.
module _ (data_dir : Bytes) where
  abbrev pub journal : Bytes
  journal = resolve (data_dir ++ codes "/store.meta")

  pub journal-prefix : journal ≡ prefix data_dir ++ codes "/store.meta"
  unfolding walk read enter str_eq
  journal-prefix = resolve-file data_dir (codes "store.meta") (λ a s. refl)

  pub chunk_path-prefix :
      (hash : Digest)
      → chunk_path (record { root = data_dir ++ codes "/blobstore" }) hash
        ≡ prefix data_dir ++ (codes "/blobstore/chunks/" ++ chunk_name hash)
  unfolding chunk_path walk read enter str_eq render
  chunk_path-prefix hash =
      let name = chunk_name hash in
      let a = absolute_in data_dir in
      let above = render (above_in data_dir) in
      ap resolve (append_assoc data_dir (codes "/blobstore") (codes "/chunks/" ++ name))
      ∙ resolve-directory data_dir (codes "blobstore/chunks/" ++ name)
      ∙ ap (λ w. root a (render w))
          (walk-plain name (chunk_name-plain hash).0 (chunk_name-plain hash).1 a
            (codes "chunks" ∷ codes "blobstore" ∷ above_in data_dir))
      ∙ ap (root a) (
          append_assoc (above ++ codes "/blobstore") (codes "/chunks") (b'/' ∷ name)
          ∙ append_assoc above (codes "/blobstore") (codes "/chunks/" ++ name))
      ∙ root-append a above (codes "/blobstore/chunks/" ++ name)

  -- The directory of the chunk files.
  pub chunks-prefix :
      resolve ((data_dir ++ codes "/blobstore") ++ codes "/chunks")
      ≡ prefix data_dir ++ codes "/blobstore/chunks"
  unfolding walk read enter str_eq render
  chunks-prefix =
      let a = absolute_in data_dir in
      let above = render (above_in data_dir) in
      ap resolve (append_assoc data_dir (codes "/blobstore") (codes "/chunks"))
      ∙ resolve-directory data_dir (codes "blobstore/chunks")
      ∙ ap (root a) (append_assoc above (codes "/blobstore") (codes "/chunks"))
      ∙ root-append a above (codes "/blobstore/chunks")

  -- The journal is no chunk file.
  pub journal-ne-chunk :
      (hash : Digest) → journal ≢ chunk_path (record { root = data_dir ++ codes "/blobstore" }) hash
  unfolding chunk_path walk read enter str_eq stays
  journal-ne-chunk hash q =
      let file = chunk_name hash in
      let long = (chunk_name-plain hash).1 in
      let below =
        resolve-below data_dir (codes "blobstore") (λ a s. refl) (codes "chunks/" ++ file)
          (subst (λ f. stays [] f ≡ true) (append-nil file)
            (insert-stays [] [] file [] (chunk_name-plain hash).0 long refl)) in
      second_differs b's' b'b' (λ e. omega (arith, e))
        (cancel_left (prefix data_dir) (codes "/store.meta") _ (sym journal-prefix ∙ q ∙ below.1))

  -- Nor is it a file at a path that stays inside.
  pub journal-ne-file :
      (path : Bytes) → IsInside path → journal ≢ join_path (data_dir ++ codes "/files") path
  unfolding join_path append_path walk read enter str_eq
  journal-ne-file path inside q =
      let joined : append_path (data_dir ++ codes "/files") path
          ≡ (data_dir ++ codes "/files") ++ (b'/' ∷ path) =
        rw inside.0 refl in
      let below = resolve-below data_dir (codes "files") (λ a s. refl) path inside.1 in
      second_differs b's' b'f' (λ e. omega (arith, e))
        (cancel_left (prefix data_dir) (codes "/store.meta") _
          (sym journal-prefix ∙ q ∙ ap resolve joined ∙ below.1))

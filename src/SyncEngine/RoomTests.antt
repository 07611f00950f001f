-- ===== src/SyncEngine/RoomTests.antt =====
-- Engines whose only path is one of the fixtures'.
use p2p_sync_engine.Prelude.{
  Bool, true, false, Bytes, [], ◌∷◌, ◌++◌, some, none, inl, inr, ◌≡◌, refl, sym, ap, subst, ◌∙◌,
  codes, if◌then◌else◌, str_eq, str_eq_iff,
}
use p2p_sync_engine.Map.{find}
use p2p_sync_engine.FileEntry.{FileEntry}
use p2p_sync_engine.CrdtStore
use p2p_sync_engine.CrdtStore.{CrdtStore}
use p2p_sync_engine.FileStore.{Disk, join_path, append_path}
use p2p_sync_engine.FileStore.Paths.{
  render, resolve, passes, through, is_above, is_absolute, walk, read, enter,
}
use p2p_sync_engine.FileStore.Inside.{stays}
use p2p_sync_engine.FileStore.Tree.{IsApart, IsUsed}
use p2p_sync_engine.SyncEngine.{engine}
use p2p_sync_engine.SyncEngine.Complete.{IsTidy}
use p2p_sync_engine.SyncEngine.Layout.{prefix, resolve-below}
use p2p_sync_engine.SyncEngine.Room.{InRoom, engine-IsTidy, is_above_self}
use p2p_sync_engine.Fixtures.{path_f}

module _ (data_dir : Bytes) where
  abbrev pub Only : Bytes → Type 0
  Only k = k ≡ join_path (data_dir ++ codes "/files") path_f

  pub Only-below :
      (k : Bytes) → Only k → (tail : Bytes) × (k ≡ prefix data_dir ++ (codes "/files" ++ tail))
  unfolding join_path append_path is_absolute stays walk read enter str_eq
  Only-below k p =
      let found = resolve-below data_dir (codes "files") (λ a s. refl) path_f refl in
      (found.0, p ∙ found.1)

  pub Only-IsApart : IsApart Only
  Only-IsApart k j p q = subst (λ x. is_above k x ≡ false) (p ∙ sym q) (is_above_self k)

  abbrev pub OneFile : Bytes → Type 0
  OneFile = InRoom data_dir Only Only-below Only-IsApart

  -- The path as it is written leads through none of the files.
  abbrev pub IsFree : Type 0
  IsFree =
      (j : Bytes) → OneFile j → passes (append_path (data_dir ++ codes "/files") path_f) j ≡ false

  get-Only :
      (s : CrdtStore) (v : FileEntry)
      → s.entries ≡ (path_f, v) ∷ []
      → (k : Bytes) (x : FileEntry) → CrdtStore.get s k ≡ some x
      → IsFree
      → Only (join_path (data_dir ++ codes "/files") k)
        × ((j : Bytes) → OneFile j → passes (append_path (data_dir ++ codes "/files") k) j ≡ false)
  unfolding CrdtStore.get find
  get-Only s v e k x h free = by_path (str_eq path_f k) refl (ap (find k) (sym e) ∙ h)
    where
      by_path :
          (b : Bool)
          → str_eq path_f k ≡ b
          → (if b then some v else none) ≡ some x
          → Only (join_path (data_dir ++ codes "/files") k)
            × ((j : Bytes)
                → OneFile j
                → passes (append_path (data_dir ++ codes "/files") k) j ≡ false)
      by_path true q r =
          let same = (str_eq_iff path_f k).0 q in
          (
            ap (join_path (data_dir ++ codes "/files")) (sym same),
            λ j u.
                ap (λ p. passes (append_path (data_dir ++ codes "/files") p) j) (sym same)
                ∙ free j u,
          )
      by_path false q r = cc

  pub OneFile-IsTidy :
      (node_id : Bytes) (s : CrdtStore) (v : FileEntry) (disk : Disk)
      → s.entries ≡ (path_f, v) ∷ []
      → IsUsed OneFile disk
      → IsFree
      → IsTidy OneFile (engine node_id data_dir s) disk
  OneFile-IsTidy node_id s v disk e used free =
      engine-IsTidy data_dir Only Only-below Only-IsApart node_id s disk used
        (λ k x h. get-Only s v e k x h free)

pub free_d : IsFree (codes "d")
unfolding render resolve passes through append_path is_absolute walk read enter str_eq join_path
free_d j (inl (t, l, p)) = ap (passes (append_path (codes "d" ++ codes "/files") path_f)) p
free_d j (inr (inl p)) = ap (passes (append_path (codes "d" ++ codes "/files") path_f)) p
free_d j (inr (inr p)) = ap (passes (append_path (codes "d" ++ codes "/files") path_f)) p

pub free_p : IsFree (codes "p")
unfolding render resolve passes through append_path is_absolute walk read enter str_eq join_path
free_p j (inl (t, l, p)) = ap (passes (append_path (codes "p" ++ codes "/files") path_f)) p
free_p j (inr (inl p)) = ap (passes (append_path (codes "p" ++ codes "/files") path_f)) p
free_p j (inr (inr p)) = ap (passes (append_path (codes "p" ++ codes "/files") path_f)) p

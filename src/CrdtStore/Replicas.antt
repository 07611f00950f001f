-- ===== src/CrdtStore/Replicas.antt =====
-- Two stores that merge each other's entries.
use mathlib.Core.List.{perm_append_comm}
use p2p_sync_engine.Prelude.{
  Bytes, List, [], ◌∷◌, ◌++◌, Option, none, some, map, ◌≡◌, refl, sym, ap, subst, ◌∙◌, All,
  All-append, append_assoc, append-nil,
}
use p2p_sync_engine.Map.{
  Map, find, insert, IsSorted, Every, find-before, insert_last, All-of_find, All-values,
}
use p2p_sync_engine.VectorClock
use p2p_sync_engine.VectorClock.{ClockOrder, equal, before, after, concurrent}
use p2p_sync_engine.VectorClock.Merge.{IsValid as IsValidClock}
use p2p_sync_engine.FileEntry.{FileEntry}
use p2p_sync_engine.CrdtStore.{
  CrdtStore, init, merge_remote, merge_found, merge_known, get, all_entries,
}
use p2p_sync_engine.CrdtStore.Invariant.{IsValid, IsEntryAt}
use p2p_sync_engine.CrdtStore.Swap.{AreOrdered, Within}
use p2p_sync_engine.CrdtStore.Convergence.{merge_all, merge_all-perm}

abbrev store_of : Bytes → Map FileEntry → CrdtStore
store_of node_id m = record { node_id = node_id; entries = m }

-- A merge reads and writes the entries only.
entries-merge_remote :
    (n n' : Bytes) (m : Map FileEntry) (re : FileEntry)
    → (merge_remote (store_of n m) re).0.entries ≡ (merge_remote (store_of n' m) re).0.entries
unfolding merge_remote
entries-merge_remote n n' m re = go (find re.path m)
  where
    known :
        (local : FileEntry) (o : ClockOrder)
        → (merge_known (store_of n m) local re o).0.entries
          ≡ (merge_known (store_of n' m) local re o).0.entries
    known local equal = refl
    known local before = refl
    known local after = refl
    known local concurrent = refl

    go :
        (o : Option FileEntry)
        → (merge_found (store_of n m) re o).0.entries ≡ (merge_found (store_of n' m) re o).0.entries
    go none = refl
    go (some local) = known local (VectorClock.compare local.clock re.clock)

entries-merge_all :
    (s t : CrdtStore) (es : List FileEntry)
    → s.entries ≡ t.entries
    → (merge_all s es).entries ≡ (merge_all t es).entries
unfolding merge_all
entries-merge_all s t [] q = q
entries-merge_all s t (re ∷ rest) q =
    entries-merge_all (merge_remote s re).0 (merge_remote t re).0 rest (
      entries-merge_remote s.node_id t.node_id s.entries re
      ∙ ap (λ m. (merge_remote (store_of t.node_id m) re).0.entries) q)

merge_all-append :
    (s : CrdtStore) (xs ys : List FileEntry)
    → merge_all s (xs ++ ys) ≡ merge_all (merge_all s xs) ys
unfolding merge_all
merge_all-append s [] ys = refl
merge_all-append s (x ∷ xs) ys = merge_all-append (merge_remote s x).0 xs ys

-- A path that is not there yet.
merge-new :
    (n : Bytes) (m : Map FileEntry) (e : FileEntry)
    → find e.path m ≡ none
    → (merge_remote (store_of n m) e).0.entries ≡ insert e.path e m
unfolding merge_remote
merge-new n m e h = ap (λ o. (merge_found (store_of n m) e o).0.entries) h

-- Entries that are merged in the order of their paths.
merge_all-seen :
    (n : Bytes) (seen rest : Map FileEntry)
    → IsSorted (seen ++ rest)
    → Every IsEntryAt rest
    → (merge_all (store_of n seen) (map (λ (e : Bytes × FileEntry). e.1) rest)).entries
      ≡ seen ++ rest
unfolding merge_all
merge_all-seen n seen [] s at = sym (append-nil seen)
merge_all-seen n seen ((k, e) ∷ rest) s at =
    let more : Map FileEntry = seen ++ ((k, e) ∷ []) in
    let all : more ++ rest ≡ seen ++ ((k, e) ∷ rest) = append_assoc seen ((k, e) ∷ []) rest in
    entries-merge_all (merge_remote (store_of n seen) e).0 (store_of n more)
      (map (λ (x : Bytes × FileEntry). x.1) rest)
      (merge-new n seen e (ap (λ p. find p seen) at.0.at_path ∙ find-before seen k e rest s)
        ∙ ap (λ p. insert p e seen) at.0.at_path
        ∙ insert_last seen k e rest s)
    ∙ merge_all-seen n more rest (subst IsSorted (sym all) s) at.1
    ∙ all

-- A new store comes to the entries of a valid one by merging them.
merge_all-init :
    (n : Bytes) (s : CrdtStore)
    → IsValid s
    → (merge_all (init n) (all_entries s)).entries ≡ s.entries
unfolding all_entries
merge_all-init n s v = merge_all-seen n [] s.entries v.sorted v.entries_at

module _ (P : FileEntry → Type 0)
    (ordered : (e f : FileEntry) → P e → P f → e.path ≡ f.path → AreOrdered e f)
    (valid : (e : FileEntry) → P e → IsValidClock e.clock) where
  init-Within : (n : Bytes) → Within P ordered valid (init n)
  unfolding get find
  init-Within n k e h = cc

  entries-All : (s : CrdtStore) → IsValid s → Within P ordered valid s → All P (all_entries s)
  unfolding all_entries get
  entries-All s v w =
      All-values P s.entries (All-of_find P s.entries v.sorted (λ k e g. (w k e g).0))

  -- Let any two versions for one path that the stores hold be ordered by their valid clocks, and be one
  -- version if these are equal. Then the two stores hold the same entries behind merges of each other's.
  pub merge_all-converges :
      (s t : CrdtStore)
      → IsValid s
      → IsValid t
      → Within P ordered valid s
      → Within P ordered valid t
      → (merge_all s (all_entries t)).entries ≡ (merge_all t (all_entries s)).entries
  merge_all-converges s t v v' w w' =
      let es = all_entries s in
      let ft = all_entries t in
      let new : CrdtStore = init s.node_id in
      entries-merge_all s (merge_all new es) ft (sym (merge_all-init s.node_id s v))
      ∙ ap (λ (x : CrdtStore). x.entries)
          (sym (merge_all-append new es ft)
            ∙ merge_all-perm P ordered valid new (es ++ ft) (ft ++ es) (perm_append_comm es ft)
                (record { sorted = tt; entries_at = tt }) (init-Within s.node_id)
                (All-append P es ft (entries-All s v w) (entries-All t v' w'))
            ∙ merge_all-append new ft es)
      ∙ entries-merge_all (merge_all new ft) t es (merge_all-init s.node_id t v')

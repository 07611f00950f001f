-- ===== src/CrdtStore/Convergence.antt =====
-- The merges of many entries, and the order in which they come.
use mathlib.Core.Logic.{∥∥₁_elim}
use mathlib.Core.List.{Perm, Permᴰ}
use p2p_sync_engine.Prelude.{List, [], ◌∷◌, ◌≡◌, refl, ap, ap₂, subst, ◌∙◌, All}
use p2p_sync_engine.VectorClock.Merge.{IsValid as IsValidClock}
use p2p_sync_engine.FileEntry.{FileEntry}
use p2p_sync_engine.CrdtStore.{CrdtStore, merge_remote}
use p2p_sync_engine.CrdtStore.Invariant.{IsValid, merge_remote-IsValid}
use p2p_sync_engine.CrdtStore.Merging.{after_merge}
use p2p_sync_engine.CrdtStore.Swap.{AreOrdered, Within, merge-Within, merge_swap}

-- The store after the merge of each entry of a manifest, in its order.
unfoldable pub merge_all : CrdtStore → List FileEntry → CrdtStore
merge_all s [] = s
merge_all s (re ∷ rest) = merge_all (merge_remote s re).0 rest

CrdtStore-set : IsSet CrdtStore
CrdtStore-set = hlevel

-- `P` holds of the versions that were ever made.
module _ (P : FileEntry → Type 0)
    (ordered : (e f : FileEntry) → P e → P f → e.path ≡ f.path → AreOrdered e f)
    (valid : (e : FileEntry) → P e → IsValidClock e.clock) where
  All-of_perm : (xs ys : List FileEntry) → Permᴰ xs ys → All P xs → All P ys
  All-of_perm xs ys Permᴰ.nil h = h
  All-of_perm xs ys (Permᴰ.cons e d) h = (subst P e h.0, All-of_perm _ _ d h.1)
  All-of_perm xs ys (Permᴰ.swap e e') h = (subst P e' h.1.0, (subst P e h.0, h.1.1))
  All-of_perm xs ys (Permᴰ.trans d d') h = All-of_perm _ _ d' (All-of_perm _ _ d h)

  merge_all-permᴰ :
      (s : CrdtStore) (xs ys : List FileEntry)
      → Permᴰ xs ys
      → IsValid s
      → Within P ordered valid s
      → All P xs
      → merge_all s xs ≡ merge_all s ys
  unfolding merge_all
  merge_all-permᴰ s xs ys Permᴰ.nil v w h = refl
  merge_all-permᴰ s xs ys (Permᴰ.cons {a = a} {b = b} {l₁ = l} {l₂ = l'} e d) v w h =
      merge_all-permᴰ (after_merge s a) l l' d (merge_remote-IsValid s a v (valid a h.0))
        (merge-Within P ordered valid s a w h.0) h.1
      ∙ ap (λ x. merge_all (after_merge s x) l') e
  merge_all-permᴰ s xs ys (Permᴰ.swap {a = a} {b = b} {a' = a'} {b' = b'} {l = l} e e') v w h =
      ap (λ t. merge_all t l) (merge_swap P ordered valid s a b v w h.0 h.1.0)
      ∙ ap₂ (λ x y. merge_all (after_merge (after_merge s x) y) l) e' e
  merge_all-permᴰ s xs ys (Permᴰ.trans d d') v w h =
      merge_all-permᴰ s _ _ d v w h ∙ merge_all-permᴰ s _ _ d' v w (All-of_perm _ _ d h)

  -- Of the versions that were ever made, let any two for one path be ordered by their valid clocks, and
  -- be one version if these are equal. Then a valid store that holds such versions under their paths
  -- comes to the same state in whatever order it merges the entries that it receives, if they are such
  -- versions too.
  pub merge_all-perm :
      (s : CrdtStore) (xs ys : List FileEntry)
      → Perm xs ys
      → IsValid s
      → Within P ordered valid s
      → All P xs
      → merge_all s xs ≡ merge_all s ys
  merge_all-perm s xs ys p v w h =
      ∥∥₁_elim p (CrdtStore-set _ _) (λ d. merge_all-permᴰ s xs ys d v w h)

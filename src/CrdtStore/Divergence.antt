-- ===== src/CrdtStore/Divergence.antt =====
-- Two replicas that edited one path concurrently.
use p2p_sync_engine.Prelude.{some, ◌≡◌, ◌≢◌, sym, ap, subst, ◌∙◌, str_eq_refl}
use p2p_sync_engine.VectorClock
use p2p_sync_engine.VectorClock.{concurrent}
use p2p_sync_engine.VectorClock.Compare.{Le, compare_iff}
use p2p_sync_engine.VectorClock.Merge.{IsValid as IsValidClock, merge_least_upper_bound}
use p2p_sync_engine.FileEntry.{FileEntry}
use p2p_sync_engine.CrdtStore.{CrdtStore, merge_remote, get}
use p2p_sync_engine.CrdtStore.Merging.{
  View, fresh, same, newer, older, conflict, view, after_merge, observed,
}
use p2p_sync_engine.CrdtStore.Lossless.{merge_remote-seen}

-- A concurrent merge leaves the local version in place, with the join of the clocks.
get-conflict :
    (s : CrdtStore) (local remote : FileEntry)
    → get s remote.path ≡ some local
    → ¬ Le local.clock remote.clock
    → ¬ Le remote.clock local.clock
    → get (after_merge s remote) remote.path ≡ some (observed local remote)
get-conflict s local remote h p q = go (view s remote)
  where
    go : View s remote → get (after_merge s remote) remote.path ≡ some (observed local remote)
    go (fresh k a o) = cc
    go (same l k le ge e o) =
        let i : l ≡ local = cc in absurd (p (subst (λ x. Le x.clock remote.clock) i le))
    go (newer l k le ge e o) =
        let i : l ≡ local = cc in absurd (p (subst (λ x. Le x.clock remote.clock) i le))
    go (older l k le ge e o) =
        let i : l ≡ local = cc in absurd (q (subst (λ x. Le remote.clock x.clock) i ge))
    go (conflict l k le ge f o) =
        let i : l ≡ local = cc in
        f remote.path ∙ (rw (str_eq_refl remote.path) (ap (λ x. some (observed x remote)) i))

joins_le :
    (a b : FileEntry)
    → IsValidClock a.clock
    → IsValidClock b.clock
    → Le (observed b a).clock (observed a b).clock
joins_le a b va vb =
    let above = merge_least_upper_bound a.clock b.clock vb in
    (merge_least_upper_bound b.clock a.clock va).2 (observed a b).clock above.1 above.0

-- Two replicas with different, concurrent versions of a path merge each other's version: each keeps
-- its own, the two replicas still differ at the path, and they give the two versions one clock, so
-- that a merge of either into the other replica changes nothing any more.
pub concurrent_replicas_diverge :
    (s t : CrdtStore) (a b : FileEntry)
    → IsValidClock a.clock
    → IsValidClock b.clock
    → a.path ≡ b.path
    → get s a.path ≡ some a
    → get t b.path ≡ some b
    → VectorClock.compare a.clock b.clock ≡ concurrent
    → a.chunk_hashes ≢ b.chunk_hashes
    → (get (merge_remote s b).0 a.path ≡ some (observed a b))
      × (get (merge_remote t a).0 b.path ≡ some (observed b a))
      × (get (merge_remote s b).0 a.path ≢ get (merge_remote t a).0 a.path)
      × ((merge_remote (merge_remote s b).0 (observed b a)).0 ≡ (merge_remote s b).0)
      × ((merge_remote (merge_remote t a).0 (observed a b)).0 ≡ (merge_remote t a).0)
concurrent_replicas_diverge s t a b va vb path hs ht c ne = (
  at_s,
  at_t,
  λ e.
      let both : some (observed a b) ≡ some (observed b a) =
        sym at_s ∙ e ∙ ap (get (after_merge t a)) path ∙ at_t in
      let p : observed a b ≡ observed b a = cc in ne (ap (λ x. x.chunk_hashes) p),
  (merge_remote-seen (after_merge s b) (observed b a) (observed a b)
      (ap (get (after_merge s b)) (sym path) ∙ at_s) (joins_le a b va vb)).0,
  (merge_remote-seen (after_merge t a) (observed a b) (observed b a)
      (ap (get (after_merge t a)) path ∙ at_t) (joins_le b a vb va)).0,
)
  where
    orders : (¬ Le a.clock b.clock) × (¬ Le b.clock a.clock)
    orders = (compare_iff a.clock b.clock).3.0 c

    at_s : get (after_merge s b) a.path ≡ some (observed a b)
    at_s =
        ap (get (after_merge s b)) path
        ∙ get-conflict s a b (ap (get s) (sym path) ∙ hs) orders.0 orders.1

    at_t : get (after_merge t a) b.path ≡ some (observed b a)
    at_t =
        ap (get (after_merge t a)) (sym path)
        ∙ get-conflict t b a (ap (get t) path ∙ ht) orders.1 orders.0

-- ===== src/CrdtStore/Tests.antt =====
-- The theorems on the store at concrete stores and versions.
use mathlib.Core.List.Perm
use p2p_sync_engine.Prelude.{
  ℕ, ◌<◌, Bytes, List, [], ◌∷◌, ◌≡◌, ◌≢◌, refl, sym, ◌∙◌, arith, compare_bytes, str_eq, ◌+◌, ◌^◌,
  ◌⊎◌, inl, inr, some, replicate, subst, true, false,
}
use p2p_sync_engine.Map.{find, insert}
use p2p_sync_engine.Sha256.{Digest}
use p2p_sync_engine.VectorClock
use p2p_sync_engine.VectorClock.{VectorClock, ClockOrder, equal, before, after, concurrent}
use p2p_sync_engine.VectorClock.Compare.{Le, compare_iff}
use p2p_sync_engine.VectorClock.Merge.{IsValid as IsValidClock}
use p2p_sync_engine.FileEntry.{FileEntry, has_content}
use p2p_sync_engine.CrdtStore.{
  CrdtStore, applied_remote, kept_local, no_change, conflict_forked, init, put_local, delete_local,
  merge_remote, get,
}
use p2p_sync_engine.CrdtStore.Invariant.{IsValid, put, merge, here, next, Reach-IsValid}
use p2p_sync_engine.CrdtStore.Merging.{fork_path, fork, observed}
use p2p_sync_engine.CrdtStore.Lossless.{
  SameContent, merge_remote_keeps_remote, merge_remote_idem, merge_remote_keeps_local,
}
use p2p_sync_engine.CrdtStore.Swap.{AreOrdered}
use p2p_sync_engine.CrdtStore.Convergence.{merge_all, merge_all-perm}
use p2p_sync_engine.CrdtStore.Divergence.{concurrent_replicas_diverge}
use p2p_sync_engine.CrdtStore.Local.{put_local_reaches_peer, delete_local_reaches_peer}
use p2p_sync_engine.Fixtures.{
  node_a, path_f, clock_a, clock_b, clock_ab, version_a, version_b, version_ab, store_a, store_b,
}

clock_a-IsValid : IsValidClock clock_a
clock_a-IsValid = record { sorted = (tt, tt); fits = (omega arith, tt) }

clock_b-IsValid : IsValidClock clock_b
clock_b-IsValid = record { sorted = (tt, tt); fits = (omega arith, tt) }

clock_ab-IsValid : IsValidClock clock_ab
unfolding compare_bytes
clock_ab-IsValid = record {
  sorted = ((refl, tt), (tt, tt));
  fits = (omega arith, (omega arith, tt));
}

get_a : get store_a path_f ≡ some version_a
unfolding get find str_eq
get_a = refl

get_b : get store_b path_f ≡ some version_b
unfolding get find str_eq
get_b = refl

compare_ab : VectorClock.compare clock_a clock_b ≡ concurrent
unfolding VectorClock.compare insert find str_eq
compare_ab = refl

merge_remote_keeps_local_example :
    ((e' : FileEntry) × (get (merge_remote store_a version_b).0 path_f ≡ some e')
      × SameContent e' version_a
      × Le clock_a e'.clock)
    ⊎ (((path_f ≡ version_b.path)
          × Le clock_a clock_b
          × (¬ Le clock_b clock_a)
          × (get (merge_remote store_a version_b).0 path_f ≡ some version_b))
        ⊎ (((merge_remote store_a version_b).1.outcome ≡ conflict_forked)
            × (path_f ≡ fork_path version_b)
            × (get (merge_remote store_a version_b).0 path_f ≡ some (fork version_b))))
merge_remote_keeps_local_example =
    merge_remote_keeps_local store_a version_b path_f version_a clock_b-IsValid get_a

merge_remote_idem_example :
    ((merge_remote (merge_remote store_a version_b).0 version_b).0
      ≡ (merge_remote store_a version_b).0)
    × (((merge_remote (merge_remote store_a version_b).0 version_b).1.outcome ≡ no_change)
        ⊎ ((merge_remote (merge_remote store_a version_b).0 version_b).1.outcome ≡ kept_local))
merge_remote_idem_example = merge_remote_idem store_a version_b clock_b-IsValid

first_byte : {x y : ℕ} {d e : Digest} → ◌≡◌ {A = List Digest} ((x ∷ d) ∷ []) ((y ∷ e) ∷ []) → x ≡ y
first_byte q = cc

different : version_a.chunk_hashes ≢ version_b.chunk_hashes
different q = omega (arith, first_byte q)

concurrent_replicas_diverge_example :
    (get (merge_remote store_a version_b).0 path_f ≡ some (observed version_a version_b))
    × (get (merge_remote store_b version_a).0 path_f ≡ some (observed version_b version_a))
    × (get (merge_remote store_a version_b).0 path_f
        ≢ get (merge_remote store_b version_a).0 path_f)
    × ((merge_remote (merge_remote store_a version_b).0 (observed version_b version_a)).0
        ≡ (merge_remote store_a version_b).0)
    × ((merge_remote (merge_remote store_b version_a).0 (observed version_a version_b)).0
        ≡ (merge_remote store_b version_a).0)
concurrent_replicas_diverge_example =
    concurrent_replicas_diverge store_a store_b version_a version_b clock_a-IsValid clock_b-IsValid
      refl get_a get_b compare_ab different

-- A local edit, then a merge.
abbrev edited : CrdtStore
edited = put_local (init node_a) path_f [] (replicate 32 0) 0

Reach-IsValid_example : IsValid (merge_remote edited version_b).0
Reach-IsValid_example =
    Reach-IsValid node_a (merge_remote edited version_b).0
      (next (next here (put path_f [] (replicate 32 0) 0)) (merge version_b clock_b-IsValid))

room : VectorClock.get clock_a node_a + 1 < 2 ^ 64
unfolding VectorClock.get find str_eq
room = omega arith

put_local_reaches_peer_example :
    (new : FileEntry) × (get (put_local store_a path_f [] (replicate 32 0) 0) path_f ≡ some new)
    × (new.chunk_hashes ≡ [])
    × (new.deleted ≡ false)
    × (VectorClock.compare clock_a new.clock ≡ before)
    × ((j : Bytes)
        → j ≢ path_f
        → get (put_local store_a path_f [] (replicate 32 0) 0) j ≡ get store_a j)
    × (get (merge_remote store_a new).0 path_f ≡ some new)
    × ((merge_remote store_a new).1.outcome ≡ applied_remote)
put_local_reaches_peer_example =
    put_local_reaches_peer store_a store_a version_a path_f [] (replicate 32 0) 0 get_a get_a room

delete_local_reaches_peer_example :
    (new : FileEntry) × (get (delete_local store_a path_f) path_f ≡ some new)
    × (new.deleted ≡ true)
    × (has_content new ≡ false)
    × (VectorClock.compare clock_a new.clock ≡ before)
    × ((j : Bytes) → j ≢ path_f → get (delete_local store_a path_f) j ≡ get store_a j)
    × (get (merge_remote store_a new).0 path_f ≡ some new)
    × ((merge_remote store_a new).1.outcome ≡ applied_remote)
delete_local_reaches_peer_example =
    delete_local_reaches_peer store_a store_a version_a path_f get_a get_a room

merge_remote_keeps_remote_example :
    ((j : Bytes) × (e : FileEntry) × (get (merge_remote store_a version_b).0 j ≡ some e)
      × SameContent e version_b)
    ⊎ ((local : FileEntry) × (get store_a path_f ≡ some local)
        × (get (merge_remote store_a version_b).0 path_f ≡ some local)
        × Le clock_b local.clock)
merge_remote_keeps_remote_example = merge_remote_keeps_remote store_a version_b

-- The versions of a history: one version, and its successor.
abbrev Made : FileEntry → Type 0
Made e = (e ≡ version_a) ⊎ (e ≡ version_ab)

compare_a-ab : VectorClock.compare clock_a clock_ab ≡ before
unfolding VectorClock.compare insert find str_eq
compare_a-ab = refl

a-Le-ab : Le clock_a clock_ab × (¬ Le clock_ab clock_a)
a-Le-ab = (compare_iff clock_a clock_ab).1.0 compare_a-ab

Made-AreOrdered : (e f : FileEntry) → Made e → Made f → e.path ≡ f.path → AreOrdered e f
Made-AreOrdered e f (inl p) (inl q) _ = record {
  comparable = inl (subst (λ x. Le e.clock x.clock) (p ∙ sym q) (λ n. omega arith));
  antisym = λ _ _. p ∙ sym q;
}
Made-AreOrdered e f (inl p) (inr q) _ = record {
  comparable = inl (rw (p, q) a-Le-ab.0);
  antisym = λ h k. absurd (a-Le-ab.1 (rw (p, q) at k));
}
Made-AreOrdered e f (inr p) (inl q) _ = record {
  comparable = inr (rw (p, q) a-Le-ab.0);
  antisym = λ h k. absurd (a-Le-ab.1 (rw (p, q) at h));
}
Made-AreOrdered e f (inr p) (inr q) _ = record {
  comparable = inl (subst (λ x. Le e.clock x.clock) (p ∙ sym q) (λ n. omega arith));
  antisym = λ _ _. p ∙ sym q;
}

Made-IsValid : (e : FileEntry) → Made e → IsValidClock e.clock
Made-IsValid e (inl p) = rw p clock_a-IsValid
Made-IsValid e (inr p) = rw p clock_ab-IsValid

none_stored : (k : Bytes) (e : FileEntry) → get (init node_a) k ≡ some e → Made e × (e.path ≡ k)
unfolding get find
none_stored k e h = cc

merge_all-perm_example :
    merge_all (init node_a) (version_a ∷ version_ab ∷ [])
    ≡ merge_all (init node_a) (version_ab ∷ version_a ∷ [])
merge_all-perm_example =
    merge_all-perm Made Made-AreOrdered Made-IsValid (init node_a) (version_a ∷ version_ab ∷ [])
      (version_ab ∷ version_a ∷ []) (Perm.swap version_ab version_a [])
      (record { sorted = tt; entries_at = tt }) none_stored (inl refl, (inr refl, tt))

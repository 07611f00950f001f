-- ===== src/CrdtStore/Local.antt =====
-- Local edits, and how they reach a peer.
use p2p_sync_engine.Prelude.{
  ℕ, ◌+◌, ◌<◌, ◌^◌, true, false, Bytes, List, Option, some, ◌≡◌, ◌≢◌, refl, sym, ap, subst, ◌∙◌,
  str_eq, str_eq_refl, str_eq-false, if◌then◌else◌,
}
use p2p_sync_engine.Map.{find-insert}
use p2p_sync_engine.Sha256.{Digest}
use p2p_sync_engine.VectorClock
use p2p_sync_engine.VectorClock.{VectorClock, before}
use p2p_sync_engine.VectorClock.Compare.{Le, compare_iff}
use p2p_sync_engine.VectorClock.Merge.{compare-increment}
use p2p_sync_engine.FileEntry.{FileEntry, has_content}
use p2p_sync_engine.CrdtStore.{
  CrdtStore, applied_remote, put_local, delete_local, known_clock, known_entry, tombstone,
  merge_remote, get,
}
use p2p_sync_engine.CrdtStore.Merging.{View, fresh, same, newer, older, conflict, view}

-- The version that `put_local` records over a version with the clock `clock`.
abbrev edited : CrdtStore → VectorClock → Bytes → List Digest → Digest → ℕ → FileEntry
edited s clock path chunk_hashes merkle_root size = record {
  path = path;
  chunk_hashes = chunk_hashes;
  merkle_root = merkle_root;
  clock = VectorClock.increment clock s.node_id;
  last_writer = s.node_id;
  deleted = false;
  size = size;
}

-- A replica that holds `e` adopts a version of the path with a clock strictly above that of `e`.
adopts :
    (peer : CrdtStore) (e new : FileEntry)
    → get peer new.path ≡ some e
    → VectorClock.compare e.clock new.clock ≡ before
    → (get (merge_remote peer new).0 new.path ≡ some new)
      × ((merge_remote peer new).1.outcome ≡ applied_remote)
adopts peer e new h c = go (view peer new)
  where
    le : Le e.clock new.clock × (¬ Le new.clock e.clock)
    le = (compare_iff e.clock new.clock).1.0 c

    own : (x y : Option FileEntry) → (if str_eq new.path new.path then x else y) ≡ x
    own x y = rw (str_eq_refl new.path) refl

    go :
        View peer new
        → (get (merge_remote peer new).0 new.path ≡ some new)
          × ((merge_remote peer new).1.outcome ≡ applied_remote)
    go (fresh k a o) = cc
    go (newer l k p q a o) = (a new.path ∙ own _ _, o)
    go (same l k p q x o) =
        let i : l ≡ e = cc in absurd (le.1 (subst (λ x. Le new.clock x.clock) i q))
    go (older l k p q x o) =
        let i : l ≡ e = cc in absurd (le.1 (subst (λ x. Le new.clock x.clock) i q))
    go (conflict l k p q f o) =
        let i : l ≡ e = cc in absurd (p (subst (λ x. Le x.clock new.clock) (sym i) le.0))

-- A local edit of a path whose version `e` the peer holds too: the node records the edit with a
-- clock strictly after that of `e`, leaves all other paths alone, and the peer that receives the
-- edit adopts it without a conflict. The node's counter must have room.
pub put_local_reaches_peer :
    (s peer : CrdtStore) (e : FileEntry) (path : Bytes) (chunk_hashes : List Digest)
    (merkle_root : Digest) (size : ℕ)
    → get s path ≡ some e
    → get peer path ≡ some e
    → VectorClock.get e.clock s.node_id + 1 < 2 ^ 64
    → (new : FileEntry) × (get (put_local s path chunk_hashes merkle_root size) path ≡ some new)
      × (new.chunk_hashes ≡ chunk_hashes)
      × (new.deleted ≡ false)
      × (VectorClock.compare e.clock new.clock ≡ before)
      × ((j : Bytes) → j ≢ path → get (put_local s path chunk_hashes merkle_root size) j ≡ get s j)
      × (get (merge_remote peer new).0 path ≡ some new)
      × ((merge_remote peer new).1.outcome ≡ applied_remote)
unfolding put_local get known_clock
put_local_reaches_peer s peer e path chunk_hashes merkle_root size h k room =
    let new = edited s e.clock path chunk_hashes merkle_root size in
    let later = (compare-increment e.clock s.node_id room).0 in
    let reached = adopts peer e new k later in
    (
      new,
      find-insert path path _ s.entries
          ∙ (rw (str_eq_refl path)
              (ap (λ o. some (edited s (known_clock o) path chunk_hashes merkle_root size)) h)),
      refl,
      refl,
      later,
      λ j ne. find-insert j path _ s.entries ∙ (rw (str_eq-false path j (λ q. ne (sym q))) refl),
      reached.0,
      reached.1,
    )

-- A local deletion of a path whose version `e` the peer holds too: the node records a tombstone
-- with no content and a clock strictly after that of `e`, leaves all other paths alone, and the peer
-- that receives the tombstone adopts it without a conflict. The node's counter must have room.
pub delete_local_reaches_peer :
    (s peer : CrdtStore) (e : FileEntry) (path : Bytes)
    → get s path ≡ some e
    → get peer path ≡ some e
    → VectorClock.get e.clock s.node_id + 1 < 2 ^ 64
    → (new : FileEntry) × (get (delete_local s path) path ≡ some new)
      × (new.deleted ≡ true)
      × (has_content new ≡ false)
      × (VectorClock.compare e.clock new.clock ≡ before)
      × ((j : Bytes) → j ≢ path → get (delete_local s path) j ≡ get s j)
      × (get (merge_remote peer new).0 path ≡ some new)
      × ((merge_remote peer new).1.outcome ≡ applied_remote)
unfolding delete_local get known_entry tombstone has_content
delete_local_reaches_peer s peer e path h k room =
    let new = tombstone e path s.node_id in
    let later = (compare-increment e.clock s.node_id room).0 in
    let reached = adopts peer e new k later in
    (
      new,
      find-insert path path _ s.entries
          ∙ (rw (str_eq_refl path) (ap (λ o. some (tombstone (known_entry o) path s.node_id)) h)),
      refl,
      refl,
      later,
      λ j ne. find-insert j path _ s.entries ∙ (rw (str_eq-false path j (λ q. ne (sym q))) refl),
      reached.0,
      reached.1,
    )

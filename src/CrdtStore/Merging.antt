-- ===== src/CrdtStore/Merging.antt =====
-- What `merge_remote` does to the entries, case by case and as a whole.
use p2p_sync_engine.Prelude.{Bytes, Option, none, some, ◌≡◌, refl, ap, ◌∙◌, str_eq, if◌then◌else◌}
use p2p_sync_engine.Map.{find, find-insert}
use p2p_sync_engine.VectorClock
use p2p_sync_engine.VectorClock.{VectorClock, ClockOrder, equal, before, after, concurrent}
use p2p_sync_engine.VectorClock.Compare.{Le, compare_iff}
use p2p_sync_engine.FileEntry.{FileEntry}
use p2p_sync_engine.CrdtStore.{
  CrdtStore, MergeOutcome, applied_remote, kept_local, no_change, conflict_forked, merge_remote,
  merge_known, merge_found, get,
}
use p2p_sync_engine.CrdtStore.ConflictPath.{make_conflict_path}

-- The path that a fork of the version goes to.
abbrev pub fork_path : FileEntry → Bytes
fork_path remote = make_conflict_path remote.path remote.last_writer

-- The version under the conflict path.
abbrev pub fork : FileEntry → FileEntry
fork remote = record remote { path = fork_path remote }

-- The local version of a conflict, which has seen the remote one.
abbrev pub observed : FileEntry → FileEntry → FileEntry
observed local remote = record local { clock = VectorClock.merge local.clock remote.clock }

module _ (s : CrdtStore) (remote : FileEntry) where
  abbrev pub after_merge : CrdtStore
  after_merge = (merge_remote s remote).0

  abbrev pub outcome : MergeOutcome
  outcome = (merge_remote s remote).1.outcome

  -- The remote version stands at its path, and no other path changed.
  abbrev pub Adopted : Type 0
  Adopted =
      (j : Bytes) → get after_merge j ≡ (if str_eq remote.path j then some remote else get s j)

  -- Both versions stand, each under its own path.
  abbrev pub Forked : FileEntry → Type 0
  Forked local =
      (j : Bytes)
      → get after_merge j ≡ (
          if str_eq remote.path j
          then some (observed local remote)
          else if str_eq (fork_path remote) j
          then some (fork remote)
          else get s j)

  -- The ways in which a merge can go: by what is known of the path, and by the order of the clocks.
  pub data View : Type 0 where
    fresh : get s remote.path ≡ none → Adopted → outcome ≡ applied_remote → View
    same :
        (local : FileEntry)
        → get s remote.path ≡ some local
        → Le local.clock remote.clock
        → Le remote.clock local.clock
        → after_merge ≡ s
        → outcome ≡ no_change
        → View
    newer :
        (local : FileEntry)
        → get s remote.path ≡ some local
        → Le local.clock remote.clock
        → ¬ Le remote.clock local.clock
        → Adopted
        → outcome ≡ applied_remote
        → View
    older :
        (local : FileEntry)
        → get s remote.path ≡ some local
        → ¬ Le local.clock remote.clock
        → Le remote.clock local.clock
        → after_merge ≡ s
        → outcome ≡ kept_local
        → View
    conflict :
        (local : FileEntry)
        → get s remote.path ≡ some local
        → ¬ Le local.clock remote.clock
        → ¬ Le remote.clock local.clock
        → Forked local
        → outcome ≡ conflict_forked
        → View

  view_known :
      (local : FileEntry) (o : ClockOrder)
      → VectorClock.compare local.clock remote.clock ≡ o
      → find remote.path s.entries ≡ some local
      → merge_remote s remote ≡ merge_known s local remote o
      → View
  unfolding get merge_known
  view_known local equal o h e =
      let le = (compare_iff local.clock remote.clock).0.0 o in
      same local h le.0 le.1 (ap (λ p. p.0) e) (ap (λ p. p.1.outcome) e)
  view_known local before o h e =
      let le = (compare_iff local.clock remote.clock).1.0 o in
      newer local h le.0 le.1
        (λ j. ap (λ p. find j p.0.entries) e ∙ find-insert j remote.path remote s.entries)
        (ap (λ p. p.1.outcome) e)
  view_known local after o h e =
      let le = (compare_iff local.clock remote.clock).2.0 o in
      older local h le.0 le.1 (ap (λ p. p.0) e) (ap (λ p. p.1.outcome) e)
  view_known local concurrent o h e =
      let le = (compare_iff local.clock remote.clock).3.0 o in
      conflict local h le.0 le.1
        (λ j.
          ap (λ p. find j p.0.entries) e
          ∙ rw
              (
                find-insert j remote.path (observed local remote) _,
                find-insert j (fork_path remote) (fork remote) s.entries,
              )
              refl)
        (ap (λ p. p.1.outcome) e)

  pub view : View
  unfolding merge_remote get
  view = go (find remote.path s.entries) refl
    where
      go : (o : Option FileEntry) → find remote.path s.entries ≡ o → View
      go none h =
          fresh h
            (λ j.
              ap (λ o. find j (merge_found s remote o).0.entries) h
              ∙ find-insert j remote.path remote s.entries)
            (ap (λ o. (merge_found s remote o).1.outcome) h)
      go (some local) h =
          view_known local (VectorClock.compare local.clock remote.clock) refl h
            (ap (merge_found s remote) h)

-- A merge leaves the node's own id alone.
pub node_id-merge_remote :
    (s : CrdtStore) (remote : FileEntry) → (merge_remote s remote).0.node_id ≡ s.node_id
unfolding merge_remote
node_id-merge_remote s remote = go (find remote.path s.entries)
  where
    known :
        (local : FileEntry) (o : ClockOrder) → (merge_known s local remote o).0.node_id ≡ s.node_id
    known local equal = refl
    known local _ = refl

    go : (o : Option FileEntry) → (merge_found s remote o).0.node_id ≡ s.node_id
    go none = refl
    go (some local) = known local (VectorClock.compare local.clock remote.clock)

-- A fork is reported with the path that it went to.
pub conflict_path-merge_remote :
    (s : CrdtStore) (remote : FileEntry)
    → (merge_remote s remote).1.outcome ≡ conflict_forked
    → (merge_remote s remote).1.conflict_path ≡ fork_path remote
unfolding merge_remote
conflict_path-merge_remote s remote = go (find remote.path s.entries)
  where
    known :
        (local : FileEntry) (o : ClockOrder)
        → (merge_known s local remote o).1.outcome ≡ conflict_forked
        → (merge_known s local remote o).1.conflict_path ≡ fork_path remote
    known local equal h = cc
    known local before h = cc
    known local after h = cc
    known local concurrent h = refl

    go :
        (o : Option FileEntry)
        → (merge_found s remote o).1.outcome ≡ conflict_forked
        → (merge_found s remote o).1.conflict_path ≡ fork_path remote
    go none h = cc
    go (some local) h = known local (VectorClock.compare local.clock remote.clock) h

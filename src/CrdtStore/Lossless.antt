-- ===== src/CrdtStore/Lossless.antt =====
-- What a merge keeps: the contents of both sides, the clocks, and its own result when repeated.
use p2p_sync_engine.Prelude.{
  Bytes, Option, none, some, ◌≡◌, ◌≢◌, refl, sym, ap, subst, ◌∙◌, arith, str_eq, str_eq_iff,
  str_eq_refl, if◌then◌else◌, ◌⊎◌, inl, inr, Bool-cases, str_eq-false,
}
use p2p_sync_engine.VectorClock.{VectorClock}
use p2p_sync_engine.VectorClock.Compare.{Le}
use p2p_sync_engine.VectorClock.Merge.{IsValid as IsValidClock, merge_least_upper_bound}
use p2p_sync_engine.FileEntry.{FileEntry}
use p2p_sync_engine.CrdtStore.{CrdtStore, kept_local, no_change, conflict_forked, merge_remote, get}
use p2p_sync_engine.CrdtStore.Merging.{
  View, fresh, same, newer, older, conflict, view, after_merge, outcome, fork, fork_path, observed,
}
use p2p_sync_engine.CrdtStore.ConflictPath.{make_conflict_path-ne}

-- The version holds the same file, whatever its clock and its path.
pub record SameContent (e f : FileEntry) : Type 0 where
  pub chunk_hashes : e.chunk_hashes ≡ f.chunk_hashes
  pub merkle_root : e.merkle_root ≡ f.merkle_root
  pub deleted : e.deleted ≡ f.deleted
  pub size : e.size ≡ f.size
  pub last_writer : e.last_writer ≡ f.last_writer

SameContent-refl : (e : FileEntry) → SameContent e e
SameContent-refl e = record {
  chunk_hashes = refl;
  merkle_root = refl;
  deleted = refl;
  size = refl;
  last_writer = refl;
}

abbrev same_as_fork : (e : FileEntry) → SameContent (fork e) e
same_as_fork e = record {
  chunk_hashes = refl;
  merkle_root = refl;
  deleted = refl;
  size = refl;
  last_writer = refl;
}

abbrev same_as_observed : (e f : FileEntry) → SameContent (observed e f) e
same_as_observed e f = record {
  chunk_hashes = refl;
  merkle_root = refl;
  deleted = refl;
  size = refl;
  last_writer = refl;
}

Le-refl : (a : VectorClock) → Le a a
Le-refl a n = omega arith

at_own : (j : Bytes) (x y : Option FileEntry) → (if str_eq j j then x else y) ≡ x
at_own j x y = rw (str_eq_refl j) refl

at_other : (i j : Bytes) (x y : Option FileEntry) → i ≢ j → (if str_eq i j then x else y) ≡ y
at_other i j x y h = rw (str_eq-false i j h) refl

module _ (s : CrdtStore) (remote : FileEntry) where
  -- After a merge the received version is stored, at its path or at its conflict path, unless the
  -- store already had a version of the path whose clock is not below the received one; then that
  -- version stays.
  pub merge_remote_keeps_remote :
      ((j : Bytes) × (e : FileEntry) × (get (merge_remote s remote).0 j ≡ some e)
        × SameContent e remote)
      ⊎ ((local : FileEntry) × (get s remote.path ≡ some local)
          × (get (merge_remote s remote).0 remote.path ≡ some local)
          × Le remote.clock local.clock)
  merge_remote_keeps_remote = go (view s remote)
    where
      go :
          View s remote
          → ((j : Bytes) × (e : FileEntry) × (get (merge_remote s remote).0 j ≡ some e)
              × SameContent e remote)
            ⊎ ((local : FileEntry) × (get s remote.path ≡ some local)
                × (get (merge_remote s remote).0 remote.path ≡ some local)
                × Le remote.clock local.clock)
      go (fresh h a o) =
          inl (remote.path, remote, a remote.path ∙ at_own remote.path _ _, SameContent-refl remote)
      go (same local h le ge e o) = inr (local, h, ap (λ t. get t remote.path) e ∙ h, ge)
      go (newer local h le ge a o) =
          inl (remote.path, remote, a remote.path ∙ at_own remote.path _ _, SameContent-refl remote)
      go (older local h le ge e o) = inr (local, h, ap (λ t. get t remote.path) e ∙ h, ge)
      go (conflict local h le ge f o) = inl (
        fork_path remote,
        fork remote,
        f (fork_path remote)
            ∙ at_other remote.path (fork_path remote) _ _
                (make_conflict_path-ne remote.path remote.last_writer)
            ∙ at_own (fork_path remote) _ _,
        same_as_fork remote,
      )

  -- After a merge the path of the received version has a version whose clock is not below it.
  pub merge_remote_seen :
      IsValidClock remote.clock
      → (l : FileEntry) × (get (merge_remote s remote).0 remote.path ≡ some l)
        × Le remote.clock l.clock
  merge_remote_seen c = go (view s remote)
    where
      go :
          View s remote
          → (l : FileEntry) × (get (merge_remote s remote).0 remote.path ≡ some l)
            × Le remote.clock l.clock
      go (fresh h a o) = (remote, a remote.path ∙ at_own remote.path _ _, Le-refl remote.clock)
      go (same local h le ge e o) = (local, ap (λ t. get t remote.path) e ∙ h, ge)
      go (newer local h le ge a o) =
          (remote, a remote.path ∙ at_own remote.path _ _, Le-refl remote.clock)
      go (older local h le ge e o) = (local, ap (λ t. get t remote.path) e ∙ h, ge)
      go (conflict local h le ge f o) = (
        observed local remote,
        f remote.path ∙ at_own remote.path _ _,
        (merge_least_upper_bound local.clock remote.clock c).1,
      )

  -- A version that the store has already seen changes nothing.
  pub merge_remote-seen :
      (l : FileEntry)
      → get s remote.path ≡ some l
      → Le remote.clock l.clock
      → (after_merge s remote ≡ s)
        × ((outcome s remote ≡ no_change) ⊎ (outcome s remote ≡ kept_local))
  merge_remote-seen l h le = go (view s remote)
    where
      go :
          View s remote
          → (after_merge s remote ≡ s)
            × ((outcome s remote ≡ no_change) ⊎ (outcome s remote ≡ kept_local))
      go (fresh k a o) = cc
      go (same local k _ ge e o) = (e, inl o)
      go (older local k _ ge e o) = (e, inr o)
      go (newer local k _ ge a o) =
          let p : l ≡ local = cc in absurd (ge (subst (λ x. Le remote.clock x.clock) p le))
      go (conflict local k _ ge f o) =
          let p : l ≡ local = cc in absurd (ge (subst (λ x. Le remote.clock x.clock) p le))

-- A second merge of the same version, with a valid clock, changes nothing and reports no conflict.
pub merge_remote_idem :
    (s : CrdtStore) (remote : FileEntry)
    → IsValidClock remote.clock
    → ((merge_remote (merge_remote s remote).0 remote).0 ≡ (merge_remote s remote).0)
      × (((merge_remote (merge_remote s remote).0 remote).1.outcome ≡ no_change)
          ⊎ ((merge_remote (merge_remote s remote).0 remote).1.outcome ≡ kept_local))
merge_remote_idem s remote c =
    let (l, h, le) = merge_remote_seen s remote c in
    merge_remote-seen (after_merge s remote) remote l h le

abbrev Kept : CrdtStore → Bytes → FileEntry → Type 0
Kept t j e = (e' : FileEntry) × (get t j ≡ some e') × SameContent e' e × Le e.clock e'.clock

-- A version that the store has at a path keeps its content and never loses a counter through a merge
-- of a version with a valid clock, but for two cases: it stands at the received path and is strictly
-- older, and the received version replaces it; or the merge forks, and it stands at the conflict path,
-- where the fork replaces it.
pub merge_remote_keeps_local :
    (s : CrdtStore) (remote : FileEntry) (j : Bytes) (e : FileEntry)
    → IsValidClock remote.clock
    → get s j ≡ some e
    → ((e' : FileEntry) × (get (merge_remote s remote).0 j ≡ some e')
        × SameContent e' e
        × Le e.clock e'.clock)
      ⊎ (((j ≡ remote.path)
            × Le e.clock remote.clock
            × (¬ Le remote.clock e.clock)
            × (get (merge_remote s remote).0 j ≡ some remote))
          ⊎ (((merge_remote s remote).1.outcome ≡ conflict_forked)
              × (j ≡ fork_path remote)
              × (get (merge_remote s remote).0 j ≡ some (fork remote))))
merge_remote_keeps_local s remote j e c h = go (view s remote)
  where
    stays : after_merge s remote ≡ s → Kept (after_merge s remote) j e
    stays p = (e, ap (λ t. get t j) p ∙ h, SameContent-refl e, Le-refl e.clock)

    untouched : get (after_merge s remote) j ≡ get s j → Kept (after_merge s remote) j e
    untouched p = (e, p ∙ h, SameContent-refl e, Le-refl e.clock)

    go :
        View s remote
        → Kept (after_merge s remote) j e
          ⊎ (((j ≡ remote.path)
                × Le e.clock remote.clock
                × (¬ Le remote.clock e.clock)
                × (get (after_merge s remote) j ≡ some remote))
              ⊎ ((outcome s remote ≡ conflict_forked)
                  × (j ≡ fork_path remote)
                  × (get (after_merge s remote) j ≡ some (fork remote))))
    go (fresh k a o) = elim (Bool-cases (str_eq remote.path j)) [
      | inl t ↦
          let same_path = (str_eq_iff remote.path j).0 t in
          let at_j : get s j ≡ none = ap (get s) (sym same_path) ∙ k in cc
      | inr f ↦ inl (untouched (a j ∙ (rw f)))
    ]
    go (same local k le ge p o) = inl (stays p)
    go (newer local k le ge a o) = elim (Bool-cases (str_eq remote.path j)) [
      | inl t ↦
          let same_path = (str_eq_iff remote.path j).0 t in
          let at_j : get s remote.path ≡ get s j = ap (get s) same_path in
          let is_local : local ≡ e = cc in
          inr (
            inl (
              sym same_path,
              subst (λ x. Le x.clock remote.clock) is_local le,
              subst (λ x. ¬ Le remote.clock x.clock) is_local ge,
              a j ∙ (rw t),
            ))
      | inr f ↦ inl (untouched (a j ∙ (rw f)))
    ]
    go (older local k le ge p o) = inl (stays p)
    go (conflict local k le ge w o) = elim (Bool-cases (str_eq remote.path j)) [
      | inl t ↦
          let same_path = (str_eq_iff remote.path j).0 t in
          let at_j : get s remote.path ≡ get s j = ap (get s) same_path in
          let is_local : local ≡ e = cc in
          inl (
            observed local remote,
            w j ∙ (rw t),
            subst (SameContent (observed local remote)) is_local (same_as_observed local remote),
            subst (λ x. Le x.clock (observed local remote).clock) is_local
                (merge_least_upper_bound local.clock remote.clock c).0,
          )
      | inr f ↦ elim (Bool-cases (str_eq (fork_path remote) j)) [
        | inl t ↦ inr (inr (o, sym ((str_eq_iff (fork_path remote) j).0 t), w j ∙ (rw (f, t))))
        | inr g ↦ inl (untouched (w j ∙ (rw (f, g))))
      ]
    ]

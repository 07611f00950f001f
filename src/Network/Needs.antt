-- ===== src/Network/Needs.antt =====
-- What the merge loop of a session keeps track of: the chunks that the store will want are on the disk
-- or needed, and those that are needed are the peer's.
use p2p_sync_engine.Prelude.{
  Bool, true, false, Bytes, List, [], ◌∷◌, ◌+◌, some, ◌≡◌, refl, sym, ap, subst, ◌∙◌, ◌⊎◌, inl, inr,
  if◌then◌else◌, str_eq, str_eq_refl, str_eq-false, Bool-cases, All, All-imp,
}
use p2p_sync_engine.Map.{Map, find, insert, Every, insert-Every}
use p2p_sync_engine.Sha256.{Digest, to_hex}
use p2p_sync_engine.Sha256.Padding.{IsDigest}
use p2p_sync_engine.FileEntry.{FileEntry}
use p2p_sync_engine.CrdtStore.{
  CrdtStore, MergeOutcome, MergeResult, applied_remote, kept_local, no_change, conflict_forked,
  merge_remote, get,
}
use p2p_sync_engine.CrdtStore.ConflictPath.{make_conflict_path-ne}
use p2p_sync_engine.CrdtStore.Merging.{
  View, fresh, same, newer, older, conflict, view, after_merge, fork_path, fork, observed,
  conflict_path-merge_remote,
}
use p2p_sync_engine.FileStore.{FileStore, Disk, has_chunk}
use p2p_sync_engine.Network.Session.{
  Merging, need_chunks, need_forked, record_outcome, merge_entry, merge_entries,
}
use p2p_sync_engine.Network.Requests.{Lacking, need_chunks-Lacking}

-- The chunk is on the disk, or it is needed.
abbrev pub Covered : FileStore → Disk → Map Bool → Digest → Type 0
Covered fs disk needed h = (has_chunk fs h disk ≡ true) ⊎ (find (to_hex h) needed ≡ some true)

-- `Offered h`: the peer has the chunk.
module _ (fs : FileStore) (disk : Disk) (Offered : Digest → Type 0) where
  -- The print of a digest whose chunk the peer has.
  abbrev pub IsWanted : Bytes → Type 0
  IsWanted j = (h : Digest) × IsDigest h × (to_hex h ≡ j) × Offered h

  abbrev pub IsOffer : Digest → Type 0
  IsOffer h = IsDigest h × Offered h

  pub record Tracks (m : Merging) : Type 0 where
    pub covered :
        (k : Bytes) (x : FileEntry)
        → get m.store k ≡ some x
        → All (Covered fs disk m.needed_hex) x.chunk_hashes
    pub wanted : Every (λ j mark. IsWanted j) m.needed_hex

  Covered-grows :
      (hashes : List Digest) (needed : Map Bool) (h : Digest)
      → Covered fs disk needed h
      → Covered fs disk (need_chunks fs disk hashes needed) h
  Covered-grows hashes needed h (inl t) = inl t
  Covered-grows hashes needed h (inr q) =
      inr ((need_chunks-Lacking fs disk hashes needed (to_hex h)).1 (inl q))

  each_missing :
      (hashes : List Digest)
      → All (λ h. (has_chunk fs h disk ≡ true) ⊎ Lacking fs disk hashes (to_hex h)) hashes
  each_missing [] = tt
  each_missing (h ∷ hashes) = (
    elim (Bool-cases (has_chunk fs h disk)) [ inl t ↦ inl t | inr f ↦ inr (inl (f, refl)) ],
    All-imp (λ x c. elim c [ inl t ↦ inl t | inr l ↦ inr (inr l) ]) hashes (each_missing hashes),
  )

  need_chunks-Covered :
      (hashes : List Digest) (needed : Map Bool)
      → All (Covered fs disk (need_chunks fs disk hashes needed)) hashes
  need_chunks-Covered hashes needed =
      All-imp
        (λ x c. elim c [
          | inl t ↦ inl t
          | inr l ↦ inr ((need_chunks-Lacking fs disk hashes needed (to_hex x)).1 (inr l))
        ])
        hashes (each_missing hashes)

  need_chunks-IsWanted :
      (hashes : List Digest) (needed : Map Bool)
      → All IsOffer hashes
      → Every (λ j mark. IsWanted j) needed
      → Every (λ j mark. IsWanted j) (need_chunks fs disk hashes needed)
  unfolding need_chunks
  need_chunks-IsWanted [] needed o w = w
  need_chunks-IsWanted (h ∷ hashes) needed o w =
      need_chunks-IsWanted hashes _ o.1 (added (has_chunk fs h disk))
    where
      added :
          (there : Bool)
          → Every (λ j mark. IsWanted j) (if there then needed else insert (to_hex h) true needed)
      added true = w
      added false =
          insert-Every (λ j mark. IsWanted j) (to_hex h) true needed (h, o.0.0, refl, o.0.1) w

  -- The entry at `k` after an adoption.
  adopted :
      (m : Merging) (re : FileEntry)
      → Tracks m
      → ((j : Bytes)
          → get (after_merge m.store re) j ≡ (if str_eq re.path j then some re else get m.store j))
      → (k : Bytes) (x : FileEntry) → get (after_merge m.store re) k ≡ some x
      → All (Covered fs disk (need_chunks fs disk re.chunk_hashes m.needed_hex)) x.chunk_hashes
  adopted m re t a k x g = elim (Bool-cases (str_eq re.path k)) [
    | inl e ↦
        let q : re ≡ x = cc (sym (a k) ∙ g, ap (λ b. if b then some re else get m.store k) e) in
        rw (← q) (need_chunks-Covered re.chunk_hashes m.needed_hex)
    | inr e ↦
        let q : get m.store k ≡ some x =
          sym (a k ∙ ap (λ b. if b then some re else get m.store k) e) ∙ g in
        All-imp (Covered-grows re.chunk_hashes m.needed_hex) x.chunk_hashes (t.covered k x q)
  ]

  tracked :
      (m : Merging) (store : CrdtStore) (hashes : List Digest) (paths : List Bytes) (n : Merging)
      → n.store ≡ store
      → n.needed_hex ≡ need_chunks fs disk hashes m.needed_hex
      → All IsOffer hashes
      → Tracks m
      → ((k : Bytes) (x : FileEntry)
          → get store k ≡ some x
          → All (Covered fs disk (need_chunks fs disk hashes m.needed_hex)) x.chunk_hashes)
      → Tracks n
  tracked m store hashes paths n p q o t c = record {
    covered = λ k x g. rw q (c k x (ap (λ s. get s k) (sym p) ∙ g));
    wanted = rw q (need_chunks-IsWanted hashes m.needed_hex o t.wanted);
  }

  -- The entry at `k` after a fork.
  forked :
      (m : Merging) (re local : FileEntry)
      → Tracks m
      → get m.store re.path ≡ some local
      → ((j : Bytes)
          → get (after_merge m.store re) j ≡ (
              if str_eq re.path j
              then some (observed local re)
              else if str_eq (fork_path re) j
              then some (fork re)
              else get m.store j))
      → (k : Bytes) (x : FileEntry) → get (after_merge m.store re) k ≡ some x
      → All (Covered fs disk (need_chunks fs disk re.chunk_hashes m.needed_hex)) x.chunk_hashes
  forked m re local t h f k x g =
      entry (str_eq re.path k) (str_eq (fork_path re) k) refl refl (sym (f k) ∙ g)
    where
      grown :
          (y : FileEntry) (i : Bytes)
          → get m.store i ≡ some y
          → All (Covered fs disk (need_chunks fs disk re.chunk_hashes m.needed_hex)) y.chunk_hashes
      grown y i q =
          All-imp (Covered-grows re.chunk_hashes m.needed_hex) y.chunk_hashes (t.covered i y q)

      entry :
          (own at_fork : Bool)
          → str_eq re.path k ≡ own
          → str_eq (fork_path re) k ≡ at_fork
          → (if own
              then some (observed local re)
              else if at_fork
              then some (fork re)
              else get m.store k)
            ≡ some x
          → All (Covered fs disk (need_chunks fs disk re.chunk_hashes m.needed_hex)) x.chunk_hashes
      entry true b p p' q =
          let same_entry : observed local re ≡ x = cc in
          subst
            (λ y.
              All (Covered fs disk (need_chunks fs disk re.chunk_hashes m.needed_hex))
                y.chunk_hashes)
            same_entry (grown local re.path h)
      entry false true p p' q =
          let same_entry : fork re ≡ x = cc in
          subst
            (λ y.
              All (Covered fs disk (need_chunks fs disk re.chunk_hashes m.needed_hex))
                y.chunk_hashes)
            same_entry (need_chunks-Covered re.chunk_hashes m.needed_hex)
      entry false false p p' q = grown x k q

  merge_entry-Tracks :
      (m : Merging) (re : FileEntry)
      → All IsOffer re.chunk_hashes
      → Tracks m
      → Tracks (merge_entry fs disk re m)
  unfolding merge_entry record_outcome need_forked
  merge_entry-Tracks m re offer t = by_view (view m.store re)
    where
      r : MergeResult
      r = (merge_remote m.store re).1

      m' : Merging
      m' = record m { store = after_merge m.store re }

      by_outcome :
          (o : MergeOutcome)
          → r.outcome ≡ o
          → Tracks (record_outcome fs disk re r o m')
          → Tracks (merge_entry fs disk re m)
      by_outcome o e = subst (λ x. Tracks (record_outcome fs disk re r x m')) (sym e)

      kept :
          (n : Merging)
          → n.store ≡ after_merge m.store re
          → after_merge m.store re ≡ m.store
          → n.needed_hex ≡ m.needed_hex
          → Tracks n
      kept n p e q = record {
        covered = λ k x g. rw q (t.covered k x (ap (λ s. get s k) (sym (p ∙ e)) ∙ g));
        wanted = rw q t.wanted;
      }

      by_view : View m.store re → Tracks (merge_entry fs disk re m)
      by_view (fresh h a o) = by_outcome applied_remote o (
          tracked m (after_merge m.store re) re.chunk_hashes [] _ refl refl offer t
            (adopted m re t a))
      by_view (newer local h le nge a o) = by_outcome applied_remote o (
          tracked m (after_merge m.store re) re.chunk_hashes [] _ refl refl offer t
            (adopted m re t a))
      by_view (same local h le ge e o) = by_outcome no_change o (kept _ refl e refl)
      by_view (older local h le ge e o) = by_outcome kept_local o (kept _ refl e refl)
      by_view (conflict local h nle nge f o) =
          let m'' : Merging = record m' {
            stats = record m.stats { conflicts_forked = m.stats.conflicts_forked + 1 };
          } in
          let got : get (after_merge m.store re) (fork_path re) ≡ some (fork re) =
            f (fork_path re)
            ∙ (rw
                (
                  str_eq-false re.path (fork_path re)
                      (make_conflict_path-ne re.path re.last_writer),
                  str_eq_refl (fork_path re),
                )
                refl) in
          let there : get (after_merge m.store re) r.conflict_path ≡ some (fork re) =
            ap (get (after_merge m.store re)) (conflict_path-merge_remote m.store re o) ∙ got in
          by_outcome conflict_forked o (
            subst (λ x. Tracks (need_forked fs disk r.conflict_path x m'')) (sym there)
              (tracked m (after_merge m.store re) re.chunk_hashes [] _ refl refl offer t
                (forked m re local t h f)))

  -- The loop keeps track, if the peer has all chunks of the entries that it sends.
  pub merge_entries-Tracks :
      (entries : List FileEntry) (m : Merging)
      → All (λ (re : FileEntry). All IsOffer re.chunk_hashes) entries
      → Tracks m
      → Tracks (merge_entries fs disk entries m)
  unfolding merge_entries
  merge_entries-Tracks [] m o t = t
  merge_entries-Tracks (re ∷ rest) m o t =
      merge_entries-Tracks rest (merge_entry fs disk re m) o.1 (merge_entry-Tracks m re o.0 t)

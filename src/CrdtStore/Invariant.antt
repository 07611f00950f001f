-- ===== src/CrdtStore/Invariant.antt =====
-- The invariant of a store, and the steps that a store takes.
use p2p_sync_engine.Prelude.{ℕ, Bytes, List, Option, none, some, ◌≡◌, refl}
use p2p_sync_engine.Map.{find, insert, IsSorted, insert-IsSorted, Every, insert-Every, find-Every}
use p2p_sync_engine.Sha256.{Digest}
use p2p_sync_engine.VectorClock
use p2p_sync_engine.VectorClock.{VectorClock, ClockOrder, equal, before, after, concurrent}
use p2p_sync_engine.VectorClock.Merge.{IsValid as IsValidClock, merge-IsValid, increment-IsValid}
use p2p_sync_engine.FileEntry.{FileEntry}
use p2p_sync_engine.CrdtStore.{
  CrdtStore, init, put_local, delete_local, merge_remote, merge_known, merge_found, load_entry,
  known_clock, known_entry,
}
use p2p_sync_engine.CrdtStore.ConflictPath.{make_conflict_path}

-- The entry stands under its own path, and its clock is valid.
pub record IsEntryAt (k : Bytes) (e : FileEntry) : Type 0 where
  pub at_path : e.path ≡ k
  pub valid_clock : IsValidClock e.clock

pub record IsValid (s : CrdtStore) : Type 0 where
  pub sorted : IsSorted s.entries
  pub entries_at : Every IsEntryAt s.entries

pub insert-IsValid :
    (s : CrdtStore) (k : Bytes) (e : FileEntry)
    → IsValid s
    → IsEntryAt k e
    → IsValid (record s { entries = insert k e s.entries })
insert-IsValid s k e v h = record {
  sorted = insert-IsSorted k e s.entries v.sorted;
  entries_at = insert-Every IsEntryAt k e s.entries h v.entries_at;
}

init_clock-IsValid : IsValidClock VectorClock.init
init_clock-IsValid = record { sorted = tt; fits = tt }

pub find-IsEntryAt :
    (s : CrdtStore) (k : Bytes) (e : FileEntry)
    → IsValid s
    → find k s.entries ≡ some e
    → IsEntryAt k e
find-IsEntryAt s k e v h = find-Every IsEntryAt k e s.entries v.entries_at h

known_clock-IsValid :
    (s : CrdtStore) (k : Bytes) (o : Option FileEntry)
    → IsValid s
    → find k s.entries ≡ o
    → IsValidClock (known_clock o)
unfolding known_clock
known_clock-IsValid s k none v h = init_clock-IsValid
known_clock-IsValid s k (some e) v h = (find-IsEntryAt s k e v h).valid_clock

known_entry-IsValid :
    (s : CrdtStore) (k : Bytes) (o : Option FileEntry)
    → IsValid s
    → find k s.entries ≡ o
    → IsValidClock (known_entry o).clock
unfolding known_entry
known_entry-IsValid s k none v h = init_clock-IsValid
known_entry-IsValid s k (some e) v h = (find-IsEntryAt s k e v h).valid_clock

pub put_local-IsValid :
    (s : CrdtStore) (path : Bytes) (chunk_hashes : List Digest) (merkle_root : Digest) (size : ℕ)
    → IsValid s
    → IsValid (put_local s path chunk_hashes merkle_root size)
unfolding put_local
put_local-IsValid s path chunk_hashes merkle_root size v = insert-IsValid s path _ v (record {
  at_path = refl;
  valid_clock = increment-IsValid _ s.node_id (known_clock-IsValid s path _ v refl);
})

pub delete_local-IsValid :
    (s : CrdtStore) (path : Bytes) → IsValid s → IsValid (delete_local s path)
unfolding delete_local
delete_local-IsValid s path v = insert-IsValid s path _ v (record {
  at_path = refl;
  valid_clock = increment-IsValid _ s.node_id (known_entry-IsValid s path _ v refl);
})

pub load_entry-IsValid :
    (s : CrdtStore) (e : FileEntry) → IsValid s → IsValidClock e.clock → IsValid (load_entry s e)
unfolding load_entry
load_entry-IsValid s e v c =
    insert-IsValid s e.path e v (record { at_path = refl; valid_clock = c })

merge_known-IsValid :
    (s : CrdtStore) (local remote : FileEntry) (o : ClockOrder)
    → IsValid s
    → IsEntryAt remote.path local
    → IsValidClock remote.clock
    → IsValid (merge_known s local remote o).0
unfolding merge_known
merge_known-IsValid s local remote equal v l c = v
merge_known-IsValid s local remote before v l c =
    insert-IsValid s remote.path remote v (record { at_path = refl; valid_clock = c })
merge_known-IsValid s local remote after v l c = v
merge_known-IsValid s local remote concurrent v l c =
    let conflict_path = make_conflict_path remote.path remote.last_writer in
    let fork : FileEntry = record remote { path = conflict_path } in
    insert-IsValid (record s { entries = insert conflict_path fork s.entries }) remote.path _
      (insert-IsValid s conflict_path fork v (record { at_path = refl; valid_clock = c }))
      (record {
        at_path = l.at_path;
        valid_clock = merge-IsValid local.clock remote.clock l.valid_clock c;
      })

pub merge_remote-IsValid :
    (s : CrdtStore) (remote : FileEntry)
    → IsValid s
    → IsValidClock remote.clock
    → IsValid (merge_remote s remote).0
unfolding merge_remote
merge_remote-IsValid s remote v c = go (find remote.path s.entries) refl
  where
    go :
        (o : Option FileEntry) → find remote.path s.entries ≡ o → IsValid (merge_found s remote o).0
    go none h = insert-IsValid s remote.path remote v (record { at_path = refl; valid_clock = c })
    go (some local) h =
        merge_known-IsValid s local remote (VectorClock.compare local.clock remote.clock) v
          (find-IsEntryAt s remote.path local v h) c

-- The calls that change a store: local edits, the replay of the journal, and merges from a peer.
pub data Step (s : CrdtStore) : CrdtStore → Type 0 where
  put :
      (path : Bytes) (chunk_hashes : List Digest) (merkle_root : Digest) (size : ℕ)
      → Step s (put_local s path chunk_hashes merkle_root size)
  delete : (path : Bytes) → Step s (delete_local s path)
  merge : (remote : FileEntry) → IsValidClock remote.clock → Step s (merge_remote s remote).0
  load : (e : FileEntry) → IsValidClock e.clock → Step s (load_entry s e)

pub data Reach (s : CrdtStore) : CrdtStore → Type 0 where
  here : Reach s s
  next : {t u : CrdtStore} → Reach s t → Step t u → Reach s u

Step-IsValid : {s t : CrdtStore} → Step s t → IsValid s → IsValid t
Step-IsValid {s} (put path chunk_hashes merkle_root size) v =
    put_local-IsValid s path chunk_hashes merkle_root size v
Step-IsValid {s} (delete path) v = delete_local-IsValid s path v
Step-IsValid {s} (merge remote c) v = merge_remote-IsValid s remote v c
Step-IsValid {s} (load e c) v = load_entry-IsValid s e v c

Reach-keeps : {s t : CrdtStore} → Reach s t → IsValid s → IsValid t
Reach-keeps here v = v
Reach-keeps (next r st) v = Step-IsValid st (Reach-keeps r v)

-- In every store that a new one reaches by local edits, journal replay and merges of entries with
-- valid clocks, the map is sorted, each entry stands under its own path, and its clock is a sorted
-- map of 64-bit counters.
pub Reach-IsValid : (node_id : Bytes) (t : CrdtStore) → Reach (init node_id) t → IsValid t
Reach-IsValid node_id t r = Reach-keeps r (record { sorted = tt; entries_at = tt })

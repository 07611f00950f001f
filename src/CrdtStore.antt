-- ===== src/CrdtStore.antt =====
-- crdt_store.hpp, crdt_store.cpp: the map from paths to versions, its local mutations, and the merge
-- of a version that a peer sent. A method returns the new store.
pub mod ConflictPath
pub mod Invariant
pub mod Merging
pub mod Lossless
pub mod Swap
pub mod Convergence
pub mod Replicas
pub mod Divergence
pub mod Local
mod Tests
use p2p_sync_engine.Prelude.{
  ℕ, Bool, true, false, Bytes, List, [], ◌∷◌, ◌++◌, Option, none, some, map,
}
use p2p_sync_engine.Map.{Map, find, insert}
use p2p_sync_engine.Sha256.{Digest}
use p2p_sync_engine.VectorClock
use p2p_sync_engine.VectorClock.{VectorClock, ClockOrder, equal, before, after, concurrent}
use p2p_sync_engine.FileEntry
use p2p_sync_engine.FileEntry.{FileEntry}
use ConflictPath.{make_conflict_path}

pub data MergeOutcome : Type 0 where
  applied_remote kept_local no_change conflict_forked : MergeOutcome

pub record MergeResult : Type 0 where
  pub outcome : MergeOutcome
  pub path : Bytes
  pub conflict_path : Bytes

pub record CrdtStore : Type 0 where
  pub node_id : Bytes
  pub entries : Map FileEntry

-- The constructor.
abbrev pub init : Bytes → CrdtStore
init node_id = record { node_id = node_id; entries = [] }

-- The clock that `put_local` starts from.
pub known_clock : Option FileEntry → VectorClock
known_clock none = VectorClock.init
known_clock (some e) = e.clock

unfoldable pub put_local : CrdtStore → Bytes → List Digest → Digest → ℕ → CrdtStore
unfolding known_clock
put_local s path chunk_hashes merkle_root size = record s {
  entries =
      insert path
        (record {
          path = path;
          chunk_hashes = chunk_hashes;
          merkle_root = merkle_root;
          clock = VectorClock.increment (known_clock (find path s.entries)) s.node_id;
          last_writer = s.node_id;
          deleted = false;
          size = size;
        })
        s.entries;
}

-- The entry that `delete_local` starts from.
pub known_entry : Option FileEntry → FileEntry
known_entry none = FileEntry.init
known_entry (some e) = e

-- `merkle_root` and `size` of the old version stay.
unfoldable pub tombstone : FileEntry → Bytes → Bytes → FileEntry
tombstone e path node_id = record e {
  path = path;
  deleted = true;
  chunk_hashes = [];
  last_writer = node_id;
  clock = VectorClock.increment e.clock node_id;
}

unfoldable pub delete_local : CrdtStore → Bytes → CrdtStore
unfolding known_entry tombstone
delete_local s path = record s {
  entries = insert path (tombstone (known_entry (find path s.entries)) path s.node_id) s.entries;
}

-- The four cases of the switch, for the version `local` that stands at the path of `remote`. The
-- fork is written first; `local` is still that entry, since the two paths differ.
pub merge_known : CrdtStore → FileEntry → FileEntry → ClockOrder → CrdtStore × MergeResult
merge_known s local remote equal =
    (s, record { outcome = no_change; path = remote.path; conflict_path = [] })
merge_known s local remote before = (
  record s { entries = insert remote.path remote s.entries },
  record { outcome = applied_remote; path = remote.path; conflict_path = [] },
)
merge_known s local remote after =
    (s, record { outcome = kept_local; path = remote.path; conflict_path = [] })
merge_known s local remote concurrent =
    let conflict_path = make_conflict_path remote.path remote.last_writer in
    let forked = insert conflict_path (record remote { path = conflict_path }) s.entries in
    (
      record s {
        entries =
            insert remote.path (record local { clock = VectorClock.merge local.clock remote.clock })
              forked;
      },
      record { outcome = conflict_forked; path = remote.path; conflict_path = conflict_path },
    )

pub merge_found : CrdtStore → FileEntry → Option FileEntry → CrdtStore × MergeResult
merge_found s remote none = (
  record s { entries = insert remote.path remote s.entries },
  record { outcome = applied_remote; path = remote.path; conflict_path = [] },
)
merge_found s remote (some local) =
    merge_known s local remote (VectorClock.compare local.clock remote.clock)

unfoldable pub merge_remote : CrdtStore → FileEntry → CrdtStore × MergeResult
unfolding merge_known merge_found
merge_remote s remote = merge_found s remote (find remote.path s.entries)

unfoldable pub load_entry : CrdtStore → FileEntry → CrdtStore
load_entry s e = record s { entries = insert e.path e s.entries }

unfoldable pub get : CrdtStore → Bytes → Option FileEntry
get s path = find path s.entries

unfoldable pub all_entries : CrdtStore → List FileEntry
all_entries s = map (λ e. e.1) s.entries

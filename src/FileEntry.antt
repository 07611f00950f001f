-- ===== src/FileEntry.antt =====
-- file_entry.hpp: the metadata of one version of a file.
use p2p_sync_engine.Prelude.{ℕ, Bool, true, false, not, ◌&&◌, Bytes, List, [], ◌∷◌, replicate}
use p2p_sync_engine.Sha256.{Digest}
use p2p_sync_engine.VectorClock
use p2p_sync_engine.VectorClock.{VectorClock}

pub record FileEntry : Type 0 where
  pub path : Bytes
  pub chunk_hashes : List Digest
  pub merkle_root : Digest
  pub clock : VectorClock
  pub last_writer : Bytes
  pub deleted : Bool
  pub size : ℕ

-- `FileEntry entry;`
abbrev pub init : FileEntry
init = record {
  path = [];
  chunk_hashes = [];
  merkle_root = replicate 32 0;
  clock = VectorClock.init;
  last_writer = [];
  deleted = false;
  size = 0;
}

-- `std::vector::empty`
abbrev pub is_empty {ℓ} : {A : Type ℓ} → List A → Bool
is_empty [] = true
is_empty (x ∷ xs) = false

unfoldable pub has_content : FileEntry → Bool
has_content e = not e.deleted && not (is_empty e.chunk_hashes)

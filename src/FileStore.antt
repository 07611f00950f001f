-- ===== src/FileStore.antt =====
-- file_store.hpp, file_store.cpp: chunks on disk, each in a file named by its hash. The disk is a map
-- from files, each under the one path that `resolve` gives it, to their contents; a
-- directory is there when a file is below it.
pub mod Paths
pub mod Chunks
pub mod Inside
pub mod Tree
pub mod Presence
mod Tests
use p2p_sync_engine.Prelude.{
  Bool, ◌||◌, true, false, Bytes, List, [], ◌∷◌, ◌++◌, Option, none, some, codes, ◌==◌,
  if◌then◌else◌,
}
use p2p_sync_engine.Map.{Map, find, insert}
use p2p_sync_engine.Exceptions.{Result, ok, throw, runtime_error, filesystem_error, ◌>>=◌}
use Paths.{is_absolute, is_above, resolve, passes, names_directory}
use p2p_sync_engine.Sha256
use p2p_sync_engine.Sha256.{Digest}
use p2p_sync_engine.Chunker.{Chunk}

abbrev pub Disk : Type 0
Disk = Map Bytes

pub record FileStore : Type 0 where
  pub root : Bytes

-- The file of a chunk.
unfoldable pub chunk_path : FileStore → Digest → Bytes
chunk_path fs hash =
    resolve (fs.root ++ (codes "/chunks/" ++ (Sha256.to_hex hash ++ codes ".chunk")))

-- `fs::exists`
abbrev pub exists : Bytes → Disk → Bool
exists path disk = elim (find path disk) [ none ↦ false | some content ↦ true ]

unfoldable pub put_chunk : FileStore → Chunk → Disk → Disk
put_chunk fs c disk =
    let p = chunk_path fs c.hash in if exists p disk then disk else insert p c.content disk

unfoldable pub has_chunk : FileStore → Digest → Disk → Bool
has_chunk fs hash disk = exists (chunk_path fs hash) disk

-- A missing file throws.
unfoldable pub opened : Digest → Option Bytes → Result Bytes
opened hash none = throw (runtime_error (codes "missing chunk: " ++ Sha256.to_hex hash))
opened hash (some content) = ok content

unfoldable pub get_chunk : FileStore → Digest → Disk → Result Bytes
unfolding opened
get_chunk fs hash disk = opened hash (find (chunk_path fs hash) disk)

unfoldable pub append_chunks : FileStore → Disk → Bytes → List Digest → Result Bytes
append_chunks fs disk out [] = ok out
append_chunks fs disk out (h ∷ hashes) = do
  bytes ← get_chunk fs h disk
  append_chunks fs disk (out ++ bytes) hashes

unfoldable pub reassemble : FileStore → List Digest → Disk → Result Bytes
unfolding append_chunks
reassemble fs hashes disk = append_chunks fs disk [] hashes

-- `fs::path(dir) / relative_path`, for a directory that ends in a name: an absolute path replaces it.
unfoldable pub append_path : Bytes → Bytes → Bytes
unfolding is_absolute
append_path dir path = if is_absolute path then path else dir ++ (b'/' ∷ path)

-- The file that the joined path names.
unfoldable pub join_path : Bytes → Bytes → Bytes
unfolding append_path
join_path dir path = resolve (append_path dir path)

-- One of the directories that the path leads through is a file.
unfoldable pub blocked : Bytes → Disk → Bool
blocked path [] = false
blocked path ((k, content) ∷ disk) =
    let rest = blocked path disk in if passes path k then true else rest

-- `std::ifstream`: there is nothing to read behind a file, nor in a directory.
unfoldable pub read_file : Bytes → Disk → Option Bytes
unfolding blocked
read_file path disk =
    if blocked path disk || names_directory path then none else find (resolve path) disk

-- A directory above the file is a file.
unfoldable pub is_below_file : Bytes → Disk → Bool
is_below_file path [] = false
is_below_file path ((k, content) ∷ disk) =
    let rest = is_below_file path disk in if is_above k path then true else rest

-- `create_directories` throws where a file is in the way: at the path, or at a directory above it.
unfoldable pub create_directories : Bytes → Disk → Result {0} Unit
create_directories path disk =
    if exists (resolve path) disk || is_below_file (resolve path) disk
    then throw filesystem_error
    else ok tt

-- The constructor.
unfoldable pub new : Bytes → Disk → Result FileStore
new root disk = do
  made ← create_directories (root ++ codes "/chunks") disk
  ok (record { root = root })

-- There are files below the path.
unfoldable pub is_directory : Bytes → Disk → Bool
is_directory path [] = false
is_directory path ((k, content) ∷ disk) =
    let rest = is_directory path disk in if is_above path k then true else rest

-- `std::ofstream` does not open a directory, and nothing is said.
unfoldable pub write : Bytes → Bytes → Disk → Disk
write path content disk = if is_directory path disk then disk else insert path content disk

-- The same for a path as it is written.
unfoldable pub write_path : Bytes → Bytes → Disk → Disk
write_path path content disk =
    if names_directory path then disk else write (resolve path) content disk

-- `materialize` behind `create_directories`.
unfoldable pub write_out : FileStore → Bytes → List Digest → Disk → Result Disk
write_out fs full hashes disk = do
  bytes ← reassemble fs hashes disk
  ok (write_path full bytes disk)

unfoldable pub materialize : FileStore → Bytes → Bytes → List Digest → Disk → Result Disk
unfolding write_out
materialize fs materialized_dir relative_path hashes disk =
    let full = append_path materialized_dir relative_path in
    let written = write_out fs full hashes disk in
    if blocked full disk then throw filesystem_error else written

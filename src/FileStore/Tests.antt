-- ===== src/FileStore/Tests.antt =====
-- Two chunks with different names.
use p2p_sync_engine.Prelude.{[], ◌∷◌, ◌≡◌, refl, replicate, codes, str_eq}
use p2p_sync_engine.Map.{find, insert}
use p2p_sync_engine.Exceptions.{ok}
use p2p_sync_engine.Sha256
use p2p_sync_engine.Chunker.{Chunk}
use p2p_sync_engine.FileStore.Paths.{resolve}
use p2p_sync_engine.FileStore.{FileStore, chunk_path, put_chunk, get_chunk, reassemble}
use p2p_sync_engine.FileStore.Chunks.{put_chunks}

abbrev files : FileStore
files = record { root = codes "/blobs" }

abbrev first_chunk : Chunk
first_chunk = record { offset = 0; content = 1 ∷ 2 ∷ []; hash = replicate 32 1 }

abbrev second_chunk : Chunk
second_chunk = record { offset = 2; content = 3 ∷ []; hash = replicate 32 2 }

-- A chunk that stands twice in a file is stored once.
stored_and_read :
    reassemble files
      (replicate 32 1 ∷ replicate 32 2 ∷ replicate 32 1 ∷ [])
      (put_chunks files (first_chunk ∷ second_chunk ∷ first_chunk ∷ []) [])
    ≡ ok (1 ∷ 2 ∷ 3 ∷ 1 ∷ 2 ∷ [])
unfolding chunk_path resolve Sha256.to_hex str_eq reassemble put_chunks put_chunk get_chunk find
    insert
stored_and_read = refl

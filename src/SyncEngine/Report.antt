-- ===== src/SyncEngine/Report.antt =====
-- What `ingest_file` prints: how many chunks differ from the version before.
use p2p_sync_engine.Prelude.{
  ℕ, ◌+◌, Bytes, List, [], ◌∷◌, ◌++◌, Option, none, some, codes, length, str_eq, if◌then◌else◌,
  ◌==◌,
}
use p2p_sync_engine.Streams.{print}
use p2p_sync_engine.Sha256.{Digest}
use p2p_sync_engine.Chunker
use p2p_sync_engine.Chunker.{Chunk}
use p2p_sync_engine.FileEntry.{FileEntry, has_content}
use p2p_sync_engine.CrdtStore
use p2p_sync_engine.SyncEngine.{SyncEngine}

-- The loop that counts the changed chunks, on two lists of one length.
pub count_changed : List Digest → List Chunk → ℕ
count_changed [] chunks = 0
count_changed (h ∷ hashes) [] = 0
count_changed (h ∷ hashes) (c ∷ chunks) =
    let later = count_changed hashes chunks in if str_eq h c.hash then later else later + 1

-- The end of the line, by the version before.
unfoldable pub changes : Option FileEntry → List Chunk → Bytes
unfolding count_changed
changes none chunks = codes "new file, " ++ (print (length chunks) ++ codes " chunk(s)\n")
changes (some prev) chunks =
    if has_content prev
    then if length prev.chunk_hashes == length chunks
      then print (count_changed prev.chunk_hashes chunks)
        ++ (codes "/" ++ (print (length chunks) ++ codes " chunks changed vs. previous version\n"))
      else codes "chunk count changed ("
        ++ (print (length prev.chunk_hashes)
            ++ (codes " -> " ++ (print (length chunks) ++ codes "), treating as full re-chunk\n")))
    else codes "new file, " ++ (print (length chunks) ++ codes " chunk(s)\n")

unfoldable pub report : SyncEngine → Bytes → Bytes → Bytes
unfolding changes
report e path bytes =
    codes "["
    ++ (e.node_id
        ++ (codes "] "
            ++ (path
                ++ (codes ": "
                    ++ changes (CrdtStore.get e.store path) (Chunker.chunk e.chunker bytes)))))

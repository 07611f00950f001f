-- ===== src/Network/Messages.antt =====
-- network.cpp: the payloads of a session: manifests, hash lists and chunks.
use p2p_sync_engine.Prelude.{
  ℕ, zero, suc, ◌%◌, ◌^◌, Bytes, List, [], ◌∷◌, ◌++◌, map, leb, if◌then◌else◌, length, take, drop,
}
use p2p_sync_engine.Exceptions.{Result, ok, ◌>>=◌}
use p2p_sync_engine.Streams.{getlines, join}
use p2p_sync_engine.Sha256.{Digest, to_hex}
use p2p_sync_engine.Chunker.{Chunk}
use p2p_sync_engine.FileEntry.{FileEntry}
use p2p_sync_engine.CrdtStore
use p2p_sync_engine.EntryCodec.{line_to_entry, digests}
use p2p_sync_engine.FileStore
use p2p_sync_engine.FileStore.{FileStore, Disk}
use p2p_sync_engine.SyncEngine.{SyncEngine, journal_text}
use p2p_sync_engine.Network.Frames.{be32, of_be32}

-- The lines behind the node id are those of the journal.
unfoldable pub serialize_manifest : SyncEngine → Bytes
serialize_manifest e = e.node_id ++ (b'\n' ∷ journal_text (CrdtStore.all_entries e.store))

-- The loop over the lines behind the first.
unfoldable pub parse_entries : List Bytes → Result (List FileEntry)
parse_entries [] = ok []
parse_entries ([] ∷ lines) = parse_entries lines
parse_entries ((c ∷ line) ∷ lines) = do
  entry ← line_to_entry (c ∷ line)
  entries ← parse_entries lines
  ok (entry ∷ entries)

-- The first line is the peer's node id, which nothing reads.
unfoldable pub behind_first : List Bytes → List Bytes
behind_first [] = []
behind_first (line ∷ lines) = lines

unfoldable pub parse_manifest : Bytes → Result (List FileEntry)
unfolding parse_entries behind_first
parse_manifest payload = parse_entries (behind_first (getlines b'\n' payload))

unfoldable pub serialize_hash_list : List Digest → Bytes
serialize_hash_list hashes = join b'\n' (map to_hex hashes)

-- The loop skips empty lines, like that of `line_to_entry`.
unfoldable pub parse_hash_list : Bytes → Result (List Digest)
parse_hash_list payload = digests (getlines b'\n' payload)

-- One chunk in a CHUNK_DATA payload: its hash, its length, its bytes.
unfoldable pub chunk_record : Digest → Bytes → Bytes
chunk_record hash bytes = hash ++ (be32 (length bytes % 2 ^ 32) ++ bytes)

-- The answer to a request, where chunks that are not there are left out.
unfoldable pub answer_request : FileStore → List Digest → Disk → Result Bytes
answer_request fs [] disk = ok []
answer_request fs (h ∷ hashes) disk =
    let rest = answer_request fs hashes disk in
    if FileStore.has_chunk fs h disk
    then (FileStore.get_chunk fs h disk
        >>= (λ bytes. rest >>= (λ records. ok (chunk_record h bytes ++ records))))
    else rest

-- The loop over a CHUNK_DATA payload, with fuel: each round takes 36 bytes or more. A length that
-- reaches behind the payload makes the code read out of bounds; here the bytes that are there are
-- taken.
unfoldable pub parse_chunks : ℕ → Bytes → List Chunk
parse_chunks zero payload = []
parse_chunks (suc fuel) payload =
    let len = of_be32 (drop 32 payload) in
    let body = drop 36 payload in
    let rest = parse_chunks fuel (drop len body) in
    if leb 36 (length payload)
    then record { offset = 0; content = take len body; hash = take 32 payload } ∷ rest
    else []

unfoldable pub received_chunks : Bytes → List Chunk
received_chunks payload = parse_chunks (length payload) payload

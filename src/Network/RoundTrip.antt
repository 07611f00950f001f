-- ===== src/Network/RoundTrip.antt =====
-- Payloads that one node writes and the other reads.
use p2p_sync_engine.Prelude.{
  ℕ, zero, suc, ◌<◌, ◌≤◌, ◌^◌, ◌%◌, Bytes, List, [], ◌∷◌, ◌++◌, ◌≡◌, ◌≢◌, refl, sym, ap, ◌∙◌, arith,
  leb, if◌then◌else◌, length, take, drop, All, map, length-append, append_assoc, cons_path, Option,
  none, some, Bool, true, false,
}
use p2p_sync_engine.Map.{find}
use p2p_sync_engine.FileStore.{FileStore, Disk, chunk_path, has_chunk, get_chunk, opened}
use p2p_sync_engine.Exceptions.{Result, ok, ◌>>=◌}
use p2p_sync_engine.Streams.{getlines}
use p2p_sync_engine.Streams.Lines.{Lacks, getlines-part}
use p2p_sync_engine.Sha256.{Digest}
use p2p_sync_engine.Sha256.Padding.{IsDigest}
use p2p_sync_engine.Chunker.{Chunk}
use p2p_sync_engine.FileEntry.{FileEntry}
use p2p_sync_engine.CrdtStore.{all_entries}
use p2p_sync_engine.EntryCodec.{line_to_entry, entry_to_line}
use p2p_sync_engine.EntryCodec.Line.{
  IsWireable, line_to_entry-entry_to_line, entry_to_line-Lacks, digests-join,
}
use p2p_sync_engine.SyncEngine.{SyncEngine, journal_text}
use p2p_sync_engine.Network.Frames.{be32, of_be32}
use p2p_sync_engine.Network.Delivery.{of_be32-be32}
use p2p_sync_engine.Network.Messages.{
  serialize_manifest, parse_entries, parse_manifest, behind_first, serialize_hash_list,
  parse_hash_list, chunk_record, parse_chunks, answer_request, received_chunks,
}

parse_entries-entry :
    (e : FileEntry) (line : Bytes) (lines : List Bytes)
    → line ≢ []
    → line_to_entry line ≡ ok e
    → parse_entries (line ∷ lines) ≡ (parse_entries lines >>= (λ entries. ok (e ∷ entries)))
unfolding parse_entries
parse_entries-entry e [] lines ne h = absurd (ne refl)
parse_entries-entry e (c ∷ line) lines ne h =
    ap (λ r. r >>= (λ entry. parse_entries lines >>= (λ entries. ok (entry ∷ entries)))) h

parse_entries-journal_text :
    (es : List FileEntry)
    → All IsWireable es
    → parse_entries (getlines b'\n' (journal_text es)) ≡ ok es
unfolding journal_text
parse_entries-journal_text [] w = unfold getlines parse_entries in refl
parse_entries-journal_text (e ∷ es) w =
    let line = entry_to_line-Lacks e w.0 in
    ap parse_entries (getlines-part b'\n' (entry_to_line e) (journal_text es) line.0)
    ∙ parse_entries-entry e (entry_to_line e) (getlines b'\n' (journal_text es)) line.1
        (line_to_entry-entry_to_line e w.0)
    ∙ ap (λ (r : Result (List FileEntry)). r >>= (λ entries. ok (e ∷ entries)))
        (parse_entries-journal_text es w.1)

-- A peer reads all versions of a node out of its manifest, if the node's id holds no newline and the
-- line format can carry the versions.
pub parse_manifest-serialize_manifest :
    (e : SyncEngine)
    → Lacks b'\n' e.node_id
    → All IsWireable (all_entries e.store)
    → parse_manifest (serialize_manifest e) ≡ ok (all_entries e.store)
unfolding parse_manifest serialize_manifest behind_first
parse_manifest-serialize_manifest e id w =
    ap (λ lines. parse_entries (behind_first lines))
      (getlines-part b'\n' e.node_id (journal_text (all_entries e.store)) id)
    ∙ parse_entries-journal_text (all_entries e.store) w

-- A list of digests is read back from a request.
pub parse_hash_list-serialize_hash_list :
    (hashes : List Digest)
    → All IsDigest hashes
    → parse_hash_list (serialize_hash_list hashes) ≡ ok hashes
unfolding parse_hash_list serialize_hash_list
parse_hash_list-serialize_hash_list hashes h = digests-join b'\n' hashes (omega arith) h

-- The payload for a list of chunks.
pub records : List Chunk → Bytes
records [] = []
records (c ∷ cs) = chunk_record c.hash c.content ++ records cs

-- A chunk that a record can carry.
pub record IsSendable (c : Chunk) : Type 0 where
  pub whole_hash : length c.hash ≡ 32
  pub fits : length c.content < 2 ^ 32
  pub no_offset : c.offset ≡ 0

take_own : (xs ys : Bytes) → take (length xs) (xs ++ ys) ≡ xs
take_own [] ys = refl
take_own (x ∷ xs) ys = ap (◌∷◌ x) (take_own xs ys)

drop_own : (xs ys : Bytes) → drop (length xs) (xs ++ ys) ≡ ys
drop_own [] ys = refl
drop_own (x ∷ xs) ys = drop_own xs ys

-- One round of the loop over a payload, by what it reads.
abbrev round : ℕ → Bool → ℕ → Bytes → Bytes → List Chunk
round fuel full len hash body =
    if full
    then record { offset = 0; content = take len body; hash = hash }
      ∷ parse_chunks fuel (drop len body)
    else []

parse_chunks-round :
    (fuel : ℕ) (payload : Bytes)
    → parse_chunks (suc fuel) payload
      ≡ round fuel
          (leb 36 (length payload))
          (of_be32 (drop 32 payload))
          (take 32 payload)
          (drop 36 payload)
unfolding parse_chunks
parse_chunks-round fuel payload = refl

round_path :
    (fuel : ℕ) {len len' : ℕ} {hash hash' body body' : Bytes} {full : Bool}
    → full ≡ true
    → len ≡ len'
    → hash ≡ hash'
    → body ≡ body'
    → round fuel full len hash body ≡ round fuel true len' hash' body'
round_path fuel p q r s = λ i. round fuel (p i) (q i) (r i) (s i)

chunk_ext :
    (c : Chunk) (content : Bytes)
    → c.offset ≡ 0
    → content ≡ c.content
    → ◌≡◌ {A = Chunk} (record { offset = 0; content = content; hash = c.hash }) c
chunk_ext c content p q = λ i. record { offset = sym p i; content = q i; hash = c.hash }

parse_chunks-record :
    (fuel : ℕ) (c : Chunk) (rest : Bytes)
    → IsSendable c
    → parse_chunks (suc fuel) (chunk_record c.hash c.content ++ rest) ≡ c ∷ parse_chunks fuel rest
unfolding chunk_record
parse_chunks-record fuel c rest s =
    let n = length c.content % 2 ^ 32 in
    let behind = be32 n ++ (c.content ++ rest) in
    let parts : chunk_record c.hash c.content ++ rest ≡ c.hash ++ behind =
      append_assoc c.hash (be32 n ++ c.content) rest
      ∙ ap (◌++◌ c.hash) (append_assoc (be32 n) c.content rest) in
    let parts' : c.hash ++ behind ≡ (c.hash ++ be32 n) ++ (c.content ++ rest) =
      sym (append_assoc c.hash (be32 n) (c.content ++ rest)) in
    let header : length (c.hash ++ be32 n) ≡ 36 = header_size c.hash n s.whole_hash in
    let hash : take 32 (c.hash ++ behind) ≡ c.hash =
      ap (λ k. take k (c.hash ++ behind)) (sym s.whole_hash) ∙ take_own c.hash behind in
    let sizes : drop 32 (c.hash ++ behind) ≡ behind =
      ap (λ k. drop k (c.hash ++ behind)) (sym s.whole_hash) ∙ drop_own c.hash behind in
    let body : drop 36 (c.hash ++ behind) ≡ c.content ++ rest =
      ap (drop 36) parts'
      ∙ ap (λ k. drop k ((c.hash ++ be32 n) ++ (c.content ++ rest))) (sym header)
      ∙ drop_own (c.hash ++ be32 n) (c.content ++ rest) in
    let size : of_be32 (drop 32 (c.hash ++ behind)) ≡ length c.content =
      ap of_be32 sizes ∙ of_be32-be32 n (c.content ++ rest) (omega arith) ∙ omega (arith, s.fits) in
    let full : leb 36 (length (c.hash ++ behind)) ≡ true = long_enough (c.hash ++ behind) (
      omega
        (arith, header, ap length parts', length-append (c.hash ++ be32 n) (c.content ++ rest))) in
    ap (parse_chunks (suc fuel)) parts
    ∙ parse_chunks-round fuel (c.hash ++ behind)
    ∙ round_path fuel full size hash body
    ∙ cons_path (chunk_ext c _ s.no_offset (take_own c.content rest))
        (ap (parse_chunks fuel) (drop_own c.content rest))
  where
    header_size : (h : Digest) (n : ℕ) → length h ≡ 32 → length (h ++ be32 n) ≡ 36
    header_size h n e = unfold be32 in omega (arith, e, length-append h (be32 n))

    long_enough : (payload : Bytes) → 36 ≤ length payload → leb 36 (length payload) ≡ true
    long_enough payload h = ground arith

records_longer :
    (c : Chunk) (cs : List Chunk) → IsSendable c → length (records cs) < length (records (c ∷ cs))
unfolding records chunk_record
records_longer c cs s = omega (
  arith,
  s.whole_hash,
  length-append (c.hash ++ (be32 (length c.content % 2 ^ 32) ++ c.content)) (records cs),
  length-append c.hash (be32 (length c.content % 2 ^ 32) ++ c.content),
)

parse_chunks-records :
    (fuel : ℕ) (cs : List Chunk)
    → length (records cs) ≤ fuel
    → All IsSendable cs
    → parse_chunks fuel (records cs) ≡ cs
unfolding records
parse_chunks-records zero [] le s = unfold parse_chunks in refl
parse_chunks-records (suc fuel) [] le s = unfold parse_chunks in refl
parse_chunks-records zero (c ∷ cs) le s = absurd (omega (arith, le, records_longer c cs s.0))
parse_chunks-records (suc fuel) (c ∷ cs) le s =
    parse_chunks-record fuel c (records cs) s.0
    ∙ ap (◌∷◌ c) (parse_chunks-records fuel cs (omega (arith, le, records_longer c cs s.0)) s.1)

-- The chunk file of each chunk is there.
abbrev pub Stored : FileStore → Disk → List Chunk → Type 0
Stored fs disk = All (λ c. find (chunk_path fs c.hash) disk ≡ some c.content)

answer_request-there :
    (fs : FileStore) (disk : Disk) (h : Digest) (hashes : List Digest) (bytes : Bytes)
    → find (chunk_path fs h) disk ≡ some bytes
    → answer_request fs (h ∷ hashes) disk
      ≡ (answer_request fs hashes disk >>= (λ records. ok (chunk_record h bytes ++ records)))
unfolding answer_request has_chunk get_chunk opened
answer_request-there fs disk h hashes bytes e =
    let rest = answer_request fs hashes disk in
    ap
      (λ (o : Option Bytes).
        if elim o [ none ↦ false | some content ↦ true ]
        then opened h o >>= (λ b. rest >>= (λ records. ok (chunk_record h b ++ records)))
        else rest)
      e

answer_request-records :
    (fs : FileStore) (disk : Disk) (cs : List Chunk)
    → Stored fs disk cs
    → answer_request fs (map (λ (c : Chunk). c.hash) cs) disk ≡ ok (records cs)
answer_request-records fs disk [] s = unfold answer_request records in refl
answer_request-records fs disk (c ∷ cs) s =
    answer_request-there fs disk c.hash (map (λ (k : Chunk). k.hash) cs) c.content s.0
    ∙ ap (λ (r : Result Bytes). r >>= (λ records. ok (chunk_record c.hash c.content ++ records)))
        (answer_request-records fs disk cs s.1)
    ∙ (unfold records in refl)

-- The chunks that a node has on its disk and is asked for arrive at the node that asks: the answer to a
-- request for their hashes is made without an exception, and is read as those chunks, in the order of the
-- request. Their hashes are whole digests, and each is below 4 GiB.
pub received_chunks-answer_request :
    (fs : FileStore) (disk : Disk) (cs : List Chunk)
    → Stored fs disk cs
    → All IsSendable cs
    → (payload : Bytes) × (answer_request fs (map (λ (c : Chunk). c.hash) cs) disk ≡ ok payload)
      × (received_chunks payload ≡ cs)
unfolding received_chunks
received_chunks-answer_request fs disk cs s sendable = (
  records cs,
  answer_request-records fs disk cs s,
  parse_chunks-records (length (records cs)) cs (omega arith) sendable,
)

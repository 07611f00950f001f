-- ===== src/Network/Tests.antt =====
-- The theorems on messages and sessions at concrete values.
use p2p_sync_engine.Prelude.{
  ◌+◌, ◌≡◌, ◌↔◌, ◌⊎◌, refl, arith, Bytes, List, [], ◌∷◌, ◌++◌, some, true, codes, replicate, concat,
  All, str_eq_refl, ◌∙◌,
}
use p2p_sync_engine.Map.{find, insert, find-insert}
use p2p_sync_engine.Exceptions.{ok}
use p2p_sync_engine.Chunker.{Chunk}
use p2p_sync_engine.CrdtStore.{all_entries}
use p2p_sync_engine.CrdtStore.Convergence.{merge_all}
use p2p_sync_engine.FileStore.{Disk, chunk_path}
use p2p_sync_engine.SyncEngine.{SyncEngine, engine}
use p2p_sync_engine.EntryCodec.Line.{IsWireable}
use p2p_sync_engine.EntryCodec.Tests.{version_a-IsWireable}
use p2p_sync_engine.Fixtures.{node_a, store_a, version_b}
use p2p_sync_engine.Network.Frames.{Frame, send_frame, recv_frame, be32}
use p2p_sync_engine.Network.Delivery.{Flows, recv_frame-send_frame}
use p2p_sync_engine.Network.Messages.{
  serialize_manifest, parse_manifest, answer_request, received_chunks,
}
use p2p_sync_engine.Network.RoundTrip.{
  IsSendable, Stored, parse_manifest-serialize_manifest, received_chunks-answer_request,
}
use p2p_sync_engine.Network.Session.{start, merge_entries, need_chunks}
use p2p_sync_engine.Network.Merges.{counted, merge_entries-merge_all}
use p2p_sync_engine.Network.Requests.{Lacking, need_chunks-Lacking}

abbrev frame : Frame
frame = record { kind = 2; payload = 7 ∷ 8 ∷ [] }

-- The header in two pieces, and the payload together with what is behind it.
abbrev pieces : List Bytes
pieces = (0 ∷ 0 ∷ []) ∷ (0 ∷ 2 ∷ 2 ∷ []) ∷ (7 ∷ 8 ∷ 9 ∷ []) ∷ []

pieces-Flows : Flows pieces
pieces-Flows = ((λ q. cc), ((λ q. cc), ((λ q. cc), tt)))

pieces_hold : concat pieces ≡ send_frame frame ++ (9 ∷ [])
unfolding send_frame be32
pieces_hold = refl

recv_frame-send_frame_example :
    (left : List Bytes) × (recv_frame pieces ≡ some (frame, left))
    × (concat left ≡ 9 ∷ [])
    × Flows left
recv_frame-send_frame_example =
    recv_frame-send_frame frame pieces (9 ∷ []) (omega arith) pieces-Flows pieces_hold

abbrev node : SyncEngine
node = engine node_a (codes "d") store_a

entries-IsWireable : All (λ e. IsWireable e) (all_entries store_a)
unfolding all_entries
entries-IsWireable = (version_a-IsWireable, tt)

parse_manifest-serialize_manifest_example :
    parse_manifest (serialize_manifest node) ≡ ok (all_entries store_a)
parse_manifest-serialize_manifest_example =
    parse_manifest-serialize_manifest node ((λ e. omega (arith, e)), tt) entries-IsWireable

abbrev stored_chunk : Chunk
stored_chunk = record { offset = 0; content = 5 ∷ 6 ∷ []; hash = replicate 32 1 }

abbrev disk : Disk
disk = insert (chunk_path node.blobs (replicate 32 1)) (5 ∷ 6 ∷ []) []

stored_chunk-Stored : Stored node.blobs disk (stored_chunk ∷ [])
stored_chunk-Stored = (found, tt)
  where
    found : find (chunk_path node.blobs (replicate 32 1)) disk ≡ some (5 ∷ 6 ∷ [])
    found =
        find-insert _ (chunk_path node.blobs (replicate 32 1)) (5 ∷ 6 ∷ []) []
        ∙ (rw (str_eq_refl (chunk_path node.blobs (replicate 32 1))) refl)

stored_chunk-IsSendable : IsSendable stored_chunk
stored_chunk-IsSendable = record { whole_hash = refl; fits = omega arith; no_offset = refl }

received_chunks-answer_request_example :
    (payload : Bytes) × (answer_request node.blobs (replicate 32 1 ∷ []) disk ≡ ok payload)
    × (received_chunks payload ≡ stored_chunk ∷ [])
received_chunks-answer_request_example =
    received_chunks-answer_request node.blobs disk (stored_chunk ∷ []) stored_chunk-Stored
      (stored_chunk-IsSendable, tt)

merge_entries-merge_all_example :
    ((merge_entries node.blobs [] (version_b ∷ []) (start node)).store
      ≡ merge_all store_a (version_b ∷ []))
    × (counted (merge_entries node.blobs [] (version_b ∷ []) (start node)).stats ≡ 0 + 1)
merge_entries-merge_all_example =
    merge_entries-merge_all node.blobs [] (version_b ∷ []) (start node)

need_chunks-Lacking_example :
    (find (codes "00") (need_chunks node.blobs [] (replicate 32 1 ∷ []) []) ≡ some true) ↔ (
      (find (codes "00") [] ≡ some true) ⊎ Lacking node.blobs [] (replicate 32 1 ∷ []) (codes "00"))
need_chunks-Lacking_example =
    need_chunks-Lacking node.blobs [] (replicate 32 1 ∷ []) [] (codes "00")

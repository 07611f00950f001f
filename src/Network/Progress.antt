-- ===== src/Network/Progress.antt =====
-- What a node does with each message of a peer that is in good order.
use p2p_sync_engine.Prelude.{
  true, Bytes, List, [], ◌∷◌, inl, some, ◌≡◌, sym, ap, subst, ◌∙◌, map, All, All-imp, length,
}
use p2p_sync_engine.Prelude.{◌<◌, ◌^◌}
use p2p_sync_engine.Network.Messages.{serialize_manifest, answer_request}
use p2p_sync_engine.Network.Session.{needed_digests}
use p2p_sync_engine.Exceptions.{ok}
use p2p_sync_engine.Map.{find, All-of_find, All-values}
use p2p_sync_engine.Exceptions.{Result, ◌>>=◌}
use p2p_sync_engine.Streams.Lines.{Lacks}
use p2p_sync_engine.Sha256.{Digest}
use p2p_sync_engine.Sha256.Padding.{IsDigest}
use p2p_sync_engine.Chunker.{Chunk}
use p2p_sync_engine.FileEntry.{FileEntry}
use p2p_sync_engine.CrdtStore.{get, all_entries}
use p2p_sync_engine.CrdtStore.Invariant.{IsValid}
use p2p_sync_engine.EntryCodec.Line.{IsWireable}
use p2p_sync_engine.FileStore.{Disk, has_chunk}
use p2p_sync_engine.FileStore.Chunks.{put_chunks}
use p2p_sync_engine.SyncEngine.{SyncEngine, save_journal}
use p2p_sync_engine.SyncEngine.Complete.{
  IsComplete, IsComplete-Keeps, save_journal-Keeps, IsTidy, on_disk,
}
use p2p_sync_engine.FileStore.Tree.{put_chunks-IsUsed}
use p2p_sync_engine.Network.Messages.{serialize_hash_list, answer_request, received_chunks}
use p2p_sync_engine.Network.RoundTrip.{
  parse_manifest-serialize_manifest, parse_hash_list-serialize_hash_list,
}
use p2p_sync_engine.Network.Session.{SyncStats, Merging, start, merge_entries, expect}
use p2p_sync_engine.Network.Needs.{Tracks, merge_entries-Tracks}
use p2p_sync_engine.Network.Fetch.{
  Prints, needed_digests-IsWanted, IsSmall, request_answered, Covered-stored,
  materialize_all-IsComplete,
}
use p2p_sync_engine.Network.Rounds.{
  Message, wait_manifest, wait_request, wait_chunks, wait_done, opening, ask, on_manifest,
  on_request, save, on_chunks, receive,
}

-- A node in good order: a valid store of versions that the line format can carry, with all their chunk
-- files on the disk, none of 4 GiB or more, a node id without a newline, and a manifest below 4 GiB.
pub record IsReady (e : SyncEngine) (disk : Disk) : Type 0 where
  pub valid : IsValid e.store
  pub wireable : All (λ (x : Bytes × FileEntry). IsWireable x.1) e.store.entries
  pub complete : IsComplete e disk
  pub small : IsSmall e.blobs disk
  pub plain_id : Lacks b'\n' e.node_id
  pub short : length (serialize_manifest e) < 2 ^ 32

All-both {ℓ κ μ} :
    {A : Type ℓ} (P : A → Type κ) (Q : A → Type μ) (xs : List A)
    → All P xs
    → All Q xs
    → All (λ x. P x × Q x) xs
All-both P Q [] p q = tt
All-both P Q (x ∷ xs) p q = ((p.0, q.0), All-both P Q xs p.1 q.1)

entries-IsWireable :
    (e : SyncEngine) (disk : Disk) → IsReady e disk → All IsWireable (all_entries e.store)
unfolding all_entries
entries-IsWireable e disk r = All-values IsWireable e.store.entries r.wireable

-- All that the manifest names is a digest, and its chunk is there.
entries-IsOffer :
    (e : SyncEngine) (disk : Disk)
    → IsReady e disk
    → All
        (λ (x : FileEntry).
          All (λ h. IsDigest h × (has_chunk e.blobs h disk ≡ true)) x.chunk_hashes)
        (all_entries e.store)
unfolding all_entries get
entries-IsOffer e disk r =
    All-values
      (λ (x : FileEntry). All (λ h. IsDigest h × (has_chunk e.blobs h disk ≡ true)) x.chunk_hashes)
      e.store.entries
      (All-imp (λ x p. All-both _ _ x.1.chunk_hashes p.0.chunk_digests p.1) e.store.entries
        (All-both _ _ e.store.entries r.wireable (
          All-of_find (λ (x : FileEntry). All (λ h. has_chunk e.blobs h disk ≡ true) x.chunk_hashes)
            e.store.entries r.valid.sorted r.complete)))

-- The merge loop on the entries of the peer `p`.
abbrev pub merging : SyncEngine → Disk → SyncEngine → Merging
merging e disk p = merge_entries e.blobs disk (all_entries p.store) (start e)

-- The engine behind the loop.
abbrev pub merged : SyncEngine → Disk → SyncEngine → SyncEngine
merged e disk p = record e { store = (merging e disk p).store }

abbrev pub request : List Digest → Message
request ds = some (record { kind = 2; payload = serialize_hash_list ds })

abbrev pub chunk_data : Bytes → Message
chunk_data payload = some (record { kind = 3; payload = payload })

abbrev pub done : Message
done = some (record { kind = 4; payload = [] })

-- The request of the node `e` for chunks of `p`, and the answer of `p`, are below 4 GiB.
pub record FitFrames (e : SyncEngine) (disk : Disk) (p : SyncEngine) (disk_p : Disk) : Type 0 where
  pub short_request :
      (ds : List Digest)
      → needed_digests (merging e disk p).needed_hex ≡ ok ds
      → length (serialize_hash_list ds) < 2 ^ 32
  pub short_answer :
      (ds : List Digest) (payload : Bytes)
      → needed_digests (merging e disk p).needed_hex ≡ ok ds
      → answer_request p.blobs ds disk_p ≡ ok payload
      → length payload < 2 ^ 32

module _ (e : SyncEngine) (disk : Disk) (p : SyncEngine) (disk_p : Disk) (ready : IsReady e disk)
    (ready_p : IsReady p disk_p) where
  abbrev IsThere : Digest → Type 0
  IsThere h = has_chunk p.blobs h disk_p ≡ true

  tracks : Tracks e.blobs disk IsThere (merging e disk p)
  unfolding get
  tracks =
      merge_entries-Tracks e.blobs disk IsThere (all_entries p.store) (start e)
        (entries-IsOffer p disk_p ready_p)
        (record {
          covered = λ k x g. All-imp (λ h t. inl t) x.chunk_hashes (ready.complete k x g);
          wanted = tt;
        })

  -- The manifest of the peer is merged, and answered by a request for digests whose chunks the peer has.
  pub manifest_merged :
      (ds : List Digest) × (receive (wait_manifest e disk) (opening p)
        ≡ (wait_request (merged e disk p) disk (merging e disk p), request ds ∷ []))
      × (needed_digests (merging e disk p).needed_hex ≡ ok ds)
      × All (λ d. IsDigest d × (has_chunk p.blobs d disk_p ≡ true)) ds
      × ((j : Bytes) → find j (merging e disk p).needed_hex ≡ some true → Prints ds j)
  unfolding receive opening on_manifest ask expect
  manifest_merged =
      let want =
        needed_digests-IsWanted e.blobs disk IsThere (merging e disk p).needed_hex tracks.wanted in
      (
        want.0,
        ap (on_manifest e disk) (
              parse_manifest-serialize_manifest p ready_p.plain_id
                (entries-IsWireable p disk_p ready_p))
            ∙ ap (ask (merged e disk p) disk (merging e disk p)) want.1,
        want.1,
        want.2,
        want.3,
      )

  -- The peer's request for chunks that are there is answered by these chunks.
  pub request_served :
      (ds : List Digest)
      → All (λ d. IsDigest d × (has_chunk e.blobs d disk ≡ true)) ds
      → (payload : Bytes) × (receive
            (wait_request (merged e disk p) disk (merging e disk p))
            (request ds)
          ≡ (wait_chunks (merged e disk p) disk (merging e disk p), chunk_data payload ∷ []))
        × (answer_request e.blobs ds disk ≡ ok payload)
        × (map (λ (c : Chunk). c.hash) (received_chunks payload) ≡ ds)
  unfolding receive on_request expect
  request_served ds h =
      let answer = request_answered e.blobs disk ready.small ds h in
      (
        answer.0,
        ap
              (λ (o : Result (List Digest)).
                on_request (merged e disk p) disk (merging e disk p)
                  (o >>= (λ their_needed. answer_request e.blobs their_needed disk)))
              (parse_hash_list-serialize_hash_list ds (All-imp (λ d x. x.0) ds h))
            ∙ ap (on_request (merged e disk p) disk (merging e disk p)) answer.1,
        answer.1,
        answer.2,
      )

  -- The chunks that were asked for are stored, all files are written out, and the engine is complete.
  pub chunks_stored :
      (Used : Bytes → Type 0) (ds : List Digest) (payload : Bytes)
      → IsTidy Used (merged e disk p) disk
      → ((j : Bytes) → find j (merging e disk p).needed_hex ≡ some true → Prints ds j)
      → map (λ (c : Chunk). c.hash) (received_chunks payload) ≡ ds
      → (disk' : Disk) × (stats : SyncStats) × (receive
            (wait_chunks (merged e disk p) disk (merging e disk p))
            (chunk_data payload)
          ≡ (wait_done (merged e disk p) disk' stats, done ∷ []))
        × IsComplete (merged e disk p) disk'
  unfolding receive on_chunks save expect
  chunks_stored Used ds payload tidy asked same =
      let cs = received_chunks payload in
      let stored : Disk = put_chunks e.blobs cs disk in
      let now : IsComplete (merged e disk p) stored = λ k x g.
        All-imp
          (λ h c.
            Covered-stored e.blobs disk (merging e disk p).needed_hex cs h
              (λ j q. subst (λ l. Prints l j) (sym same) (asked j q)) c)
          x.chunk_hashes (tracks.covered k x g) in
      let out =
        materialize_all-IsComplete Used (merged e disk p) (merging e disk p).materialize_paths
          stored
          (on_disk Used (merged e disk p) disk stored tidy
            (put_chunks-IsUsed Used e.blobs cs disk tidy.chunk tidy.used))
          now in
      (
        save_journal (merged e disk p) out.0,
        record (merging e disk p).stats { chunks_fetched = length cs },
        ap (save (merged e disk p) (record (merging e disk p).stats { chunks_fetched = length cs }))
            out.1,
        IsComplete-Keeps (merged e disk p) out.0 (save_journal (merged e disk p) out.0)
            (save_journal-Keeps (merged e disk p) out.0)
            (IsComplete-Keeps (merged e disk p) stored out.0 out.2 now),
      )

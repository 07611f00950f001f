-- ===== src/Network/Fetch.antt =====
-- The chunks that a session needs: the request for them, the answer, and what is stored.
use p2p_sync_engine.Prelude.{
  ◌<◌, ◌^◌, Bool, true, false, Bytes, List, [], ◌∷◌, none, some, ◌≡◌, refl, sym, ap, ◌∙◌, map, ◌⊎◌,
  inl, inr, All, length, str_eq, str_eq_iff, if◌then◌else◌,
}
use p2p_sync_engine.Map.{Map, find, Every}
use p2p_sync_engine.Exceptions.{Result, ok, throw, ◌>>=◌}
use p2p_sync_engine.Sha256.{Digest, to_hex}
use p2p_sync_engine.Sha256.Padding.{IsDigest}
use p2p_sync_engine.Chunker.{Chunk}
use p2p_sync_engine.EntryCodec.{hex_to_digest}
use p2p_sync_engine.EntryCodec.Hex.{hex_to_digest-to_hex}
use p2p_sync_engine.FileStore.{FileStore, Disk, chunk_path, has_chunk}
use p2p_sync_engine.FileStore.Chunks.{put_chunks}
use p2p_sync_engine.FileStore.Presence.{
  Keeps, has_chunk_print, found_chunk, put_chunks-Keeps, put_chunks-has,
}
use p2p_sync_engine.SyncEngine.{SyncEngine}
use p2p_sync_engine.SyncEngine.Complete.{
  IsComplete, IsComplete-Keeps, IsTidy, materialize-IsComplete,
}
use p2p_sync_engine.Network.Messages.{answer_request, received_chunks}
use p2p_sync_engine.Network.RoundTrip.{IsSendable, Stored, received_chunks-answer_request}
use p2p_sync_engine.Network.Session.{needed_digests, materialize_all}
use p2p_sync_engine.Network.Needs.{Covered, IsWanted, IsOffer}

-- One of the digests prints as `j`.
abbrev pub Prints : List Digest → Bytes → Type 0
Prints [] j = ⊥
Prints (d ∷ ds) j = (to_hex d ≡ j) ⊎ Prints ds j

module _ (fs : FileStore) (disk : Disk) (Offered : Digest → Type 0) where
  -- The prints of wanted digests are read without an exception, as wanted digests, and none is lost.
  pub needed_digests-IsWanted :
      (needed : Map Bool)
      → Every (λ j mark. IsWanted fs disk Offered j) needed
      → (ds : List Digest) × (needed_digests needed ≡ ok ds)
        × All (IsOffer fs disk Offered) ds
        × ((j : Bytes) → find j needed ≡ some true → Prints ds j)
  unfolding needed_digests find
  needed_digests-IsWanted [] w = ([], refl, tt, λ j q. cc)
  needed_digests-IsWanted ((k, mark) ∷ needed) w =
      let one = w.0 in
      let rest = needed_digests-IsWanted needed w.1 in
      let read : hex_to_digest k ≡ ok one.0 =
        ap hex_to_digest (sym one.2) ∙ hex_to_digest-to_hex one.0 one.1 in
      (
        one.0 ∷ rest.0,
        ap (λ o. o >>= (λ d. needed_digests needed >>= (λ ds. ok (d ∷ ds)))) read
            ∙ ap (λ (o : Result (List Digest)). o >>= (λ ds. ok (one.0 ∷ ds))) rest.1,
        ((one.1, one.3), rest.2),
        λ j q. by_key one.0 rest.0 one.2 rest.3 j (str_eq k j) refl q,
      )
    where
      by_key :
          (d : Digest) (ds : List Digest)
          → to_hex d ≡ k
          → ((j : Bytes) → find j needed ≡ some true → Prints ds j)
          → (j : Bytes) (b : Bool) → str_eq k j ≡ b
          → (if b then some mark else find j needed) ≡ some true
          → Prints (d ∷ ds) j
      by_key d ds print later j true e q = inl (print ∙ (str_eq_iff k j).0 e)
      by_key d ds print later j false e q = inr (later j q)

-- Chunk files of less than 4 GiB.
abbrev pub IsSmall : FileStore → Disk → Type 0
IsSmall fs disk =
    (h : Digest) (bytes : Bytes) → find (chunk_path fs h) disk ≡ some bytes → length bytes < 2 ^ 32

module _ (fs : FileStore) (disk : Disk) (small : IsSmall fs disk) where
  servable :
      (ds : List Digest)
      → All (λ d. IsDigest d × (has_chunk fs d disk ≡ true)) ds
      → (cs : List Chunk) × (map (λ (c : Chunk). c.hash) cs ≡ ds)
        × Stored fs disk cs
        × All IsSendable cs
  servable [] h = ([], refl, tt, tt)
  servable (d ∷ ds) h =
      let rest = servable ds h.1 in
      let file = found_chunk fs d disk h.0.1 in
      let c : Chunk = record { offset = 0; content = file.0; hash = d } in
      (
        c ∷ rest.0,
        ap (◌∷◌ d) rest.1,
        (file.1, rest.2),
        (
          record { whole_hash = h.0.0.size; fits = small d file.0 file.1; no_offset = refl },
          rest.3,
        ),
      )

  -- A request for chunks that are there is answered with chunks of these hashes.
  pub request_answered :
      (ds : List Digest)
      → All (λ d. IsDigest d × (has_chunk fs d disk ≡ true)) ds
      → (payload : Bytes) × (answer_request fs ds disk ≡ ok payload)
        × (map (λ (c : Chunk). c.hash) (received_chunks payload) ≡ ds)
  request_answered ds h =
      let cs = servable ds h in
      let sent = received_chunks-answer_request fs disk cs.0 cs.2 cs.3 in
      (
        sent.0,
        ap (λ hs. answer_request fs hs disk) (sym cs.1) ∙ sent.1,
        ap (map (λ (c : Chunk). c.hash)) sent.2 ∙ cs.1,
      )

printed_there :
    (fs : FileStore) (cs : List Chunk) (disk : Disk) (h : Digest)
    → All (λ (c : Chunk). has_chunk fs c.hash disk ≡ true) cs
    → Prints (map (λ (c : Chunk). c.hash) cs) (to_hex h)
    → has_chunk fs h disk ≡ true
printed_there fs [] disk h there p = absurd p
printed_there fs (c ∷ cs) disk h there (inl e) = has_chunk_print fs c.hash h disk e there.0
printed_there fs (c ∷ cs) disk h there (inr p) = printed_there fs cs disk h there.1 p

-- Behind the loop that stores them, what was covered is there.
pub Covered-stored :
    (fs : FileStore) (disk : Disk) (needed : Map Bool) (cs : List Chunk) (h : Digest)
    → ((j : Bytes) → find j needed ≡ some true → Prints (map (λ (c : Chunk). c.hash) cs) j)
    → Covered fs disk needed h
    → has_chunk fs h (put_chunks fs cs disk) ≡ true
unfolding has_chunk
Covered-stored fs disk needed cs h asked (inl t) = put_chunks-Keeps fs cs disk (chunk_path fs h) t
Covered-stored fs disk needed cs h asked (inr q) =
    printed_there fs cs (put_chunks fs cs disk) h (put_chunks-has fs cs disk) (asked (to_hex h) q)

-- A complete engine writes out all paths without an exception, if no file is in the way of another.
pub materialize_all-IsComplete :
    (Used : Bytes → Type 0) (e : SyncEngine) (paths : List Bytes) (disk : Disk)
    → IsTidy Used e disk
    → IsComplete e disk
    → (disk' : Disk) × (materialize_all e paths disk ≡ (disk', none))
      × Keeps disk disk'
      × IsTidy Used e disk'
unfolding materialize_all
materialize_all-IsComplete Used e [] disk t c = (disk, refl, (λ q p. p), t)
materialize_all-IsComplete Used e (p ∷ paths) disk t c =
    let one = materialize-IsComplete Used e p disk t c in
    let rest =
      materialize_all-IsComplete Used e paths one.0 one.3 (IsComplete-Keeps e disk one.0 one.2 c) in
    (
      rest.0,
      ap
            (λ (o : Result Disk). elim o [
              | ok disk' ↦ materialize_all e paths disk'
              | throw x ↦ (disk, some x)
            ])
            one.1
          ∙ rest.1,
      (λ q there. rest.2 q (one.2 q there)),
      rest.3,
    )

-- ===== src/Network/Rounds.antt =====
-- network.cpp: `run_sync_session` on one node, as the phases in which it waits for a frame of the peer.
-- An exception ends the session, and closes the connection when the program ends.
use p2p_sync_engine.Prelude.{
  ℕ, Bool, true, false, Bytes, List, [], ◌∷◌, ◌++◌, Option, none, some, codes, length,
}
use p2p_sync_engine.Exceptions.{Exception, runtime_error, Result, ok, throw, ◌>>=◌}
use p2p_sync_engine.Sha256.{Digest}
use p2p_sync_engine.FileEntry.{FileEntry}
use p2p_sync_engine.FileStore.{Disk}
use p2p_sync_engine.FileStore.Chunks.{put_chunks}
use p2p_sync_engine.SyncEngine.{SyncEngine, save_journal}
use p2p_sync_engine.Network.Frames.{Frame}
use p2p_sync_engine.Network.Messages.{
  serialize_manifest, parse_manifest, serialize_hash_list, parse_hash_list, answer_request,
  received_chunks,
}
use p2p_sync_engine.Network.Session.{
  SyncStats, Merging, start, merge_entries, expect, needed_digests, materialize_all,
}

-- What `recv_frame` gives, and what a node leaves for it: a frame, or the end of the connection.
abbrev pub Message : Type 0
Message = Option Frame

-- The engine and the disk are those at the moment: the engine has its merged store as soon as the
-- entries of the peer are merged.
pub data Phase : Type 0 where
  wait_manifest : SyncEngine → Disk → Phase
  wait_request wait_chunks : SyncEngine → Disk → Merging → Phase
  wait_done finished : SyncEngine → Disk → SyncStats → Phase
  failed : SyncEngine → Disk → Exception → Phase

-- The frame that goes out first.
unfoldable pub opening : SyncEngine → Message
opening e = some (record { kind = 1; payload = serialize_manifest e })

-- The request for the chunks that are needed.
unfoldable pub ask : SyncEngine → Disk → Merging → Result (List Digest) → Phase × List Message
ask e disk m (throw x) = (failed e disk x, none ∷ [])
ask e disk m (ok needed) =
    (wait_request e disk m, some (record { kind = 2; payload = serialize_hash_list needed }) ∷ [])

unfoldable pub on_manifest : SyncEngine → Disk → Result (List FileEntry) → Phase × List Message
unfolding ask
on_manifest e disk (throw x) = (failed e disk x, none ∷ [])
on_manifest e disk (ok remote_entries) =
    let m = merge_entries e.blobs disk remote_entries (start e) in
    ask (record e { store = m.store }) disk m (needed_digests m.needed_hex)

unfoldable pub on_request : SyncEngine → Disk → Merging → Result Bytes → Phase × List Message
on_request e disk m (throw x) = (failed e disk x, none ∷ [])
on_request e disk m (ok chunk_data) =
    (wait_chunks e disk m, some (record { kind = 3; payload = chunk_data }) ∷ [])

-- Behind the loop that writes the files out.
unfoldable pub save : SyncEngine → SyncStats → Disk × Option Exception → Phase × List Message
save e stats (disk, some x) = (failed e disk x, none ∷ [])
save e stats (disk, none) =
    (wait_done e (save_journal e disk) stats, some (record { kind = 4; payload = [] }) ∷ [])

unfoldable pub on_chunks : SyncEngine → Disk → Merging → Result Bytes → Phase × List Message
unfolding save
on_chunks e disk m (throw x) = (failed e disk x, none ∷ [])
on_chunks e disk m (ok payload) =
    let chunks = received_chunks payload in
    save e (record m.stats { chunks_fetched = length chunks })
      (materialize_all e m.materialize_paths (put_chunks e.blobs chunks disk))

-- What a node does with the next message, and what it sends then. The last frame is not looked at.
unfoldable pub receive : Phase → Message → Phase × List Message
unfolding on_manifest on_request on_chunks
receive (wait_manifest e disk) f =
    on_manifest e disk (
      expect 1 (codes "expected MANIFEST frame from peer") f
      >>= (λ payload. parse_manifest payload))
receive (wait_request e disk m) f = on_request e disk m (
    expect 2 (codes "expected CHUNK_REQUEST frame from peer") f
    >>= (λ payload. parse_hash_list payload)
    >>= (λ their_needed. answer_request e.blobs their_needed disk))
receive (wait_chunks e disk m) f =
    on_chunks e disk m (expect 3 (codes "expected CHUNK_DATA frame from peer") f)
receive (wait_done e disk stats) f = (finished e disk stats, [])
receive (finished e disk stats) f = (finished e disk stats, [])
receive (failed e disk x) f = (failed e disk x, [])

-- The messages that the node will still wait for.
abbrev pub rounds_left : Phase → ℕ
rounds_left (wait_manifest e disk) = 4
rounds_left (wait_request e disk m) = 3
rounds_left (wait_chunks e disk m) = 2
rounds_left (wait_done e disk stats) = 1
rounds_left (finished e disk stats) = 0
rounds_left (failed e disk x) = 0

-- What `send_all` and `recv_all` throw.
abbrev pub send_failed : Exception
send_failed = runtime_error (codes "send() failed / peer closed connection")

abbrev pub recv_failed : Exception
recv_failed = runtime_error (codes "recv() failed")

-- A call of `recv_frame` that throws.
unfoldable pub broken : Phase → Phase × List Message
broken (wait_manifest e disk) = (failed e disk recv_failed, none ∷ [])
broken (wait_request e disk m) = (failed e disk recv_failed, none ∷ [])
broken (wait_chunks e disk m) = (failed e disk recv_failed, none ∷ [])
broken (wait_done e disk stats) = (failed e disk recv_failed, none ∷ [])
broken (finished e disk stats) = (finished e disk stats, [])
broken (failed e disk x) = (failed e disk x, [])

-- A node that waits again has sent a frame last; here that call of `send_frame` throws.
unfoldable pub unsent : Phase → Phase × List Message → Phase × List Message
unsent (wait_manifest e disk) r = (failed e disk send_failed, none ∷ [])
unsent (wait_request e disk m) r = (failed e disk send_failed, none ∷ [])
unsent (wait_chunks e disk m) r = (failed e disk send_failed, none ∷ [])
unsent (wait_done e disk stats) r = (failed e disk send_failed, none ∷ [])
unsent (finished e disk stats) r = r
unsent (failed e disk x) r = r

-- What the connection does: a message comes in, and the frame that answers it goes out or not; or `recv`
-- fails.
pub data Event : Type 0 where
  arrives : Message → (goes_out : Bool) → Event
  breaks : Event

unfoldable pub react : Phase → Event → Phase × List Message
unfolding receive broken unsent
react p breaks = broken p
react p (arrives f true) = receive p f
react p (arrives f false) = unsent (receive p f).0 (receive p f)

-- The events, one after the other.
unfoldable pub feed : Phase → List Event → Phase × List Message
unfolding react
feed p [] = (p, [])
feed p (f ∷ fs) = let r = react p f in let later = feed r.0 fs in (later.0, r.1 ++ later.1)

-- The manifest goes out or not, and the events behind that.
unfoldable pub begun : SyncEngine → Disk → Bool → Phase × List Message
begun e disk true = (wait_manifest e disk, opening e ∷ [])
begun e disk false = (failed e disk send_failed, none ∷ [])

-- The phase after the events, and all that was sent.
unfoldable pub run_sync_session : SyncEngine → Disk → Bool → List Event → Phase × List Message
unfolding feed begun
run_sync_session e disk opens events =
    let first = begun e disk opens in let r = feed first.0 events in (r.0, first.1 ++ r.1)

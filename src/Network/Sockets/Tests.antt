-- ===== src/Network/Sockets/Tests.antt =====
-- Sockets on a small system: two descriptors that can be open, and a peer that is always there.
use p2p_sync_engine.Prelude.{
  ◌++◌, arith, inl, ℕ, suc, Bool, true, false, Bytes, [], ◌∷◌, Option, none, some, ◌==◌,
  if◌then◌else◌, ◌≡◌, refl, codes,
}
use p2p_sync_engine.Streams.Int.{pos}
use p2p_sync_engine.Network.Sockets.{
  Kernel, connect_to, accept_once, Objects, made, assigned, destroyed, here, next, connects,
  assigns, destroys,
}
use p2p_sync_engine.Network.Frames
use p2p_sync_engine.Network.Frames.{Frame, of_be32}
use p2p_sync_engine.Network.Sockets.Send.{Sends, Takes, Delivers, send_frame, send_frame-Delivers}
use p2p_sync_engine.Network.Sockets.Receive.{
  Receives, Gives, ReadsFrame, recv_all, recv_frame, recv_frame-Reads,
}
use p2p_sync_engine.Network.Sockets.Receive.Pieces.{Agrees, recv_piece, recv_frame-pieces}
use p2p_sync_engine.Exceptions.{ok}
use p2p_sync_engine.Network.Sockets.Slots.{none-ne-some}
use p2p_sync_engine.Network.Sockets.Closing.{Owned}
use p2p_sync_engine.Network.Sockets.Owners.{Reach-Owned}
use p2p_sync_engine.Network.Sockets.Open.{Descriptors, Opens, OpensSocket, opened_sockets}

abbrev System : Type 0
System = ℕ → Bool

abbrev opened : ℕ → System → System
opened fd s = λ j. if j == fd then true else s j

abbrev obtain : ℕ → System → Option ℕ × System
obtain fd s = if s fd then (none, s) else (some fd, opened fd s)

-- Sockets are descriptor 3, accepted connections descriptor 4.
abbrev small : Kernel System Bytes
small = record {
  getaddrinfo = λ host port s. (some (host ∷ host ∷ []), s);
  socket_for = λ a s. obtain 3 s;
  socket_inet = λ s. obtain 3 s;
  set_reuse = λ fd s. s;
  connect = λ fd a s. (true, s);
  bind = λ fd port s. (true, s);
  listen = λ fd s. (true, s);
  accept = λ fd s. obtain 4 s;
  close = λ fd s j. if j == fd then false else s j;
}

obtain-Opens : (fd : ℕ) (s : System) → Opens (λ (t : System). t) s (obtain fd s)
obtain-Opens fd s = by_test (s fd) refl
  where
    by_test : (b : Bool) → s fd ≡ b → Opens (λ (t : System). t) s (obtain fd s)
    by_test true q = rw q (λ j. refl)
    by_test false q = rw q (q, λ j. refl)

abbrev small-Descriptors : Descriptors small
small-Descriptors = record {
  is_open = λ s. s;
  getaddrinfo_keeps = λ host port s j. refl;
  socket_for_opens = λ a s. obtain-Opens 3 s;
  socket_inet_opens = λ s. obtain-Opens 3 s;
  accept_opens = λ fd s. obtain-Opens 4 s;
  set_reuse_keeps = λ fd s j. refl;
  connect_keeps = λ fd a s j. refl;
  bind_keeps = λ fd port s j. refl;
  listen_keeps = λ fd s j. refl;
  close_closes = λ fd s j. refl;
}

abbrev idle : System
idle = λ j. false

opened_sockets_example :
    OpensSocket (λ (t : System). t) idle (connect_to small (codes "h") (pos 9001) idle)
    × OpensSocket (λ (t : System). t) idle (accept_once small (pos 9001) idle)
opened_sockets_example = opened_sockets small small-Descriptors (codes "h") (pos 9001) idle

abbrev no_objects : Objects System
no_objects = record { held = λ x. none; system = idle }

no_objects-Owned : Owned small-Descriptors (λ fd. false) no_objects
no_objects-Owned = record {
  alone = λ x y fd p q. absurd (none-ne-some fd p);
  ours = λ x fd p. refl;
  held_open = λ x fd p. absurd (none-ne-some fd p);
  outside_open = λ fd p. p;
  accounted = λ fd p. inl p;
}

-- A socket is connected, moved to another object, and closed there.
abbrev connected : Objects System
connected = made 0 no_objects (connect_to small (codes "h") (pos 9001) idle)

Reach-Owned_example :
    Owned small-Descriptors (λ fd. false) (destroyed small 1 (assigned small 1 0 connected))
Reach-Owned_example =
    Reach-Owned small small-Descriptors (λ fd. false) no_objects
      (destroyed small 1 (assigned small 1 0 connected))
      (next (next (next here (connects 0 (codes "h") (pos 9001) refl)) (assigns 1 0)) (destroys 1))
      no_objects-Owned

-- A connection that takes one byte at a time.
abbrev slow_send : ℕ → Bytes → Bytes → Option ℕ × Bytes
slow_send fd [] s = (none, s)
slow_send fd (b ∷ bytes) s = (some 1, s ++ (b ∷ []))

abbrev slow_send-Sends : Sends slow_send
slow_send-Sends = record { taken = λ s fd. s; send_takes = by_bytes }
  where
    by_bytes :
        (fd : ℕ) (bytes s : Bytes) → Takes bytes s (slow_send fd bytes s).1 (slow_send fd bytes s).0
    by_bytes fd [] s = refl
    by_bytes fd (b ∷ bytes) s = (omega arith, refl)

abbrev request : Frame
request = record { kind = 2; payload = codes "ab" }

send_frame-Delivers_example :
    Delivers
      (Frames.send_frame request)
      []
      (send_frame slow_send 3 request []).1
      (send_frame slow_send 3 request []).0
send_frame-Delivers_example = send_frame-Delivers slow_send slow_send-Sends 3 request []

-- A connection that gives one byte at a time.
abbrev slow_recv : ℕ → ℕ → Bytes → Option Bytes × Bytes
slow_recv fd len [] = (some [], [])
slow_recv fd len (b ∷ s) = (some (b ∷ []), s)

abbrev slow_recv-Receives : Receives slow_recv
slow_recv-Receives = record { coming = λ s fd. s; recv_gives = by_bytes }
  where
    by_bytes :
        (fd len : ℕ) (s : Bytes)
        → Gives (suc len) s (slow_recv fd (suc len) s).1 (slow_recv fd (suc len) s).0
    by_bytes fd len [] = (refl, refl)
    by_bytes fd len (b ∷ s) = (omega arith, refl)

abbrev on_the_way : Bytes
on_the_way = 0 ∷ 0 ∷ 0 ∷ 2 ∷ 2 ∷ b'a' ∷ b'b' ∷ 9 ∷ []

recv_frame-Reads_example :
    ReadsFrame on_the_way
      (recv_frame slow_recv 3 on_the_way).1
      (recv_frame slow_recv 3 on_the_way).0
recv_frame-Reads_example = recv_frame-Reads slow_recv slow_recv-Receives 3 on_the_way

-- It is the frame, with a byte behind it left.
recv_frame_one_by_one : recv_frame slow_recv 3 on_the_way ≡ (ok (some request), 9 ∷ [])
unfolding recv_frame recv_all of_be32
recv_frame_one_by_one = refl

recv_frame-pieces_example :
    Agrees
      (Frames.recv_frame ((0 ∷ 0 ∷ 0 ∷ []) ∷ (2 ∷ 2 ∷ b'a' ∷ []) ∷ (b'b' ∷ 9 ∷ []) ∷ []))
      (recv_frame recv_piece 3 ((0 ∷ 0 ∷ 0 ∷ []) ∷ (2 ∷ 2 ∷ b'a' ∷ []) ∷ (b'b' ∷ 9 ∷ []) ∷ []))
recv_frame-pieces_example =
    recv_frame-pieces 3 ((0 ∷ 0 ∷ 0 ∷ []) ∷ (2 ∷ 2 ∷ b'a' ∷ []) ∷ (b'b' ∷ 9 ∷ []) ∷ [])

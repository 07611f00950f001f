-- ===== src/Network/Frames.antt =====
-- network.cpp, `TcpSocket`: frames on a connection. What has been sent and not been received yet is a
-- list of pieces, one for each successful `recv` that nothing cuts short: `recv` gives a whole piece, or
-- as much of it as was asked for, and an empty piece or the end of the list is the disconnect. The
-- loops over the calls of `send` and `recv`, which can fail, are in Sockets/Send and Sockets/Receive.
use p2p_sync_engine.Prelude.{
  ℕ, zero, suc, ◌+◌, ◌-◌, ◌*◌, ◌/◌, ◌%◌, ◌^◌, Bytes, List, [], ◌∷◌, ◌++◌, Option, none, some, ltb,
  if◌then◌else◌, length, take, drop, get_or,
}

-- A 32-bit number in four bytes, the most significant first.
unfoldable pub be32 : ℕ → Bytes
be32 len = (len / 2 ^ 24) % 256 ∷ (len / 2 ^ 16) % 256 ∷ (len / 2 ^ 8) % 256 ∷ len % 256 ∷ []

-- `bytes[0] << 24 | bytes[1] << 16 | bytes[2] << 8 | bytes[3]`
unfoldable pub of_be32 : Bytes → ℕ
of_be32 (a ∷ b ∷ c ∷ d ∷ bytes) = a * 2 ^ 24 + b * 2 ^ 16 + c * 2 ^ 8 + d
of_be32 bytes = 0

pub record Frame : Type 0 where
  pub kind : ℕ
  pub payload : Bytes

-- The bytes that `send_frame` sends.
unfoldable pub send_frame : Frame → Bytes
unfolding be32
send_frame f = be32 (length f.payload % 2 ^ 32) ++ (f.kind ∷ f.payload)

-- The bytes asked for and the pieces left, or `none` on a disconnect.
unfoldable pub recv_all : List Bytes → ℕ → Option (Bytes × List Bytes)
recv_all pieces zero = some ([], pieces)
recv_all [] (suc n) = none
recv_all ([] ∷ pieces) (suc n) = none
recv_all ((x ∷ piece) ∷ pieces) (suc n) =
    let more : Option (Bytes × List Bytes) = elim (recv_all pieces (n - length piece)) [
      | none ↦ none
      | some (got, left) ↦ some ((x ∷ piece) ++ got, left)
    ] in
    if ltb n (length piece)
    then some (take (suc n) (x ∷ piece), drop (suc n) (x ∷ piece) ∷ pieces)
    else more

-- The payload behind a header, if that arrived.
unfoldable pub recv_payload : Option (Bytes × List Bytes) → Option (Frame × List Bytes)
recv_payload none = none
recv_payload (some (header, pieces)) =
    let kind = get_or header 4 0 in
    elim (recv_all pieces (of_be32 header)) [
      | none ↦ none
      | some (payload, left) ↦ some (record { kind = kind; payload = payload }, left)
    ]

unfoldable pub recv_frame : List Bytes → Option (Frame × List Bytes)
unfolding recv_payload
recv_frame pieces = recv_payload (recv_all pieces 5)

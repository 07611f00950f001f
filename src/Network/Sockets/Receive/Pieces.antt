-- ===== src/Network/Sockets/Receive/Pieces.antt =====
-- The loops of Sockets/Receive on a connection that is a list of pieces are those of Frames.
use p2p_sync_engine.Prelude.{
  ℕ, zero, suc, ◌-◌, ◌<◌, ◌≤◌, Bytes, List, [], ◌∷◌, Option, none, some, length, take, drop, get_or,
  ltb, if◌then◌else◌, ◌≡◌, refl, sym, ap, arith, Bool-cases, inl, inr, ltb→lt, lt→ltb, append-nil,
  subst,
}
use p2p_sync_engine.Exceptions.{Result, ok, throw}
use p2p_sync_engine.Network.Frames
use p2p_sync_engine.Network.Frames.{Frame, of_be32}
use p2p_sync_engine.Network.Delivery
use p2p_sync_engine.Network.Delivery.{not_below, recv_all-long, recv_all-short, after_piece}
use p2p_sync_engine.Network.Sockets.Receive.{
  received_before, after_recv, recv_loop, recv_all, with_payload, recv_payload, recv_frame,
}

-- `recv` on such a connection: as much of the first piece as is asked for.
unfoldable pub recv_piece : ℕ → ℕ → List Bytes → Option Bytes × List Bytes
recv_piece fd len [] = (some [], [])
recv_piece fd len (piece ∷ pieces) =
    if ltb len (length piece)
    then (some (take len piece), drop len piece ∷ pieces)
    else (some piece, pieces)

-- The same outcome; with a disconnect, what is left does not count.
abbrev pub Agrees : {A : Type 0} → Option (A × List Bytes) → Result (Option A) × List Bytes → Type 0
Agrees none r = r.0 ≡ ok none
Agrees (some (x, left)) r = r ≡ (ok (some x), left)

received_before-Agrees :
    (piece : Bytes) (o : Option (Bytes × List Bytes)) (r : Result (Option Bytes) × List Bytes)
    → Agrees o r
    → Agrees (after_piece piece o) (received_before piece r)
unfolding received_before
received_before-Agrees piece none (ok (some bytes), s) h = cc
received_before-Agrees piece none (ok none, s) h = refl
received_before-Agrees piece none (throw x, s) h = cc
received_before-Agrees piece (some (got, left)) r h = ap (received_before piece) h

length-take_short : (n : ℕ) (xs : Bytes) → n ≤ length xs → length (take n xs) ≡ n
length-take_short zero xs h = refl
length-take_short (suc n) [] h = absurd (omega (arith, h))
length-take_short (suc n) (x ∷ xs) h = ap suc (length-take_short n xs (omega (arith, h)))

recv_piece-long :
    (fd len : ℕ) (piece : Bytes) (pieces : List Bytes)
    → len < length piece
    → recv_piece fd len (piece ∷ pieces) ≡ (some (take len piece), drop len piece ∷ pieces)
unfolding recv_piece
recv_piece-long fd len piece pieces lt = rw (lt→ltb len (length piece) lt) refl

recv_piece-short :
    (fd len : ℕ) (piece : Bytes) (pieces : List Bytes)
    → length piece ≤ len
    → recv_piece fd len (piece ∷ pieces) ≡ (some piece, pieces)
unfolding recv_piece
recv_piece-short fd len piece pieces le = rw (not_below len (length piece) le) refl

-- The loop when nothing is wanted any more.
recv_loop-nothing :
    (fuel fd len : ℕ) (pieces : List Bytes)
    → len ≡ 0
    → recv_loop recv_piece fuel fd len pieces ≡ (ok (some []), pieces)
unfolding recv_loop
recv_loop-nothing fuel fd zero pieces h = refl
recv_loop-nothing fuel fd (suc len) pieces h = absurd (omega (arith, h))

recv_loop-pieces :
    (fuel fd len : ℕ) (pieces : List Bytes)
    → len ≤ fuel
    → Agrees (Frames.recv_all pieces len) (recv_loop recv_piece fuel fd len pieces)
unfolding recv_loop Frames.recv_all after_recv received_before
recv_loop-pieces fuel fd zero pieces h = refl
recv_loop-pieces zero fd (suc len) pieces h = absurd (omega (arith, h))
recv_loop-pieces (suc fuel) fd (suc len) [] h = unfold recv_piece in refl
recv_loop-pieces (suc fuel) fd (suc len) ([] ∷ pieces) h =
    rw (recv_piece-short fd (suc len) [] pieces (omega arith)) refl
recv_loop-pieces (suc fuel) fd (suc len) ((x ∷ piece) ∷ pieces) h =
    elim (Bool-cases (ltb len (length piece))) [
      | inl t ↦
          let lt : len < length piece = ltb→lt _ _ t in
          let left = drop (suc len) (x ∷ piece) ∷ pieces in
          rw
            (
              recv_all-long x piece pieces len lt,
              recv_piece-long fd (suc len) (x ∷ piece) pieces (omega (arith, lt)),
              recv_loop-nothing fuel fd (suc len - suc (length (take len piece))) left
                  (omega (arith, length-take_short len piece (omega (arith, lt)))),
              append-nil (take len piece),
            )
            refl
      | inr e ↦
          let le : length piece ≤ len = ground arith in
          let same : suc len - suc (length piece) ≡ len - length piece = omega arith in
          rw
            (
              recv_all-short x piece pieces len le,
              recv_piece-short fd (suc len) (x ∷ piece) pieces (omega (arith, le)),
            )
            (subst
              (λ n.
                Agrees (after_piece (x ∷ piece) (Frames.recv_all pieces (len - length piece)))
                  (received_before (x ∷ piece) (recv_loop recv_piece fuel fd n pieces)))
              (sym same)
              (received_before-Agrees (x ∷ piece) _ _
                (recv_loop-pieces fuel fd (len - length piece) pieces (omega (arith, h)))))
    ]

with_payload-Agrees :
    (kind : ℕ) (o : Option (Bytes × List Bytes)) (r : Result (Option Bytes) × List Bytes)
    → Agrees o r
    → Agrees (Delivery.with_payload kind o) (with_payload recv_piece kind r)
unfolding with_payload
with_payload-Agrees kind none (ok (some bytes), s) h = cc
with_payload-Agrees kind none (ok none, s) h = refl
with_payload-Agrees kind none (throw x, s) h = cc
with_payload-Agrees kind (some (payload, left)) r h = ap (with_payload recv_piece kind) h

recv_payload-Agrees :
    (fd : ℕ) (o : Option (Bytes × List Bytes)) (r : Result (Option Bytes) × List Bytes)
    → Agrees o r
    → Agrees (Frames.recv_payload o) (recv_payload recv_piece fd r)
unfolding recv_payload recv_all Frames.recv_payload
recv_payload-Agrees fd none (ok (some header), s) h = cc
recv_payload-Agrees fd none (ok none, s) h = refl
recv_payload-Agrees fd none (throw x, s) h = cc
recv_payload-Agrees fd (some (header, left)) r h =
    subst (λ y. Agrees (Frames.recv_payload (some (header, left))) (recv_payload recv_piece fd y))
      (sym h)
      (with_payload-Agrees (get_or header 4 0) (Frames.recv_all left (of_be32 header)) _
        (recv_loop-pieces (of_be32 header) fd (of_be32 header) left (omega arith)))

-- When each call of `recv` gives the next piece of a connection, or as much of it as is asked for, the loops
-- of `recv_frame` throw nothing, and receive what `recv_frame` on the list of the pieces gives: the same
-- frame with the same pieces left, or none.
pub recv_frame-pieces :
    (fd : ℕ) (pieces : List Bytes)
    → Agrees (Frames.recv_frame pieces) (recv_frame recv_piece fd pieces)
unfolding recv_frame recv_all Frames.recv_frame
recv_frame-pieces fd pieces =
    recv_payload-Agrees fd (Frames.recv_all pieces 5) _
      (recv_loop-pieces 5 fd 5 pieces (omega arith))

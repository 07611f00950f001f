-- ===== src/Network/Delivery.antt =====
-- Frames that are sent, and received in pieces.
use p2p_sync_engine.Prelude.{
  ℕ, suc, ◌-◌, ◌<◌, ◌≤◌, ◌^◌, ◌%◌, Bytes, List, [], ◌∷◌, ◌++◌, Option, none, some, ◌≡◌, ◌≢◌, refl,
  sym, ap, ◌∙◌, arith, ltb, length, take, drop, All, concat, Bool-cases, inl, inr, cons_path,
  lt→ltb, ltb→lt, false,
}
use p2p_sync_engine.Network.Frames.{
  be32, of_be32, Frame, send_frame, recv_all, recv_payload, recv_frame,
}

-- `recv` gives at least one byte, as long as there is one.
abbrev pub Flows : List Bytes → Type 0
Flows = All (λ piece. piece ≢ [])

pub not_below : (n m : ℕ) → m ≤ n → ltb n m ≡ false
not_below n m h = ground arith

-- What `recv_payload` makes of the payload.
abbrev pub with_payload : ℕ → Option (Bytes × List Bytes) → Option (Frame × List Bytes)
with_payload kind o = elim o [
  | none ↦ none
  | some (payload, left) ↦ some (record { kind = kind; payload = payload }, left)
]

pub of_be32-be32 : (n : ℕ) (bytes : Bytes) → n < 2 ^ 32 → of_be32 (be32 n ++ bytes) ≡ n
unfolding be32 of_be32
of_be32-be32 n bytes h = omega arith

tails : {x y : ℕ} {xs ys : Bytes} → x ∷ xs ≡ y ∷ ys → (x ≡ y) × (xs ≡ ys)
tails q = (cc, cc)

-- A piece that is longer than what is wanted.
cut_long :
    (wanted piece behind rest : Bytes)
    → piece ++ behind ≡ wanted ++ rest
    → length wanted < length piece
    → (take (length wanted) piece ≡ wanted)
      × (drop (length wanted) piece ++ behind ≡ rest)
      × (drop (length wanted) piece ≢ [])
cut_long [] [] behind rest h lt = absurd (omega arith)
cut_long [] (x ∷ piece) behind rest h lt = (refl, h, λ q. cc)
cut_long (w ∷ wanted) [] behind rest h lt = absurd (omega arith)
cut_long (w ∷ wanted) (x ∷ piece) behind rest h lt =
    let t = tails h in
    let r = cut_long wanted piece behind rest t.1 (omega arith) in (cons_path t.0 r.0, r.1, r.2)

-- A piece that is no longer than what is wanted.
cut_short :
    (wanted piece behind rest : Bytes)
    → piece ++ behind ≡ wanted ++ rest
    → length piece ≤ length wanted
    → (more : Bytes) × (wanted ≡ piece ++ more)
      × (behind ≡ more ++ rest)
      × (length more ≡ length wanted - length piece)
cut_short wanted [] behind rest h le = (wanted, refl, h, omega arith)
cut_short [] (x ∷ piece) behind rest h le = absurd (omega arith)
cut_short (w ∷ wanted) (x ∷ piece) behind rest h le =
    let t = tails h in
    let r = cut_short wanted piece behind rest t.1 (omega arith) in
    (r.0, cons_path (sym t.0) r.1, r.2, omega (arith, r.3))

abbrev pub after_piece : Bytes → Option (Bytes × List Bytes) → Option (Bytes × List Bytes)
after_piece piece o = elim o [ none ↦ none | some (got, left) ↦ some (piece ++ got, left) ]

pub recv_all-long :
    (x : ℕ) (piece : Bytes) (pieces : List Bytes) (n : ℕ)
    → n < length piece
    → recv_all ((x ∷ piece) ∷ pieces) (suc n)
      ≡ some (take (suc n) (x ∷ piece), drop (suc n) (x ∷ piece) ∷ pieces)
unfolding recv_all
recv_all-long x piece pieces n lt = rw (lt→ltb n (length piece) lt) refl

pub recv_all-short :
    (x : ℕ) (piece : Bytes) (pieces : List Bytes) (n : ℕ)
    → length piece ≤ n
    → recv_all ((x ∷ piece) ∷ pieces) (suc n)
      ≡ after_piece (x ∷ piece) (recv_all pieces (n - length piece))
unfolding recv_all
recv_all-short x piece pieces n le = rw (not_below n (length piece) le) refl

-- Bytes that are on their way are received, and what is behind them is left.
pub recv_all-ready :
    (pieces : List Bytes) (wanted rest : Bytes)
    → Flows pieces
    → concat pieces ≡ wanted ++ rest
    → (left : List Bytes) × (recv_all pieces (length wanted) ≡ some (wanted, left))
      × (concat left ≡ rest)
      × Flows left
recv_all-ready pieces [] rest f h = (pieces, (unfold recv_all in refl), h, f)
recv_all-ready [] (w ∷ wanted) rest f h = cc
recv_all-ready ([] ∷ pieces) (w ∷ wanted) rest f h = absurd (f.0 refl)
recv_all-ready ((x ∷ piece) ∷ pieces) (w ∷ wanted) rest f h =
    elim (Bool-cases (ltb (length wanted) (length piece))) [
      | inl t ↦
          let lt : length wanted < length piece = ltb→lt _ _ t in
          let c = cut_long (w ∷ wanted) (x ∷ piece) (concat pieces) rest h (omega arith) in
          (
            drop (length (w ∷ wanted)) (x ∷ piece) ∷ pieces,
            recv_all-long x piece pieces (length wanted) lt
                ∙ ap (λ got. some (got, drop (length (w ∷ wanted)) (x ∷ piece) ∷ pieces)) c.0,
            c.1,
            (c.2, f.1),
          )
      | inr e ↦
          let le : length piece ≤ length wanted = ground arith in
          let c = cut_short (w ∷ wanted) (x ∷ piece) (concat pieces) rest h (omega arith) in
          let r = recv_all-ready pieces c.0 rest f.1 c.2 in
          let same : length wanted - length piece ≡ length c.0 = omega (arith, c.3) in
          (
            r.0,
            recv_all-short x piece pieces (length wanted) le
                ∙ ap (λ n. after_piece (x ∷ piece) (recv_all pieces n)) same
                ∙ ap (after_piece (x ∷ piece)) r.1
                ∙ ap (λ got. some (got, r.0)) (sym c.1),
            r.2,
            r.3,
          )
    ]

-- A frame with a payload below 4 GiB arrives as it was sent, and what was sent behind it is left, however
-- the connection cuts the bytes into pieces, as long as none of them is empty.
pub recv_frame-send_frame :
    (f : Frame) (pieces : List Bytes) (rest : Bytes)
    → length f.payload < 2 ^ 32
    → Flows pieces
    → concat pieces ≡ send_frame f ++ rest
    → (left : List Bytes) × (recv_frame pieces ≡ some (f, left)) × (concat left ≡ rest) × Flows left
unfolding send_frame recv_frame recv_payload be32
recv_frame-send_frame f pieces rest small flows h =
    let n = length f.payload % 2 ^ 32 in
    let head = recv_all-ready pieces (be32 n ++ (f.kind ∷ [])) (f.payload ++ rest) flows h in
    let body = recv_all-ready head.0 f.payload rest head.3 head.2 in
    let size : of_be32 (be32 n ++ (f.kind ∷ [])) ≡ length f.payload =
      of_be32-be32 n (f.kind ∷ []) (omega arith) ∙ omega arith in
    (
      body.0,
      ap recv_payload head.1
          ∙ ap (λ m. with_payload f.kind (recv_all head.0 m)) size
          ∙ ap (with_payload f.kind) body.1,
      body.2,
      body.3,
    )

-- ===== src/Network/Sockets/Receive.antt =====
-- `recv_all` and `recv_frame` on a descriptor. The system call is a parameter, `recv`: it gives the bytes
-- that were received, none of them on a disconnect, or `none` for -1.
pub mod Pieces
use p2p_sync_engine.Prelude.{
  ℕ, zero, suc, ◌+◌, ◌-◌, ◌<◌, ◌≤◌, Bytes, [], ◌∷◌, ◌++◌, Option, none, some, codes, length, get_or,
  length-append, append_assoc, inl, inr, ◌⊎◌, ◌≡◌, refl, sym, ap, ◌∙◌, arith,
}
use p2p_sync_engine.Exceptions.{Exception, Result, ok, throw, runtime_error}
use p2p_sync_engine.Network.Frames
use p2p_sync_engine.Network.Frames.{Frame, be32, of_be32}

-- Bytes before the ones that a later round receives.
received_before : {S : Type 0} → Bytes → Result (Option Bytes) × S → Result (Option Bytes) × S
received_before piece (ok (some bytes), s) = (ok (some (piece ++ bytes)), s)
received_before piece (ok none, s) = (ok none, s)
received_before piece (throw x, s) = (throw x, s)

module _ {S : Type 0} (recv : ℕ → ℕ → S → Option Bytes × S) where
  -- Behind `recv`; `later` is the rest of the loop, for the bytes that are still wanted.
  after_recv :
      ℕ → (ℕ → S → Result (Option Bytes) × S) → Option Bytes × S → Result (Option Bytes) × S
  unfolding received_before
  after_recv len later (none, s) = (throw (runtime_error (codes "recv() failed")), s)
  after_recv len later (some [], s) = (ok none, s)
  after_recv len later (some (x ∷ piece), s) =
      received_before (x ∷ piece) (later (len - length (x ∷ piece)) s)

  -- The loop for the bytes that are still wanted.
  recv_loop : ℕ → ℕ → ℕ → S → Result (Option Bytes) × S
  unfolding after_recv
  recv_loop fuel fd zero s = (ok (some []), s)
  recv_loop zero fd (suc len) s = (ok none, s)
  recv_loop (suc fuel) fd (suc len) s =
      after_recv (suc len) (recv_loop fuel fd) (recv fd (suc len) s)

  -- The bytes, or `none` for `false`. Each round receives a byte or more.
  unfoldable pub recv_all : ℕ → ℕ → S → Result (Option Bytes) × S
  unfolding recv_loop
  recv_all fd len s = recv_loop len fd len s

  -- Behind the payload.
  with_payload : ℕ → Result (Option Bytes) × S → Result (Option Frame) × S
  with_payload kind (ok (some payload), s) =
      (ok (some (record { kind = kind; payload = payload })), s)
  with_payload kind (ok none, s) = (ok none, s)
  with_payload kind (throw x, s) = (throw x, s)

  -- Behind the header.
  recv_payload : ℕ → Result (Option Bytes) × S → Result (Option Frame) × S
  unfolding with_payload
  recv_payload fd (ok (some header), s) =
      with_payload (get_or header 4 0) (recv_all fd (of_be32 header) s)
  recv_payload fd (ok none, s) = (ok none, s)
  recv_payload fd (throw x, s) = (throw x, s)

  unfoldable pub recv_frame : ℕ → S → Result (Option Frame) × S
  unfolding recv_payload
  recv_frame fd s = recv_payload fd (recv_all fd 5 s)

-- What a call of `recv` for `len` bytes does, by its answer: it receives bytes from the front of what is
-- there, no more than `len`, and no bytes only at the end; or it fails and receives nothing.
abbrev pub Gives : ℕ → Bytes → Bytes → Option Bytes → Type 0
Gives len before after none = before ≡ after
Gives len before after (some []) = (before ≡ []) × (after ≡ [])
Gives len before after (some (x ∷ piece)) =
    (length (x ∷ piece) ≤ len) × (before ≡ (x ∷ piece) ++ after)

-- What is documented of `recv`: `coming` is all that is still to be received on a descriptor.
pub record Receives {S : Type 0} (recv : ℕ → ℕ → S → Option Bytes × S) : Type 0 where
  pub coming : S → ℕ → Bytes
  pub recv_gives :
      (fd len : ℕ) (s : S)
      → Gives (suc len) (coming s fd) (coming (recv fd (suc len) s).1 fd) (recv fd (suc len) s).0

-- The bytes that are wanted from the front, or too few of them with nothing left, or an exception behind
-- too few of them.
abbrev pub Reads : ℕ → Bytes → Bytes → Result (Option Bytes) → Type 0
Reads len before after (ok (some bytes)) = (length bytes ≡ len) × (before ≡ bytes ++ after)
Reads len before after (ok none) = (length before < len) × (after ≡ [])
Reads len before after (throw x) = (part : Bytes) × (length part < len) × (before ≡ part ++ after)

-- The frame from the front, as its header says; or too few bytes for it, with nothing left; or an exception
-- behind a part of what was there.
abbrev pub ReadsFrame : Bytes → Bytes → Result (Option Frame) → Type 0
ReadsFrame before after (ok (some f)) =
    (header : Bytes) × (length header ≡ 5)
    × (length f.payload ≡ of_be32 header)
    × (f.kind ≡ get_or header 4 0)
    × (before ≡ header ++ (f.payload ++ after))
ReadsFrame before after (ok none) =
    ((length before < 5) ⊎ (length before < 5 + of_be32 before)) × (after ≡ [])
ReadsFrame before after (throw x) = (part : Bytes) × (before ≡ part ++ after)

of_be32-append :
    (header rest : Bytes) → length header ≡ 5 → of_be32 (header ++ rest) ≡ of_be32 header
unfolding of_be32
of_be32-append [] rest h = absurd (omega (arith, h))
of_be32-append (a ∷ []) rest h = absurd (omega (arith, h))
of_be32-append (a ∷ b ∷ []) rest h = absurd (omega (arith, h))
of_be32-append (a ∷ b ∷ c ∷ []) rest h = absurd (omega (arith, h))
of_be32-append (a ∷ b ∷ c ∷ d ∷ header) rest h = refl

module _ {S : Type 0} (recv : ℕ → ℕ → S → Option Bytes × S) (k : Receives recv) where
  -- The outcome `r` from the state `s` on.
  abbrev Read : ℕ → ℕ → S → Result (Option Bytes) × S → Type 0
  Read fd len s r = Reads len (k.coming s fd) (k.coming r.1 fd) r.0

  received_before-Read :
      (fd len : ℕ) (piece : Bytes) (s t : S) (r : Result (Option Bytes) × S)
      → length piece ≤ len
      → k.coming s fd ≡ piece ++ k.coming t fd
      → Read fd (len - length piece) t r
      → Read fd len s (received_before piece r)
  unfolding received_before
  received_before-Read fd len piece s t (ok (some bytes), u) le h r = (
    omega (arith, le, r.0, length-append {0} piece bytes),
    h ∙ ap (λ m. piece ++ m) r.1 ∙ sym (append_assoc piece bytes (k.coming u fd)),
  )
  received_before-Read fd len piece s t (ok none, u) le h r =
      (omega (arith, le, r.0, ap length h, length-append {0} piece (k.coming t fd)), r.1)
  received_before-Read fd len piece s t (throw x, u) le h (part, short, q) = (
    piece ++ part,
    omega (arith, le, short, length-append {0} piece part),
    h ∙ ap (λ m. piece ++ m) q ∙ sym (append_assoc piece part (k.coming u fd)),
  )

  after_recv-Read :
      (fd len : ℕ) (s : S) (later : ℕ → S → Result (Option Bytes) × S) (o : Option Bytes × S)
      → Gives (suc len) (k.coming s fd) (k.coming o.1 fd) o.0
      → ((n : ℕ) (t : S) → n ≤ len → Read fd n t (later n t))
      → Read fd (suc len) s (after_recv recv (suc len) later o)
  unfolding after_recv
  after_recv-Read fd len s later (none, t) h rest = ([], omega arith, h)
  after_recv-Read fd len s later (some [], t) h rest = (omega (arith, ap length h.0), h.1)
  after_recv-Read fd len s later (some (x ∷ piece), t) h rest =
      received_before-Read fd (suc len) (x ∷ piece) s t _ h.0 h.1
        (rest (suc len - length (x ∷ piece)) t (omega arith))

  recv_loop-Read :
      (fuel fd len : ℕ) (s : S) → len ≤ fuel → Read fd len s (recv_loop recv fuel fd len s)
  unfolding recv_loop
  recv_loop-Read fuel fd zero s h = (refl, refl)
  recv_loop-Read zero fd (suc len) s h = absurd (omega (arith, h))
  recv_loop-Read (suc fuel) fd (suc len) s h =
      after_recv-Read fd len s (recv_loop recv fuel fd) (recv fd (suc len) s)
        (k.recv_gives fd len s) (λ n t le. recv_loop-Read fuel fd n t (omega (arith, h, le)))

  recv_all-Read : (fd len : ℕ) (s : S) → Read fd len s (recv_all recv fd len s)
  unfolding recv_all
  recv_all-Read fd len s = recv_loop-Read len fd len s (omega arith)

  -- The outcome `r` from the state `s` on.
  abbrev ReadFrame : ℕ → S → Result (Option Frame) × S → Type 0
  ReadFrame fd s r = ReadsFrame (k.coming s fd) (k.coming r.1 fd) r.0

  with_payload-ReadFrame :
      (fd : ℕ) (header : Bytes) (s t : S) (r : Result (Option Bytes) × S)
      → length header ≡ 5
      → k.coming s fd ≡ header ++ k.coming t fd
      → Read fd (of_be32 header) t r
      → ReadFrame fd s (with_payload recv (get_or header 4 0) r)
  unfolding with_payload
  with_payload-ReadFrame fd header s t (ok (some payload), u) five h r =
      (header, five, r.0, refl, h ∙ ap (λ m. header ++ m) r.1)
  with_payload-ReadFrame fd header s t (ok none, u) five h r =
      let size : of_be32 (k.coming s fd) ≡ of_be32 header =
        ap of_be32 h ∙ of_be32-append header (k.coming t fd) five in
      (
        inr (omega (arith, size, five, r.0, ap length h, length-append {0} header (k.coming t fd))),
        r.1,
      )
  with_payload-ReadFrame fd header s t (throw x, u) five h (part, short, q) =
      (header ++ part, h ∙ ap (λ m. header ++ m) q ∙ sym (append_assoc header part (k.coming u fd)))

  recv_payload-ReadFrame :
      (fd : ℕ) (s : S) (r : Result (Option Bytes) × S)
      → Read fd 5 s r
      → ReadFrame fd s (recv_payload recv fd r)
  unfolding recv_payload
  recv_payload-ReadFrame fd s (ok (some header), t) h =
      with_payload-ReadFrame fd header s t _ h.0 h.1 (recv_all-Read fd (of_be32 header) t)
  recv_payload-ReadFrame fd s (ok none, t) h = (inl h.0, h.1)
  recv_payload-ReadFrame fd s (throw x, t) (part, short, q) = (part, q)

  -- When `recv` gives bytes from the front of what is there, no more than asked for, and no bytes only at
  -- the end, `recv_frame` comes back: with the frame from the front, whose payload is as long as the
  -- header says, and all behind it left; or with `false`, if fewer bytes than the header and the payload
  -- were to come, and none are left; or with an exception and a part from the front gone.
  pub recv_frame-Reads :
      (fd : ℕ) (s : S)
      → ReadsFrame (k.coming s fd) (k.coming (recv_frame recv fd s).1 fd) (recv_frame recv fd s).0
  unfolding recv_frame
  recv_frame-Reads fd s = recv_payload-ReadFrame fd s (recv_all recv fd 5 s) (recv_all-Read fd 5 s)

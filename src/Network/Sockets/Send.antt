-- ===== src/Network/Sockets/Send.antt =====
-- `send_all` and `send_frame` on a descriptor. The system call is a parameter, `send`: it gives how many
-- bytes were taken, or `none` for -1.
use p2p_sync_engine.Prelude.{
  ℕ, zero, suc, ◌%◌, ◌^◌, ◌≤◌, Bytes, [], ◌∷◌, ◌++◌, Option, none, some, codes, length, take, drop,
  take-append-drop, length-drop, append_assoc, append-nil, subst, ◌≡◌, refl, sym, ap, ◌∙◌, arith,
}
use p2p_sync_engine.Exceptions.{Exception, runtime_error}
use p2p_sync_engine.Network.Frames
use p2p_sync_engine.Network.Frames.{Frame, be32}

module _ {S : Type 0} (send : ℕ → Bytes → S → Option ℕ × S) where
  -- Behind `send`; `later` is the rest of the loop.
  after_send : Bytes → (Bytes → S → Option Exception × S) → Option ℕ × S → Option Exception × S
  after_send bytes later (none, s) =
      (some (runtime_error (codes "send() failed / peer closed connection")), s)
  after_send bytes later (some zero, s) =
      (some (runtime_error (codes "send() failed / peer closed connection")), s)
  after_send bytes later (some (suc n), s) = later (drop (suc n) bytes) s

  -- The loop on the bytes that are left, with an exception or `none` at its end.
  send_loop : ℕ → ℕ → Bytes → S → Option Exception × S
  unfolding after_send
  send_loop fuel fd [] s = (none, s)
  send_loop zero fd (b ∷ bytes) s = (none, s)
  send_loop (suc fuel) fd (b ∷ bytes) s =
      after_send (b ∷ bytes) (send_loop fuel fd) (send fd (b ∷ bytes) s)

  -- Each round takes a byte or more.
  unfoldable pub send_all : ℕ → Bytes → S → Option Exception × S
  unfolding send_loop
  send_all fd bytes s = send_loop (length bytes) fd bytes s

  -- Behind the header.
  send_payload : ℕ → Bytes → Option Exception × S → Option Exception × S
  send_payload fd payload (some x, s) = (some x, s)
  send_payload fd [] (none, s) = (none, s)
  send_payload fd (b ∷ payload) (none, s) = send_all fd (b ∷ payload) s

  unfoldable pub send_frame : ℕ → Frame → S → Option Exception × S
  unfolding send_payload
  send_frame fd f s =
      send_payload fd f.payload (send_all fd (be32 (length f.payload % 2 ^ 32) ++ (f.kind ∷ [])) s)

-- What a call of `send` does, by its answer: bytes from the front of `bytes` are taken, or none.
abbrev pub Takes : Bytes → Bytes → Bytes → Option ℕ → Type 0
Takes bytes before after none = after ≡ before
Takes bytes before after (some n) = (n ≤ length bytes) × (after ≡ before ++ take n bytes)

-- What is documented of `send`: `taken` is all that was taken on a descriptor.
pub record Sends {S : Type 0} (send : ℕ → Bytes → S → Option ℕ × S) : Type 0 where
  pub taken : S → ℕ → Bytes
  pub send_takes :
      (fd : ℕ) (bytes : Bytes) (s : S)
      → Takes bytes (taken s fd) (taken (send fd bytes s).1 fd) (send fd bytes s).0

-- All of `bytes` was taken, or, on an exception, a part of it from the front.
abbrev pub Delivers : Bytes → Bytes → Bytes → Option Exception → Type 0
Delivers bytes before after none = after ≡ before ++ bytes
Delivers bytes before after (some x) =
    (part rest : Bytes) × (part ++ rest ≡ bytes) × (after ≡ before ++ part)

-- What is delivered behind a part that was taken.
Delivers-behind :
    (front back before mid after : Bytes) (e : Option Exception)
    → mid ≡ before ++ front
    → Delivers back mid after e
    → Delivers (front ++ back) before after e
Delivers-behind front back before mid after none h r =
    r ∙ ap (λ m. m ++ back) h ∙ append_assoc before front back
Delivers-behind front back before mid after (some x) h (part, rest, p, q) = (
  front ++ part,
  rest,
  append_assoc front part rest ∙ ap (λ m. front ++ m) p,
  q ∙ ap (λ m. m ++ part) h ∙ append_assoc before front part,
)

-- What is left of more bytes behind an exception.
Delivers-before :
    (front back before after : Bytes) (x : Exception)
    → Delivers front before after (some x)
    → Delivers (front ++ back) before after (some x)
Delivers-before front back before after x (part, rest, p, q) =
    (part, rest ++ back, sym (append_assoc part rest back) ∙ ap (λ m. m ++ back) p, q)

module _ {S : Type 0} (send : ℕ → Bytes → S → Option ℕ × S) (k : Sends send) where
  -- The outcome `r` from the state `s` on.
  abbrev Delivered : ℕ → Bytes → S → Option Exception × S → Type 0
  Delivered fd bytes s r = Delivers bytes (k.taken s fd) (k.taken r.1 fd) r.0

  after_send-Delivered :
      (fd : ℕ) (bytes : Bytes) (s : S) (later : Bytes → S → Option Exception × S) (o : Option ℕ × S)
      → Takes bytes (k.taken s fd) (k.taken o.1 fd) o.0
      → ((n : ℕ) (t : S) → Delivered fd (drop (suc n) bytes) t (later (drop (suc n) bytes) t))
      → Delivered fd bytes s (after_send send bytes later o)
  unfolding after_send
  after_send-Delivered fd bytes s later (none, t) h rest =
      ([], bytes, refl, h ∙ sym (append-nil (k.taken s fd)))
  after_send-Delivered fd bytes s later (some zero, t) h rest = ([], bytes, refl, h.1)
  after_send-Delivered fd bytes s later (some (suc n), t) h rest =
      subst (λ whole. Delivered fd whole s (later (drop (suc n) bytes) t))
        (take-append-drop (suc n) bytes)
        (Delivers-behind (take (suc n) bytes) (drop (suc n) bytes) (k.taken s fd) (k.taken t fd) _ _
          h.1 (rest n t))

  send_loop-Delivered :
      (fuel fd : ℕ) (bytes : Bytes) (s : S)
      → length bytes ≤ fuel
      → Delivered fd bytes s (send_loop send fuel fd bytes s)
  unfolding send_loop
  send_loop-Delivered fuel fd [] s h = sym (append-nil (k.taken s fd))
  send_loop-Delivered zero fd (b ∷ bytes) s h = absurd (omega (arith, h))
  send_loop-Delivered (suc fuel) fd (b ∷ bytes) s h =
      after_send-Delivered fd (b ∷ bytes) s (send_loop send fuel fd) (send fd (b ∷ bytes) s)
        (k.send_takes fd (b ∷ bytes) s)
        (λ n t.
          send_loop-Delivered fuel fd (drop (suc n) (b ∷ bytes)) t
            (omega (arith, h, length-drop n bytes)))

  send_all-Delivered :
      (fd : ℕ) (bytes : Bytes) (s : S) → Delivered fd bytes s (send_all send fd bytes s)
  unfolding send_all
  send_all-Delivered fd bytes s = send_loop-Delivered (length bytes) fd bytes s (omega arith)

  send_payload-Delivered :
      (fd : ℕ) (header payload : Bytes) (s : S) (r : Option Exception × S)
      → Delivered fd header s r
      → Delivered fd (header ++ payload) s (send_payload send fd payload r)
  unfolding send_payload
  send_payload-Delivered fd header payload s (some x, t) h =
      Delivers-before header payload (k.taken s fd) (k.taken t fd) x h
  send_payload-Delivered fd header [] s (none, t) h =
      h ∙ ap (λ m. k.taken s fd ++ m) (sym (append-nil header))
  send_payload-Delivered fd header (b ∷ payload) s (none, t) h =
      Delivers-behind header (b ∷ payload) (k.taken s fd) (k.taken t fd) _ _ h
        (send_all-Delivered fd (b ∷ payload) t)

  -- When `send` takes bytes from the front of what it is given, as many as it answers, `send_frame` comes
  -- back with all bytes of the frame taken, in their order, or with an exception and a part of them, from
  -- the front.
  pub send_frame-Delivers :
      (fd : ℕ) (f : Frame) (s : S)
      → Delivers
          (Frames.send_frame f)
          (k.taken s fd)
          (k.taken (send_frame send fd f s).1 fd)
          (send_frame send fd f s).0
  unfolding send_frame Frames.send_frame
  send_frame-Delivers fd f s =
      let header = be32 (length f.payload % 2 ^ 32) ++ (f.kind ∷ []) in
      subst (λ whole. Delivered fd whole s (send_frame send fd f s))
        (append_assoc (be32 (length f.payload % 2 ^ 32)) (f.kind ∷ []) f.payload)
        (send_payload-Delivered fd header f.payload s (send_all send fd header s)
          (send_all-Delivered fd header s))

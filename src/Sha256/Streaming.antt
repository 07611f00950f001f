-- ===== src/Sha256/Streaming.antt =====
-- `update` in pieces: the chunked loop against a byte by byte description.
use Prim.Native.Nat.{min}
use p2p_sync_engine.Prelude.{
  ℕ, zero, suc, ◌+◌, ◌-◌, ◌*◌, ◌%◌, ◌^◌, ◌≤◌, ◌<◌, Bytes, [], ◌∷◌, ◌++◌, ◌≡◌, refl, sym, ap, ap₂,
  ◌∙◌, arith, length, take, drop, length-append, append_assoc, inl, inr, Bool-cases, ◌==◌,
  take-append-drop, length-take, length-drop,
}
use p2p_sync_engine.Sha256.{Sha256Ctx, flush, absorb, update}

-- One more byte in the buffer; a full buffer of 64 bytes is processed and emptied.
pub feed : Sha256Ctx → ℕ → Sha256Ctx
feed c x = flush (record c { buffer = c.buffer ++ x ∷ [] })

unfoldable pub feed_all : Sha256Ctx → Bytes → Sha256Ctx
unfolding feed flush
feed_all c [] = c
feed_all c (x ∷ xs) = feed_all (feed c x) xs

pub feed_all-append :
    (c : Sha256Ctx) (xs ys : Bytes) → feed_all c (xs ++ ys) ≡ feed_all (feed_all c xs) ys
unfolding feed_all
feed_all-append c [] ys = refl
feed_all-append c (x ∷ xs) ys = feed_all-append (feed c x) xs ys

length_buffer-flush :
    (c : Sha256Ctx) → length c.buffer ≤ 64 → length (flush c).buffer ≡ length c.buffer % 64
unfolding flush
length_buffer-flush c h = ground arith

length_buffer-feed :
    (c : Sha256Ctx) (x : ℕ)
    → length c.buffer < 64
    → length (feed c x).buffer ≡ (length c.buffer + 1) % 64
unfolding feed
length_buffer-feed c x h =
    let n = length-append {0} c.buffer (x ∷ []) in
    omega
      (arith, length_buffer-flush (record c { buffer = c.buffer ++ x ∷ [] }) (omega (arith, n)), n)

-- The number of bytes that wait in the buffer.
pub length_buffer-feed_all :
    (c : Sha256Ctx) (xs : Bytes)
    → length c.buffer < 64
    → length (feed_all c xs).buffer ≡ (length c.buffer + length xs) % 64
unfolding feed_all
length_buffer-feed_all c [] h = omega arith
length_buffer-feed_all c (x ∷ xs) h =
    let n = length_buffer-feed c x h in
    omega (arith, n, length_buffer-feed_all (feed c x) xs (omega (arith, n)))

feed_room :
    (c : Sha256Ctx) (x : ℕ)
    → length c.buffer + 1 < 64
    → feed c x ≡ record c { buffer = c.buffer ++ x ∷ [] }
unfolding feed flush
feed_room c x h = ground (arith, length-append {0} c.buffer (x ∷ []))

-- A piece that fits into the buffer, taken at once.
pub feed_all-piece :
    (c : Sha256Ctx) (x : ℕ) (xs : Bytes)
    → length c.buffer + length (x ∷ xs) ≤ 64
    → feed_all c (x ∷ xs) ≡ flush (record c { buffer = c.buffer ++ (x ∷ xs) })
unfolding feed_all
feed_all-piece c x [] h = refl
feed_all-piece c x (y ∷ xs) h =
    let n = length-append {0} c.buffer (x ∷ []) in
    ap (λ d. feed_all d (y ∷ xs)) (feed_room c x (omega arith))
    ∙ feed_all-piece (record c { buffer = c.buffer ++ x ∷ [] }) y xs (omega (arith, n))
    ∙ ap (λ b. flush (record c { buffer = b })) (append_assoc c.buffer (x ∷ []) (y ∷ xs))

taken_piece :
    (c : Sha256Ctx) (x : ℕ) (xs : Bytes)
    → length c.buffer < 64
    → feed_all c (take (min (length (x ∷ xs)) (64 - length c.buffer)) (x ∷ xs))
      ≡ flush (record c {
        buffer = c.buffer ++ take (min (length (x ∷ xs)) (64 - length c.buffer)) (x ∷ xs);
      })
taken_piece c x xs b = go (min (length (x ∷ xs)) (64 - length c.buffer)) (omega arith) (omega arith)
  where
    go :
        (n : ℕ)
        → 0 < n
        → n ≤ 64 - length c.buffer
        → feed_all c (take n (x ∷ xs)) ≡ flush (record c { buffer = c.buffer ++ take n (x ∷ xs) })
    go zero p q = elim p [ ]
    go (suc n) p q = feed_all-piece c x (take n xs) (omega (arith, length-take {0} n xs))

-- The chunked loop takes the input byte by byte, as far as a caller can tell; the fuel suffices.
absorb-feed_all :
    (fuel : ℕ) (c : Sha256Ctx) (xs : Bytes)
    → length xs ≤ fuel
    → length c.buffer < 64
    → absorb fuel c xs ≡ feed_all c xs
unfolding absorb
absorb-feed_all zero c [] h b = unfold feed_all in refl
absorb-feed_all zero c (x ∷ xs) h b = absurd (omega arith)
absorb-feed_all (suc fuel) c [] h b = unfold feed_all in refl
absorb-feed_all (suc fuel) c (x ∷ xs) h b =
    let taken = min (length (x ∷ xs)) (64 - length c.buffer) in
    let n = length-take {0} taken (x ∷ xs) in
    let one = taken_piece c x xs b in
    ap (λ d. absorb fuel d (drop taken (x ∷ xs))) (sym one)
    ∙ absorb-feed_all fuel (feed_all c (take taken (x ∷ xs))) (drop taken (x ∷ xs))
        (omega (arith, length-drop {0} taken (x ∷ xs)))
        (omega (arith, length_buffer-feed_all c (take taken (x ∷ xs)) b))
    ∙ sym (feed_all-append c (take taken (x ∷ xs)) (drop taken (x ∷ xs)))
    ∙ ap (feed_all c) (take-append-drop taken (x ∷ xs))

-- `update` counts the bits and feeds the bytes.
pub update-feed_all :
    (c : Sha256Ctx) (xs : Bytes)
    → length c.buffer < 64
    → update c xs ≡ feed_all (record c { bit_len = (c.bit_len + length xs * 8) % 2 ^ 64 }) xs
unfolding update
update-feed_all c xs b = absorb-feed_all (length xs) _ xs (omega arith) b

bit_len-flush :
    (c : Sha256Ctx) (n : ℕ) → flush (record c { bit_len = n }) ≡ record (flush c) { bit_len = n }
unfolding flush
bit_len-flush c n = elim (Bool-cases (length c.buffer == 64)) [
  | inl t ↦ rw t refl
  | inr f ↦ rw f refl
]

-- The bytes do not touch the count of bits.
pub bit_len-feed_all :
    (c : Sha256Ctx) (n : ℕ) (xs : Bytes)
    → feed_all (record c { bit_len = n }) xs ≡ record (feed_all c xs) { bit_len = n }
unfolding feed_all
bit_len-feed_all c n [] = refl
bit_len-feed_all c n (x ∷ xs) =
    ap (λ d. feed_all d xs) (bit_len-flush (record c { buffer = c.buffer ++ x ∷ [] }) n)
    ∙ bit_len-feed_all (feed c x) n xs

pub bit_len_of-feed_all : (c : Sha256Ctx) (xs : Bytes) → (feed_all c xs).bit_len ≡ c.bit_len
bit_len_of-feed_all c xs = ap (λ d. d.bit_len) (bit_len-feed_all c c.bit_len xs)

pub update_lem :
    (c : Sha256Ctx) (xs : Bytes)
    → length c.buffer < 64
    → update c xs ≡ record (feed_all c xs) { bit_len = (c.bit_len + length xs * 8) % 2 ^ 64 }
update_lem c xs b = update-feed_all c xs b ∙ bit_len-feed_all c _ xs

-- Two updates make the context that one update with both inputs makes.
pub update-append :
    (c : Sha256Ctx) (xs ys : Bytes)
    → length c.buffer < 64
    → update (update c xs) ys ≡ update c (xs ++ ys)
update-append c xs ys b =
    let d = feed_all c xs in
    let room = length_buffer-feed_all c xs b in
    let n = length-append {0} xs ys in
    ap (λ e. update e ys) (update_lem c xs b)
    ∙ update_lem (record d { bit_len = (c.bit_len + length xs * 8) % 2 ^ 64 }) ys
        (omega (arith, room))
    ∙ ap₂ (λ (e : Sha256Ctx) k. record e { bit_len = k })
        (bit_len-feed_all d ((c.bit_len + length xs * 8) % 2 ^ 64) ys) (omega (arith, n))
    ∙ ap (λ (e : Sha256Ctx). record e { bit_len = (c.bit_len + length (xs ++ ys) * 8) % 2 ^ 64 })
        (sym (feed_all-append c xs ys))
    ∙ sym (update_lem c (xs ++ ys) b)

-- ===== src/Sha256/Padding.antt =====
-- `finish`: the padding, the length field and the digest.
use p2p_sync_engine.Prelude.{
  ℕ, zero, suc, ◌+◌, ◌-◌, ◌*◌, ◌/◌, ◌%◌, ◌^◌, ◌<◌, Bytes, [], ◌∷◌, ◌++◌, ◌≡◌, ◌≢◌, refl, sym, ap,
  subst, ◌∙◌, arith, length, replicate, length-append, false, ◌==◌, All, All-append,
}
use p2p_sync_engine.Sha256.{
  Sha256Ctx, Working, Digest, flush, init, update, pad_zeros, padded, be_bytes, digest_of,
  process_block, finish, hash,
}
use p2p_sync_engine.Sha256.Streaming.{
  feed_all, feed_all-append, feed_all-piece, length_buffer-feed_all, update_lem, update-append,
  bit_len-feed_all,
}

-- The zero bytes that bring a buffer of `n` bytes to 56, around the end of a block.
abbrev pub zeros_after : ℕ → ℕ
zeros_after n = (120 - n) % 64

length_buffer-update :
    (c : Sha256Ctx) (xs : Bytes)
    → length c.buffer < 64
    → length (update c xs).buffer ≡ (length c.buffer + length xs) % 64
length_buffer-update c xs b =
    ap (λ d. length d.buffer) (update_lem c xs b) ∙ length_buffer-feed_all c xs b

bit_len-update :
    (c : Sha256Ctx) (xs : Bytes)
    → length c.buffer < 64
    → (update c xs).bit_len ≡ (c.bit_len + length xs * 8) % 2 ^ 64
bit_len-update c xs b = ap (λ d. d.bit_len) (update_lem c xs b)

update-nil : (c : Sha256Ctx) → length c.buffer < 64 → c.bit_len < 2 ^ 64 → update c [] ≡ c
update-nil c b l =
    update_lem c [] b ∙ (unfold feed_all in ap (λ n. record c { bit_len = n }) (omega arith))

not_full : (n : ℕ) → n ≢ 56 → (n == 56) ≡ false
not_full n h = ground arith

-- With the fuel that `finish` gives, the loop ends at 56 bytes, after as many zeros as that takes.
pad_zeros-update :
    (fuel : ℕ) (c : Sha256Ctx) (z : ℕ)
    → length c.buffer < 64
    → z ≡ zeros_after (length c.buffer)
    → z < fuel
    → c.bit_len < 2 ^ 64
    → pad_zeros fuel c ≡ update c (replicate z 0)
unfolding pad_zeros
pad_zeros-update zero c z b e h l = absurd (omega arith)
pad_zeros-update (suc fuel) c zero b e h l =
    let full : length c.buffer ≡ 56 = omega arith in (rw full refl) ∙ sym (update-nil c b l)
pad_zeros-update (suc fuel) c (suc z) b e h l =
    let n = length_buffer-update c (0 ∷ []) b in
    (rw (not_full (length c.buffer) (λ q. omega arith)) (
      pad_zeros-update fuel (update c (0 ∷ [])) z (omega (arith, n)) (omega (arith, n))
        (omega arith) (omega (arith, bit_len-update c (0 ∷ []) b))))
    ∙ update-append c (0 ∷ []) (replicate z 0) b

-- What `finish` puts behind a message of `n` bytes, before the length field.
abbrev pub padding : ℕ → Bytes
padding n = 0x80 ∷ replicate (zeros_after ((n + 1) % 64)) 0

-- `padded` feeds the padding, and counts its bits like those of the message.
padded-update : (m : Bytes) → padded (update init m) ≡ update init (m ++ padding (length m))
unfolding padded
padded-update m =
    let room : length (update init m).buffer ≡ length m % 64 =
      length_buffer-update init m (omega arith) ∙ (omega arith) in
    let n = length_buffer-update (update init m) (0x80 ∷ []) (omega (arith, room)) in
    pad_zeros-update 64 (update (update init m) (0x80 ∷ [])) (zeros_after ((length m + 1) % 64))
      (omega (arith, n)) (omega (arith, n, room)) (omega arith)
      (omega (arith, bit_len-update (update init m) (0x80 ∷ []) (omega (arith, room))))
    ∙ update-append (update init m) (0x80 ∷ []) _ (omega (arith, room))
    ∙ update-append init m (padding (length m)) (omega arith)

length-replicate : (n : ℕ) → length (replicate n (let z : ℕ = 0 in z)) ≡ n
length-replicate zero = refl
length-replicate (suc n) = ap suc (length-replicate n)

length-padding : (n : ℕ) → length (padding n) ≡ 1 + zeros_after ((n + 1) % 64)
length-padding n = omega (arith, length-replicate (zeros_after ((n + 1) % 64)))

-- `finish` writes a length field that counts the padding too: it is never the length of the message,
-- and it always has the residue 448 modulo 512. SHA-256 asks for the length of the message alone.
pub length_field_counts_padding :
    (m : Bytes)
    → length m < 2 ^ 60
    → ((padded (update init m)).bit_len ≡ length m * 8 + length (padding (length m)) * 8)
      × ((padded (update init m)).bit_len ≢ length m * 8)
      × ((padded (update init m)).bit_len % 512 ≡ 448)
length_field_counts_padding m h =
    let n = length-append {0} m (padding (length m)) in
    let p = length-padding (length m) in
    let bits : (padded (update init m)).bit_len ≡ (length (m ++ padding (length m)) * 8) % 2 ^ 64 =
      ap (λ c. c.bit_len) (padded-update m)
      ∙ bit_len-update init (m ++ padding (length m)) (omega arith)
      ∙ (omega arith) in
    (omega (arith, n, p, bits), λ e. omega (arith, n, p, bits, e), omega (arith, n, p, bits))

length-be_bytes : (n x : ℕ) → length (be_bytes n x) ≡ n
unfolding be_bytes
length-be_bytes zero x = refl
length-be_bytes (suc n) x =
    omega
      (arith, length-append {0} (be_bytes n (x / 256)) (x % 256 ∷ []), length-be_bytes n (x / 256))

be_bytes-lt : (n x : ℕ) → All (λ b. b < 256) (be_bytes n x)
unfolding be_bytes
be_bytes-lt zero x = tt
be_bytes-lt (suc n) x =
    All-append (λ b. b < 256) (be_bytes n (x / 256)) (x % 256 ∷ []) (be_bytes-lt n (x / 256))
      (omega arith, tt)

-- A digest is 32 bytes.
pub record IsDigest (d : Digest) : Type 0 where
  pub size : length d ≡ 32
  pub bytes : All (λ b. b < 256) d

ruleset word_lengths = (length-be_bytes, length-append)

word_first :
    (x : ℕ) (rest : Bytes) → All (λ b. b < 256) rest → All (λ b. b < 256) (be_bytes 4 x ++ rest)
word_first x rest h = All-append (λ b. b < 256) (be_bytes 4 x) rest (be_bytes-lt 4 x) h

digest_of-IsDigest : (s : Working) → IsDigest (digest_of s)
unfolding digest_of
digest_of-IsDigest s = record {
  size = simp word_lengths refl;
  bytes = word_first s.a _ (
      word_first s.b _ (
        word_first s.c _ (
          word_first s.d _
            (word_first s.e _ (word_first s.f _ (word_first s.g _ (be_bytes-lt 4 s.hh)))))));
}

finish_lem :
    (c : Sha256Ctx)
    → finish c
      ≡ digest_of (process_block (padded c).h ((padded c).buffer ++ be_bytes 8 (padded c).bit_len))
unfolding finish
finish_lem c = refl

hash_lem :
    (m : Bytes)
    → hash m
      ≡ digest_of (
          process_block
            (padded (update init m)).h
            ((padded (update init m)).buffer ++ be_bytes 8 (padded (update init m)).bit_len))
unfolding hash
hash_lem m = finish_lem (update init m)

-- Every hash is 32 bytes.
pub hash-IsDigest : (m : Bytes) → IsDigest (hash m)
hash-IsDigest m = subst IsDigest (sym (hash_lem m)) (digest_of-IsDigest _)

-- The whole message as `hash` processes it: the input, the padding, and the length field.
abbrev pub padded_message : Bytes → Bytes
padded_message m =
    let text = m ++ padding (length m) in text ++ be_bytes 8 ((length text * 8) % 2 ^ 64)

length-padded_message : (m : Bytes) → length (padded_message m) % 64 ≡ 0
length-padded_message m =
    let text = m ++ padding (length m) in
    omega (
      arith,
      length-append {0} m (padding (length m)),
      length-append {0} text (be_bytes 8 ((length text * 8) % 2 ^ 64)),
      length-padding (length m),
      length-be_bytes 8 ((length text * 8) % 2 ^ 64),
    )

-- A last piece that fills the buffer is processed with it.
feed_all-fill :
    (c : Sha256Ctx) (x : ℕ) (xs : Bytes)
    → length c.buffer + length (x ∷ xs) ≡ 64
    → (feed_all c (x ∷ xs)).h ≡ process_block c.h (c.buffer ++ (x ∷ xs))
feed_all-fill c x xs h =
    ap (λ d. d.h) (feed_all-piece c x xs (omega arith))
    ∙ flush_full (record c { buffer = c.buffer ++ (x ∷ xs) })
        (omega (arith, length-append {0} c.buffer (x ∷ xs)))
  where
    flush_full : (d : Sha256Ctx) → length d.buffer ≡ 64 → (flush d).h ≡ process_block d.h d.buffer
    flush_full d e = unfold flush in rw e refl

fill :
    (c : Sha256Ctx) (xs : Bytes)
    → length c.buffer + length xs ≡ 64
    → 0 < length xs
    → (feed_all c xs).h ≡ process_block c.h (c.buffer ++ xs)
fill c [] h p = elim p [ ]
fill c (x ∷ xs) h p = feed_all-fill c x xs h

-- `hash` is the digest of the state after the bytes of the padded message, one by one, with each
-- 64 of them compressed into the state as soon as they are there; the padded message is a whole
-- number of such blocks.
pub hash-feed_all :
    (m : Bytes)
    → (hash m ≡ digest_of (feed_all init (padded_message m)).h)
      × (length (padded_message m) % 64 ≡ 0)
hash-feed_all m = (
  hash_lem m
      ∙ ap digest_of (last_block (padded (update init m)) full)
      ∙ ap (λ c. digest_of (feed_all c (be_bytes 8 c.bit_len)).h) (padded-update m ∙ whole)
      ∙ ap (λ c. digest_of c.h)
          (rest ((length text * 8) % 2 ^ 64) (be_bytes 8 ((length text * 8) % 2 ^ 64))),
  length-padded_message m,
)
  where
    text : Bytes
    text = m ++ padding (length m)

    whole : update init text ≡ record (feed_all init text) { bit_len = (length text * 8) % 2 ^ 64 }
    whole =
        update_lem init text (omega arith)
        ∙ ap (λ n. record (feed_all init text) { bit_len = n }) (omega arith)

    full : length (padded (update init m)).buffer ≡ 56
    full =
        ap (λ c. length c.buffer) (padded-update m)
        ∙ length_buffer-update init text (omega arith)
        ∙ (omega (arith, length-append {0} m (padding (length m)), length-padding (length m)))

    last_block :
        (c : Sha256Ctx)
        → length c.buffer ≡ 56
        → process_block c.h (c.buffer ++ be_bytes 8 c.bit_len)
          ≡ (feed_all c (be_bytes 8 c.bit_len)).h
    last_block c e = sym (
        fill c (be_bytes 8 c.bit_len) (omega (arith, e, length-be_bytes 8 c.bit_len))
          (omega (arith, length-be_bytes 8 c.bit_len)))

    rest :
        (n : ℕ) (xs : Bytes)
        → feed_all (record (feed_all init text) { bit_len = n }) xs
          ≡ record (feed_all init (text ++ xs)) { bit_len = n }
    rest n xs =
        bit_len-feed_all (feed_all init text) n xs
        ∙ ap (λ (c : Sha256Ctx). record c { bit_len = n }) (sym (feed_all-append init text xs))

-- ===== src/Sha256.antt =====
-- sha256.hpp, sha256.cpp: the hash that names chunks and Merkle nodes. A 32-bit word is a number
-- below 2 ^ 32; the shifts, sums and rotations wrap as `uint32_t` does.
pub mod Constants
pub mod Streaming
pub mod Padding
mod Tests
use Prim.Native.Nat.{min, bit_and, bit_or, bit_xor}
use p2p_sync_engine.Prelude.{
  ℕ, zero, suc, ◌+◌, ◌-◌, ◌*◌, ◌/◌, ◌%◌, ◌^◌, Bytes, List, [], ◌∷◌, ◌++◌, ◌==◌, if◌then◌else◌,
  length, take, drop, get_or, foldl, true, false,
}
use Constants.{round_constants}

-- `std::array<uint8_t, 32>`
abbrev pub Digest : Type 0
Digest = Bytes

abbrev pub word_mod : ℕ
word_mod = 2 ^ 32

pub rotr : ℕ → ℕ → ℕ
rotr x n = bit_or (x / 2 ^ n) (x * 2 ^ (32 - n) % word_mod)

-- `~x` on 32 bits
pub complement : ℕ → ℕ
complement x = word_mod - 1 - x

-- Four bytes of a block as a word, the first on top.
pub word_at : Bytes → ℕ → ℕ
word_at p i =
    bit_or
      (bit_or (bit_or (get_or p (i * 4) 0 * 2 ^ 24) (get_or p (i * 4 + 1) 0 * 2 ^ 16))
        (get_or p (i * 4 + 2) 0 * 2 ^ 8))
      (get_or p (i * 4 + 3) 0)

-- The first loop: `n` words from the `i`-th on.
pub block_words : ℕ → ℕ → Bytes → List ℕ
block_words zero i p = []
block_words (suc n) i p = word_at p i ∷ block_words n (i + 1) p

pub next_word : List ℕ → ℕ → ℕ
next_word w i =
    let w15 = get_or w (i - 15) 0 in
    let w2 = get_or w (i - 2) 0 in
    let s0 = bit_xor (bit_xor (rotr w15 7) (rotr w15 18)) (w15 / 2 ^ 3) in
    let s1 = bit_xor (bit_xor (rotr w2 17) (rotr w2 19)) (w2 / 2 ^ 10) in
    (get_or w (i - 16) 0 + s0 + get_or w (i - 7) 0 + s1) % word_mod

-- The second loop: `n` more words, from the `i`-th on.
pub extend_words : ℕ → ℕ → List ℕ → List ℕ
extend_words zero i w = w
extend_words (suc n) i w = extend_words n (i + 1) (w ++ next_word w i ∷ [])

pub record Working : Type 0 where
  pub a : ℕ
  pub b : ℕ
  pub c : ℕ
  pub d : ℕ
  pub e : ℕ
  pub f : ℕ
  pub g : ℕ
  pub hh : ℕ

-- One round of the compression loop, with `k` for `K[i]` and `w` for `w[i]`.
pub round : Working → ℕ → ℕ → Working
round s k w =
    let S1 = bit_xor (bit_xor (rotr s.e 6) (rotr s.e 11)) (rotr s.e 25) in
    let ch = bit_xor (bit_and s.e s.f) (bit_and (complement s.e) s.g) in
    let temp1 = (s.hh + S1 + ch + k + w) % word_mod in
    let S0 = bit_xor (bit_xor (rotr s.a 2) (rotr s.a 13)) (rotr s.a 22) in
    let maj = bit_xor (bit_xor (bit_and s.a s.b) (bit_and s.a s.c)) (bit_and s.b s.c) in
    let temp2 = (S0 + maj) % word_mod in
    record {
      a = (temp1 + temp2) % word_mod;
      b = s.a;
      c = s.b;
      d = s.c;
      e = (s.d + temp1) % word_mod;
      f = s.e;
      g = s.f;
      hh = s.g;
    }

pub rounds : Working → List ℕ → List ℕ → Working
rounds s [] w = s
rounds s (k ∷ ks) [] = s
rounds s (k ∷ ks) (w ∷ ws) = rounds (round s k w) ks ws

pub add_words : Working → Working → Working
add_words x y = record {
  a = (x.a + y.a) % word_mod;
  b = (x.b + y.b) % word_mod;
  c = (x.c + y.c) % word_mod;
  d = (x.d + y.d) % word_mod;
  e = (x.e + y.e) % word_mod;
  f = (x.f + y.f) % word_mod;
  g = (x.g + y.g) % word_mod;
  hh = (x.hh + y.hh) % word_mod;
}

-- `h` after a block of 64 bytes.
unfoldable pub process_block : Working → Bytes → Working
unfolding rotr complement word_at block_words next_word extend_words round rounds add_words
process_block h p = add_words h (rounds h round_constants (extend_words 48 16 (block_words 16 0 p)))

-- `buffer` holds the bytes that are in use, the first `buf_len` ones of the array.
pub record Sha256Ctx : Type 0 where
  pub h : Working
  pub bit_len : ℕ
  pub buffer : Bytes

abbrev pub init : Sha256Ctx
init = record {
  h = record {
    a = 0x6a09e667;
    b = 0xbb67ae85;
    c = 0x3c6ef372;
    d = 0xa54ff53a;
    e = 0x510e527f;
    f = 0x9b05688c;
    g = 0x1f83d9ab;
    hh = 0x5be0cd19;
  };
  bit_len = 0;
  buffer = [];
}

-- The end of a round of the loop of `update`: a full buffer is processed.
pub flush : Sha256Ctx → Sha256Ctx
flush c =
    let full = record c { h = process_block c.h c.buffer; buffer = [] } in
    if length c.buffer == 64 then full else c

-- `while (len > 0)`, with fuel: each round takes at least one byte.
pub absorb : ℕ → Sha256Ctx → Bytes → Sha256Ctx
absorb zero c input = c
absorb (suc fuel) c [] = c
absorb (suc fuel) c (x ∷ xs) =
    let taken = min (length (x ∷ xs)) (64 - length c.buffer) in
    absorb fuel (flush (record c { buffer = c.buffer ++ take taken (x ∷ xs) }))
      (drop taken (x ∷ xs))

unfoldable pub update : Sha256Ctx → Bytes → Sha256Ctx
unfolding absorb flush
update c input =
    absorb (length input) (record c { bit_len = (c.bit_len + length input * 8) % 2 ^ 64 }) input

-- `while (buf_len != 56) update(&zero, 1);` with fuel: 64 rounds pass through every buffer length.
pub pad_zeros : ℕ → Sha256Ctx → Sha256Ctx
pad_zeros zero c = c
pad_zeros (suc fuel) c =
    let more = pad_zeros fuel (update c (0 ∷ [])) in if length c.buffer == 56 then c else more

-- The low `n` bytes of a number, the highest first.
pub be_bytes : ℕ → ℕ → Bytes
be_bytes zero x = []
be_bytes (suc n) x = be_bytes n (x / 256) ++ x % 256 ∷ []

pub digest_of : Working → Digest
digest_of s =
    be_bytes 4 s.a
    ++ (be_bytes 4 s.b
        ++ (be_bytes 4 s.c
            ++ (be_bytes 4 s.d
                ++ (be_bytes 4 s.e ++ (be_bytes 4 s.f ++ (be_bytes 4 s.g ++ be_bytes 4 s.hh))))))

-- `finish` up to the length field: the padded context.
unfoldable pub padded : Sha256Ctx → Sha256Ctx
unfolding pad_zeros update
padded c = pad_zeros 64 (update c (0x80 ∷ []))

unfoldable pub finish : Sha256Ctx → Digest
unfolding padded be_bytes digest_of process_block
finish c = let p = padded c in digest_of (process_block p.h (p.buffer ++ be_bytes 8 p.bit_len))

unfoldable pub hash : Bytes → Digest
unfolding update finish
hash input = finish (update init input)

-- SHA-256 of the two digests, one behind the other.
unfoldable pub combine : Digest → Digest → Digest
unfolding hash
combine left right = hash (left ++ right)

unfoldable pub hex_digit : ℕ → ℕ
hex_digit n =
    get_or
      (b'0' ∷ b'1' ∷ b'2' ∷ b'3' ∷ b'4' ∷ b'5' ∷ b'6' ∷ b'7' ∷ b'8' ∷ b'9' ∷ b'a' ∷ b'b' ∷ b'c'
        ∷ b'd' ∷ b'e' ∷ b'f' ∷ [])
      n 0

-- Two hexadecimal digits for each byte.
unfoldable pub to_hex : Digest → Bytes
unfolding hex_digit
to_hex [] = []
to_hex (b ∷ d) = hex_digit (b / 16) ∷ hex_digit (b % 16) ∷ to_hex d

-- ===== src/Chunker.antt =====
-- chunker.hpp, chunker.cpp: content-defined chunks of a file.
pub mod Layout
pub mod Locality
pub mod Tiling
pub mod Count
pub mod Boundary
mod Tests
use Prim.Native.Nat.{bit_and}
use p2p_sync_engine.Prelude.{
  ℕ, zero, suc, ◌+◌, ◌-◌, ◌*◌, ◌/◌, ◌%◌, ◌^◌, Bytes, List, [], ◌∷◌, Option, none, some, ◌==◌, ltb,
  leb, ◌&&◌, ◌||◌, if◌then◌else◌, length, take, drop, true, false,
}
use p2p_sync_engine.Sha256
use p2p_sync_engine.Sha256.{Digest}
use p2p_sync_engine.RollingHash

-- `content` is the field `data`.
pub record Chunk : Type 0 where
  pub offset : ℕ
  pub content : Bytes
  pub hash : Digest

pub record Chunker : Type 0 where
  pub min_size : ℕ
  pub max_size : ℕ
  pub mask_bits : ℕ
  pub mask : ℕ

-- `while (v > 1) { v >>= 1; mask_bits_++; }`, with fuel.
pub count_bits : ℕ → ℕ → ℕ → ℕ
count_bits zero v bits = bits
count_bits (suc fuel) v bits =
    let more = count_bits fuel (v / 2) (bits + 1) in if ltb 1 v then more else bits

-- The constructor; the loop halves a `size_t`, so 64 rounds are enough.
unfoldable pub new : ℕ → ℕ → ℕ → Chunker
unfolding count_bits
new min_size avg_size max_size =
    let mask_bits = count_bits 64 avg_size 0 in
    record {
      min_size = min_size;
      max_size = max_size;
      mask_bits = mask_bits;
      mask = if leb 64 mask_bits then 2 ^ 64 - 1 else 2 ^ mask_bits - 1;
    }

-- The default arguments of the constructor.
abbrev pub default_chunker : Chunker
default_chunker = new (2 * 1024) (8 * 1024) (64 * 1024)

unfoldable pub make_chunk : Bytes → ℕ → ℕ → Chunk
make_chunk input start end =
    let content = take (end - start) (drop start input) in
    record { offset = start; content = content; hash = Sha256.hash content }

-- The inner loop, over the bytes from `start` on that are left: the window at which a chunk ends, or
-- `none` at the end of the input.
pub scan : Chunker → ℕ → ℕ → Bytes → Option ℕ
unfolding RollingHash.roll
scan c h window [] = none
scan c h window (byte ∷ rest) =
    let h' = RollingHash.roll h byte in
    let window' = window + 1 in
    let at_min = leb c.min_size window' in
    let at_max = leb c.max_size window' in
    let boundary = at_min && (bit_and h' c.mask == 0) in
    let later = scan c h' window' rest in if boundary || at_max then some window' else later

-- The outer loop, with fuel; `i` is `start` whenever the test `i < n` is made and passes.
pub chunk_loop : Chunker → Bytes → ℕ → ℕ → List Chunk
chunk_loop c input zero start = []
chunk_loop c input (suc fuel) start =
    let n = length input in
    let next = λ (window : ℕ).
      make_chunk input start (start + window) ∷ chunk_loop c input fuel (start + window) in
    let round : List Chunk = elim (scan c RollingHash.reset 0 (drop start input)) [
      | none ↦ make_chunk input start n ∷ []
      | some window ↦ next window
    ] in
    if ltb start n then round else []

-- Each round takes at least one byte, so the length of the input is fuel enough.
unfoldable pub chunk : Chunker → Bytes → List Chunk
unfolding scan chunk_loop make_chunk
chunk c input = chunk_loop c input (length input) 0

-- ===== src/Chunker/Count.antt =====
-- How many chunks a file has.
use Prim.Native.Nat.{max, min}
use p2p_sync_engine.Prelude.{
  ℕ, suc, ◌+◌, ◌*◌, ◌≤◌, Bytes, List, [], ◌∷◌, ◌++◌, ◌≡◌, ap, arith, length, length-append, inl,
  inr,
}
use p2p_sync_engine.Chunker.{Chunk, Chunker, chunk}
use p2p_sync_engine.Chunker.Tiling.{Tiles, chunk-Tiles}

suc_times : (n l : ℕ) → suc n * l ≡ l + n * l
suc_times n l = omega arith

-- What is left behind a chunk.
length-behind :
    (rest content more : Bytes)
    → rest ≡ content ++ more
    → length rest ≡ length content + length more
length-behind rest content more h = omega (arith, ap length h, length-append {0} content more)

Tiles-most :
    (c : Chunker) (start : ℕ) (rest : Bytes) (ks : List Chunk)
    → Tiles c start rest ks
    → length rest ≤ length ks * max 1 c.max_size
Tiles-most c start rest [] t = omega (arith, ap length t)
Tiles-most c start rest (k ∷ ks) t =
    let (more, e, t') = t.5 in
    omega (
      arith,
      t.3,
      length-behind rest k.content more e,
      suc_times (length ks) (max 1 c.max_size),
      Tiles-most c (start + length k.content) more ks t',
    )

Tiles-nonempty :
    (c : Chunker) (start : ℕ) (rest : Bytes) (ks : List Chunk)
    → Tiles c start rest ks
    → length ks ≤ length rest
Tiles-nonempty c start rest [] t = omega arith
Tiles-nonempty c start rest (k ∷ ks) t =
    let (more, e, t') = t.5 in
    omega (
      arith,
      t.2,
      length-behind rest k.content more e,
      Tiles-nonempty c (start + length k.content) more ks t',
    )

abbrev least : Chunker → ℕ
least c = min c.min_size c.max_size

Tiles-least :
    (c : Chunker) (start : ℕ) (rest : Bytes) (ks : List Chunk)
    → Tiles c start rest ks
    → length ks * least c ≤ length rest + least c
Tiles-least c start rest [] t = omega arith
Tiles-least c start rest (k ∷ ks) t =
    let (more, e, t') = t.5 in
    let behind = length-behind rest k.content more e in
    let one = suc_times (length ks) (least c) in
    let others = Tiles-least c (start + length k.content) more ks t' in
    elim t.4 [
      | inl h ↦ omega (arith, behind, one, others, h)
      | inr (inl h) ↦ omega (arith, behind, one, others, h)
      | inr (inr h) ↦ omega (arith, one, suc_times 0 (least c), ap (λ x. length x * least c) h)
    ]

-- The number of chunks of an input, times the minimal size (or the maximal one, if that is smaller), is
-- at most the length of the input and one such size more; times the maximal size (or one byte, if that is
-- zero), at least the length of the input; and no input has more chunks than bytes.
pub length-chunk :
    (c : Chunker) (input : Bytes)
    → (length (chunk c input) * min c.min_size c.max_size
        ≤ length input + min c.min_size c.max_size)
      × (length input ≤ length (chunk c input) * max 1 c.max_size)
      × (length (chunk c input) ≤ length input)
length-chunk c input =
    let tiles = chunk-Tiles c input in
    (
      Tiles-least c 0 input (chunk c input) tiles,
      Tiles-most c 0 input (chunk c input) tiles,
      Tiles-nonempty c 0 input (chunk c input) tiles,
    )

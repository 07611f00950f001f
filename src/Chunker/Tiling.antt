-- ===== src/Chunker/Tiling.antt =====
-- How the chunks of a file lie in it.
use Prim.Native.Nat.{max}
use p2p_sync_engine.Prelude.{
  ℕ, zero, suc, ◌+◌, ◌≤◌, ◌<◌, Bytes, List, [], ◌∷◌, ◌++◌, ◌≡◌, ◌⊎◌, refl, sym, ap, subst, ◌∙◌,
  arith, append-nil, length, take, drop, map, length-take, length-drop, take-append-drop,
  Option-cases, inl, inr, concat,
}
use p2p_sync_engine.Sha256
use p2p_sync_engine.RollingHash
use p2p_sync_engine.Chunker.{Chunk, Chunker, scan, chunk}
use p2p_sync_engine.Chunker.Layout.{
  scan_bounds, scan-none, chunk_suffix, chunk_suffix-last, chunk_suffix-window, chunk-chunk_suffix,
}

-- The chunks cover the bytes that are left from `start` on, one behind the other: each has the
-- offset where it stands, the hash of its content, at least one byte and at most the maximal size;
-- and each but the last has the minimal size, or the maximal one where that is smaller.
abbrev pub Tiles : Chunker → ℕ → Bytes → List Chunk → Type 0
Tiles c start rest [] = rest ≡ []
Tiles c start rest (k ∷ ks) =
    (k.offset ≡ start)
    × (k.hash ≡ Sha256.hash k.content)
    × (0 < length k.content)
    × (length k.content ≤ max 1 c.max_size)
    × ((c.min_size ≤ length k.content) ⊎ ((c.max_size ≤ length k.content) ⊎ (ks ≡ [])))
    × ((more : Bytes) × (rest ≡ k.content ++ more) × Tiles c (start + length k.content) more ks)

chunk_suffix-Tiles :
    (c : Chunker) (fuel start : ℕ) (rest : Bytes)
    → length rest ≤ fuel
    → Tiles c start rest (chunk_suffix c fuel start rest)
chunk_suffix-Tiles c zero start [] h = unfold chunk_suffix in refl
chunk_suffix-Tiles c zero start (x ∷ xs) h = absurd (omega arith)
chunk_suffix-Tiles c (suc fuel) start [] h = unfold chunk_suffix in refl
chunk_suffix-Tiles c (suc fuel) start (x ∷ xs) h =
    elim (Option-cases (scan c RollingHash.reset 0 (x ∷ xs))) [
      | inl q ↦ subst (Tiles c start (x ∷ xs)) (sym (chunk_suffix-last c fuel start x xs q)) (
        refl,
        refl,
        omega arith,
        omega (arith, scan-none c RollingHash.reset 0 (x ∷ xs) q (omega arith)),
        inr (inr refl),
        ([], sym (append-nil (x ∷ xs)), refl),
      )
      | inr (w, q) ↦
          let b = scan_bounds c RollingHash.reset 0 (x ∷ xs) w q in
          let n : length (take w (x ∷ xs)) ≡ w = omega (arith, length-take {0} w (x ∷ xs), b.1) in
          subst (Tiles c start (x ∷ xs)) (sym (chunk_suffix-window c fuel start x xs w q)) (
            refl,
            refl,
            omega (arith, b.0),
            omega (arith, b.2),
            elim b.3 [ inl p ↦ inl (omega arith) | inr p ↦ inr (inl (omega arith)) ],
            (
              drop w (x ∷ xs),
              sym (take-append-drop w (x ∷ xs)),
              subst
                  (λ m.
                    Tiles c (start + m) (drop w (x ∷ xs))
                      (chunk_suffix c fuel (start + w) (drop w (x ∷ xs))))
                  (sym n)
                  (chunk_suffix-Tiles c fuel (start + w) (drop w (x ∷ xs))
                    (omega (arith, length-drop {0} w (x ∷ xs), b.0))),
            ),
          )
    ]

-- The chunks of every input tile it: in order, without a gap, each with the hash of its content, none
-- empty, none above the maximal size (or one byte, if that is zero), and only the last below both sizes.
pub chunk-Tiles : (c : Chunker) (input : Bytes) → Tiles c 0 input (chunk c input)
chunk-Tiles c input =
    subst (Tiles c 0 input) (sym (chunk-chunk_suffix c input))
      (chunk_suffix-Tiles c (length input) 0 input (omega arith))

concat-Tiles :
    (c : Chunker) (start : ℕ) (rest : Bytes) (ks : List Chunk)
    → Tiles c start rest ks
    → concat (map (λ (k : Chunk). k.content) ks) ≡ rest
concat-Tiles c start rest [] t = sym t
concat-Tiles c start rest (k ∷ ks) t =
    let (more, e, t') = t.5 in
    ap (◌++◌ k.content) (concat-Tiles c (start + length k.content) more ks t') ∙ sym e

-- The contents of the chunks, one behind the other, are the file.
pub concat-chunk :
    (c : Chunker) (input : Bytes) → concat (map (λ (k : Chunk). k.content) (chunk c input)) ≡ input
concat-chunk c input = concat-Tiles c 0 input (chunk c input) (chunk-Tiles c input)

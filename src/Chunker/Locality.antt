-- ===== src/Chunker/Locality.antt =====
-- The chunks of an input that goes on behind a boundary.
use p2p_sync_engine.Prelude.{
  ℕ, zero, suc, ◌+◌, ◌≤◌, Bytes, List, [], ◌∷◌, ◌++◌, some, ◌≡◌, refl, sym, ap, ap₂, ◌∙◌, arith,
  length, take, drop, map, length-drop, Option-cases, inl, inr,
}
use p2p_sync_engine.RollingHash
use p2p_sync_engine.Chunker.{Chunk, Chunker, scan, chunk}
use p2p_sync_engine.Chunker.Layout.{
  scan_bounds, chunk_suffix, chunk_suffix-last, chunk_suffix-window, chunk-chunk_suffix,
}

-- The contents of the chunks of an input.
abbrev pub contents : Chunker → Bytes → List Bytes
contents c input = map (λ (k : Chunk). k.content) (chunk c input)

-- The input ends at a chunk boundary: every chunk of it, the last one too, was closed by the content or
-- by the maximal size, and not by the end of the input.
pub data IsClosed (c : Chunker) : Bytes → Type 0 where
  done : IsClosed c []
  next :
      (w : ℕ) (input : Bytes)
      → scan c RollingHash.reset 0 input ≡ some w
      → IsClosed c (drop w input)
      → IsClosed c input

pub scan-append :
    (c : Chunker) (h window : ℕ) (xs ys : Bytes) (w : ℕ)
    → scan c h window xs ≡ some w
    → scan c h window (xs ++ ys) ≡ some w
unfolding scan
scan-append c h window [] ys w e = cc
scan-append c h window (x ∷ xs) ys w e =
    ground (arith, scan-append c (RollingHash.roll h x) (window + 1) xs ys w)

take-append : (w : ℕ) (xs ys : Bytes) → w ≤ length xs → take w (xs ++ ys) ≡ take w xs
take-append zero xs ys h = refl
take-append (suc w) [] ys h = absurd (omega arith)
take-append (suc w) (x ∷ xs) ys h = ap (◌∷◌ x) (take-append w xs ys (omega arith))

drop-append : (w : ℕ) (xs ys : Bytes) → w ≤ length xs → drop w (xs ++ ys) ≡ drop w xs ++ ys
drop-append zero xs ys h = refl
drop-append (suc w) [] ys h = absurd (omega arith)
drop-append (suc w) (x ∷ xs) ys h = drop-append w xs ys (omega arith)

abbrev parts : List Chunk → List Bytes
parts = map (λ (k : Chunk). k.content)

-- The offset and the spare fuel do not change the contents.
parts-chunk_suffix :
    (c : Chunker) (fuel fuel' start start' : ℕ) (rest : Bytes)
    → length rest ≤ fuel
    → length rest ≤ fuel'
    → parts (chunk_suffix c fuel start rest) ≡ parts (chunk_suffix c fuel' start' rest)
parts-chunk_suffix c zero zero start start' [] h h' = unfold chunk_suffix in refl
parts-chunk_suffix c zero (suc fuel') start start' [] h h' = unfold chunk_suffix in refl
parts-chunk_suffix c (suc fuel) zero start start' [] h h' = unfold chunk_suffix in refl
parts-chunk_suffix c (suc fuel) (suc fuel') start start' [] h h' = unfold chunk_suffix in refl
parts-chunk_suffix c zero fuel' start start' (x ∷ xs) h h' = absurd (omega arith)
parts-chunk_suffix c (suc fuel) zero start start' (x ∷ xs) h h' = absurd (omega arith)
parts-chunk_suffix c (suc fuel) (suc fuel') start start' (x ∷ xs) h h' =
    elim (Option-cases (scan c RollingHash.reset 0 (x ∷ xs))) [
      | inl q ↦
          ap parts (chunk_suffix-last c fuel start x xs q)
          ∙ ap parts (sym (chunk_suffix-last c fuel' start' x xs q))
      | inr (w, q) ↦
          let b = scan_bounds c RollingHash.reset 0 (x ∷ xs) w q in
          ap parts (chunk_suffix-window c fuel start x xs w q)
          ∙ ap (◌∷◌ (take w (x ∷ xs))) (
              parts-chunk_suffix c fuel fuel' (start + w) (start' + w) (drop w (x ∷ xs))
                (omega (arith, length-drop {0} w (x ∷ xs), b.0))
                (omega (arith, length-drop {0} w (x ∷ xs), b.0)))
          ∙ ap parts (sym (chunk_suffix-window c fuel' start' x xs w q))
    ]

contents-nil : (c : Chunker) → contents c [] ≡ []
contents-nil c = ap parts (chunk-chunk_suffix c []) ∙ (unfold chunk_suffix in refl)

contents-window :
    (c : Chunker) (input : Bytes) (w : ℕ)
    → scan c RollingHash.reset 0 input ≡ some w
    → contents c input ≡ take w input ∷ contents c (drop w input)
contents-window c [] w q = unfold scan in cc
contents-window c (x ∷ xs) w q =
    let b = scan_bounds c RollingHash.reset 0 (x ∷ xs) w q in
    ap parts (chunk-chunk_suffix c (x ∷ xs) ∙ chunk_suffix-window c (length xs) 0 x xs w q)
    ∙ ap (◌∷◌ (take w (x ∷ xs))) (
        parts-chunk_suffix c (length xs) (length (drop w (x ∷ xs))) (0 + w) 0 (drop w (x ∷ xs))
          (omega (arith, length-drop {0} w (x ∷ xs), b.0)) (omega arith)
        ∙ ap parts (sym (chunk-chunk_suffix c (drop w (x ∷ xs)))))

-- Behind an input that ends at a boundary, the chunks are those that the rest has alone.
pub contents-append :
    (c : Chunker) (xs ys : Bytes)
    → IsClosed c xs
    → contents c (xs ++ ys) ≡ contents c xs ++ contents c ys
contents-append c xs ys done = rw (contents-nil c) refl
contents-append c xs ys (next w input q rest) =
    let fits : w ≤ length xs = omega (arith, scan_bounds c RollingHash.reset 0 xs w q) in
    contents-window c (xs ++ ys) w (scan-append c RollingHash.reset 0 xs ys w q)
    ∙ ap₂ ◌∷◌ (take-append w xs ys fits)
        (ap (contents c) (drop-append w xs ys fits) ∙ contents-append c (drop w xs) ys rest)
    ∙ ap (λ l. l ++ contents c ys) (sym (contents-window c xs w q))

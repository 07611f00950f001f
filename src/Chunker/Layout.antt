-- ===== src/Chunker/Layout.antt =====
-- The loops of `chunk`, one chunk at a time.
use p2p_sync_engine.Prelude.{
  ℕ, zero, suc, ◌+◌, ◌≤◌, ◌<◌, Bytes, List, [], ◌∷◌, none, some, ◌≡◌, ◌⊎◌, refl, sym, ap, true,
  false, ap₂, ◌∙◌, arith, length, take, drop, length-drop, Option-cases, inl, inr, ltb,
}
use p2p_sync_engine.Sha256
use p2p_sync_engine.RollingHash
use p2p_sync_engine.Chunker.{Chunk, Chunker, make_chunk, scan, chunk_loop, chunk}

-- A window that the inner loop reports lies in the input, and within the bounds.
pub scan_bounds :
    (c : Chunker) (h window : ℕ) (rest : Bytes) (w : ℕ)
    → scan c h window rest ≡ some w
    → (window < w)
      × (w ≤ window + length rest)
      × ((w ≤ c.max_size) ⊎ (w ≡ window + 1))
      × ((c.min_size ≤ w) ⊎ (c.max_size ≤ w))
unfolding scan
scan_bounds c h window [] w e = cc
scan_bounds c h window (byte ∷ rest) w e =
    ground (arith, scan_bounds c (RollingHash.roll h byte) (window + 1) rest w)

-- Where the inner loop reports no window, the rest of the input is below the maximal size.
pub scan-none :
    (c : Chunker) (h window : ℕ) (rest : Bytes)
    → scan c h window rest ≡ none
    → 0 < length rest
    → window + length rest < c.max_size
unfolding scan
scan-none c h window [] e p = absurd (omega arith)
scan-none c h window (byte ∷ []) e p = ground arith
scan-none c h window (byte ∷ (next ∷ rest)) e p =
    ground (arith, scan-none c (RollingHash.roll h byte) (window + 1) (next ∷ rest))

-- The outer loop over the bytes that are left, with the offset that they start at.
unfoldable pub chunk_suffix : Chunker → ℕ → ℕ → Bytes → List Chunk
chunk_suffix c zero start rest = []
chunk_suffix c (suc fuel) start [] = []
chunk_suffix c (suc fuel) start (x ∷ xs) = elim (scan c RollingHash.reset 0 (x ∷ xs)) [
  | none ↦ record { offset = start; content = x ∷ xs; hash = Sha256.hash (x ∷ xs) } ∷ []
  | some window ↦
      record {
        offset = start;
        content = take window (x ∷ xs);
        hash = Sha256.hash (take window (x ∷ xs));
      }
      ∷ chunk_suffix c fuel (start + window) (drop window (x ∷ xs))
]

drop-nil : (n : ℕ) → drop n (let none_left : Bytes = [] in none_left) ≡ []
drop-nil zero = refl
drop-nil (suc n) = refl

drop-add : (m n : ℕ) (xs : Bytes) → drop (m + n) xs ≡ drop n (drop m xs)
drop-add zero n xs = ap (λ k. drop k xs) (omega arith)
drop-add (suc m) n [] = drop-nil (suc m + n) ∙ sym (drop-nil n)
drop-add (suc m) n (x ∷ xs) =
    ap (λ k. drop k (x ∷ xs)) (let e : suc m + n ≡ suc (m + n) = omega arith in e) ∙ drop-add m n xs

take-length : (xs : Bytes) → take (length xs) xs ≡ xs
take-length [] = refl
take-length (x ∷ xs) = ap (◌∷◌ x) (take-length xs)

-- A chunk with its offset and its content; the hash is that of the content.
abbrev pub chunk_at : ℕ → Bytes → Chunk
chunk_at start content = record { offset = start; content = content; hash = Sha256.hash content }

make_chunk-last :
    (input : Bytes) (start : ℕ) (rest : Bytes)
    → drop start input ≡ rest
    → make_chunk input start (length input) ≡ chunk_at start rest
unfolding make_chunk
make_chunk-last input start rest e =
    ap (chunk_at start)
      (ap₂ take (sym (length-drop {0} start input) ∙ ap length e) e ∙ take-length rest)

make_chunk-window :
    (input : Bytes) (start window : ℕ) (rest : Bytes)
    → drop start input ≡ rest
    → make_chunk input start (start + window) ≡ chunk_at start (take window rest)
unfolding make_chunk
make_chunk-window input start window rest e = ap (chunk_at start) (ap₂ take (omega arith) e)

drop_done : (input : Bytes) (start : ℕ) → drop start input ≡ [] → ltb start (length input) ≡ false
drop_done input start e = ground (arith, length-drop {0} start input, ap length e)

drop_more :
    (input : Bytes) (start x : ℕ) (xs : Bytes)
    → drop start input ≡ x ∷ xs
    → ltb start (length input) ≡ true
drop_more input start x xs e = ground (arith, length-drop {0} start input, ap length e)

pub chunk_suffix-last :
    (c : Chunker) (fuel start x : ℕ) (xs : Bytes)
    → scan c RollingHash.reset 0 (x ∷ xs) ≡ none
    → chunk_suffix c (suc fuel) start (x ∷ xs) ≡ chunk_at start (x ∷ xs) ∷ []
unfolding chunk_suffix
chunk_suffix-last c fuel start x xs q = rw (q, chunk_suffix) refl

pub chunk_suffix-window :
    (c : Chunker) (fuel start x : ℕ) (xs : Bytes) (w : ℕ)
    → scan c RollingHash.reset 0 (x ∷ xs) ≡ some w
    → chunk_suffix c (suc fuel) start (x ∷ xs)
      ≡ chunk_at start (take w (x ∷ xs)) ∷ chunk_suffix c fuel (start + w) (drop w (x ∷ xs))
unfolding chunk_suffix
chunk_suffix-window c fuel start x xs w q = rw (q, chunk_suffix) refl

chunk_loop-chunk_suffix :
    (c : Chunker) (input : Bytes) (fuel start : ℕ) (rest : Bytes)
    → drop start input ≡ rest
    → chunk_loop c input fuel start ≡ chunk_suffix c fuel start rest
unfolding chunk_loop
chunk_loop-chunk_suffix c input zero start rest e = unfold chunk_suffix in refl
chunk_loop-chunk_suffix c input (suc fuel) start [] e =
    rw (drop_done input start e) (unfold chunk_suffix in refl)
chunk_loop-chunk_suffix c input (suc fuel) start (x ∷ xs) e =
    elim (Option-cases (scan c RollingHash.reset 0 (x ∷ xs))) [
      | inl q ↦
          (rw (drop_more input start x xs e, e, q)
            (ap (λ k. k ∷ []) (make_chunk-last input start (x ∷ xs) e)))
          ∙ sym (chunk_suffix-last c fuel start x xs q)
      | inr (w, q) ↦
          (rw (drop_more input start x xs e, e, q)
            (ap₂ ◌∷◌ (make_chunk-window input start w (x ∷ xs) e) (
              chunk_loop-chunk_suffix c input fuel (start + w) (drop w (x ∷ xs))
                (drop-add start w input ∙ ap (drop w) e))))
          ∙ sym (chunk_suffix-window c fuel start x xs w q)
    ]

-- `chunk` is the loop over all bytes.
pub chunk-chunk_suffix :
    (c : Chunker) (input : Bytes) → chunk c input ≡ chunk_suffix c (length input) 0 input
unfolding chunk
chunk-chunk_suffix c input = chunk_loop-chunk_suffix c input (length input) 0 input refl

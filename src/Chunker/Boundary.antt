-- ===== src/Chunker/Boundary.antt =====
-- A boundary is found by the content before it.
use Prim.Native.Nat.{bit_and}
use p2p_sync_engine.Prelude.{
  ℕ, ◌+◌, ◌-◌, ◌^◌, ◌≤◌, Bool, true, false, Bytes, [], ◌∷◌, ◌++◌, Option, some, length, leb,
  if◌then◌else◌, ◌≡◌, refl, sym, ap, ◌∙◌, arith, Bool-cases, inl, inr, leb→le,
}
use p2p_sync_engine.RollingHash
use p2p_sync_engine.RollingHash.Window.{rolls, rolls-Agree_last}
use p2p_sync_engine.RollingHash.Mask.{bit_and-mask}
use p2p_sync_engine.Chunker.{Chunker, new, count_bits, scan}

-- The mask is one of low bits, no more than `mask_bits`.
mask_lem :
    (min_size avg_size max_size : ℕ)
    → (k : ℕ) × (k ≤ 64)
      × (k ≤ (new min_size avg_size max_size).mask_bits)
      × ((new min_size avg_size max_size).mask ≡ 2 ^ k - 1)
unfolding new
mask_lem min_size avg_size max_size = by_test (count_bits 64 avg_size 0)
  where
    by_test :
        (bits : ℕ)
        → (k : ℕ) × (k ≤ 64)
          × (k ≤ bits)
          × ((if leb 64 bits then 2 ^ 64 - 1 else 2 ^ bits - 1) ≡ 2 ^ k - 1)
    by_test bits = elim (Bool-cases (leb 64 bits)) [
      | inl q ↦ (64, omega arith, leb→le 64 bits q, rw q refl)
      | inr q ↦ (bits, ground arith, omega arith, rw q refl)
    ]

-- Whatever was hashed before, the test after the bytes is the same, if they are as many as its bits.
mask_test :
    (min_size avg_size max_size h h' : ℕ) (bytes : Bytes)
    → (new min_size avg_size max_size).mask_bits ≤ length bytes
    → bit_and (rolls h bytes) (new min_size avg_size max_size).mask
      ≡ bit_and (rolls h' bytes) (new min_size avg_size max_size).mask
mask_test min_size avg_size max_size h h' bytes long =
    let (k, small, below, mask) = mask_lem min_size avg_size max_size in
    ap (bit_and (rolls h bytes)) mask
    ∙ bit_and-mask k (rolls h bytes)
    ∙ rolls-Agree_last k bytes h h' small (omega (arith, below, long))
    ∙ sym (bit_and-mask k (rolls h' bytes))
    ∙ ap (bit_and (rolls h' bytes)) (sym mask)

if-stops :
    (b : Bool) (here bound : ℕ) (later : Option ℕ)
    → here ≤ bound
    → (end : ℕ) × (later ≡ some end) × (end ≤ bound)
    → (end : ℕ) × ((if b then some here else later) ≡ some end) × (end ≤ bound)
if-stops true here bound later h rest = (here, refl, h)
if-stops false here bound later h rest = rest

-- The scan ends behind bytes that pass the test, or sooner.
scan-stops :
    (c : Chunker) (h window byte : ℕ) (bytes rest : Bytes)
    → c.min_size ≤ window + length (byte ∷ bytes)
    → bit_and (rolls h (byte ∷ bytes)) c.mask ≡ 0
    → (end : ℕ) × (scan c h window (byte ∷ bytes ++ rest) ≡ some end)
      × (end ≤ window + length (byte ∷ bytes))
unfolding scan
scan-stops c h window byte [] rest large zeros = (window + 1, ground arith, omega arith)
scan-stops c h window byte (next ∷ bytes) rest large zeros =
    let later =
      scan-stops c (RollingHash.roll h byte) (window + 1) next bytes rest (omega (arith, large))
        zeros in
    if-stops _ (window + 1) _ _ (omega arith) (later.0, later.1, omega (arith, later.2))

-- Bytes, at least one and at least as many as the mask has bits, that pass the test of a boundary by
-- themselves end a chunk, at their end or sooner, whatever was hashed before them and stands behind them,
-- if the chunk has the minimal size at their end.
pub scan-boundary :
    (min_size avg_size max_size h window byte : ℕ) (bytes rest : Bytes)
    → (new min_size avg_size max_size).mask_bits ≤ length (byte ∷ bytes)
    → (new min_size avg_size max_size).min_size ≤ window + length (byte ∷ bytes)
    → bit_and (rolls RollingHash.reset (byte ∷ bytes)) (new min_size avg_size max_size).mask ≡ 0
    → (end : ℕ) × (scan (new min_size avg_size max_size) h window (byte ∷ bytes ++ rest) ≡ some end)
      × (end ≤ window + length (byte ∷ bytes))
scan-boundary min_size avg_size max_size h window byte bytes rest long large zeros =
    scan-stops (new min_size avg_size max_size) h window byte bytes rest large
      (mask_test min_size avg_size max_size h RollingHash.reset (byte ∷ bytes) long ∙ zeros)

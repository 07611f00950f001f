-- ===== src/Chunker/Tests.antt =====
-- The theorems on chunks at concrete inputs.
use Prim.Native.Nat.{bit_and}
use p2p_sync_engine.Prelude.{ℕ, ◌+◌, ◌*◌, ◌≤◌, length, arith, Bytes, [], ◌∷◌, ◌++◌, ◌≡◌, refl, some}
use p2p_sync_engine.RollingHash
use p2p_sync_engine.Chunker.{Chunker, chunk, scan, new}
use p2p_sync_engine.Chunker.Boundary.{scan-boundary}
use p2p_sync_engine.RollingHash.Window.{rolls}
use p2p_sync_engine.Chunker.Tiling.{Tiles, chunk-Tiles}
use p2p_sync_engine.Chunker.Count.{length-chunk}
use p2p_sync_engine.Chunker.Locality.{contents, done, next, contents-append}

-- Chunks of two or three bytes.
abbrev small : Chunker
small = record { min_size = 2; max_size = 3; mask_bits = 2; mask = 3 }

abbrev input : Bytes
input = 1 ∷ 2 ∷ 3 ∷ 4 ∷ 5 ∷ 6 ∷ 7 ∷ []

chunk-Tiles_example : Tiles small 0 input (chunk small input)
chunk-Tiles_example = chunk-Tiles small input

length-chunk_example :
    (length (chunk small input) * 2 ≤ 7 + 2)
    × (7 ≤ length (chunk small input) * 3)
    × (length (chunk small input) ≤ 7)
length-chunk_example = length-chunk small input

first_window : scan small RollingHash.reset 0 (1 ∷ 2 ∷ 3 ∷ []) ≡ some 3
unfolding scan RollingHash.roll
first_window = refl

contents-append_example :
    contents small ((1 ∷ 2 ∷ 3 ∷ []) ++ (4 ∷ 5 ∷ []))
    ≡ contents small (1 ∷ 2 ∷ 3 ∷ []) ++ contents small (4 ∷ 5 ∷ [])
contents-append_example =
    contents-append small (1 ∷ 2 ∷ 3 ∷ []) (4 ∷ 5 ∷ []) (next 3 (1 ∷ 2 ∷ 3 ∷ []) first_window done)

passes :
    ((new 2 4 8).mask_bits ≤ 2)
    × ((new 2 4 8).min_size ≤ 1 + 2)
    × (bit_and (rolls RollingHash.reset (7 ∷ 6 ∷ [])) (new 2 4 8).mask ≡ 0)
unfolding new RollingHash.roll
passes = (omega arith, omega arith, refl)

scan-boundary_example :
    (end : ℕ) × (scan (new 2 4 8) 12345 1 (7 ∷ 6 ∷ [] ++ (9 ∷ [])) ≡ some end)
    × (end ≤ 1 + length {A = ℕ} (7 ∷ 6 ∷ []))
scan-boundary_example = scan-boundary 2 4 8 12345 1 7 (6 ∷ []) (9 ∷ []) passes.0 passes.1 passes.2

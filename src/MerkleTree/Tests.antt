-- ===== src/MerkleTree/Tests.antt =====
-- The theorems on trees at two files that differ in one chunk.
use p2p_sync_engine.Prelude.{
  true-ne-false, ℕ, List, [], ◌∷◌, ◌≡◌, refl, replicate, ◌↔◌, false, str_eq, str_eq_iff, sym, ◌∙◌,
}
use p2p_sync_engine.Sha256
use p2p_sync_engine.Chunker.{Chunk}
use p2p_sync_engine.MerkleTree.{hash_of, build, diff_leaf_indices}
use p2p_sync_engine.MerkleTree.Diff.{
  differing, NoCollision, diff_leaf_indices-differing, equal_roots_iff,
}

abbrev with_hash : ℕ → Chunk
with_hash b = record { offset = 0; content = []; hash = replicate 32 b }

abbrev old_file : List Chunk
old_file = with_hash 1 ∷ with_hash 2 ∷ []

abbrev new_file : List Chunk
new_file = with_hash 1 ∷ with_hash 3 ∷ []

roots_differ :
    str_eq
      (Sha256.combine (replicate 32 1) (replicate 32 2))
      (Sha256.combine (replicate 32 1) (replicate 32 3))
    ≡ false
unfolding Sha256.combine Sha256.hash str_eq
roots_differ = refl

apart : NoCollision (build old_file).root (build new_file).root
unfolding build
apart = (λ q. absurd (true-ne-false (sym ((str_eq_iff _ _).1 q) ∙ roots_differ)), tt, tt)

diff_leaf_indices-differing_example :
    diff_leaf_indices (build old_file) (build new_file) ≡ differing old_file new_file 0 2
diff_leaf_indices-differing_example = diff_leaf_indices-differing old_file new_file refl apart

equal_roots_iff_example :
    (hash_of (build old_file).root ≡ hash_of (build new_file).root)
    ↔ (differing old_file new_file 0 2 ≡ [])
equal_roots_iff_example = equal_roots_iff old_file new_file refl apart

-- ===== src/MerkleTree/Leaves.antt =====
-- The leaves of a built tree.
use p2p_sync_engine.Prelude.{
  ℕ, zero, suc, ◌+◌, ◌-◌, ◌/◌, ◌≤◌, ◌<◌, false, List, [], ◌∷◌, ◌++◌, none, some, ◌≡◌, ◌≢◌, refl,
  sym, ap, ap₂, ◌∙◌, arith, ◌==◌, length, Bool-cases, inl, inr,
}
use p2p_sync_engine.Sha256
use p2p_sync_engine.Sha256.{Digest}
use p2p_sync_engine.Chunker.{Chunk}
use p2p_sync_engine.MerkleTree.{MerkleNode, null, node, hash_of, hash_at, build_recursive, build}

-- The hashes of the chunks `lo`, `lo + 1`, …, `n` of them, with their indices.
abbrev pub indexed : List Chunk → ℕ → ℕ → List (ℕ × Digest)
indexed chunks lo zero = []
indexed chunks lo (suc n) = (lo, hash_at chunks lo) ∷ indexed chunks (lo + 1) n

pub leaves : MerkleNode → List (ℕ × Digest)
leaves null = []
leaves (node hash left right (some i)) = (i, hash) ∷ []
leaves (node hash left right none) = leaves left ++ leaves right

indexed-add :
    (chunks : List Chunk) (lo m n : ℕ)
    → indexed chunks lo (m + n) ≡ indexed chunks lo m ++ indexed chunks (lo + m) n
indexed-add chunks lo zero n =
    ap₂ (indexed chunks) (let e : lo ≡ lo + 0 = omega arith in e) (omega arith)
indexed-add chunks lo (suc m) n =
    ap (indexed chunks lo) (let e : suc m + n ≡ suc (m + n) = omega arith in e)
    ∙ ap (◌∷◌ (lo, hash_at chunks lo)) (
        indexed-add chunks (lo + 1) m n
        ∙ ap (λ k. indexed chunks (lo + 1) m ++ indexed chunks k n) (omega arith))

-- A tree as `build_recursive` makes it over the chunks `lo` to `hi`.
pub data IsBuilt (chunks : List Chunk) : ℕ → ℕ → MerkleNode → Type 0 where
  leaf :
      (lo hi : ℕ)
      → hi ≡ lo + 1
      → IsBuilt chunks lo hi (node (hash_at chunks lo) null null (some lo))
  fork :
      {left right : MerkleNode} (lo mid hi : ℕ)
      → mid ≡ lo + (hi - lo) / 2
      → IsBuilt chunks lo mid left
      → IsBuilt chunks mid hi right
      → IsBuilt chunks lo hi (node (Sha256.combine (hash_of left) (hash_of right)) left right none)

-- On a range that is not empty the fuel suffices, as long as it is the length of the range at least.
pub build_recursive-IsBuilt :
    (chunks : List Chunk) (fuel lo hi : ℕ)
    → lo < hi
    → hi ≤ lo + fuel
    → IsBuilt chunks lo hi (build_recursive chunks fuel lo hi)
unfolding build_recursive
build_recursive-IsBuilt chunks zero lo hi p q = absurd (omega arith)
build_recursive-IsBuilt chunks (suc fuel) lo hi p q = elim (Bool-cases (hi - lo == 1)) [
  | inl t ↦ rw t (leaf lo hi (ground arith))
  | inr f ↦ rw f (
      fork lo (lo + (hi - lo) / 2) hi refl
        (build_recursive-IsBuilt chunks fuel lo (lo + (hi - lo) / 2) (two_more f) (omega arith))
        (build_recursive-IsBuilt chunks fuel (lo + (hi - lo) / 2) hi (omega arith) (ground arith)))
]
  where
    two_more : (hi - lo == 1) ≡ false → lo < lo + (hi - lo) / 2
    two_more f = let e : hi - lo ≢ 1 = ground arith in omega arith

IsBuilt-lt : {chunks : List Chunk} {lo hi : ℕ} {t : MerkleNode} → IsBuilt chunks lo hi t → lo < hi
IsBuilt-lt (leaf lo hi e) = omega arith
IsBuilt-lt (fork lo mid hi e l r) = omega (arith, IsBuilt-lt l, IsBuilt-lt r)

pub leaves-IsBuilt :
    {chunks : List Chunk} {lo hi : ℕ} {t : MerkleNode}
    → IsBuilt chunks lo hi t
    → leaves t ≡ indexed chunks lo (hi - lo)
unfolding leaves
leaves-IsBuilt {chunks} (leaf lo hi e) =
    ap (indexed chunks lo) (let q : 1 ≡ hi - lo = omega arith in q)
leaves-IsBuilt {chunks} (fork lo mid hi e l r) =
    ap₂ ◌++◌ (leaves-IsBuilt l) (leaves-IsBuilt r)
    ∙ ap (λ k. indexed chunks lo (mid - lo) ++ indexed chunks k (hi - mid))
        (let q : mid ≡ lo + (mid - lo) = omega (arith, IsBuilt-lt l) in q)
    ∙ sym (indexed-add chunks lo (mid - lo) (hi - mid))
    ∙ ap (indexed chunks lo) (omega (arith, IsBuilt-lt l, IsBuilt-lt r))

pub build-IsBuilt :
    (c : Chunk) (chunks : List Chunk)
    → IsBuilt (c ∷ chunks) 0 (length (c ∷ chunks)) (build (c ∷ chunks)).root
unfolding build
build-IsBuilt c chunks =
    build_recursive-IsBuilt (c ∷ chunks) (length (c ∷ chunks)) 0 (length (c ∷ chunks)) (omega arith)
      (omega arith)

-- The leaves of the tree over a list of chunks are the hashes of the chunks, each under its index.
pub leaves-build :
    (chunks : List Chunk) → leaves (build chunks).root ≡ indexed chunks 0 (length chunks)
leaves-build [] = unfold build leaves in refl
leaves-build (c ∷ chunks) =
    leaves-IsBuilt (build-IsBuilt c chunks)
    ∙ ap (indexed (c ∷ chunks) 0)
        (let q : length (c ∷ chunks) - 0 ≡ length (c ∷ chunks) = omega arith in q)

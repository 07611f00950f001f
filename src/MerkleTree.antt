-- ===== src/MerkleTree.antt =====
-- merkle_tree.hpp, merkle_tree.cpp: the tree over the chunk hashes of a file.
pub mod Leaves
pub mod Diff
mod Tests
use p2p_sync_engine.Prelude.{
  ℕ, zero, suc, ◌+◌, ◌-◌, ◌/◌, Bool, true, false, not, ◌&&◌, ◌||◌, Bytes, List, [], ◌∷◌, ◌++◌,
  Option, none, some, ◌==◌, str_eq, if◌then◌else◌, length, get_elem?,
}
use p2p_sync_engine.Sha256
use p2p_sync_engine.Sha256.{Digest}
use p2p_sync_engine.Chunker.{Chunk}

-- `null` is `nullptr`; the last field of a node is `leaf_index`, with `none` for -1.
pub data MerkleNode : Type 0 where
  null : MerkleNode
  node : Digest → MerkleNode → MerkleNode → Option ℕ → MerkleNode

-- `node->hash`; the code never reads it of a null pointer.
abbrev pub hash_of : MerkleNode → Digest
hash_of null = []
hash_of (node hash left right leaf_index) = hash

abbrev pub is_leaf : Option ℕ → Bool
is_leaf none = false
is_leaf (some i) = true

pub record MerkleTree : Type 0 where
  pub root : MerkleNode
  pub leaf_count : ℕ

-- `chunks[i].hash`; the code never reads it out of bounds.
abbrev pub hash_at : List Chunk → ℕ → Digest
hash_at chunks i = elim (get_elem? chunks i) [ none ↦ [] | some c ↦ c.hash ]

-- With fuel: each call is on a shorter range, if the range is not empty.
pub build_recursive : List Chunk → ℕ → ℕ → ℕ → MerkleNode
build_recursive chunks zero lo hi = null
build_recursive chunks (suc fuel) lo hi =
    let mid = lo + (hi - lo) / 2 in
    let inner =
      let left = build_recursive chunks fuel lo mid in
      let right = build_recursive chunks fuel mid hi in
      node (Sha256.combine (hash_of left) (hash_of right)) left right none in
    if hi - lo == 1 then node (hash_at chunks lo) null null (some lo) else inner

unfoldable pub build : List Chunk → MerkleTree
unfolding build_recursive
build [] = record { root = null; leaf_count = 0 }
build (c ∷ chunks) =
    let n = length (c ∷ chunks) in
    record { root = build_recursive (c ∷ chunks) n 0 n; leaf_count = n }

abbrev pub is_empty : MerkleTree → Bool
is_empty t = elim t.root [ null ↦ true | node hash left right leaf_index ↦ false ]

-- The index that a structural mismatch reports.
abbrev pub either_index : Option ℕ → Option ℕ → List ℕ
either_index (some i) j = i ∷ []
either_index none (some j) = j ∷ []
either_index none none = []

pub collect_diffs : MerkleNode → MerkleNode → List ℕ → List ℕ
collect_diffs null b out = out
collect_diffs (node hash left right i) null out = out
collect_diffs (node hash left right i) (node hash' left' right' i') out =
    let below = collect_diffs right right' (collect_diffs left left' out) in
    if str_eq hash hash'
    then out
    else if is_leaf i && is_leaf i'
    then out ++ either_index i i'
    else if is_leaf i || is_leaf i'
    then out ++ either_index i i'
    else below

unfoldable pub diff_leaf_indices : MerkleTree → MerkleTree → List ℕ
unfolding collect_diffs
diff_leaf_indices a b =
    if is_empty a || (is_empty b || not (a.leaf_count == b.leaf_count))
    then []
    else collect_diffs a.root b.root []

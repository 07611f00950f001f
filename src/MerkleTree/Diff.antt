-- ===== src/MerkleTree/Diff.antt =====
-- The comparison of two trees against the comparison of their chunks one by one.
use p2p_sync_engine.Prelude.{
  ℕ, zero, suc, ◌+◌, ◌-◌, ◌/◌, ◌≤◌, ◌<◌, Bool, List, [], ◌∷◌, ◌++◌, none, some, ◌≡◌, ◌≢◌, refl, sym,
  ap, ap₂, subst, ◌∙◌, arith, ◌↔◌, ◌==◌, append_assoc, append-nil, ==_iff, if◌then◌else◌, length,
  Bool-cases, inl, inr, str_eq, str_eq_iff,
}
use p2p_sync_engine.Sha256
use p2p_sync_engine.Sha256.{Digest}
use p2p_sync_engine.Chunker.{Chunk}
use p2p_sync_engine.MerkleTree.{
  MerkleNode, null, node, hash_of, hash_at, build, build_recursive, collect_diffs,
  diff_leaf_indices,
}

-- The indices from `lo` on, `n` of them, at which two lists of chunks have different hashes.
pub differing : List Chunk → List Chunk → ℕ → ℕ → List ℕ
differing xs ys lo zero = []
differing xs ys lo (suc n) =
    let rest = differing xs ys (lo + 1) n in
    if str_eq (hash_at xs lo) (hash_at ys lo) then rest else lo ∷ rest

-- Nowhere in the two trees, at nodes in the same place, do different children have one combined hash.
abbrev pub NoCollision : MerkleNode → MerkleNode → Type 0
NoCollision null b = Unit
NoCollision (node h l r i) null = Unit
NoCollision (node h l r (some i)) (node h' l' r' j) = Unit
NoCollision (node h l r none) (node h' l' r' (some j)) = Unit
NoCollision (node h l r none) (node h' l' r' none) =
    (h ≡ h' → (hash_of l ≡ hash_of l') × (hash_of r ≡ hash_of r'))
    × NoCollision l l'
    × NoCollision r r'

differing-add :
    (xs ys : List Chunk) (lo m n : ℕ)
    → differing xs ys lo (m + n) ≡ differing xs ys lo m ++ differing xs ys (lo + m) n
unfolding differing
differing-add xs ys lo zero n =
    ap₂ (differing xs ys) (let e : lo ≡ lo + 0 = omega arith in e) (omega arith)
differing-add xs ys lo (suc m) n =
    ap (differing xs ys lo) (let e : suc m + n ≡ suc (m + n) = omega arith in e)
    ∙ (ground (
      arith,
      differing-add xs ys (lo + 1) m n,
      ap (λ k. differing xs ys k n) (let e : lo + 1 + m ≡ lo + suc m = omega arith in e),
    ))

-- The trees that `build_recursive` makes over one range of two lists.
data Paired (xs ys : List Chunk) : ℕ → ℕ → MerkleNode → MerkleNode → Type 0 where
  leaf :
      (lo hi : ℕ)
      → hi ≡ lo + 1
      → Paired xs ys lo hi
          (node (hash_at xs lo) null null (some lo))
          (node (hash_at ys lo) null null (some lo))
  fork :
      {l r l' r' : MerkleNode} (lo mid hi : ℕ)
      → Paired xs ys lo mid l l'
      → Paired xs ys mid hi r r'
      → Paired xs ys lo hi
          (node (Sha256.combine (hash_of l) (hash_of r)) l r none)
          (node (Sha256.combine (hash_of l') (hash_of r')) l' r' none)

leaf_differing :
    (xs ys : List Chunk) (lo hi : ℕ)
    → hi ≡ lo + 1
    → differing xs ys lo (hi - lo)
      ≡ (if str_eq (hash_at xs lo) (hash_at ys lo) then [] else lo ∷ [])
leaf_differing xs ys lo hi e =
    ap (differing xs ys lo) (let q : hi - lo ≡ 1 = omega arith in q) ∙ (unfold differing in refl)

append_nil_parts : (xs ys : List ℕ) → xs ++ ys ≡ [] → (xs ≡ []) × (ys ≡ [])
append_nil_parts [] ys h = (refl, h)
append_nil_parts (x ∷ xs) ys h = cc

module _ {xs ys : List Chunk} where
  Paired-lt : {lo hi : ℕ} {a b : MerkleNode} → Paired xs ys lo hi a b → lo < hi
  Paired-lt (leaf lo hi e) = omega arith
  Paired-lt (fork lo mid hi l r) = omega (arith, Paired-lt l, Paired-lt r)

  split :
      {l r l' r' : MerkleNode} (lo mid hi : ℕ)
      → Paired xs ys lo mid l l'
      → Paired xs ys mid hi r r'
      → differing xs ys lo (hi - lo)
        ≡ differing xs ys lo (mid - lo) ++ differing xs ys mid (hi - mid)
  split lo mid hi l r =
      ap (differing xs ys lo)
        (let q : hi - lo ≡ (mid - lo) + (hi - mid) = omega (arith, Paired-lt l, Paired-lt r) in q)
      ∙ differing-add xs ys lo (mid - lo) (hi - mid)
      ∙ ap (λ k. differing xs ys lo (mid - lo) ++ differing xs ys k (hi - mid))
          (omega (arith, Paired-lt l))

  -- Two ranges that have the same hash at the top have no different chunk.
  same_hash :
      {lo hi : ℕ} {a b : MerkleNode}
      → Paired xs ys lo hi a b
      → NoCollision a b
      → hash_of a ≡ hash_of b
      → differing xs ys lo (hi - lo) ≡ []
  same_hash (leaf lo hi q) c e = leaf_differing xs ys lo hi q ∙ (rw ((str_eq_iff _ _).1 e) refl)
  same_hash (fork lo mid hi l r) c e =
      let both = c.0 e in
      split lo mid hi l r ∙ ap₂ ◌++◌ (same_hash l c.1 both.0) (same_hash r c.2 both.1)

  -- Two ranges with no different chunk have the same hash at the top.
  same_chunks :
      {lo hi : ℕ} {a b : MerkleNode}
      → Paired xs ys lo hi a b
      → differing xs ys lo (hi - lo) ≡ []
      → hash_of a ≡ hash_of b
  same_chunks (leaf lo hi q) e = elim (Bool-cases (str_eq (hash_at xs lo) (hash_at ys lo))) [
    | inl t ↦ (str_eq_iff _ _).0 t
    | inr f ↦ let p : lo ∷ [] ≡ [] = sym (leaf_differing xs ys lo hi q ∙ (rw f refl)) ∙ e in cc
  ]
  same_chunks (fork lo mid hi l r) e =
      let parts = append_nil_parts _ _ (sym (split lo mid hi l r) ∙ e) in
      ap₂ Sha256.combine (same_chunks l parts.0) (same_chunks r parts.1)

  -- On trees over as many chunks the walk appends exactly the differing indices.
  collect_diffs-differing :
      {lo hi : ℕ} {a b : MerkleNode}
      → Paired xs ys lo hi a b
      → NoCollision a b
      → (out : List ℕ) → collect_diffs a b out ≡ out ++ differing xs ys lo (hi - lo)
  unfolding collect_diffs
  collect_diffs-differing (leaf lo hi q) c out =
      elim (Bool-cases (str_eq (hash_at xs lo) (hash_at ys lo))) [
        | inl t ↦ rw t (sym (append-nil out) ∙ ap (◌++◌ out) (sym (at_leaf ∙ picked t)))
        | inr f ↦ rw f (ap (◌++◌ out) (sym (at_leaf ∙ picked f)))
      ]
    where
      at_leaf :
          differing xs ys lo (hi - lo)
          ≡ (if str_eq (hash_at xs lo) (hash_at ys lo) then [] else lo ∷ [])
      at_leaf = leaf_differing xs ys lo hi q

      picked :
          {same : Bool}
          → str_eq (hash_at xs lo) (hash_at ys lo) ≡ same
          → (if str_eq (hash_at xs lo) (hash_at ys lo) then [] else lo ∷ [])
            ≡ (if same then [] else lo ∷ [])
      picked e = ap (λ same. if same then [] else lo ∷ []) e
  collect_diffs-differing (fork {l = l} {r = r} {l' = l'} {r' = r'} lo mid hi p q) c out =
      elim (Bool-cases (
        str_eq (Sha256.combine (hash_of l) (hash_of r))
          (Sha256.combine (hash_of l') (hash_of r')))) [
            | inl t ↦ rw t (
                sym (append-nil out)
                ∙ ap (◌++◌ out) (sym (same_hash (fork lo mid hi p q) c ((str_eq_iff _ _).0 t))))
            | inr f ↦ rw f (
                collect_diffs-differing q c.2 (collect_diffs l l' out)
                ∙ ap (λ o. o ++ differing xs ys mid (hi - mid)) (collect_diffs-differing p c.1 out)
                ∙ append_assoc out (differing xs ys lo (mid - lo)) (differing xs ys mid (hi - mid))
                ∙ ap (◌++◌ out) (sym (split lo mid hi p q)))
          ]

build_recursive-Paired :
    (xs ys : List Chunk) (fuel lo hi : ℕ)
    → lo < hi
    → hi ≤ lo + fuel
    → Paired xs ys lo hi (build_recursive xs fuel lo hi) (build_recursive ys fuel lo hi)
unfolding build_recursive
build_recursive-Paired xs ys zero lo hi p q = absurd (omega arith)
build_recursive-Paired xs ys (suc fuel) lo hi p q = elim (Bool-cases (hi - lo == 1)) [
  | inl t ↦ rw t (leaf lo hi (ground arith))
  | inr f ↦
      let e : hi - lo ≢ 1 = ground arith in
      rw f (
        fork lo (lo + (hi - lo) / 2) hi
          (build_recursive-Paired xs ys fuel lo (lo + (hi - lo) / 2) (omega arith) (omega arith))
          (build_recursive-Paired xs ys fuel (lo + (hi - lo) / 2) hi (omega arith) (omega arith)))
]

build-Paired :
    (x y : Chunk) (xs ys : List Chunk)
    → length xs ≡ length ys
    → Paired (x ∷ xs) (y ∷ ys) 0 (length (x ∷ xs)) (build (x ∷ xs)).root (build (y ∷ ys)).root
unfolding build
build-Paired x y xs ys e =
    subst
      (λ n.
        Paired (x ∷ xs) (y ∷ ys) 0 (length (x ∷ xs))
          (build_recursive (x ∷ xs) (length (x ∷ xs)) 0 (length (x ∷ xs)))
          (build_recursive (y ∷ ys) (suc n) 0 (suc n)))
      e
      (build_recursive-Paired (x ∷ xs) (y ∷ ys) (length (x ∷ xs)) 0 (length (x ∷ xs)) (omega arith)
        (omega arith))

walks :
    {xs ys : List Chunk} {lo hi : ℕ} {a b : MerkleNode} (m n : ℕ)
    → Paired xs ys lo hi a b
    → m ≡ n
    → diff_leaf_indices (record { root = a; leaf_count = m }) (record { root = b; leaf_count = n })
      ≡ collect_diffs a b []
unfolding diff_leaf_indices
walks m n (leaf lo hi q) e = rw ((==_iff m n).1 e) refl
walks m n (fork lo mid hi p q) e = rw ((==_iff m n).1 e) refl

trees :
    (x y : Chunk) (xs ys : List Chunk)
    → Paired (x ∷ xs) (y ∷ ys) 0 (length (x ∷ xs)) (build (x ∷ xs)).root (build (y ∷ ys)).root
    → length (x ∷ xs) ≡ length (y ∷ ys)
    → diff_leaf_indices (build (x ∷ xs)) (build (y ∷ ys))
      ≡ collect_diffs (build (x ∷ xs)).root (build (y ∷ ys)).root []
trees x y xs ys p e = unfold build in walks (length (x ∷ xs)) (length (y ∷ ys)) p e

-- On files with as many chunks, whose trees have no collision of combined hashes, the walk of the
-- trees reports exactly the indices at which the chunk hashes differ, in ascending order.
pub diff_leaf_indices-differing :
    (xs ys : List Chunk)
    → length xs ≡ length ys
    → NoCollision (build xs).root (build ys).root
    → diff_leaf_indices (build xs) (build ys) ≡ differing xs ys 0 (length xs)
diff_leaf_indices-differing [] [] e c = unfold diff_leaf_indices build differing in refl
diff_leaf_indices-differing [] (y ∷ ys) e c = absurd (omega arith)
diff_leaf_indices-differing (x ∷ xs) [] e c = absurd (omega arith)
diff_leaf_indices-differing (x ∷ xs) (y ∷ ys) e c =
    let p = build-Paired x y xs ys (omega arith) in
    let q : length (x ∷ xs) - 0 ≡ length (x ∷ xs) = omega arith in
    trees x y xs ys p e ∙ collect_diffs-differing p c [] ∙ ap (differing (x ∷ xs) (y ∷ ys) 0) q

-- Under the same conditions the roots are equal exactly when no chunk hash differs.
pub equal_roots_iff :
    (xs ys : List Chunk)
    → length xs ≡ length ys
    → NoCollision (build xs).root (build ys).root
    → (hash_of (build xs).root ≡ hash_of (build ys).root) ↔ (differing xs ys 0 (length xs) ≡ [])
equal_roots_iff [] [] e c = (λ _. unfold differing in refl, λ _. refl)
equal_roots_iff [] (y ∷ ys) e c = absurd (omega arith)
equal_roots_iff (x ∷ xs) [] e c = absurd (omega arith)
equal_roots_iff (x ∷ xs) (y ∷ ys) e c =
    let p = build-Paired x y xs ys (omega arith) in
    let q : length (x ∷ xs) - 0 ≡ length (x ∷ xs) = omega arith in
    let whole = ap (differing (x ∷ xs) (y ∷ ys) 0) q in
    (λ h. sym whole ∙ same_hash p c h, λ h. same_chunks p (whole ∙ h))

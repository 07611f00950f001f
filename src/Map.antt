-- ===== src/Map.antt =====
-- `std::map<std::string, V>`: an association list in ascending order of its keys, which is the
-- order of iteration. `find` is `find`, with `none` for `end()`; `insert` is `m[k] = v`.
pub mod Extensionality
use p2p_sync_engine.Prelude.{
  Bytes, List, [], map, ◌∷◌, ◌++◌, ap, gt_of_StrLt, Option, none, some, Ordering, ◌≡◌, refl, sym,
  ◌∙◌, arith, compare_bytes, str_eq, StrLt, if◌then◌else◌, str_eq_iff, All, StrLt-trans,
  StrLt-of_gt, eq_of_compare_bytes, compare_bytes_refl, Ordering-cases, inl, inr, Bool-cases,
}

abbrev pub Map {ℓ} : Type ℓ → Type ℓ
Map V = List (Bytes × V)

module _ {ℓ} {V : Type ℓ} where
  unfoldable pub find : Bytes → Map V → Option V
  find k [] = none
  find k ((j, v) ∷ m) = if str_eq j k then some v else find k m

  unfoldable pub insert : Bytes → V → Map V → Map V
  insert k v [] = (k, v) ∷ []
  insert k v ((j, w) ∷ m) =
      let later = (j, w) ∷ insert k v m in
      elim (compare_bytes k j) [
        | Ordering.lt ↦ (k, v) ∷ (j, w) ∷ m
        | Ordering.eq ↦ (k, v) ∷ m
        | Ordering.gt ↦ later
      ]

  abbrev pub Above : Bytes → Map V → Type 0
  Above k m = All (λ e. StrLt k e.0) m

  -- The keys ascend, so that none stands twice.
  abbrev pub IsSorted : Map V → Type 0
  IsSorted [] = Unit
  IsSorted ((k, v) ∷ m) = Above k m × IsSorted m

  -- A read behind a write, at any key.
  pub find-insert :
      (j k : Bytes) (v : V) (m : Map V)
      → find j (insert k v m) ≡ (if str_eq k j then some v else find j m)
  unfolding find insert
  find-insert j k v [] = refl
  find-insert j k v ((i, w) ∷ m) = elim (Ordering-cases (compare_bytes k i)) [
    | inl e ↦ rw (e, insert) refl
    | inr (inl e) ↦ rw (e, insert) (ground (arith, eq_of_compare_bytes k i e))
    | inr (inr e) ↦
        rw (e, insert)
          (ground
            (arith, find-insert j k v m, compare_bytes_refl k, str_eq_iff k j, str_eq_iff i j))
  ]

  Above-insert : (b k : Bytes) (v : V) (m : Map V) → StrLt b k → Above b m → Above b (insert k v m)
  unfolding insert
  Above-insert b k v [] h a = (h, tt)
  Above-insert b k v ((i, w) ∷ m) h a = ground (arith, Above-insert b k v m h a.1)

  pub Above-trans : (a b : Bytes) (m : Map V) → StrLt a b → Above b m → Above a m
  Above-trans a b [] h s = tt
  Above-trans a b ((i, w) ∷ m) h s = (StrLt-trans a b i h s.0, Above-trans a b m h s.1)

  pub insert-IsSorted : (k : Bytes) (v : V) (m : Map V) → IsSorted m → IsSorted (insert k v m)
  unfolding insert
  insert-IsSorted k v [] s = (tt, tt)
  insert-IsSorted k v ((i, w) ∷ m) s = ground (
    arith,
    insert-IsSorted k v m s.1,
    Above-insert i k v m,
    Above-trans k i m,
    eq_of_compare_bytes k i,
    StrLt-of_gt k i,
  )

  -- What is below a map is below a key in it.
  Above-append : (i k : Bytes) (v : V) (rest m : Map V) → Above i (m ++ ((k, v) ∷ rest)) → StrLt i k
  Above-append i k v rest [] a = a.0
  Above-append i k v rest (e ∷ m) a = Above-append i k v rest m a.1

  -- Insertion behind all keys that are there.
  pub insert_last :
      (m : Map V) (k : Bytes) (v : V) (rest : Map V)
      → IsSorted (m ++ ((k, v) ∷ rest))
      → insert k v m ≡ m ++ ((k, v) ∷ [])
  unfolding insert
  insert_last [] k v rest s = refl
  insert_last ((i, w) ∷ m) k v rest s =
      rw (gt_of_StrLt i k (Above-append i k v rest m s.0), insert)
        (ap (◌∷◌ (i, w)) (insert_last m k v rest s.1))

  -- The keys in front of a key are others.
  pub find-before :
      (m : Map V) (k : Bytes) (v : V) (rest : Map V)
      → IsSorted (m ++ ((k, v) ∷ rest))
      → find k m ≡ none
  unfolding find
  find-before [] k v rest s = refl
  find-before ((i, w) ∷ m) k v rest s =
      let below : StrLt i k = Above-append i k v rest m s.0 in
      ground (arith, below, find-before m k v rest s.1, str_eq_iff i k, compare_bytes_refl k)

  pub find-Above : (k : Bytes) (m : Map V) → Above k m → find k m ≡ none
  unfolding find
  find-Above k [] a = refl
  find-Above k ((i, w) ∷ m) a =
      ground (arith, find-Above k m a.1, str_eq_iff i k, compare_bytes_refl k)

module _ {ℓ κ} {V : Type ℓ} (P : Bytes → V → Type κ) where
  -- Every entry, key and value, meets `P`.
  abbrev pub Every : Map V → Type κ
  Every = All (λ e. P e.0 e.1)

  pub insert-Every : (k : Bytes) (v : V) (m : Map V) → P k v → Every m → Every (insert k v m)
  unfolding insert
  insert-Every k v [] p h = (p, tt)
  insert-Every k v ((i, w) ∷ m) p h = elim (Ordering-cases (compare_bytes k i)) [
    | inl e ↦ rw (e, insert) (p, h)
    | inr (inl e) ↦ rw (e, insert) (p, h.1)
    | inr (inr e) ↦ rw (e, insert) (h.0, insert-Every k v m p h.1)
  ]

  pub find-Every : (k : Bytes) (v : V) (m : Map V) → Every m → find k m ≡ some v → P k v
  unfolding find
  find-Every k v [] h e = cc
  find-Every k v ((i, w) ∷ m) h e = elim (Bool-cases (str_eq i k)) [
    | inl t ↦ let q : w ≡ v = ground (arith, t, e) in rw (← q, ← (str_eq_iff i k).0 t) h.0
    | inr f ↦ find-Every k v m h.1 (ground (arith, e, f))
  ]

-- In a sorted map, what holds of all values that are found holds of all values.
pub All-of_find {ℓ κ} :
    {V : Type ℓ} (P : V → Type κ) (m : Map V)
    → IsSorted m
    → ((k : Bytes) (v : V) → find k m ≡ some v → P v)
    → All (λ (e : Bytes × V). P e.1) m
unfolding find
All-of_find P [] s h = tt
All-of_find {V = V} P ((i, w) ∷ m) s h = (
  h i w (rw ((str_eq_iff i i).1 refl) refl),
  All-of_find P m s.1 (λ k v q. h k v (elim (Bool-cases (str_eq i k)) [
    | inl e ↦
        let same : i ≡ k = (str_eq_iff i k).0 e in
        let gone : find k m ≡ none = ap (λ x. find x m) (sym same) ∙ find-Above i m s.0 in
        absurd (none-ne-some (sym gone ∙ q))
    | inr f ↦ rw f q
  ])),
)
  where
    none-ne-some : {v : V} → ◌≡◌ {A = Option V} none (some v) → ⊥
    none-ne-some q = cc

pub All-values {ℓ κ} :
    {V : Type ℓ} (P : V → Type κ) (m : Map V)
    → All (λ (e : Bytes × V). P e.1) m
    → All P (map (λ (e : Bytes × V). e.1) m)
All-values P [] h = tt
All-values P (x ∷ m) h = (h.0, All-values P m h.1)

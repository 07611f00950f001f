-- ===== src/Map/Extensionality.antt =====
-- Maps compared by their lookups.
use p2p_sync_engine.Prelude.{
  Bytes, [], ◌∷◌, none, some, ◌≡◌, refl, sym, subst, arith, compare_bytes, StrLt, str_eq_iff,
  eq_of_compare_bytes, StrLt-of_gt, Ordering-cases, inl, inr, str_eq_refl, cons_path, ◌≢◌,
  str_eq-false,
}
use p2p_sync_engine.Map.{Map, find, IsSorted, Above, find-Above, Above-trans}

module _ {ℓ} {V : Type ℓ} where
  find_head : (k : Bytes) (v : V) (m : Map V) → find k ((k, v) ∷ m) ≡ some v
  unfolding find
  find_head k v m = rw (str_eq_refl k)

  find_tail : (j k : Bytes) (v : V) (m : Map V) → k ≢ j → find j ((k, v) ∷ m) ≡ find j m
  unfolding find
  find_tail j k v m h = rw (str_eq-false k j h)

  absent_below :
      (k j : Bytes) (w : V) (m : Map V) → StrLt k j → Above j m → find k ((j, w) ∷ m) ≡ none
  absent_below k j w m h s = find-Above k ((j, w) ∷ m) (h, Above-trans k j m h s)

  tails_agree :
      (i : Bytes) (v w : V) (m n : Map V)
      → Above i m
      → Above i n
      → ((k : Bytes) → find k ((i, v) ∷ m) ≡ find k ((i, w) ∷ n))
      → (k : Bytes) → find k m ≡ find k n
  unfolding find
  tails_agree i v w m n am an h k =
      ground (arith, h k, str_eq_iff i k, find-Above i m am, find-Above i n an)

  find_empty : (k : Bytes) → find k (let m : Map V = [] in m) ≡ none
  unfolding find
  find_empty k = refl

  -- Two sorted maps with the same lookups are one.
  pub Map_ext :
      (m n : Map V) → IsSorted m → IsSorted n → ((k : Bytes) → find k m ≡ find k n) → m ≡ n
  Map_ext [] [] _ _ h = refl
  Map_ext [] ((j, w) ∷ n) _ _ h = cc (h j, find_head j w n, find_empty j)
  Map_ext ((i, v) ∷ m) [] _ _ h = cc (h i, find_head i v m, find_empty i)
  Map_ext ((i, v) ∷ m) ((j, w) ∷ n) s t h = elim (Ordering-cases (compare_bytes i j)) [
    | inl e ↦ cc (h i, find_head i v m, absent_below i j w n e t.0)
    | inr (inl e) ↦
        let same : i ≡ j = eq_of_compare_bytes i j e in
        let h' : (k : Bytes) → find k ((i, v) ∷ m) ≡ find k ((i, w) ∷ n) =
          subst (λ x. (k : Bytes) → find k ((i, v) ∷ m) ≡ find k ((x, w) ∷ n)) (sym same) h in
        cons_path (cc (same, h' i, find_head i v m, find_head i w n)) (
          Map_ext m n s.1 t.1
            (tails_agree i v w m n s.0 (subst (λ x. Above x n) (sym same) t.0) h'))
    | inr (inr e) ↦ cc (h j, find_head j w n, absent_below j i v m (StrLt-of_gt i j e) s.0)
  ]

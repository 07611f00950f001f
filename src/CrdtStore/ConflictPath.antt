-- ===== src/CrdtStore/ConflictPath.antt =====
-- `CrdtStore::make_conflict_path`.
use p2p_sync_engine.Prelude.{
  ℕ, zero, suc, ◌+◌, Bytes, [], ◌∷◌, ◌++◌, Option, none, some, codes, ◌==◌, if◌then◌else◌, take,
  drop, length, length-append, ◌≡◌, ◌≢◌, refl, ap, arith,
}

-- `path.find_last_of(c)`, with `none` for `npos`.
pub find_last_of : ℕ → Bytes → Option ℕ
find_last_of c [] = none
find_last_of c (x ∷ xs) = elim (find_last_of c xs) [
  | some i ↦ some (suc i)
  | none ↦ if x == c then some 0 else none
]

abbrev infix_text : Bytes
infix_text = codes ".conflict-"

unfoldable pub place_conflict : Bytes → Bytes → Option ℕ → Bytes
place_conflict path other_node none = path ++ (infix_text ++ other_node)
place_conflict path other_node (some dot) =
    take dot path ++ (infix_text ++ (other_node ++ drop dot path))

-- "notes.txt" becomes "notes.conflict-B.txt"; with no dot the suffix goes to the end.
unfoldable pub make_conflict_path : Bytes → Bytes → Bytes
unfolding find_last_of place_conflict
make_conflict_path path other_node = place_conflict path other_node (find_last_of b'.' path)

length-take-drop : (n : ℕ) (xs : Bytes) → length (take n xs) + length (drop n xs) ≡ length xs
length-take-drop zero xs = omega arith
length-take-drop (suc n) [] = omega arith
length-take-drop (suc n) (x ∷ xs) = omega (arith, length-take-drop n xs)

length-place_conflict :
    (path other_node : Bytes) (dot : Option ℕ)
    → length (place_conflict path other_node dot) ≡ length path + 10 + length other_node
unfolding place_conflict
length-place_conflict path other_node none =
    omega (arith, length-append {0} path (infix_text ++ other_node))
length-place_conflict path other_node (some dot) = omega (
  arith,
  length-append {0} (take dot path) (infix_text ++ (other_node ++ drop dot path)),
  length-append {0} other_node (drop dot path),
  length-take-drop dot path,
)

-- A conflict copy never has the path that it was forked from.
pub make_conflict_path-ne : (path other_node : Bytes) → path ≢ make_conflict_path path other_node
unfolding make_conflict_path
make_conflict_path-ne path other_node e =
    omega (arith, ap length e, length-place_conflict path other_node (find_last_of b'.' path))

append_cancel_left : (xs ys zs : Bytes) → xs ++ ys ≡ xs ++ zs → ys ≡ zs
append_cancel_left [] ys zs h = h
append_cancel_left (x ∷ xs) ys zs h = append_cancel_left xs ys zs (cc)

append_cancel_right : (xs ys zs : Bytes) → xs ++ zs ≡ ys ++ zs → xs ≡ ys
append_cancel_right [] [] zs h = refl
append_cancel_right [] (y ∷ ys) zs h = absurd (omega (arith, ap length h, length-append {0} ys zs))
append_cancel_right (x ∷ xs) [] zs h = absurd (omega (arith, ap length h, length-append {0} xs zs))
append_cancel_right (x ∷ xs) (y ∷ ys) zs h =
    let e : xs ++ zs ≡ ys ++ zs = cc in let same = append_cancel_right xs ys zs e in cc

make_conflict_path-injective :
    (path a b : Bytes) → make_conflict_path path a ≡ make_conflict_path path b → a ≡ b
unfolding make_conflict_path
make_conflict_path-injective path a b = go (find_last_of b'.' path)
  where
    go : (dot : Option ℕ) → place_conflict path a dot ≡ place_conflict path b dot → a ≡ b
    go none h = append_cancel_left infix_text a b (append_cancel_left path _ _ h)
    go (some dot) h =
        append_cancel_right a b (drop dot path)
          (append_cancel_left infix_text _ _ (append_cancel_left (take dot path) _ _ h))

-- Conflict copies of one path that two different writers cause stand at two paths.
pub make_conflict_path-distinct :
    (path a b : Bytes) → a ≢ b → make_conflict_path path a ≢ make_conflict_path path b
make_conflict_path-distinct path a b ne q = ne (make_conflict_path-injective path a b q)

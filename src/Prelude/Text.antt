-- ===== src/Prelude/Text.antt =====
-- Byte strings, and the order of `operator<` on `std::string`: the bytes are compared one by one
-- as unsigned numbers, and a proper prefix comes first.
use Prim.Native.Nat.{ℕ, compare, Ordering}
use Prim.Native.Char.{code}
use Prim.Native.String.{String}
use mathlib.Core.Path.{◌≡◌, refl}
use mathlib.Core.Logic.{◌≢◌, ◌↔◌, ◌⊎◌, inl, inr}
use mathlib.Core.Bool.{Bool, true, false}
use mathlib.Core.List.{List, [], ◌∷◌}
use native.Mathlib.Omega.{arith}

abbrev pub Bytes : Type 0
Bytes = List ℕ

-- The code points of a literal: its bytes, since the literals are ASCII.
abbrev pub codes : String → Bytes
codes String.[] = []
codes (String.◌∷◌ c s) = code c ∷ codes s

unfoldable pub compare_bytes : Bytes → Bytes → Ordering
compare_bytes [] [] = Ordering.eq
compare_bytes [] (y ∷ ys) = Ordering.lt
compare_bytes (x ∷ xs) [] = Ordering.gt
compare_bytes (x ∷ xs) (y ∷ ys) =
    let rest = compare_bytes xs ys in
    elim (compare x y) [
      | Ordering.lt ↦ Ordering.lt
      | Ordering.gt ↦ Ordering.gt
      | Ordering.eq ↦ rest
    ]

unfoldable pub str_eq : Bytes → Bytes → Bool
unfolding compare_bytes
str_eq a b = elim (compare_bytes a b) [ Ordering.eq ↦ true | _ ↦ false ]

abbrev pub StrLt : Bytes → Bytes → Type 0
StrLt a b = compare_bytes a b ≡ Ordering.lt

pub compare_bytes_refl : (a : Bytes) → compare_bytes a a ≡ Ordering.eq
unfolding compare_bytes
compare_bytes_refl [] = refl
compare_bytes_refl (x ∷ xs) = ground (arith, compare_bytes_refl xs)

pub eq_of_compare_bytes : (a b : Bytes) → compare_bytes a b ≡ Ordering.eq → a ≡ b
unfolding compare_bytes
eq_of_compare_bytes [] [] h = refl
eq_of_compare_bytes [] (y ∷ ys) h = cc
eq_of_compare_bytes (x ∷ xs) [] h = cc
eq_of_compare_bytes (x ∷ xs) (y ∷ ys) h = ground (arith, eq_of_compare_bytes xs ys)

pub StrLt-trans : (a b c : Bytes) → StrLt a b → StrLt b c → StrLt a c
unfolding compare_bytes
StrLt-trans [] [] c h k = cc
StrLt-trans [] (y ∷ ys) [] h k = cc
StrLt-trans [] (y ∷ ys) (z ∷ zs) h k = refl
StrLt-trans (x ∷ xs) [] c h k = cc
StrLt-trans (x ∷ xs) (y ∷ ys) [] h k = cc
StrLt-trans (x ∷ xs) (y ∷ ys) (z ∷ zs) h k = ground (arith, StrLt-trans xs ys zs)

pub StrLt-of_gt : (a b : Bytes) → compare_bytes a b ≡ Ordering.gt → StrLt b a
unfolding compare_bytes
StrLt-of_gt [] [] h = cc
StrLt-of_gt [] (y ∷ ys) h = cc
StrLt-of_gt (x ∷ xs) [] h = refl
StrLt-of_gt (x ∷ xs) (y ∷ ys) h = ground (arith, StrLt-of_gt xs ys)

pub gt_of_StrLt : (a b : Bytes) → StrLt a b → compare_bytes b a ≡ Ordering.gt
unfolding compare_bytes
gt_of_StrLt [] [] h = cc
gt_of_StrLt [] (y ∷ ys) h = refl
gt_of_StrLt (x ∷ xs) [] h = cc
gt_of_StrLt (x ∷ xs) (y ∷ ys) h = ground (arith, gt_of_StrLt xs ys)

pub str_eq_iff : (a b : Bytes) → (str_eq a b ≡ true) ↔ (a ≡ b)
unfolding str_eq
str_eq_iff a b =
    (λ h. ground (arith, eq_of_compare_bytes a b), λ e. ground (arith, compare_bytes_refl b))

pub str_eq_refl : (a : Bytes) → str_eq a a ≡ true
str_eq_refl a = (str_eq_iff a a).1 refl

pub str_eq-false : (a b : Bytes) → a ≢ b → str_eq a b ≡ false
str_eq-false a b h = ground (arith, str_eq_iff a b)

-- To split on a three-way comparison and keep the equation.
pub Ordering-cases : (o : Ordering) → (o ≡ Ordering.lt) ⊎ ((o ≡ Ordering.eq) ⊎ (o ≡ Ordering.gt))
Ordering-cases Ordering.lt = inl refl
Ordering-cases Ordering.eq = inr (inl refl)
Ordering-cases Ordering.gt = inr (inr refl)

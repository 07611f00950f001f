-- ===== src/RollingHash/Mask.antt =====
-- `hash & mask` for a mask of low bits.
use Prim.Native.Nat.{◌<◌, bit_and, bit_and-bitwise, min, digits}
use native.Mathlib.Nat.{pow-suc, div-add-mod, mod-lt, mod-eq_of_lt, mul-add-mod_self_left, zero-mod}
use p2p_sync_engine.Prelude.{
  ℕ, zero, suc, ◌+◌, ◌-◌, ◌*◌, ◌/◌, ◌%◌, ◌^◌, ◌≤◌, ◌≡◌, sym, ap, ap₂, ◌∙◌, arith,
}
use p2p_sync_engine.RollingHash.Window.{pow_pos}

-- The lowest digit and those above it.
half_mod : (a n : ℕ) → 0 < n → a % (n * 2) ≡ a / 2 % n * 2 + a % 2
half_mod a n pos =
    let q = a / 2 / n in
    let r = a / 2 % n in
    let whole : a ≡ a / 2 * 2 + a % 2 = omega arith in
    let split : a ≡ (n * 2) * q + (r * 2 + a % 2) = grind (arith, whole, div-add-mod (a / 2) n) in
    ap (λ x. x % (n * 2)) split
    ∙ mul-add-mod_self_left (n * 2) q (r * 2 + a % 2)
    ∙ mod-eq_of_lt (omega (arith, mod-lt (a / 2) pos))

digits-mask : (k n a b : ℕ) → a ≤ n → b + 1 ≡ 2 ^ k → digits (λ c. zero) min n a b ≡ a % 2 ^ k
digits-mask k zero zero b h m = sym (zero-mod (2 ^ k))
digits-mask k zero (suc a) b h m = absurd (omega (arith, h))
digits-mask k (suc n) zero b h m = sym (zero-mod (2 ^ k))
digits-mask zero (suc n) (suc a) b h m =
    let rest = digits-mask zero n (suc a / 2) (b / 2) (omega (arith, h)) (omega (arith, m)) in
    omega (arith, rest, m)
digits-mask (suc k) (suc n) (suc a) b h m =
    let rest =
      digits-mask k n (suc a / 2) (b / 2) (omega (arith, h)) (omega (arith, m, pow-suc 2 k)) in
    let odd : b % 2 ≡ 1 = omega (arith, m, pow-suc 2 k, pow_pos k) in
    let low : min (suc a % 2) (b % 2) ≡ suc a % 2 = omega (arith, odd) in
    ap₂ (λ x y. x * 2 + y) rest low
    ∙ sym (half_mod (suc a) (2 ^ k) (pow_pos k))
    ∙ ap (λ x. suc a % x) (sym (pow-suc 2 k))

pub bit_and-mask : (k a : ℕ) → bit_and a (2 ^ k - 1) ≡ a % 2 ^ k
bit_and-mask k a =
    bit_and-bitwise a (2 ^ k - 1)
    ∙ digits-mask k a a (2 ^ k - 1) (omega arith) (omega (arith, pow_pos k))

-- ===== src/RollingHash/Window.antt =====
-- What the low bits of the gear hash depend on.
use Prim.Native.Nat.{◌∣◌, ◌<◌}
use native.Mathlib.Nat.{
  mod-mod_of_dvd, mod-add-mod, div-add-mod, pow-suc, dvd-mul_right, dvd_trans, dvd_refl, mod-lt,
  mod-one, mod-eq_of_lt, mul-add-mod_self_left,
}
use p2p_sync_engine.Prelude.{
  ℕ, zero, suc, ◌+◌, ◌-◌, ◌*◌, ◌/◌, ◌%◌, ◌^◌, ◌≤◌, Bytes, [], ◌∷◌, length, get_or, ◌≡◌, sym, ap,
  subst, ==_iff, ◌==◌, Bool-cases, inl, inr, true-ne-false, ◌≢◌, ◌∙◌, arith,
}
use p2p_sync_engine.RollingHash
use p2p_sync_engine.RollingHash.GearTable.{gear_table}

-- The hash after the bytes.
abbrev pub rolls : ℕ → Bytes → ℕ
rolls h [] = h
rolls h (b ∷ bytes) = rolls (RollingHash.roll h b) bytes

-- The low `k` bits are the same.
abbrev pub Agree : ℕ → ℕ → ℕ → Type 0
Agree k h h' = h % 2 ^ k ≡ h' % 2 ^ k

pow_dvd : (d k n : ℕ) → d + k ≡ n → 2 ^ k ∣ 2 ^ n
pow_dvd zero k n h =
    let same : k ≡ n = omega (arith, h) in subst (λ m. 2 ^ k ∣ 2 ^ m) same (dvd_refl (2 ^ k))
pow_dvd (suc d) k zero h = absurd (omega (arith, h))
pow_dvd (suc d) k (suc n) h =
    dvd_trans (2 ^ k) (pow_dvd d k n (omega (arith, h)))
      (subst (λ m. 2 ^ n ∣ m) (sym (pow-suc 2 n)) (dvd-mul_right (2 ^ n) 2))

pub pow_pos : (k : ℕ) → 0 < 2 ^ k
pow_pos zero = omega arith
pow_pos (suc k) = omega (arith, pow_pos k, pow-suc 2 k)

double_mod : (h n : ℕ) → 0 < n → h * 2 % (n * 2) ≡ h % n * 2
double_mod h n pos =
    let q = h / n in
    let r = h % n in
    let split : h * 2 ≡ (n * 2) * q + r * 2 = grind (arith, div-add-mod h n) in
    ap (λ x. x % (n * 2)) split
    ∙ mul-add-mod_self_left (n * 2) q (r * 2)
    ∙ mod-eq_of_lt (omega (arith, mod-lt h pos))

-- The low bits after a byte, from one bit less of the hash before.
low_bits :
    (k h b : ℕ)
    → suc k ≤ 64
    → RollingHash.roll h b % 2 ^ suc k ≡ (h % 2 ^ k * 2 + get_or gear_table b 0) % 2 ^ suc k
unfolding RollingHash.roll
low_bits k h b le =
    let g = get_or gear_table b 0 in
    let wide : 2 ^ suc k ∣ 2 ^ 64 = pow_dvd (64 - suc k) (suc k) 64 (omega (arith, le)) in
    mod-mod_of_dvd (2 ^ suc k) (h * 2 % 2 ^ 64 + g) wide
    ∙ sym (mod-add-mod (h * 2 % 2 ^ 64) (2 ^ suc k) g)
    ∙ ap (λ r. (r + g) % 2 ^ suc k)
        (mod-mod_of_dvd (2 ^ suc k) (h * 2) wide
          ∙ ap (λ n. h * 2 % n) (pow-suc 2 k)
          ∙ double_mod h (2 ^ k) (pow_pos k))

roll-Agree :
    (k h h' b : ℕ)
    → suc k ≤ 64
    → Agree k h h'
    → Agree (suc k) (RollingHash.roll h b) (RollingHash.roll h' b)
roll-Agree k h h' b le a =
    low_bits k h b le
    ∙ ap (λ r. (r * 2 + get_or gear_table b 0) % 2 ^ suc k) a
    ∙ sym (low_bits k h' b le)

all-Agree : (h h' : ℕ) → Agree 0 h h'
all-Agree h h' = mod-one h ∙ sym (mod-one h')

rolls-Agree :
    (bytes : Bytes) (k h h' : ℕ)
    → k + length bytes ≤ 64
    → Agree k h h'
    → Agree (k + length bytes) (rolls h bytes) (rolls h' bytes)
rolls-Agree [] k h h' le a = subst (λ n. Agree n h h') (omega arith) a
rolls-Agree (b ∷ bytes) k h h' le a =
    subst (λ n. Agree n (rolls h (b ∷ bytes)) (rolls h' (b ∷ bytes))) (omega arith)
      (rolls-Agree bytes (suc k) (RollingHash.roll h b) (RollingHash.roll h' b) (omega (arith, le))
        (roll-Agree k h h' b (omega (arith, le)) a))

-- The low bits behind more bytes than bits: those before the last ones have no part in it.
pub rolls-Agree_last :
    (m : ℕ) (bytes : Bytes) (h h' : ℕ)
    → m ≤ 64
    → m ≤ length bytes
    → Agree m (rolls h bytes) (rolls h' bytes)
rolls-Agree_last m [] h h' le long =
    let same : 0 ≡ m = omega (arith, long) in subst (λ n. Agree n h h') same (all-Agree h h')
rolls-Agree_last m (b ∷ bytes) h h' le long = elim (Bool-cases (m == length (b ∷ bytes))) [
  | inl q ↦
      let same : m ≡ length (b ∷ bytes) = (==_iff m (length (b ∷ bytes))).0 q in
      subst (λ n. Agree n (rolls h (b ∷ bytes)) (rolls h' (b ∷ bytes))) (omega (arith, same))
        (rolls-Agree (b ∷ bytes) 0 h h' (omega (arith, le, same)) (all-Agree h h'))
  | inr q ↦ rolls-Agree_last m bytes (RollingHash.roll h b) (RollingHash.roll h' b) le (
      shorter (length bytes) long
        (λ e. true-ne-false (sym ((==_iff m (length (b ∷ bytes))).1 e) ∙ q)))
]
  where
    shorter : (n : ℕ) → m ≤ suc n → m ≢ suc n → m ≤ n
    shorter n l ne = ground arith

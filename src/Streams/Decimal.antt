-- ===== src/Streams/Decimal.antt =====
-- Decimal print and parse.
use p2p_sync_engine.Prelude.{
  ℕ, zero, suc, ◌+◌, ◌-◌, ◌*◌, ◌/◌, ◌%◌, ◌^◌, ◌≤◌, ◌<◌, true, false, Bytes, [], ◌∷◌, ◌++◌, ◌≡◌, ◌≢◌,
  refl, ap, ◌∙◌, arith, All, All-append, ◌==◌, ltb, lt→ltb, Bool-cases, inl, inr,
}
use native.Mathlib.Nat.{pow-suc}
use p2p_sync_engine.Exceptions.{ok}
use p2p_sync_engine.Streams.{
  digits, print, is_digit, leading, read_digits, read_sign, is_space, skip_space, stoull,
}

abbrev pub IsDigit : ℕ → Type 0
IsDigit c = (b'0' ≤ c) × (c ≤ b'9')

-- All bytes of a printed number are digits, and there is one at least.
pub digits-IsDigit : (fuel n : ℕ) → All IsDigit (digits fuel n)
unfolding digits
digits-IsDigit zero n = tt
digits-IsDigit (suc fuel) n = elim (Bool-cases (ltb n 10)) [
  | inl t ↦ rw t (ground arith, tt)
  | inr f ↦ rw f (
      All-append IsDigit (digits fuel (n / 10)) ((b'0' + n % 10) ∷ [])
        (digits-IsDigit fuel (n / 10)) (omega arith, tt))
]

leading-append :
    (n : ℕ) (xs ys : Bytes) → All IsDigit xs → leading n (xs ++ ys) ≡ leading (leading n xs) ys
unfolding leading is_digit
leading-append n [] ys h = refl
leading-append n (x ∷ xs) ys h = ground (arith, leading-append (n * 10 + (x - b'0')) xs ys h.1)

leading-digits : (fuel n : ℕ) → n < 10 ^ fuel → leading 0 (digits fuel n) ≡ n
unfolding digits leading
leading-digits zero n h = omega arith
leading-digits (suc fuel) n h = elim (Bool-cases (ltb n 10)) [
  | inl t ↦ rw t (unfold is_digit in ground arith)
  | inr f ↦ rw f (
      leading-append 0 (digits fuel (n / 10)) ((b'0' + n % 10) ∷ []) (digits-IsDigit fuel (n / 10))
      ∙ ap (λ m. leading m ((b'0' + n % 10) ∷ []))
          (leading-digits fuel (n / 10) (omega (arith, pow-suc 10 fuel)))
      ∙ last_digit n)
]
  where
    last_digit : (n : ℕ) → leading (n / 10) ((b'0' + n % 10) ∷ []) ≡ n
    last_digit n = unfold is_digit in ground arith

digits-ne-nil : (fuel n : ℕ) → digits (suc fuel) n ≢ []
unfolding digits
digits-ne-nil fuel n h = elim (Bool-cases (ltb n 10)) [
  | inl t ↦ cc (h, t)
  | inr f ↦ absurd (ends (digits fuel (n / 10)) (b'0' + n % 10) (rw f at h))
]
  where
    ends : (xs : Bytes) (x : ℕ) → xs ++ x ∷ [] ≢ []
    ends [] x e = cc
    ends (y ∷ xs) x e = cc

digit_tests :
    (c : ℕ)
    → IsDigit c
    → (is_space c ≡ false) × (is_digit c ≡ true) × ((c == b'+') ≡ false) × ((c == b'-') ≡ false)
unfolding is_space is_digit
digit_tests c d = ground arith

stoull_lem : (s : Bytes) → stoull s ≡ read_sign (skip_space s)
unfolding stoull
stoull_lem s = refl

-- A text of digits is read to its value, if that fits.
stoull_digits :
    (s : Bytes) → s ≢ [] → All IsDigit s → leading 0 s < 2 ^ 64 → stoull s ≡ ok (leading 0 s)
unfolding read_sign skip_space read_digits
stoull_digits [] h d l = absurd (h refl)
stoull_digits (c ∷ s) h d l =
    let t = digit_tests c d.0 in
    stoull_lem (c ∷ s) ∙ (rw (t.0, read_sign, t.2, t.3, t.1, lt→ltb _ _ l) refl)

-- Every 64-bit number is read back from its decimal print.
pub stoull-print : (n : ℕ) → n < 2 ^ 64 → stoull (print n) ≡ ok n
unfolding print
stoull-print n h =
    let e = leading-digits 20 n (omega arith) in
    stoull_digits (digits 20 n) (digits-ne-nil 19 n) (digits-IsDigit 20 n) (omega (arith, e))
    ∙ ap ok e

pub print-IsDigit : (n : ℕ) → All IsDigit (print n)
unfolding print
print-IsDigit n = digits-IsDigit 20 n

pub print-ne-nil : (n : ℕ) → print n ≢ []
unfolding print
print-ne-nil n = digits-ne-nil 19 n

-- ===== src/EntryCodec/Hex.antt =====
-- Digests in hexadecimal.
use p2p_sync_engine.Prelude.{
  ℕ, zero, suc, ◌/◌, ◌%◌, ◌<◌, Bool, true, false, not, ◌&&◌, ◌||◌, [], ◌∷◌, none, some, ◌≡◌, ◌≢◌,
  refl, sym, ap, subst, leb, leb→le, ◌∙◌, arith, All, ◌==◌, length, all_below, all_below_sound,
}
use p2p_sync_engine.Exceptions.{ok}
use p2p_sync_engine.Streams.{is_space}
use p2p_sync_engine.Streams.Lines.{Lacks}
use p2p_sync_engine.Sha256.{Digest, hex_digit, to_hex}
use p2p_sync_engine.Sha256.Padding.{IsDigest}
use p2p_sync_engine.EntryCodec.{hex_value, stoi_digits, stoi_byte, hex_bytes, hex_to_digest}

has_value : ℕ → ℕ → Bool
has_value c n = elim (hex_value c) [ none ↦ false | some v ↦ v == n ]

-- The sixteen digits are read back, and none is taken for a blank or a sign.
digit_test : ℕ → Bool
digit_test n =
    let c = hex_digit n in has_value c n && (not (is_space c || c == b'+') && not (c == b'-'))

digit_table : all_below 16 digit_test ≡ true
unfolding digit_test has_value hex_value is_space hex_digit
digit_table = refl

digit_lem :
    (n : ℕ)
    → n < 16
    → (hex_value (hex_digit n) ≡ some n)
      × ((is_space (hex_digit n) || hex_digit n == b'+') ≡ false)
      × ((hex_digit n == b'-') ≡ false)
unfolding has_value digit_test
digit_lem n h = split (hex_digit n) (all_below_sound 16 digit_test n digit_table h)
  where
    split :
        (c : ℕ)
        → (has_value c n && (not (is_space c || c == b'+') && not (c == b'-'))) ≡ true
        → (hex_value c ≡ some n) × ((is_space c || c == b'+') ≡ false) × ((c == b'-') ≡ false)
    split c t = ground arith

stoi_byte-hex_digit : (v : ℕ) → v < 256 → stoi_byte (hex_digit (v / 16)) (hex_digit (v % 16)) ≡ ok v
unfolding stoi_byte stoi_digits
stoi_byte-hex_digit v h =
    let hi = digit_lem (v / 16) (omega arith) in
    let lo = digit_lem (v % 16) (omega arith) in rw (hi.1, hi.2, hi.0, lo.0) (ap ok (omega arith))

to_hex-cons :
    (v : ℕ) (d : Digest) → to_hex (v ∷ d) ≡ hex_digit (v / 16) ∷ (hex_digit (v % 16) ∷ to_hex d)
unfolding to_hex
to_hex-cons v d = refl

hex_bytes-to_hex :
    (n : ℕ) (d : Digest) → length d ≡ n → All (λ b. b < 256) d → hex_bytes n (to_hex d) ≡ ok d
unfolding hex_bytes
hex_bytes-to_hex zero [] e h = unfold to_hex in refl
hex_bytes-to_hex zero (v ∷ d) e h = absurd (omega arith)
hex_bytes-to_hex (suc n) [] e h = absurd (omega arith)
hex_bytes-to_hex (suc n) (v ∷ d) e h =
    ap (hex_bytes (suc n)) (to_hex-cons v d)
    ∙ (rw (stoi_byte-hex_digit v h.0, hex_bytes-to_hex n d (omega arith) h.1) refl)

-- A digest is read back from its print.
pub hex_to_digest-to_hex : (d : Digest) → IsDigest d → hex_to_digest (to_hex d) ≡ ok d
unfolding hex_to_digest
hex_to_digest-to_hex d h = hex_bytes-to_hex 32 d h.size h.bytes

-- All sixteen digits stand at or above "0" in the code.
digit_code_table : all_below 16 (λ n. leb b'0' (hex_digit n)) ≡ true
unfolding hex_digit
digit_code_table = refl

pub to_hex-Lacks : (c : ℕ) (d : Digest) → c < b'0' → All (λ b. b < 256) d → Lacks c (to_hex d)
to_hex-Lacks c [] lt h = unfold to_hex in tt
to_hex-Lacks c (v ∷ d) lt h =
    subst (Lacks c) (sym (to_hex-cons v d))
      (other (v / 16) (omega arith), (other (v % 16) (omega arith), to_hex-Lacks c d lt h.1))
  where
    other : (n : ℕ) → n < 16 → hex_digit n ≢ c
    other n small e = omega (
      arith,
      e,
      leb→le b'0' (hex_digit n)
          (all_below_sound 16 (λ n. leb b'0' (hex_digit n)) n digit_code_table small),
    )

pub to_hex-ne-nil : (d : Digest) → IsDigest d → to_hex d ≢ []
to_hex-ne-nil [] h e = absurd (omega (arith, h.size))
to_hex-ne-nil (v ∷ d) h e = let p = sym (to_hex-cons v d) ∙ e in cc

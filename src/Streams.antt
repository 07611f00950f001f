-- ===== src/Streams.antt =====
-- What the code uses of `std::getline`, `std::ostream` and `std::stoull`, on byte strings.
pub mod Lines
pub mod Int
pub mod Decimal
use p2p_sync_engine.Prelude.{
  ℕ, zero, suc, ◌+◌, ◌-◌, ◌*◌, ◌/◌, ◌%◌, ◌^◌, Bool, true, false, ◌&&◌, ◌||◌, Bytes, List, [], ◌∷◌,
  ◌++◌, Option, none, some, ltb, leb, ◌==◌, if◌then◌else◌,
}
use p2p_sync_engine.Exceptions.{Result, ok, throw, invalid_argument, out_of_range}

-- One more byte in front of the first part.
pub lead : ℕ → List Bytes → List Bytes
lead c [] = (c ∷ []) ∷ []
lead c (part ∷ parts) = (c ∷ part) ∷ parts

-- All that `while (std::getline(in, part, d))` reads: the last part is there only if it is not empty.
unfoldable pub getlines : ℕ → Bytes → List Bytes
unfolding lead
getlines d [] = []
getlines d (c ∷ s) = let rest = getlines d s in if c == d then [] ∷ rest else lead c rest

-- Parts with the delimiter between them, as the loops with `first` or `if (i)` write them.
unfoldable pub join : ℕ → List Bytes → Bytes
join d [] = []
join d (part ∷ []) = part
join d (part ∷ (next ∷ parts)) = part ++ (d ∷ join d (next ∷ parts))

-- Decimal digits, with fuel for the number of digits.
pub digits : ℕ → ℕ → Bytes
digits zero n = []
digits (suc fuel) n =
    let more = digits fuel (n / 10) ++ (b'0' + n % 10) ∷ [] in
    if ltb n 10 then (b'0' + n) ∷ [] else more

-- `out << n` for a `uint64_t`, which has at most 20 digits.
unfoldable pub print : ℕ → Bytes
unfolding digits
print n = digits 20 n

unfoldable pub is_space : ℕ → Bool
is_space c = c == 32 || (leb 9 c && leb c 13)

unfoldable pub skip_space : Bytes → Bytes
skip_space [] = []
skip_space (c ∷ s) = let rest = skip_space s in if is_space c then rest else c ∷ s

unfoldable pub is_digit : ℕ → Bool
is_digit c = leb b'0' c && leb c b'9'

-- The value of the leading digits behind `n`.
unfoldable pub leading : ℕ → Bytes → ℕ
leading n [] = n
leading n (c ∷ s) = let more = leading (n * 10 + (c - b'0')) s in if is_digit c then more else n

-- The digits must be there, and their value must fit.
pub read_digits : Bytes → Result ℕ
read_digits [] = throw invalid_argument
read_digits (c ∷ s) =
    if is_digit c
    then if ltb (leading 0 (c ∷ s)) (2 ^ 64) then ok (leading 0 (c ∷ s)) else throw out_of_range
    else throw invalid_argument

-- `strtoull` negates a value behind a minus sign modulo 2 ^ 64.
pub negated : Result ℕ → Result ℕ
negated (ok n) = ok ((2 ^ 64 - n) % 2 ^ 64)
negated (throw e) = throw e

pub read_sign : Bytes → Result ℕ
read_sign [] = throw invalid_argument
read_sign (c ∷ s) =
    if c == b'+'
    then read_digits s
    else if c == b'-'
    then negated (read_digits s)
    else read_digits (c ∷ s)

-- `std::stoull(s)`: what stands behind the digits is left unread.
unfoldable pub stoull : Bytes → Result ℕ
unfolding is_space skip_space is_digit leading read_digits negated read_sign
stoull s = read_sign (skip_space s)

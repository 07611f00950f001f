-- ===== src/Streams/Int.antt =====
-- `std::stoi` and the decimal output of an `int`.
use p2p_sync_engine.Prelude.{ℕ, zero, suc, ◌+◌, ◌-◌, ◌^◌, Bytes, [], ◌∷◌, leb, ◌==◌, if◌then◌else◌}
use p2p_sync_engine.Exceptions.{Result, ok, throw, invalid_argument, out_of_range, ◌>>=◌}
use p2p_sync_engine.Streams.{print, skip_space, is_digit, leading}

-- `negsuc n` is -(n + 1).
pub data ℤ : Type 0 where
  pos : ℕ → ℤ
  negsuc : ℕ → ℤ

abbrev pub negate : ℕ → ℤ
negate zero = pos 0
negate (suc n) = negsuc n

-- The digits must be there, and their value is at most `limit`.
pub bounded : ℕ → Bytes → Result ℕ
bounded limit [] = throw invalid_argument
bounded limit (c ∷ s) =
    if is_digit c
    then if leb (leading 0 (c ∷ s)) limit then ok (leading 0 (c ∷ s)) else throw out_of_range
    else throw invalid_argument

pub signed : Bytes → Result ℤ
signed [] = throw invalid_argument
signed (c ∷ s) =
    if c == b'+'
    then bounded (2 ^ 31 - 1) s >>= (λ n. ok (pos n))
    else if c == b'-'
    then bounded (2 ^ 31) s >>= (λ n. ok (negate n))
    else bounded (2 ^ 31 - 1) (c ∷ s) >>= (λ n. ok (pos n))

unfoldable pub stoi : Bytes → Result ℤ
unfolding bounded signed
stoi s = signed (skip_space s)

unfoldable pub print_int : ℤ → Bytes
print_int (pos n) = print n
print_int (negsuc n) = b'-' ∷ print (n + 1)

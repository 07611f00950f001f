-- ===== src/SyncEngine/Layout/Names.antt =====
-- The names of chunk files.
use p2p_sync_engine.Prelude.{
  ℕ, zero, suc, ◌/◌, ◌%◌, ◌<◌, Bool, false, Bytes, List, [], ◌∷◌, ◌++◌, codes, str_eq-false,
  if◌then◌else◌, get_or, length, length-append, ◌≡◌, ◌==◌, ◌≢◌, refl, sym, ap, ◌∙◌, arith,
  append_assoc, append-nil, All, All-append,
}
use p2p_sync_engine.Sha256.{Digest, to_hex, hex_digit}
use p2p_sync_engine.Streams.Lines.{Lacks}
use p2p_sync_engine.FileStore.Paths.{enter, read, walk}
use p2p_sync_engine.FileStore.Inside.{slash-false}

get_or-All : (P : ℕ → Type 0) (xs : Bytes) (i d : ℕ) → All P xs → P d → P (get_or xs i d)
get_or-All P [] i d h p = p
get_or-All P (x ∷ xs) zero d h p = h.0
get_or-All P (x ∷ xs) (suc i) d h p = get_or-All P xs i d h.1 p

to_hex-no_slash : (hash : Digest) → Lacks b'/' (to_hex hash)
unfolding to_hex hex_digit
to_hex-no_slash [] = tt
to_hex-no_slash (b ∷ hash) = (digit (b / 16), (digit (b % 16), to_hex-no_slash hash))
  where
    digit : (n : ℕ) → hex_digit n ≢ b'/'
    digit n =
        get_or-All (λ c. c ≢ b'/') (codes "0123456789abcdef") n 0
          (
            (λ e. omega (arith, e)),
            (
              (λ e. omega (arith, e)),
              (
                (λ e. omega (arith, e)),
                (
                  (λ e. omega (arith, e)),
                  (
                    (λ e. omega (arith, e)),
                    (
                      (λ e. omega (arith, e)),
                      (
                        (λ e. omega (arith, e)),
                        (
                          (λ e. omega (arith, e)),
                          (
                            (λ e. omega (arith, e)),
                            (
                              (λ e. omega (arith, e)),
                              (
                                (λ e. omega (arith, e)),
                                (
                                  (λ e. omega (arith, e)),
                                  (
                                    (λ e. omega (arith, e)),
                                    (
                                      (λ e. omega (arith, e)),
                                      ((λ e. omega (arith, e)), ((λ e. omega (arith, e)), tt)),
                                    ),
                                  ),
                                ),
                              ),
                            ),
                          ),
                        ),
                      ),
                    ),
                  ),
                ),
              ),
            ),
          )
          (λ e. omega (arith, e))

walk-name :
    (absolute : Bool) (above : List Bytes) (seen name : Bytes)
    → Lacks b'/' name
    → walk absolute (above, seen) name ≡ enter absolute above (seen ++ name)
unfolding walk read
walk-name absolute above seen [] l = ap (enter absolute above) (sym (append-nil seen))
walk-name absolute above seen (c ∷ name) l =
    let other : (c == b'/') ≡ false = slash-false c l.0 in
    ap (λ r. walk absolute r name)
      (ap (λ b. if b then (enter absolute above seen, []) else (above, seen ++ (c ∷ []))) other)
    ∙ walk-name absolute above (seen ++ (c ∷ [])) name l.1
    ∙ ap (enter absolute above) (append_assoc seen (c ∷ []) name)

-- A walk enters a name of three characters or more.
pub walk-plain :
    (name : Bytes)
    → Lacks b'/' name
    → 2 < length name
    → (absolute : Bool) (above : List Bytes) → walk absolute (above, []) name ≡ name ∷ above
unfolding enter
walk-plain name l long absolute above =
    walk-name absolute above [] name l
    ∙ rw
        (
          str_eq-false name [] (λ e. omega (arith, ap length e, long)),
          str_eq-false name (codes ".") (λ e. omega (arith, ap length e, long)),
          str_eq-false name (codes "..") (λ e. omega (arith, ap length e, long)),
        )
        refl

abbrev pub chunk_name : Digest → Bytes
chunk_name hash = to_hex hash ++ codes ".chunk"

pub chunk_name-plain :
    (hash : Digest) → Lacks b'/' (chunk_name hash) × (2 < length (chunk_name hash))
chunk_name-plain hash = (
  All-append _ (to_hex hash) (codes ".chunk") (to_hex-no_slash hash) (
    (λ e. omega (arith, e)),
    (
      (λ e. omega (arith, e)),
      (
        (λ e. omega (arith, e)),
        ((λ e. omega (arith, e)), ((λ e. omega (arith, e)), ((λ e. omega (arith, e)), tt))),
      ),
    ),
  ),
  omega (arith, length-append {0} (to_hex hash) (codes ".chunk")),
)

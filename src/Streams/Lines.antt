-- ===== src/Streams/Lines.antt =====
-- Splitting and joining.
use p2p_sync_engine.Prelude.{
  ℕ, false, Bytes, List, [], ◌∷◌, ◌++◌, ◌≡◌, ◌≢◌, refl, ap, ◌∙◌, arith, All, ◌==◌, ==_iff,
}
use p2p_sync_engine.Streams.{getlines, lead, join}

abbrev pub Lacks : ℕ → Bytes → Type 0
Lacks d = All (λ c. c ≢ d)

neq_false : (c d : ℕ) → c ≢ d → (c == d) ≡ false
neq_false c d h = ground arith

-- A part up to its delimiter.
pub getlines-part :
    (d : ℕ) (part rest : Bytes)
    → Lacks d part
    → getlines d (part ++ (d ∷ rest)) ≡ part ∷ getlines d rest
unfolding getlines
getlines-part d [] rest h = rw ((==_iff d d).1 refl) refl
getlines-part d (c ∷ part) rest h = rw (neq_false c d h.0, getlines-part d part rest h.1) refl

-- A last part with no delimiter behind it.
pub getlines-last :
    (d c : ℕ) (part : Bytes) → Lacks d (c ∷ part) → getlines d (c ∷ part) ≡ (c ∷ part) ∷ []
unfolding getlines
getlines-last d c [] h = rw (neq_false c d h.0) refl
getlines-last d c (x ∷ part) h =
    let rest : getlines d (x ∷ part) ≡ (x ∷ part) ∷ [] = getlines-last d x part h.1 in
    rw (neq_false c d h.0) (ap (lead c) rest)

-- The last of the parts is not empty.
abbrev pub LastFull : List Bytes → Type 0
LastFull [] = Unit
LastFull (part ∷ []) = part ≢ []
LastFull (part ∷ (next ∷ parts)) = LastFull (next ∷ parts)

-- Reading back what was joined: all parts, if none holds the delimiter and the last is not empty.
pub getlines-join :
    (d : ℕ) (parts : List Bytes)
    → All (Lacks d) parts
    → LastFull parts
    → getlines d (join d parts) ≡ parts
unfolding join
getlines-join d [] h l = unfold getlines in refl
getlines-join d ([] ∷ []) h l = absurd (l refl)
getlines-join d ((c ∷ part) ∷ []) h l = getlines-last d c part h.0
getlines-join d (part ∷ (next ∷ parts)) h l =
    getlines-part d part (join d (next ∷ parts)) h.0
    ∙ ap (◌∷◌ part) (getlines-join d (next ∷ parts) h.1 l)

-- ===== src/VectorClock/Compare.antt =====
-- `VectorClock::compare` and the pointwise order of clocks.
use p2p_sync_engine.Prelude.{
  ℕ, ◌≤◌, ◌<◌, Bool, true, false, Bytes, [], ◌∷◌, none, ltb, if◌then◌else◌, ◌≡◌, refl, ◌⊎◌, inl,
  inr, ◌↔◌, arith, str_eq_iff, Bool-cases,
}
use p2p_sync_engine.Map.{Map, find, insert, find-insert}
use p2p_sync_engine.VectorClock.{
  VectorClock, ClockOrder, equal, before, after, concurrent, get, compare, Flags, flags_loop,
  seen_loop, order_of_flags,
}

-- No counter of `a` is above that of `b`; a missing counter is 0.
abbrev pub Le : VectorClock → VectorClock → Type 0
Le a b = (n : Bytes) → get a n ≤ get b n

-- Some listed node is further in `b` than in `a`, or `found` says so already.
any_less : VectorClock → VectorClock → Map Bool → Bool → Bool
any_less a b [] found = found
any_less a b ((n, mark) ∷ seen) found =
    any_less a b seen (if ltb (get a n) (get b n) then true else found)

flags_loop-any_less :
    (a b : VectorClock) (seen : Map Bool) (f : Flags)
    → flags_loop a b seen f
      ≡ record { a_less = any_less a b seen f.a_less; b_less = any_less b a seen f.b_less }
unfolding flags_loop any_less
flags_loop-any_less a b [] f = refl
flags_loop-any_less a b ((n, mark) ∷ seen) f = flags_loop-any_less a b seen _

any_less-true : (a b : VectorClock) (seen : Map Bool) → any_less a b seen true ≡ true
unfolding any_less
any_less-true a b [] = refl
any_less-true a b ((n, mark) ∷ seen) = ground (arith, any_less-true a b seen)

any_less_witness :
    (a b : VectorClock) (seen : Map Bool)
    → any_less a b seen false ≡ true
    → (n : Bytes) × (get a n < get b n)
unfolding any_less
any_less_witness a b [] h = cc
any_less_witness a b ((n, mark) ∷ seen) h = elim (Bool-cases (ltb (get a n) (get b n))) [
  | inl t ↦ (n, ground arith)
  | inr f ↦ any_less_witness a b seen (ground (arith, h, f))
]

any_less-none :
    (a b : VectorClock) (seen : Map Bool) (n : Bytes)
    → any_less a b seen false ≡ false
    → (find n seen ≡ none) ⊎ (get b n ≤ get a n)
unfolding any_less find
any_less-none a b [] n h = inl refl
any_less-none a b ((i, mark) ∷ seen) n h =
    ground (arith, any_less-none a b seen n, any_less-true a b seen, str_eq_iff i n)

seen_loop-none :
    (seen : Map Bool) (m : Map ℕ) (n : Bytes)
    → find n (seen_loop seen m) ≡ none
    → (find n seen ≡ none) × (find n m ≡ none)
unfolding seen_loop find
seen_loop-none seen [] n h = (h, refl)
seen_loop-none seen ((i, val) ∷ m) n h =
    ground (arith, seen_loop-none (insert i true seen) m n h, find-insert n i true seen)

-- The ids of both clocks, as `compare` collects them.
abbrev all_seen : VectorClock → VectorClock → Map Bool
all_seen a b = seen_loop (seen_loop [] a.counters) b.counters

get_unseen :
    (a b : VectorClock) (n : Bytes) → find n (all_seen a b) ≡ none → (get a n ≡ 0) × (get b n ≡ 0)
unfolding get
get_unseen a b n h =
    let p = seen_loop-none (seen_loop [] a.counters) b.counters n h in
    ground (arith, p, seen_loop-none [] a.counters n p.0)

not-less_iff :
    (a b c d : VectorClock)
    → ((n : Bytes) → find n (all_seen c d) ≡ none → get a n ≤ get b n)
    → (any_less b a (all_seen c d) false ≡ false) ↔ Le a b
not-less_iff a b c d unseen = (
  λ h n. elim (any_less-none b a (all_seen c d) n h) [ inl e ↦ unseen n e | inr le ↦ le ],
  λ le. elim (Bool-cases (any_less b a (all_seen c d) false)) [
    | inl t ↦ let w = any_less_witness b a (all_seen c d) t in absurd (omega (arith, w.1, le w.0))
    | inr f ↦ f
  ],
)

-- What the four answers say of the order, for flags that decide its two halves.
module _ (P Q : Type 0) where
  abbrev Answers : ClockOrder → Type 0
  Answers o =
      ((o ≡ equal) ↔ (P × Q))
      × ((o ≡ before) ↔ (P × (¬ Q)))
      × ((o ≡ after) ↔ ((¬ P) × Q))
      × ((o ≡ concurrent) ↔ ((¬ P) × (¬ Q)))

  order_of_flags-Answers :
      (x y : Bool)
      → ((x ≡ false) ↔ Q)
      → ((y ≡ false) ↔ P)
      → Answers (order_of_flags (record { a_less = x; b_less = y }))
  unfolding order_of_flags
  order_of_flags-Answers false false q p =
      let hp = p.0 refl in
      let hq = q.0 refl in
      (
        (λ _. (hp, hq), λ _. refl),
        (λ e. cc, λ h. absurd (h.1 hq)),
        (λ e. cc, λ h. absurd (h.0 hp)),
        (λ e. cc, λ h. absurd (h.0 hp)),
      )
  order_of_flags-Answers false true q p =
      let hp : ¬ P = λ h. cc (p.1 h) in
      let hq = q.0 refl in
      (
        (λ e. cc, λ h. absurd (hp h.0)),
        (λ e. cc, λ h. absurd (hp h.0)),
        (λ _. (hp, hq), λ _. refl),
        (λ e. cc, λ h. absurd (h.1 hq)),
      )
  order_of_flags-Answers true false q p =
      let hp = p.0 refl in
      let hq : ¬ Q = λ h. cc (q.1 h) in
      (
        (λ e. cc, λ h. absurd (hq h.1)),
        (λ _. (hp, hq), λ _. refl),
        (λ e. cc, λ h. absurd (h.0 hp)),
        (λ e. cc, λ h. absurd (h.0 hp)),
      )
  order_of_flags-Answers true true q p =
      let hp : ¬ P = λ h. cc (p.1 h) in
      let hq : ¬ Q = λ h. cc (q.1 h) in
      (
        (λ e. cc, λ h. absurd (hp h.0)),
        (λ e. cc, λ h. absurd (hp h.0)),
        (λ e. cc, λ h. absurd (hq h.1)),
        (λ _. (hp, hq), λ _. refl),
      )

-- `compare` answers `equal`, `before` or `after` exactly when the clocks stand so in the pointwise
-- order of their counters, and `concurrent` exactly when neither is below the other.
pub compare_iff :
    (a b : VectorClock)
    → ((compare a b ≡ equal) ↔ (Le a b × Le b a))
      × ((compare a b ≡ before) ↔ (Le a b × (¬ Le b a)))
      × ((compare a b ≡ after) ↔ ((¬ Le a b) × Le b a))
      × ((compare a b ≡ concurrent) ↔ ((¬ Le a b) × (¬ Le b a)))
unfolding compare
compare_iff a b =
    let zero_both = get_unseen a b in
    rw (flags_loop-any_less a b (all_seen a b) _) (
      order_of_flags-Answers (Le a b) (Le b a) _ _
        (not-less_iff b a a b (λ n h. omega (arith, zero_both n h)))
        (not-less_iff a b a b (λ n h. omega (arith, zero_both n h))))

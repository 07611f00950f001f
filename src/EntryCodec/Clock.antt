-- ===== src/EntryCodec/Clock.antt =====
-- Clocks on the wire.
use p2p_sync_engine.Prelude.{
  ℕ, suc, ◌+◌, ◌<◌, ◌^◌, Bytes, List, [], ◌∷◌, ◌++◌, some, ◌≡◌, ◌≢◌, refl, sym, ap, ap₂, subst, ◌∙◌,
  arith, All, All-append, ==_iff, length, take, drop, map, append_assoc, append-nil,
}
use p2p_sync_engine.Map.{Map, insert_last, IsSorted, Every}
use p2p_sync_engine.Exceptions.{Result, ok, ◌>>=◌}
use p2p_sync_engine.Streams
use p2p_sync_engine.Streams.{getlines, join}
use p2p_sync_engine.Streams.Lines.{Lacks, LastFull, getlines-join}
use p2p_sync_engine.Streams.Decimal.{IsDigit, stoull-print, print-IsDigit}
use p2p_sync_engine.VectorClock
use p2p_sync_engine.VectorClock.{VectorClock}
use p2p_sync_engine.VectorClock.Merge.{IsValid}
use p2p_sync_engine.EntryCodec.{
  counter_text, clock_to_wire, clock_from_wire, find_first, set_counter, set_counter_at,
  set_counters,
}

-- A node id that the format can carry: it holds no tab, no newline, no comma and no colon.
pub record IsPlainId (node : Bytes) : Type 0 where
  pub no_tab : Lacks b'\t' node
  pub no_newline : Lacks b'\n' node
  pub no_comma : Lacks b',' node
  pub no_colon : Lacks b':' node

-- All node ids of the clock are such.
abbrev pub HasPlainIds : VectorClock → Type 0
HasPlainIds c = Every (λ node val. IsPlainId node) c.counters

find_first-append :
    (c : ℕ) (xs ys : Bytes) → Lacks c xs → find_first c (xs ++ (c ∷ ys)) ≡ some (length xs)
unfolding find_first
find_first-append c [] ys h = rw ((==_iff c c).1 refl) refl
find_first-append c (x ∷ xs) ys h = ground (arith, find_first-append c xs ys h.1)

take-exact : (xs ys : Bytes) → take (length xs) (xs ++ ys) ≡ xs
take-exact [] ys = refl
take-exact (x ∷ xs) ys = ap (◌∷◌ x) (take-exact xs ys)

drop-exact : (c : ℕ) (xs ys : Bytes) (n : ℕ) → n ≡ suc (length xs) → drop n (xs ++ (c ∷ ys)) ≡ ys
drop-exact c xs ys n e = ap (λ k. drop k (xs ++ (c ∷ ys))) e ∙ go xs
  where
    go : (zs : Bytes) → drop (suc (length zs)) (zs ++ (c ∷ ys)) ≡ ys
    go [] = refl
    go (z ∷ zs) = go zs

set_counter-counter_text :
    (c : VectorClock) (node : Bytes) (val : ℕ)
    → Lacks b':' node
    → val < 2 ^ 64
    → set_counter c (counter_text (node, val)) ≡ ok (VectorClock.set c node val)
unfolding set_counter counter_text
set_counter-counter_text c node val h lt =
    let text = node ++ (b':' ∷ Streams.print val) in
    ap (set_counter_at c text) (find_first-append b':' node (Streams.print val) h)
    ∙ ap₂ (λ n (r : Result ℕ). r >>= (λ v. ok (VectorClock.set c n v)))
        (take-exact node (b':' ∷ Streams.print val))
        (ap Streams.stoull
            (drop-exact b':' node (Streams.print val) (length node + 1) (omega arith))
          ∙ stoull-print val lt)

pub set_counters-map :
    (m rest : Map ℕ)
    → IsSorted (m ++ rest)
    → Every (λ node val. val < 2 ^ 64) rest
    → Every (λ node val. IsPlainId node) rest
    → set_counters (record { counters = m }) (map counter_text rest)
      ≡ ok (record { counters = m ++ rest })
unfolding set_counters VectorClock.set
set_counters-map m [] s f p = ap (λ k. ok (record { counters = k })) (sym (append-nil m))
set_counters-map m ((k, v) ∷ rest) s f p =
    ap (λ (r : Result VectorClock). r >>= (λ c'. set_counters c' (map counter_text rest)))
      (set_counter-counter_text (record { counters = m }) k v p.0.no_colon f.0
        ∙ ap (λ e. ok (record { counters = e })) (insert_last m k v rest s))
    ∙ set_counters-map (m ++ ((k, v) ∷ [])) rest (subst IsSorted (sym regroup) s) f.1 p.1
    ∙ ap (λ e. ok (record { counters = e })) regroup
  where
    regroup : (m ++ ((k, v) ∷ [])) ++ rest ≡ m ++ ((k, v) ∷ rest)
    regroup = append_assoc m ((k, v) ∷ []) rest

pub digits_lack : (d : ℕ) (s : Bytes) → d < b'0' → All IsDigit s → Lacks d s
digits_lack d [] lt h = tt
digits_lack d (c ∷ s) lt h = ((λ e. omega (arith, e, h.0)), digits_lack d s lt h.1)

pub counter_text-Lacks :
    (d : ℕ) (node : Bytes) (val : ℕ) → d < b'0' → Lacks d node → Lacks d (counter_text (node, val))
unfolding counter_text
counter_text-Lacks d node val lt h =
    All-append (λ c. c ≢ d) node (b':' ∷ Streams.print val) h
      ((λ e. omega (arith, e)), digits_lack d (Streams.print val) lt (print-IsDigit val))

counter_texts-Lacks_comma :
    (m : Map ℕ) → Every (λ node val. IsPlainId node) m → All (Lacks b',') (map counter_text m)
counter_texts-Lacks_comma [] p = tt
counter_texts-Lacks_comma ((k, v) ∷ m) p =
    (counter_text-Lacks b',' k v (omega arith) p.0.no_comma, counter_texts-Lacks_comma m p.1)

counter_texts-LastFull : (m : Map ℕ) → LastFull (map counter_text m)
counter_texts-LastFull [] = tt
counter_texts-LastFull ((k, v) ∷ []) = unfold counter_text in not_empty k
  where
    not_empty : (xs : Bytes) → xs ++ (b':' ∷ Streams.print v) ≢ []
    not_empty [] e = cc
    not_empty (x ∷ xs) e = cc
counter_texts-LastFull (a ∷ (b ∷ m)) = counter_texts-LastFull (b ∷ m)

to_wire_lem : (c : VectorClock) → clock_to_wire c ≡ join b',' (map counter_text c.counters)
unfolding clock_to_wire
to_wire_lem c = refl

from_wire_lem : (s : Bytes) → clock_from_wire s ≡ set_counters VectorClock.init (getlines b',' s)
unfolding clock_from_wire
from_wire_lem s = refl

-- A valid clock is read back from the wire, if no node id holds a comma or a colon.
pub clock_from_wire-clock_to_wire :
    (c : VectorClock) → IsValid c → HasPlainIds c → clock_from_wire (clock_to_wire c) ≡ ok c
clock_from_wire-clock_to_wire c v p =
    from_wire_lem (clock_to_wire c)
    ∙ ap (set_counters VectorClock.init) (
        ap (getlines b',') (to_wire_lem c)
        ∙ getlines-join b',' (map counter_text c.counters) (counter_texts-Lacks_comma c.counters p)
            (counter_texts-LastFull c.counters))
    ∙ set_counters-map [] c.counters v.sorted v.fits p

pub join-Lacks :
    (d sep : ℕ) (parts : List Bytes) → sep ≢ d → All (Lacks d) parts → Lacks d (join sep parts)
unfolding join
join-Lacks d sep [] h p = tt
join-Lacks d sep (part ∷ []) h p = p.0
join-Lacks d sep (part ∷ (next ∷ parts)) h p =
    All-append (λ c. c ≢ d) part (sep ∷ join sep (next ∷ parts)) p.0
      (h, join-Lacks d sep (next ∷ parts) h p.1)

counter_texts-Lacks :
    (d : ℕ) (m : Map ℕ)
    → d < b'0'
    → Every (λ node val. Lacks d node) m
    → All (Lacks d) (map counter_text m)
counter_texts-Lacks d [] lt p = tt
counter_texts-Lacks d ((k, v) ∷ m) lt p =
    (counter_text-Lacks d k v lt p.0, counter_texts-Lacks d m lt p.1)

plain_no_tab :
    (m : Map ℕ) → Every (λ node val. IsPlainId node) m → Every (λ node val. Lacks b'\t' node) m
plain_no_tab [] p = tt
plain_no_tab (e ∷ m) p = (p.0.no_tab, plain_no_tab m p.1)

plain_no_newline :
    (m : Map ℕ) → Every (λ node val. IsPlainId node) m → Every (λ node val. Lacks b'\n' node) m
plain_no_newline [] p = tt
plain_no_newline (e ∷ m) p = (p.0.no_newline, plain_no_newline m p.1)

-- The text of a clock holds no tab and no newline.
pub clock_to_wire-Lacks :
    (c : VectorClock)
    → HasPlainIds c
    → Lacks b'\t' (clock_to_wire c) × Lacks b'\n' (clock_to_wire c)
clock_to_wire-Lacks c p = (
  subst (Lacks b'\t') (sym (to_wire_lem c)) (
      join-Lacks b'\t' b',' (map counter_text c.counters) (λ e. omega (arith, e))
        (counter_texts-Lacks b'\t' c.counters (omega arith) (plain_no_tab c.counters p))),
  subst (Lacks b'\n') (sym (to_wire_lem c)) (
      join-Lacks b'\n' b',' (map counter_text c.counters) (λ e. omega (arith, e))
        (counter_texts-Lacks b'\n' c.counters (omega arith) (plain_no_newline c.counters p))),
)

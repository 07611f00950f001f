-- ===== src/VectorClock/Merge.antt =====
-- `VectorClock::merge` and `increment`, and the pointwise order of clocks.
use Prim.Native.Nat.{max}
use p2p_sync_engine.Prelude.{
  ℕ, ◌+◌, ◌<◌, ◌^◌, Bool, true, false, Bytes, [], ◌∷◌, Option, none, some, if◌then◌else◌, ◌≡◌, refl,
  ◌≢◌, ◌%◌, ap, sym, ◌∙◌, subst, arith, str_eq, str_eq_iff,
}
use p2p_sync_engine.Map.{
  Map, find, find-insert, IsSorted, insert-IsSorted, find-Above, Above, Every, insert-Every,
}
use p2p_sync_engine.Map.Extensionality.{Map_ext}
use p2p_sync_engine.VectorClock.{
  VectorClock, before, count, get, increment, merge, merge_counter, merge_loop, compare,
}
use p2p_sync_engine.VectorClock.Compare.{Le, compare_iff}

-- The invariant of a clock: a sorted map of `uint64_t` values.
pub record IsValid (c : VectorClock) : Type 0 where
  pub sorted : IsSorted c.counters
  pub fits : Every (λ n v. v < 2 ^ 64) c.counters

-- The join of two counters, where a missing one gives way to the other.
join : Option ℕ → Option ℕ → Option ℕ
join none y = y
join (some x) none = some x
join (some x) (some y) = some (max x y)

find-merge_counter :
    (m : Map ℕ) (node j : Bytes) (val : ℕ)
    → find j (merge_counter m node val)
      ≡ (if str_eq node j then join (find j m) (some val) else find j m)
unfolding merge_counter join
find-merge_counter m node j val = ground (arith, find-insert j node val m, str_eq_iff node j)

join-none : (x : Option ℕ) → join x none ≡ x
unfolding join
join-none none = refl
join-none (some x) = refl

join_head :
    (hit : Bool) (x y : Option ℕ) (v : ℕ)
    → (hit ≡ true → y ≡ none)
    → join (if hit then join x (some v) else x) y ≡ join x (if hit then some v else y)
join_head true x y v h = rw (h refl) (join-none (join x (some v)))
join_head false x y v h = refl

find-merge_loop :
    (m others : Map ℕ) (j : Bytes)
    → IsSorted others
    → find j (merge_loop m others) ≡ join (find j m) (find j others)
unfolding merge_loop find
find-merge_loop m [] j s = sym (join-none (find j m))
find-merge_loop m ((i, v) ∷ others) j s =
    rw (find-merge_loop (merge_counter m i v) others j s.1, find-merge_counter m i j v)
      (join_head (str_eq i j) (find j m) (find j others) v
        (λ t. find-Above j others (subst (λ x. Above x others) ((str_eq_iff i j).0 t) s.0)))

merge_counter-IsSorted :
    (m : Map ℕ) (node : Bytes) (val : ℕ) → IsSorted m → IsSorted (merge_counter m node val)
unfolding merge_counter
merge_counter-IsSorted m node val s = ground (arith, insert-IsSorted node val m s)

merge_loop-IsSorted : (m others : Map ℕ) → IsSorted m → IsSorted (merge_loop m others)
unfolding merge_loop
merge_loop-IsSorted m [] s = s
merge_loop-IsSorted m ((i, v) ∷ others) s =
    merge_loop-IsSorted (merge_counter m i v) others (merge_counter-IsSorted m i v s)

abbrev Fits : Map ℕ → Type 0
Fits = Every (λ n v. v < 2 ^ 64)

merge_counter-Fits :
    (m : Map ℕ) (node : Bytes) (val : ℕ) → Fits m → val < 2 ^ 64 → Fits (merge_counter m node val)
unfolding merge_counter
merge_counter-Fits m node val f lt =
    ground (arith, insert-Every (λ n v. v < 2 ^ 64) node val m lt f)

merge_loop-Fits : (m others : Map ℕ) → Fits m → Fits others → Fits (merge_loop m others)
unfolding merge_loop
merge_loop-Fits m [] f g = f
merge_loop-Fits m ((i, v) ∷ others) f g =
    merge_loop-Fits (merge_counter m i v) others (merge_counter-Fits m i v f g.0) g.1

pub merge-IsValid : (a b : VectorClock) → IsValid a → IsValid b → IsValid (merge a b)
unfolding merge
merge-IsValid a b va vb = record {
  sorted = merge_loop-IsSorted a.counters b.counters va.sorted;
  fits = merge_loop-Fits a.counters b.counters va.fits vb.fits;
}

count-join : (x y : Option ℕ) → count (join x y) ≡ max (count x) (count y)
unfolding join
count-join none none = refl
count-join none (some y) = omega arith
count-join (some x) none = omega arith
count-join (some x) (some y) = refl

-- Each counter of a merge is the greater of the two, where the merged clock is a sorted map.
pub get-merge :
    (a b : VectorClock) (n : Bytes)
    → IsSorted b.counters
    → get (merge a b) n ≡ max (get a n) (get b n)
unfolding get merge join
get-merge a b n s =
    ap count (find-merge_loop a.counters b.counters n s)
    ∙ count-join (find n a.counters) (find n b.counters)

-- Merging a valid clock gives the least clock that is above both in the pointwise order.
pub merge_least_upper_bound :
    (a b : VectorClock)
    → IsValid b
    → Le a (merge a b) × Le b (merge a b) × ((c : VectorClock) → Le a c → Le b c → Le (merge a b) c)
merge_least_upper_bound a b v = (
  λ n. omega (arith, get-merge a b n v.sorted),
  λ n. omega (arith, get-merge a b n v.sorted),
  λ c p q n. omega (arith, get-merge a b n v.sorted, p n, q n),
)

join_comm : (x y : Option ℕ) → join x y ≡ join y x
unfolding join
join_comm none none = refl
join_comm none (some y) = refl
join_comm (some x) none = refl
join_comm (some x) (some y) = ap some (omega arith)

join_assoc : (x y z : Option ℕ) → join (join x y) z ≡ join x (join y z)
unfolding join
join_assoc none y z = refl
join_assoc (some x) none z = refl
join_assoc (some x) (some y) none = refl
join_assoc (some x) (some y) (some z) = ap some (omega arith)

join_self : (x : Option ℕ) → join x x ≡ x
unfolding join
join_self none = refl
join_self (some x) = ap some (omega arith)

clock_path : (a b : VectorClock) → a.counters ≡ b.counters → a ≡ b
clock_path a b p = λ i. record { counters = p i }

-- Two valid clocks with the same counters, missing ones included, are one.
clock_ext :
    (a b : VectorClock)
    → IsSorted a.counters
    → IsSorted b.counters
    → ((n : Bytes) → find n a.counters ≡ find n b.counters)
    → a ≡ b
clock_ext a b s t h = clock_path a b (Map_ext a.counters b.counters s t h)

find-merge :
    (a b : VectorClock) (n : Bytes)
    → IsSorted b.counters
    → find n (merge a b).counters ≡ join (find n a.counters) (find n b.counters)
unfolding merge
find-merge a b n s = find-merge_loop a.counters b.counters n s

merge_comm : (a b : VectorClock) → IsValid a → IsValid b → merge a b ≡ merge b a
merge_comm a b va vb =
    clock_ext (merge a b) (merge b a) (merge-IsValid a b va vb).sorted
      (merge-IsValid b a vb va).sorted
      λ n. rw (find-merge a b n vb.sorted, find-merge b a n va.sorted) (join_comm _ _)

merge_assoc :
    (a b c : VectorClock)
    → IsValid a
    → IsValid b
    → IsValid c
    → merge (merge a b) c ≡ merge a (merge b c)
merge_assoc a b c va vb vc =
    let ab = merge-IsValid a b va vb in
    let bc = merge-IsValid b c vb vc in
    clock_ext (merge (merge a b) c) (merge a (merge b c)) (merge-IsValid (merge a b) c ab vc).sorted
      (merge-IsValid a (merge b c) va bc).sorted
      λ n. cc (
        find-merge (merge a b) c n vc.sorted,
        find-merge a b n vb.sorted,
        find-merge a (merge b c) n bc.sorted,
        find-merge b c n vc.sorted,
        join_assoc (find n a.counters) (find n b.counters) (find n c.counters),
      )

merge_self : (a : VectorClock) → IsValid a → merge a a ≡ a
merge_self a va =
    clock_ext (merge a a) a (merge-IsValid a a va va).sorted va.sorted
      λ n. rw (find-merge a a n va.sorted) (join_self _)

-- On valid clocks `merge` is commutative, associative and idempotent, as equations of whole clocks.
pub merge_semilattice :
    (a b c : VectorClock)
    → IsValid a
    → IsValid b
    → IsValid c
    → (merge a b ≡ merge b a) × (merge (merge a b) c ≡ merge a (merge b c)) × (merge a a ≡ a)
merge_semilattice a b c va vb vc =
    (merge_comm a b va vb, merge_assoc a b c va vb vc, merge_self a va)

pub increment-IsValid :
    (c : VectorClock) (node_id : Bytes) → IsValid c → IsValid (increment c node_id)
unfolding increment
increment-IsValid c node_id v = record {
  sorted = insert-IsSorted node_id _ c.counters v.sorted;
  fits = insert-Every (λ n v. v < 2 ^ 64) node_id _ c.counters (omega arith) v.fits;
}

pub get-increment :
    (c : VectorClock) (node_id n : Bytes)
    → get (increment c node_id) n
      ≡ (if str_eq node_id n then (get c node_id + 1) % 2 ^ 64 else get c n)
unfolding increment get
get-increment c node_id n = ap count (find-insert n node_id _ c.counters) ∙ (ground arith)

-- While a counter has room, `increment` makes a clock that happened strictly after the old one,
-- and touches no counter but the node's own.
pub compare-increment :
    (c : VectorClock) (node_id : Bytes)
    → get c node_id + 1 < 2 ^ 64
    → (compare c (increment c node_id) ≡ before)
      × (get (increment c node_id) node_id ≡ get c node_id + 1)
      × ((n : Bytes) → n ≢ node_id → get (increment c node_id) n ≡ get c n)
compare-increment c node_id room = (
  (compare_iff c (increment c node_id)).1.1 (
    λ n. ground (arith, get-increment c node_id n, str_eq_iff node_id n),
    λ le. absurd (omega (arith, le node_id, own)),
  ),
  own,
  λ n ne. ground (arith, get-increment c node_id n, str_eq_iff node_id n),
)
  where
    own : get (increment c node_id) node_id ≡ get c node_id + 1
    own = ground (arith, get-increment c node_id node_id, str_eq_iff node_id node_id)

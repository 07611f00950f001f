-- ===== src/VectorClock.antt =====
-- vector_clock.hpp, vector_clock.cpp: a counter for each node id, and the causal order.
pub mod Compare
pub mod Merge
mod Tests
use p2p_sync_engine.Prelude.{
  codes, ◌++◌, ℕ, ◌+◌, ◌%◌, ◌^◌, Bool, true, false, not, ◌&&◌, Bytes, [], ◌∷◌, Option, none, some,
  ltb, if◌then◌else◌,
}
use p2p_sync_engine.Streams
use p2p_sync_engine.Map.{Map, find, insert}

pub data ClockOrder : Type 0 where
  equal before after concurrent : ClockOrder

pub record VectorClock : Type 0 where
  pub counters : Map ℕ

-- A default-constructed clock.
abbrev pub init : VectorClock
init = record { counters = [] }

-- `it == counters_.end() ? 0 : it->second`
abbrev pub count : Option ℕ → ℕ
count none = 0
count (some val) = val

unfoldable pub get : VectorClock → Bytes → ℕ
get c node_id = count (find node_id c.counters)

-- `counters_[node_id] += 1`: a missing counter starts at 0, and `uint64_t` wraps around.
unfoldable pub increment : VectorClock → Bytes → VectorClock
increment c node_id = record { counters = insert node_id ((get c node_id + 1) % 2 ^ 64) c.counters }

unfoldable pub set : VectorClock → Bytes → ℕ → VectorClock
set c node_id value = record { counters = insert node_id value c.counters }

-- The body of the loop of `merge`.
pub merge_counter : Map ℕ → Bytes → ℕ → Map ℕ
merge_counter counters node val = elim (find node counters) [
  | none ↦ insert node val counters
  | some cur ↦ if ltb cur val then insert node val counters else counters
]

pub merge_loop : Map ℕ → Map ℕ → Map ℕ
merge_loop counters [] = counters
merge_loop counters ((node, val) ∷ others) = merge_loop (merge_counter counters node val) others

unfoldable pub merge : VectorClock → VectorClock → VectorClock
unfolding merge_counter merge_loop
merge c other = record { counters = merge_loop c.counters other.counters }

-- The node ids of one clock, put into `seen`.
pub seen_loop : Map Bool → Map ℕ → Map Bool
seen_loop seen [] = seen
seen_loop seen ((n, val) ∷ counters) = seen_loop (insert n true seen) counters

pub record Flags : Type 0 where
  pub a_less : Bool
  pub b_less : Bool

pub flags_loop : VectorClock → VectorClock → Map Bool → Flags → Flags
flags_loop a b [] f = f
flags_loop a b ((n, mark) ∷ seen) f = flags_loop a b seen (record {
  a_less = if ltb (get a n) (get b n) then true else f.a_less;
  b_less = if ltb (get b n) (get a n) then true else f.b_less;
})

pub order_of_flags : Flags → ClockOrder
order_of_flags f =
    if not f.a_less && not f.b_less
    then equal
    else if f.a_less && not f.b_less
    then before
    else if f.b_less && not f.a_less
    then after
    else concurrent

unfoldable pub compare : VectorClock → VectorClock → ClockOrder
unfolding seen_loop flags_loop order_of_flags get
compare a b = order_of_flags (
    flags_loop a b (seen_loop (seen_loop [] a.counters) b.counters)
      (record { a_less = false; b_less = false }))

-- The loop of `to_string`: a separator before every counter but the first.
pub text_loop : Bool → Map ℕ → Bytes
text_loop first [] = []
text_loop first ((n, v) ∷ counters) =
    (if first then [] else codes ", ")
    ++ (n ++ (b':' ∷ (Streams.print v ++ text_loop false counters)))

unfoldable pub to_string : VectorClock → Bytes
unfolding text_loop
to_string c = b'{' ∷ (text_loop true c.counters ++ codes "}")

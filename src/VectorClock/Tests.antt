-- ===== src/VectorClock/Tests.antt =====
-- The theorems on clocks at concrete clocks.
use p2p_sync_engine.Prelude.{◌≡◌, refl, arith, compare_bytes, str_eq, ◌↔◌}
use p2p_sync_engine.Fixtures.{clock_a, clock_b, clock_ab, node_a}
use p2p_sync_engine.VectorClock.{VectorClock, equal, before, after, concurrent, get, merge, compare}
use p2p_sync_engine.VectorClock.Compare.{Le, compare_iff}
use p2p_sync_engine.Map.{find}
use p2p_sync_engine.VectorClock.Merge.{IsValid, merge_semilattice, merge_least_upper_bound}

compare_iff_example :
    ((compare clock_a clock_b ≡ equal) ↔ (Le clock_a clock_b × Le clock_b clock_a))
    × ((compare clock_a clock_b ≡ before) ↔ (Le clock_a clock_b × (¬ Le clock_b clock_a)))
    × ((compare clock_a clock_b ≡ after) ↔ ((¬ Le clock_a clock_b) × Le clock_b clock_a))
    × ((compare clock_a clock_b ≡ concurrent) ↔ ((¬ Le clock_a clock_b) × (¬ Le clock_b clock_a)))
compare_iff_example = compare_iff clock_a clock_b

clock_a-IsValid : IsValid clock_a
clock_a-IsValid = record { sorted = (tt, tt); fits = (omega arith, tt) }

clock_b-IsValid : IsValid clock_b
clock_b-IsValid = record { sorted = (tt, tt); fits = (omega arith, tt) }

clock_ab-IsValid : IsValid clock_ab
unfolding compare_bytes
clock_ab-IsValid = record {
  sorted = ((refl, tt), (tt, tt));
  fits = (omega arith, (omega arith, tt));
}

merge_semilattice_example :
    (merge clock_a clock_b ≡ merge clock_b clock_a)
    × (merge (merge clock_a clock_b) clock_ab ≡ merge clock_a (merge clock_b clock_ab))
    × (merge clock_a clock_a ≡ clock_a)
merge_semilattice_example =
    merge_semilattice clock_a clock_b clock_ab clock_a-IsValid clock_b-IsValid clock_ab-IsValid

merge_least_upper_bound_example :
    Le clock_a (merge clock_a clock_ab)
    × Le clock_ab (merge clock_a clock_ab)
    × ((c : VectorClock) → Le clock_a c → Le clock_ab c → Le (merge clock_a clock_ab) c)
merge_least_upper_bound_example = merge_least_upper_bound clock_a clock_ab clock_ab-IsValid

get-clock_a : get clock_a node_a ≡ 1
unfolding get find str_eq
get-clock_a = refl

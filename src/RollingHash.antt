-- ===== src/RollingHash.antt =====
-- rolling_hash.hpp, and its implementation at the head of chunker.cpp: the gear hash.
pub mod GearTable
pub mod Window
pub mod Mask
use p2p_sync_engine.Prelude.{ℕ, ◌+◌, ◌*◌, ◌%◌, ◌^◌, get_or}
use GearTable.{gear_table}

-- `hash_` after the constructor and after `reset()`.
abbrev pub reset : ℕ
reset = 0

-- `hash_ = (hash_ << 1) + GEAR_TABLE[byte]` on `uint64_t`; the result is also returned.
unfoldable pub roll : ℕ → ℕ → ℕ
roll hash byte = (hash * 2 % 2 ^ 64 + get_or gear_table byte 0) % 2 ^ 64

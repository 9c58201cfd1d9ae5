-- ===== src/Base/Rings.antt =====
-- Positions that only grow, taken modulo the size of a buffer.
use Prim.Native.Nat.{ℕ, ◌+◌, ◌%◌, ◌<◌}
use mathlib.Core.Logic.{◌≢◌}
use native.Mathlib.Omega.{arith}

-- Two positions less than a buffer apart fall on different slots.
pub mod_ne : (i w n : ℕ) → i < w → w < i + n → i % n ≢ w % n
mod_ne i w n h k e = grind arith

pub mod_lt : (i n : ℕ) → 0 < n → i % n < n
mod_lt i n h = grind arith

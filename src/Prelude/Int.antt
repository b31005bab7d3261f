-- ===== src/Prelude/Int.antt =====
-- Signed integers over the native numbers, and the casts between `u64` and `i64`.
use Prim.Native.Nat.{ℕ, ◌-◌, ◌^◌, ◌<◌}
use mathlib.Core.Path.{◌≡◌}
use native.Mathlib.Omega.{arith}
use melvin.Prelude.Compare.{ltb, if◌then◌else◌}

-- `negsuc n` is -(n + 1).
pub data ℤ : Type 0 where
  pos : ℕ → ℤ
  negsuc : ℕ → ℤ

abbrev pub two63 : ℕ
two63 = 2 ^ 63

abbrev pub two64 : ℕ
two64 = 2 ^ 64

-- The values of an `i64`.
abbrev pub IsI64 : ℤ → Type 0
IsI64 (pos n) = n < two63
IsI64 (negsuc n) = n < two63

-- `n as i64` for a `u64`, and `z as u64` for an `i64`.
unfoldable pub as_i64 : ℕ → ℤ
as_i64 n = if ltb n two63 then pos n else negsuc (two64 - 1 - n)

unfoldable pub as_u64 : ℤ → ℕ
as_u64 (pos n) = n
as_u64 (negsuc n) = two64 - 1 - n

pub as_u64-as_i64 : (n : ℕ) → n < two64 → as_u64 (as_i64 n) ≡ n
unfolding as_u64 as_i64
as_u64-as_i64 n h = ground arith

pub as_i64-IsI64 : (n : ℕ) → n < two64 → IsI64 (as_i64 n)
unfolding as_i64
as_i64-IsI64 n h = ground arith

pub as_i64-as_u64 : (z : ℤ) → IsI64 z → as_i64 (as_u64 z) ≡ z
unfolding as_u64 as_i64
as_i64-as_u64 (pos n) h = ground arith
as_i64-as_u64 (negsuc n) h = ground arith

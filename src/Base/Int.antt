-- ===== src/Base/Int.antt =====
-- Signed integers over the native numbers, and the conversions of C++ between `int` and
-- `unsigned int` of 32 bits (two's complement).
use Prim.Native.Nat.{ℕ, ◌-◌, ◌%◌, ◌^◌, ◌<◌}
use mathlib.Core.Path.{◌≡◌}
use mathlib.Core.Bool.{Bool, false}
use native.Mathlib.Omega.{arith}
use wifigateway_server.Base.Tests.{ltb, if◌then◌else◌}

-- `negsuc n` is -(n + 1).
pub data ℤ : Type 0 where
  pos : ℕ → ℤ
  negsuc : ℕ → ℤ

abbrev pub is_zero : ℤ → Bool
is_zero (pos n) = ltb n 1
is_zero (negsuc _) = false

-- `x > 0 ? x - 1 : x`, as the counters that may be -1 are counted down.
abbrev pub count_down : ℤ → ℤ
count_down (pos n) = pos (n - 1)
count_down (negsuc n) = negsuc n

abbrev pub FitsInt32 : ℤ → Type 0
FitsInt32 (pos n) = n < 2 ^ 31
FitsInt32 (negsuc n) = n < 2 ^ 31

-- `(quint32)x` for an int.
abbrev pub to_uint32 : ℤ → ℕ
to_uint32 (pos n) = n % 2 ^ 32
to_uint32 (negsuc n) = 2 ^ 32 - 1 - n % 2 ^ 32

-- `(qint32)x` for an unsigned int.
abbrev pub to_int32 : ℕ → ℤ
to_int32 w = let v = w % 2 ^ 32 in if ltb v (2 ^ 31) then pos v else negsuc (2 ^ 32 - 1 - v)

pub to_int32-to_uint32 : (x : ℤ) → FitsInt32 x → to_int32 (to_uint32 x) ≡ x
to_int32-to_uint32 (pos n) h = ground arith
to_int32-to_uint32 (negsuc n) h = ground arith

pub to_uint32-lt : (x : ℤ) → to_uint32 x < 2 ^ 32
to_uint32-lt (pos n) = omega arith
to_uint32-lt (negsuc n) = omega arith

pub to_int32-FitsInt32 : (w : ℕ) → FitsInt32 (to_int32 w)
to_int32-FitsInt32 w = ground arith

-- ===== src/Base/Words.antt =====
-- Go's fixed-width integers: int64 as two's complement in a uint64.
use redgeo.Base.Tests.{ℕ, ◌-◌, ◌%◌, ◌^◌, ◌<◌, ◌≡◌, arith, ltb, if◌then◌else◌}
use redgeo.Base.Int.{ℤ, pos, negsuc}

abbrev pub u32_mod : ℕ
u32_mod = 2 ^ 32

abbrev pub u64_mod : ℕ
u64_mod = 2 ^ 64

-- uint64(n) and int64(w)
abbrev pub u64 : ℤ → ℕ
u64 (pos n) = n % u64_mod
u64 (negsuc n) = u64_mod - 1 - n % u64_mod

abbrev pub i64 : ℕ → ℤ
i64 w = if ltb w (2 ^ 63) then pos w else negsuc (u64_mod - 1 - w)

abbrev pub InI64 : ℤ → Type 0
InI64 (pos n) = n < 2 ^ 63
InI64 (negsuc n) = n < 2 ^ 63

pub u64-lt : (a : ℤ) → u64 a < 256 ^ 8
u64-lt (pos n) = omega arith
u64-lt (negsuc n) = omega arith

pub i64-u64 : (a : ℤ) → InI64 a → i64 (u64 a) ≡ a
i64-u64 (pos n) h = ground arith
i64-u64 (negsuc n) h = ground arith

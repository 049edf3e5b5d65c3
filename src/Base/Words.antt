-- ===== src/Base/Words.antt =====
-- Machine words: `uint64_t` and `uint32_t` as natural numbers that wrap.
use Prim.Native.Nat.{ℕ, ◌+◌, ◌-◌, ◌%◌, ◌^◌}
use rebench.Base.Tests.{ltb, if◌then◌else◌}
use rebench.Base.Int.{ℤ, pos, negsuc}

abbrev pub u64 : ℕ → ℕ
u64 n = n % 2 ^ 64

abbrev pub u32 : ℕ → ℕ
u32 n = n % 2 ^ 32

-- a - b on `uint64_t`, for operands below 2 ^ 64.
abbrev pub sub64 : ℕ → ℕ → ℕ
sub64 a b = (a + 2 ^ 64 - b) % 2 ^ 64

-- The conversion of a `long` to `unsigned long`.
abbrev pub wrap64 : ℤ → ℕ
wrap64 (pos n) = n % 2 ^ 64
wrap64 (negsuc n) = 2 ^ 64 - 1 - n % 2 ^ 64

-- An `int` given by its 32 bits, as the number that it stands for.
abbrev pub signed32 : ℕ → ℤ
signed32 w = if ltb w (2 ^ 31) then pos w else negsuc (2 ^ 32 - w - 1)

-- The conversion of an `int`, given by its 32 bits, to a 64-bit field.
abbrev pub sign_extend32 : ℕ → ℕ
sign_extend32 w = if ltb w (2 ^ 31) then w else w + (2 ^ 64 - 2 ^ 32)

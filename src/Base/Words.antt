-- ===== src/Base/Words.antt =====
-- Machine words as native numbers, and the bytes that a word is stored in.
use Prim.Native.Nat.{ℕ, ◌%◌}

-- A 32-bit `unsigned int`. An `int` is the pattern of its two's complement.
abbrev pub u32 : ℕ → ℕ
u32 n = n % 4294967296

-- The pattern of the `int` -1.
abbrev pub minus_one_32 : ℕ
minus_one_32 = 4294967295

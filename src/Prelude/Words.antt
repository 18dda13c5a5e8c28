-- ===== src/Prelude/Words.antt =====
-- Machine words as native numbers: Rust's fixed-width casts, wrapping arithmetic and shifts.
use Prim.Native.Nat.{ℕ, ◌+◌, ◌-◌, ◌*◌, ◌%◌, ◌^◌}

-- The casts `as u8`, `as u16`, `as u32`.
abbrev pub u8 : ℕ → ℕ
u8 n = n % 2 ^ 8

abbrev pub u16 : ℕ → ℕ
u16 n = n % 2 ^ 16

abbrev pub u32 : ℕ → ℕ
u32 n = n % 2 ^ 32

-- `u16::wrapping_add` and `u16::wrapping_sub`, on values below 2 ^ 16.
abbrev pub wrapping_add : ℕ → ℕ → ℕ
wrapping_add a b = (a + b) % 2 ^ 16

abbrev pub wrapping_sub : ℕ → ℕ → ℕ
wrapping_sub a b = (a + 2 ^ 16 - b) % 2 ^ 16

-- `x << s` on a `u32`, for `s` below 32.
abbrev pub shl32 : ℕ → ℕ → ℕ
shl32 x s = x * 2 ^ s % 2 ^ 32

-- `1u32 << n` of a release build, which shifts by the low five bits of `n`; a debug build panics
-- where they are not all of it.
abbrev pub bit32 : ℕ → ℕ
bit32 n = 2 ^ (n % 32)

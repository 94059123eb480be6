-- ===== src/Prelude/Words.antt =====
-- Machine words of Go as native numbers: a value of a w-bit type is its bit pattern, a number below
-- 2 ^ w, and a signed one reads its top bit as the sign.
-- It models no code of the repository.
use Prim.Native.Nat.{ℕ, ◌+◌, ◌-◌, ◌*◌, ◌/◌, ◌%◌, ◌^◌}
use mathlib.Core.Bool.{Bool}
use go_mrcp.Prelude.Tests.{ltb, leb, if◌then◌else◌}

abbrev pub u8 : ℕ → ℕ
u8 n = n % 256

abbrev pub u16 : ℕ → ℕ
u16 n = n % 65536

abbrev pub u32 : ℕ → ℕ
u32 n = n % 4294967296

-- The int16 constant -n.
abbrev pub neg : ℕ → ℕ
neg n = 65536 - n

-- Is the int16 below zero?
abbrev pub is_negative : ℕ → Bool
is_negative w = leb 32768 w

-- ^w, -w, a + b, w >> k and w << k on int16.
abbrev pub not16 : ℕ → ℕ
not16 w = 65535 - w

abbrev pub neg16 : ℕ → ℕ
neg16 w = u16 (65536 - w)

abbrev pub add16 : ℕ → ℕ → ℕ
add16 a b = u16 (a + b)

abbrev pub asr16 : ℕ → ℕ → ℕ
asr16 w k = if is_negative w then 65535 - (65535 - w) / 2 ^ k else w / 2 ^ k

abbrev pub shl16 : ℕ → ℕ → ℕ
shl16 w k = u16 (w * 2 ^ k)

-- a > b on int16, by adding 2 ^ 15 to both.
abbrev pub gt16 : ℕ → ℕ → Bool
gt16 a b = ltb (u16 (b + 32768)) (u16 (a + 32768))

-- The distance from zero of the number that an int16 stands for.
abbrev pub abs16 : ℕ → ℕ
abs16 w = if is_negative w then 65536 - w else w

-- The distance between the numbers that two int16 stand for.
abbrev pub dist16 : ℕ → ℕ → ℕ
dist16 a b = let p = u16 (a + 32768) in let q = u16 (b + 32768) in (p - q) + (q - p)

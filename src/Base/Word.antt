-- ===== src/Base/Word.antt =====
-- `uint32_t` is a number below `2 ^ 32`; every operation that can leave the range wraps.
use Prim.Native.Nat.{ℕ, ◌+◌, ◌-◌, ◌*◌, ◌/◌, ◌%◌, ◌^◌}
use mathlib.Core.Bool.{Bool, true, false}
use xremu.Base.Tests.{ltb, if◌then◌else◌}

abbrev pub u8 : ℕ → ℕ
u8 n = n % 2 ^ 8

abbrev pub u32 : ℕ → ℕ
u32 n = n % 2 ^ 32

infixl 75 ◌<<◌ ◌>>◌
-- C's shifts of an unsigned word; the left one drops what leaves the word.
abbrev pub ◌<<◌ : ℕ → ℕ → ℕ
x << k = x * 2 ^ k % 2 ^ 32

abbrev pub ◌>>◌ : ℕ → ℕ → ℕ
x >> k = x / 2 ^ k

-- `a + b`, `a - b`, `a * b` and `~a` on `uint32_t`
abbrev pub add32 : ℕ → ℕ → ℕ
add32 a b = (a + b) % 2 ^ 32

abbrev pub sub32 : ℕ → ℕ → ℕ
sub32 a b = (a + 2 ^ 32 - b) % 2 ^ 32

abbrev pub mul32 : ℕ → ℕ → ℕ
mul32 a b = a * b % 2 ^ 32

abbrev pub not32 : ℕ → ℕ
not32 a = 2 ^ 32 - 1 - a

-- `(int32_t) a >> k`
abbrev pub ash32 : ℕ → ℕ → ℕ
ash32 a k = if ltb a (2 ^ 31) then a / 2 ^ k else not32 (not32 a / 2 ^ k)

-- `(int32_t) a < (int32_t) b`: a word from 2 ^ 31 on stands for a negative number.
abbrev pub lt_signed : ℕ → ℕ → Bool
lt_signed a b =
    if ltb a (2 ^ 31)
    then (if ltb b (2 ^ 31) then ltb a b else false)
    else (if ltb b (2 ^ 31) then true else ltb a b)

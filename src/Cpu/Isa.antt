-- ===== src/Cpu/Isa.antt =====
-- What the register instructions of the XR/17032 are to compute, said of the fields of the word and
-- of the registers that a program sees: register 0 reads as zero, and the second operand is shifted
-- on the way.
pub mod Shift
pub mod Alu
use xremu.Base.{
  ℕ, zero, suc, ◌+◌, ◌-◌, ◌*◌, ◌/◌, ◌%◌, ◌^◌, bit_and, bit_or, bit_xor, Bool, ◌==◌, ltb,
  if◌then◌else◌, Option, none, some, ◌<<◌, ◌>>◌, add32, sub32, not32, ash32, lt_signed,
}
use xremu.Cpu.Execute.{ror32}

-- register `n` as a program reads it
abbrev pub seen : (ℕ → ℕ) → ℕ → ℕ
seen reg n = if n == 0 then 0 else reg n

-- the fields of a register word
abbrev pub rd_of : ℕ → ℕ
rd_of ir = ir / 2 ^ 6 % 32

abbrev pub ra_of : ℕ → ℕ
ra_of ir = ir / 2 ^ 11 % 32

abbrev pub rb_of : ℕ → ℕ
rb_of ir = ir / 2 ^ 16 % 32

abbrev pub amount_of : ℕ → ℕ
amount_of ir = ir / 2 ^ 21 % 32

abbrev pub kind_of : ℕ → ℕ
kind_of ir = ir / 2 ^ 26 % 4

abbrev pub function_of : ℕ → ℕ
function_of ir = ir / 2 ^ 28

-- Left, right, arithmetic right, rotate.
unfoldable pub shifted_by : ℕ → ℕ → ℕ → Option ℕ
shifted_by zero x n = some (x << n)
shifted_by (suc zero) x n = some (x >> n)
shifted_by (suc (suc zero)) x n = some (ash32 x n)
shifted_by (suc (suc (suc k))) x n = ror32 x n

-- A shift by nothing is none.
unfoldable pub operand : ℕ → ℕ → ℕ → Option ℕ
operand kind x n = if n == 0 then some x else shifted_by kind x n

-- The functions 0 to 7 of the group 111001.
unfoldable pub computes : ℕ → ℕ → ℕ → ℕ
computes zero a b = not32 (bit_or a b)
computes (suc zero) a b = bit_or a b
computes (suc (suc zero)) a b = bit_xor a b
computes (suc (suc (suc zero))) a b = bit_and a b
computes (suc (suc (suc (suc zero)))) a b = if lt_signed a b then 1 else 0
computes (suc (suc (suc (suc (suc zero))))) a b = if ltb a b then 1 else 0
computes (suc (suc (suc (suc (suc (suc zero)))))) a b = sub32 a b
computes (suc (suc (suc (suc (suc (suc (suc k))))))) a b = add32 a b

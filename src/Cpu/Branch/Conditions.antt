-- ===== src/Cpu/Branch/Conditions.antt =====
-- The conditions of the eight conditional branches.
use xremu.Base.{
  ℕ, ◌%◌, ◌^◌, ◌≡◌, refl, arith, Bool, not, ◌==◌, ◌!=◌, ◌&&◌, ◌||◌, Option, bit_and, ltb, leb,
}
use xremu.Cpu.Dcache.{Line}
use xremu.Cpu.Translate.Check.{bit_one}
use xremu.Cpu.Decode.{CachedInst}
use xremu.Cpu.Blocks.Fetch.{Front}
use xremu.Cpu.Branch.{
  Leaving, negative, execute_bpo, execute_bpe, execute_bge, execute_ble, execute_bgt, execute_blt,
  execute_bne, execute_beq,
}

-- The conditional branches
pub data Condition : Type 0 where
  is_odd is_even : Condition
  at_least_zero at_most_zero above_zero below_zero : Condition
  is_not_zero is_zero : Condition

abbrev pub branch_on :
    {M : Type 0}
    → (M → ℕ → Option Line × M)
    → Condition
    → Front M
    → ℕ
    → CachedInst
    → Option (Leaving M)
branch_on read_line is_odd = execute_bpo read_line
branch_on read_line is_even = execute_bpe read_line
branch_on read_line at_least_zero = execute_bge read_line
branch_on read_line at_most_zero = execute_ble read_line
branch_on read_line above_zero = execute_bgt read_line
branch_on read_line below_zero = execute_blt read_line
branch_on read_line is_not_zero = execute_bne read_line
branch_on read_line is_zero = execute_beq read_line

-- What they ask of a register, as a number from -2 ^ 31 on.
abbrev pub holds : Condition → ℕ → Bool
holds is_odd n = n % 2 == 1
holds is_even n = n % 2 == 0
holds at_least_zero n = ltb n (2 ^ 31)
holds at_most_zero n = n == 0 || leb (2 ^ 31) n
holds above_zero n = ltb 0 n && ltb n (2 ^ 31)
holds below_zero n = leb (2 ^ 31) n
holds is_not_zero n = ltb 0 n
holds is_zero n = n == 0

-- The same, as the handlers test it.
abbrev pub tests : Condition → ℕ → Bool
tests is_odd n = bit_and n 1 != 0
tests is_even n = bit_and n 1 == 0
tests at_least_zero n = not (negative n)
tests at_most_zero n = negative n || n == 0
tests above_zero n = not (negative n) && n != 0
tests below_zero n = negative n
tests is_not_zero n = n != 0
tests is_zero n = n == 0

pub tests-holds : (k : Condition) (n : ℕ) → tests k n ≡ holds k n
tests-holds is_odd n = ground (arith, bit_one n)
tests-holds is_even n = ground (arith, bit_one n)
tests-holds at_least_zero n = ground arith
tests-holds at_most_zero n = ground arith
tests-holds above_zero n = ground arith
tests-holds below_zero n = refl
tests-holds is_not_zero n = ground arith
tests-holds is_zero n = refl

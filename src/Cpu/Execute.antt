-- ===== src/Cpu/Execute.antt =====
-- The computing instructions of xr17032fast.c. A handler takes the cached instruction; `none` is an
-- operation that C leaves undefined.
pub mod Handlers
use xremu.Base.{
  ℕ, ◌+◌, ◌-◌, ◌*◌, ◌/◌, ◌%◌, ◌^◌, bit_and, bit_or, bit_xor, Bool, true, false, ◌&&◌, ◌==◌, ltb,
  if◌then◌else◌, Option, none, some, update, ◌<<◌, ◌>>◌, add32, sub32, mul32, not32, ash32,
  lt_signed,
}
use xremu.Cpu.State.{Processor, fake_shift_sink}
use xremu.Cpu.Result.{Result, Exit, next, goes_on, leaves}
use xremu.Cpu.Decode.{CachedInst}

abbrev pub Handler : Type 0
Handler = Processor → CachedInst → Option Result

-- `XR_REG_RA()`, `XR_REG_RB()`, and an instruction that stores `value` in `XR_REG_RD()`
abbrev pub ra : Processor → CachedInst → ℕ
ra p i = p.reg i.imm8_2

abbrev pub rb : Processor → CachedInst → ℕ
rb p i = p.reg i.imm32_1

abbrev pub sets_rd : Processor → CachedInst → ℕ → Option Result
sets_rd p i value = some (goes_on (record p { reg = update p.reg i.imm8_1 value }))

abbrev pub flag : Bool → ℕ
flag b = if b then 1 else 0

-- `RoR`: with a count of 0 it shifts by 32.
abbrev pub ror32 : ℕ → ℕ → Option ℕ
ror32 x n = let k = bit_and n 31 in if k == 0 then none else some (bit_or (x >> k) (x << (32 - k)))

-- `(int32_t) a / (int32_t) b`, by magnitudes: the quotient of the least number by -1 is too large.
abbrev pub magnitude : ℕ → ℕ
magnitude a = if ltb a (2 ^ 31) then a else 2 ^ 32 - a

abbrev pub div32_signed : ℕ → ℕ → Option ℕ
div32_signed a b =
    let q = magnitude a / magnitude b in
    if a == 2 ^ 31 && b == 2 ^ 32 - 1
    then none
    else some (
        if ltb a (2 ^ 31)
        then (if ltb b (2 ^ 31) then q else sub32 0 q)
        else (if ltb b (2 ^ 31) then sub32 0 q else q))

abbrev pub or_undefined : Option ℕ → (ℕ → Option Result) → Option Result
or_undefined none k = none
or_undefined (some v) k = k v

unfoldable pub execute_nor : Handler
execute_nor p i = sets_rd p i (not32 (bit_or (ra p i) (rb p i)))

unfoldable pub execute_or : Handler
execute_or p i = sets_rd p i (bit_or (ra p i) (rb p i))

unfoldable pub execute_xor : Handler
execute_xor p i = sets_rd p i (bit_xor (ra p i) (rb p i))

unfoldable pub execute_and : Handler
execute_and p i = sets_rd p i (bit_and (ra p i) (rb p i))

unfoldable pub execute_slt_signed : Handler
execute_slt_signed p i = sets_rd p i (flag (lt_signed (ra p i) (rb p i)))

unfoldable pub execute_slt : Handler
execute_slt p i = sets_rd p i (flag (ltb (ra p i) (rb p i)))

unfoldable pub execute_sub : Handler
execute_sub p i = sets_rd p i (sub32 (ra p i) (rb p i))

unfoldable pub execute_add : Handler
execute_add p i = sets_rd p i (add32 (ra p i) (rb p i))

unfoldable pub execute_lsh : Handler
execute_lsh p i = sets_rd p i (rb p i << bit_and (ra p i) 31)

unfoldable pub execute_rsh : Handler
execute_rsh p i = sets_rd p i (rb p i >> bit_and (ra p i) 31)

unfoldable pub execute_ash : Handler
execute_ash p i = sets_rd p i (ash32 (rb p i) (bit_and (ra p i) 31))

unfoldable pub execute_ror : Handler
execute_ror p i = or_undefined (ror32 (rb p i) (bit_and (ra p i) 31)) (sets_rd p i)

unfoldable pub execute_mod : Handler
execute_mod p i = sets_rd p i (if rb p i == 0 then 0 else ra p i % rb p i)

unfoldable pub execute_div_signed : Handler
execute_div_signed p i =
    if rb p i == 0
    then sets_rd p i 0
    else or_undefined (div32_signed (ra p i) (rb p i)) (sets_rd p i)

unfoldable pub execute_div : Handler
execute_div p i = sets_rd p i (if rb p i == 0 then 0 else ra p i / rb p i)

unfoldable pub execute_mul : Handler
execute_mul p i = sets_rd p i (mul32 (ra p i) (rb p i))

unfoldable pub execute_ori : Handler
execute_ori p i = sets_rd p i (bit_or (ra p i) i.imm32_1)

unfoldable pub execute_xori : Handler
execute_xori p i = sets_rd p i (bit_xor (ra p i) i.imm32_1)

unfoldable pub execute_andi : Handler
execute_andi p i = sets_rd p i (bit_and (ra p i) i.imm32_1)

unfoldable pub execute_slti_signed : Handler
execute_slti_signed p i = sets_rd p i (flag (lt_signed (ra p i) i.imm32_1))

unfoldable pub execute_slti : Handler
execute_slti p i = sets_rd p i (flag (ltb (ra p i) i.imm32_1))

unfoldable pub execute_subi : Handler
execute_subi p i = sets_rd p i (sub32 (ra p i) i.imm32_1)

unfoldable pub execute_addi : Handler
execute_addi p i = sets_rd p i (add32 (ra p i) i.imm32_1)

unfoldable pub execute_adr : Handler
execute_adr p i = sets_rd p i i.imm32_1

-- The virtual shifts leave the program counter alone.
abbrev sinks : Processor → ℕ → Option Result
sinks p value = some (leaves next (record p { reg = update p.reg fake_shift_sink value }))

unfoldable pub execute_virtual_lsh : Handler
execute_virtual_lsh p i = sinks p (p.reg i.imm8_1 << i.imm8_2)

unfoldable pub execute_virtual_rsh : Handler
execute_virtual_rsh p i = sinks p (p.reg i.imm8_1 >> i.imm8_2)

unfoldable pub execute_virtual_ash : Handler
execute_virtual_ash p i = sinks p (ash32 (p.reg i.imm8_1) i.imm8_2)

unfoldable pub execute_virtual_ror : Handler
execute_virtual_ror p i = or_undefined (ror32 (p.reg i.imm8_1) i.imm8_2) (sinks p)

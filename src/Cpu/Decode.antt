-- ===== src/Cpu/Decode.antt =====
-- The decoder of xr17032fast.c: an instruction word becomes one or two cached instructions.
pub mod System
pub mod Reg
pub mod Imm
pub mod Tables
use xremu.Base.{
  ℕ, ◌-◌, ◌*◌, ◌/◌, ◌%◌, ◌^◌, ◌+◌, bit_and, Bool, true, false, not, ◌&&◌, ◌==◌, ◌!=◌, ltb,
  if◌then◌else◌, List, [], ◌∷◌, get_or, ◌<<◌, ◌>>◌, add32, ash32,
}
use xremu.Cpu.State.{fake_zero_register, fake_shift_sink}

-- The handlers that `Func` can point to; `branch`, `jump` and `modulo` are XrExecuteB, XrExecuteJ and
-- XrExecuteMod.
pub data Func : Type 0 where
  illegal_instruction nor or xor and : Func
  slt_signed slt sub add lsh : Func
  rsh ash ror store_long_reg_offset store_int_reg_offset : Func
  store_byte_reg_offset load_long_reg_offset load_int_reg_offset load_byte_reg_offset sys : Func
  brk wmb mb pause sc : Func
  ll modulo div_signed div mul : Func
  rfe hlt mtcr mfcr bpo : Func
  bpe bge ble bgt blt : Func
  bne beq branch ori xori : Func
  andi slti_signed slti subi addi : Func
  store_long_imm_offset_imm store_int_imm_offset_imm store_byte_imm_offset_imm
        store_long_imm_offset_reg store_int_imm_offset_reg :
      Func
  store_byte_imm_offset_reg load_long_imm_offset load_int_imm_offset load_byte_imm_offset jalr :
      Func
  adr jal jump virtual_lsh virtual_rsh : Func
  virtual_ash virtual_ror special_linkage : Func

-- `struct _XrCachedInst`. An operand that the decoder leaves alone is 0 here; no handler reads it.
pub record CachedInst : Type 0 where
  pub func : Func
  pub imm8_1 : ℕ
  pub imm8_2 : ℕ
  pub imm32_1 : ℕ

abbrev pub cached : Func → ℕ → ℕ → ℕ → CachedInst
cached f x y z = record { func = f; imm8_1 = x; imm8_2 = y; imm32_1 = z }

-- The instructions written, and whether the decoder returned 0 to end the block.
pub record Decoded : Type 0 where
  pub insts : List CachedInst
  pub ends : Bool

-- `XrDecodeInstructionF`: the flag is RS_TBMISS, under which the zero register is banked.
abbrev pub Decoder : Type 0
Decoder = (banked : Bool) → (ir : ℕ) → (pc : ℕ) → Decoded

abbrev pub one : CachedInst → Decoded
one i = record { insts = i ∷ []; ends = false }

abbrev pub last : CachedInst → Decoded
last i = record { insts = i ∷ []; ends = true }

-- `(ir >> k) & 31`
unfoldable pub field : ℕ → ℕ → ℕ
field ir k = bit_and (ir >> k) 31

-- `XR_REDIRECT_ZERO_SRC`
abbrev pub redirect : Bool → ℕ → ℕ
redirect banked src = if not banked && src == 0 then fake_zero_register else src

-- `SignExt23` and `SignExt16`
unfoldable pub sign_ext23 : ℕ → ℕ
sign_ext23 n = ash32 (n << 9) 9

unfoldable pub sign_ext16 : ℕ → ℕ
sign_ext16 n = ash32 (n << 16) 16

unfoldable pub branch_target : ℕ → ℕ → ℕ
branch_target pc ir = add32 pc (sign_ext23 ((ir >> 11) << 2))

abbrev pub virtual_shift_instruction_table : List Func
virtual_shift_instruction_table = virtual_lsh ∷ virtual_rsh ∷ virtual_ash ∷ virtual_ror ∷ []

abbrev pub reg_shift_function_table : List Func
reg_shift_function_table = lsh ∷ rsh ∷ ash ∷ ror ∷ []

-- `XR_INSERT_SHIFT` and the instruction behind it: a shift amount that is not zero puts a virtual
-- instruction in front, which leaves the shifted register in the sink.
abbrev pub with_shift : (ℕ → CachedInst) → Bool → ℕ → Decoded
with_shift real banked ir =
    let rb = redirect banked (field ir 16) in
    if field ir 21 != 0
    then record {
      insts =
          cached (get_or virtual_shift_instruction_table (bit_and (ir >> 26) 3) illegal_instruction)
            rb (field ir 21) 0
          ∷ real fake_shift_sink
          ∷ [];
      ends = false;
    }
    else one (real rb)

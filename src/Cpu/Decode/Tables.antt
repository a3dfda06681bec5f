-- ===== src/Cpu/Decode/Tables.antt =====
-- The five tables of the decoder. An index past a table, which no word has, would be illegal.
use xremu.Base.{bit_and, List, [], ◌∷◌, get_or, ◌>>◌}
use xremu.Cpu.Decode.{Decoder}
use xremu.Cpu.Decode.System.{
  decode_illegal_instruction, decode_rfe, decode_hlt, decode_mtcr, decode_mfcr, decode_sys,
  decode_brk, decode_wmb, decode_mb, decode_pause, decode_sc, decode_ll,
}
use xremu.Cpu.Decode.Reg.{
  decode_mod, decode_div_signed, decode_div, decode_mul, decode_nor, decode_or, decode_xor,
  decode_and, decode_slt_signed, decode_slt, decode_sub, decode_add, decode_reg_shifts,
  decode_store_long_reg_offset, decode_store_int_reg_offset, decode_store_byte_reg_offset,
  decode_load_long_reg_offset, decode_load_int_reg_offset, decode_load_byte_reg_offset,
}
use xremu.Cpu.Decode.Imm.{
  decode_lui, decode_bpo, decode_store_long_imm_offset_imm, decode_ori, decode_bpe,
  decode_store_int_imm_offset_imm, decode_xori, decode_bge, decode_store_byte_imm_offset_imm,
  decode_andi, decode_ble, decode_slti_signed, decode_bgt, decode_store_long_imm_offset_reg,
  decode_load_long_imm_offset, decode_slti, decode_blt, decode_store_int_imm_offset_reg,
  decode_load_int_imm_offset, decode_subi, decode_bne, decode_jalr, decode_adr,
  decode_store_byte_imm_offset_reg, decode_load_byte_imm_offset, decode_addi, decode_beq,
  decode_jal, decode_j,
}

abbrev pub decode_functions_101001 : List Decoder
decode_functions_101001 =
    decode_illegal_instruction ∷ decode_illegal_instruction ∷ decode_illegal_instruction
    ∷ decode_illegal_instruction ∷ decode_illegal_instruction ∷ decode_illegal_instruction
    ∷ decode_illegal_instruction ∷ decode_illegal_instruction ∷ decode_illegal_instruction
    ∷ decode_illegal_instruction ∷ decode_illegal_instruction ∷ decode_rfe ∷ decode_hlt
    ∷ decode_illegal_instruction ∷ decode_mtcr ∷ decode_mfcr ∷ []

abbrev pub decode_functions_110001 : List Decoder
decode_functions_110001 =
    decode_sys ∷ decode_brk ∷ decode_wmb ∷ decode_mb ∷ decode_illegal_instruction
    ∷ decode_illegal_instruction ∷ decode_pause ∷ decode_illegal_instruction ∷ decode_sc ∷ decode_ll
    ∷ decode_illegal_instruction ∷ decode_mod ∷ decode_div_signed ∷ decode_div
    ∷ decode_illegal_instruction ∷ decode_mul ∷ []

abbrev pub decode_functions_111001 : List Decoder
decode_functions_111001 =
    decode_nor ∷ decode_or ∷ decode_xor ∷ decode_and ∷ decode_slt_signed ∷ decode_slt ∷ decode_sub
    ∷ decode_add ∷ decode_reg_shifts ∷ decode_store_long_reg_offset ∷ decode_store_int_reg_offset
    ∷ decode_store_byte_reg_offset ∷ decode_illegal_instruction ∷ decode_load_long_reg_offset
    ∷ decode_load_int_reg_offset ∷ decode_load_byte_reg_offset ∷ []

unfoldable pub decode_group_101001 : Decoder
decode_group_101001 banked ir pc =
    get_or decode_functions_101001 (ir >> 28) decode_illegal_instruction banked ir pc

unfoldable pub decode_group_110001 : Decoder
decode_group_110001 banked ir pc =
    get_or decode_functions_110001 (ir >> 28) decode_illegal_instruction banked ir pc

unfoldable pub decode_group_111001 : Decoder
decode_group_111001 banked ir pc =
    get_or decode_functions_111001 (ir >> 28) decode_illegal_instruction banked ir pc

abbrev pub decode_low_six : List Decoder
decode_low_six =
    decode_illegal_instruction ∷ decode_illegal_instruction ∷ decode_illegal_instruction
    ∷ decode_illegal_instruction ∷ decode_lui ∷ decode_bpo ∷ decode_illegal_instruction
    ∷ decode_illegal_instruction ∷ decode_illegal_instruction ∷ decode_illegal_instruction
    ∷ decode_store_long_imm_offset_imm ∷ decode_illegal_instruction ∷ decode_ori ∷ decode_bpe
    ∷ decode_illegal_instruction ∷ decode_illegal_instruction ∷ decode_illegal_instruction
    ∷ decode_illegal_instruction ∷ decode_store_int_imm_offset_imm ∷ decode_illegal_instruction
    ∷ decode_xori ∷ decode_bge ∷ decode_illegal_instruction ∷ decode_illegal_instruction
    ∷ decode_illegal_instruction ∷ decode_illegal_instruction ∷ decode_store_byte_imm_offset_imm
    ∷ decode_illegal_instruction ∷ decode_andi ∷ decode_ble ∷ decode_illegal_instruction
    ∷ decode_illegal_instruction ∷ decode_illegal_instruction ∷ decode_illegal_instruction
    ∷ decode_illegal_instruction ∷ decode_illegal_instruction ∷ decode_slti_signed ∷ decode_bgt
    ∷ decode_illegal_instruction ∷ decode_illegal_instruction ∷ decode_illegal_instruction
    ∷ decode_group_101001 ∷ decode_store_long_imm_offset_reg ∷ decode_load_long_imm_offset
    ∷ decode_slti ∷ decode_blt ∷ decode_illegal_instruction ∷ decode_illegal_instruction
    ∷ decode_adr ∷ decode_group_110001 ∷ decode_store_int_imm_offset_reg
    ∷ decode_load_int_imm_offset ∷ decode_subi ∷ decode_bne ∷ decode_illegal_instruction
    ∷ decode_illegal_instruction ∷ decode_jalr ∷ decode_group_111001
    ∷ decode_store_byte_imm_offset_reg ∷ decode_load_byte_imm_offset ∷ decode_addi ∷ decode_beq
    ∷ decode_illegal_instruction ∷ decode_illegal_instruction ∷ []

unfoldable pub decode_major : Decoder
decode_major banked ir pc =
    get_or decode_low_six (bit_and ir 63) decode_illegal_instruction banked ir pc

abbrev pub decode_low_three : List Decoder
decode_low_three =
    decode_major ∷ decode_major ∷ decode_major ∷ decode_major ∷ decode_major ∷ decode_major
    ∷ decode_j ∷ decode_jal ∷ []

-- The call in the loop of `XrDecodeInstructions`.
unfoldable pub decode : Decoder
decode banked ir pc = get_or decode_low_three (bit_and ir 7) decode_illegal_instruction banked ir pc

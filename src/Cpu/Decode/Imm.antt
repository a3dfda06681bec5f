-- ===== src/Cpu/Decode/Imm.antt =====
-- The instructions with an immediate operand, the branches and the jumps.
use xremu.Base.{bit_and, bit_or, ◌==◌, if◌then◌else◌, ◌<<◌, ◌>>◌, add32}
use xremu.Cpu.State.{fake_zero_register}
use xremu.Cpu.Decode.{
  Decoder, cached, one, last, field, redirect, sign_ext16, branch_target, bpo, bpe, bge, ble, bgt,
  blt, bne, beq, branch, ori, xori, andi, slti_signed, slti, subi, addi, store_long_imm_offset_imm,
  store_int_imm_offset_imm, store_byte_imm_offset_imm, store_long_imm_offset_reg,
  store_int_imm_offset_reg, store_byte_imm_offset_reg, load_long_imm_offset, load_int_imm_offset,
  load_byte_imm_offset, jalr, adr, jal, jump,
}

unfoldable pub decode_lui : Decoder
decode_lui banked ir pc =
    one (cached ori (field ir 6) (redirect banked (field ir 11)) ((ir >> 16) << 16))

unfoldable pub decode_bpo : Decoder
decode_bpo banked ir pc = last (cached bpo (redirect banked (field ir 6)) 0 (branch_target pc ir))

unfoldable pub decode_store_long_imm_offset_imm : Decoder
decode_store_long_imm_offset_imm banked ir pc = one (
    cached store_long_imm_offset_imm (redirect banked (field ir 6)) (field ir 11) ((ir >> 16) << 2))

unfoldable pub decode_ori : Decoder
decode_ori banked ir pc = one (cached ori (field ir 6) (redirect banked (field ir 11)) (ir >> 16))

unfoldable pub decode_bpe : Decoder
decode_bpe banked ir pc = last (cached bpe (redirect banked (field ir 6)) 0 (branch_target pc ir))

unfoldable pub decode_store_int_imm_offset_imm : Decoder
decode_store_int_imm_offset_imm banked ir pc =
    one (
      cached store_int_imm_offset_imm (redirect banked (field ir 6)) (field ir 11)
        ((ir >> 16) << 1))

unfoldable pub decode_xori : Decoder
decode_xori banked ir pc = one (cached xori (field ir 6) (redirect banked (field ir 11)) (ir >> 16))

unfoldable pub decode_bge : Decoder
decode_bge banked ir pc = last (cached bge (redirect banked (field ir 6)) 0 (branch_target pc ir))

unfoldable pub decode_store_byte_imm_offset_imm : Decoder
decode_store_byte_imm_offset_imm banked ir pc =
    one (cached store_byte_imm_offset_imm (redirect banked (field ir 6)) (field ir 11) (ir >> 16))

unfoldable pub decode_andi : Decoder
decode_andi banked ir pc = one (cached andi (field ir 6) (redirect banked (field ir 11)) (ir >> 16))

unfoldable pub decode_ble : Decoder
decode_ble banked ir pc = last (cached ble (redirect banked (field ir 6)) 0 (branch_target pc ir))

unfoldable pub decode_slti_signed : Decoder
decode_slti_signed banked ir pc =
    one (cached slti_signed (field ir 6) (redirect banked (field ir 11)) (sign_ext16 (ir >> 16)))

unfoldable pub decode_bgt : Decoder
decode_bgt banked ir pc = last (cached bgt (redirect banked (field ir 6)) 0 (branch_target pc ir))

unfoldable pub decode_store_long_imm_offset_reg : Decoder
decode_store_long_imm_offset_reg banked ir pc = one (
    cached store_long_imm_offset_reg (redirect banked (field ir 6)) (redirect banked (field ir 11))
      ((ir >> 16) << 2))

unfoldable pub decode_load_long_imm_offset : Decoder
decode_load_long_imm_offset banked ir pc =
    one (cached load_long_imm_offset (field ir 6) (redirect banked (field ir 11)) ((ir >> 16) << 2))

unfoldable pub decode_slti : Decoder
decode_slti banked ir pc = one (cached slti (field ir 6) (redirect banked (field ir 11)) (ir >> 16))

unfoldable pub decode_blt : Decoder
decode_blt banked ir pc = last (cached blt (redirect banked (field ir 6)) 0 (branch_target pc ir))

unfoldable pub decode_store_int_imm_offset_reg : Decoder
decode_store_int_imm_offset_reg banked ir pc = one (
    cached store_int_imm_offset_reg (redirect banked (field ir 6)) (redirect banked (field ir 11))
      ((ir >> 16) << 1))

unfoldable pub decode_load_int_imm_offset : Decoder
decode_load_int_imm_offset banked ir pc =
    one (cached load_int_imm_offset (field ir 6) (redirect banked (field ir 11)) ((ir >> 16) << 1))

unfoldable pub decode_subi : Decoder
decode_subi banked ir pc = one (cached subi (field ir 6) (redirect banked (field ir 11)) (ir >> 16))

unfoldable pub decode_bne : Decoder
decode_bne banked ir pc = last (cached bne (redirect banked (field ir 6)) 0 (branch_target pc ir))

unfoldable pub decode_jalr : Decoder
decode_jalr banked ir pc =
    last (cached jalr (field ir 6) (redirect banked (field ir 11)) ((ir >> 16) << 2))

unfoldable pub decode_adr : Decoder
decode_adr banked ir pc = one (cached adr (field ir 6) 0 (add32 pc (bit_and ir 0xFFFF0000)))

unfoldable pub decode_store_byte_imm_offset_reg : Decoder
decode_store_byte_imm_offset_reg banked ir pc = one (
    cached store_byte_imm_offset_reg (redirect banked (field ir 6)) (redirect banked (field ir 11))
      (ir >> 16))

unfoldable pub decode_load_byte_imm_offset : Decoder
decode_load_byte_imm_offset banked ir pc =
    one (cached load_byte_imm_offset (field ir 6) (redirect banked (field ir 11)) (ir >> 16))

unfoldable pub decode_addi : Decoder
decode_addi banked ir pc = one (cached addi (field ir 6) (redirect banked (field ir 11)) (ir >> 16))

-- A comparison of the zero register with zero is the unconditional branch.
unfoldable pub decode_beq : Decoder
decode_beq banked ir pc =
    let src = redirect banked (field ir 6) in
    last (cached (if src == fake_zero_register then branch else beq) src 0 (branch_target pc ir))

unfoldable pub decode_jal : Decoder
decode_jal banked ir pc = last (cached jal 0 0 (bit_or (bit_and pc 0x80000000) ((ir >> 3) << 2)))

unfoldable pub decode_j : Decoder
decode_j banked ir pc = last (cached jump 0 0 (bit_or (bit_and pc 0x80000000) ((ir >> 3) << 2)))

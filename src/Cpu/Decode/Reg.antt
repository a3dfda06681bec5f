-- ===== src/Cpu/Decode/Reg.antt =====
-- The register instructions of the groups 110001 and 111001.
use xremu.Base.{bit_and, get_or, ◌>>◌}
use xremu.Cpu.Decode.{
  Decoder, cached, one, field, redirect, with_shift, reg_shift_function_table, illegal_instruction,
  nor, or, xor, and, slt_signed, slt, sub, add, store_long_reg_offset, store_int_reg_offset,
  store_byte_reg_offset, load_long_reg_offset, load_int_reg_offset, load_byte_reg_offset, modulo,
  div_signed, div, mul, illegal_instruction,
}

unfoldable pub decode_mod : Decoder
decode_mod banked ir pc =
    with_shift (λ rb. cached modulo (field ir 6) (redirect banked (field ir 11)) rb) banked ir

unfoldable pub decode_div_signed : Decoder
decode_div_signed banked ir pc =
    with_shift (λ rb. cached div_signed (field ir 6) (redirect banked (field ir 11)) rb) banked ir

unfoldable pub decode_div : Decoder
decode_div banked ir pc =
    with_shift (λ rb. cached div (field ir 6) (redirect banked (field ir 11)) rb) banked ir

unfoldable pub decode_mul : Decoder
decode_mul banked ir pc =
    with_shift (λ rb. cached mul (field ir 6) (redirect banked (field ir 11)) rb) banked ir

unfoldable pub decode_nor : Decoder
decode_nor banked ir pc =
    with_shift (λ rb. cached nor (field ir 6) (redirect banked (field ir 11)) rb) banked ir

unfoldable pub decode_or : Decoder
decode_or banked ir pc =
    with_shift (λ rb. cached or (field ir 6) (redirect banked (field ir 11)) rb) banked ir

unfoldable pub decode_xor : Decoder
decode_xor banked ir pc =
    with_shift (λ rb. cached xor (field ir 6) (redirect banked (field ir 11)) rb) banked ir

unfoldable pub decode_and : Decoder
decode_and banked ir pc =
    with_shift (λ rb. cached and (field ir 6) (redirect banked (field ir 11)) rb) banked ir

unfoldable pub decode_slt_signed : Decoder
decode_slt_signed banked ir pc =
    with_shift (λ rb. cached slt_signed (field ir 6) (redirect banked (field ir 11)) rb) banked ir

unfoldable pub decode_slt : Decoder
decode_slt banked ir pc =
    with_shift (λ rb. cached slt (field ir 6) (redirect banked (field ir 11)) rb) banked ir

unfoldable pub decode_sub : Decoder
decode_sub banked ir pc =
    with_shift (λ rb. cached sub (field ir 6) (redirect banked (field ir 11)) rb) banked ir

unfoldable pub decode_add : Decoder
decode_add banked ir pc =
    with_shift (λ rb. cached add (field ir 6) (redirect banked (field ir 11)) rb) banked ir

unfoldable pub decode_reg_shifts : Decoder
decode_reg_shifts banked ir pc = one (
    cached (get_or reg_shift_function_table (bit_and (ir >> 26) 3) illegal_instruction) (field ir 6)
      (redirect banked (field ir 11)) (redirect banked (field ir 16)))

unfoldable pub decode_store_long_reg_offset : Decoder
decode_store_long_reg_offset banked ir pc =
    with_shift
      (λ rb.
        cached store_long_reg_offset (redirect banked (field ir 6)) (redirect banked (field ir 11))
          rb)
      banked ir

unfoldable pub decode_store_int_reg_offset : Decoder
decode_store_int_reg_offset banked ir pc =
    with_shift
      (λ rb.
        cached store_int_reg_offset (redirect banked (field ir 6)) (redirect banked (field ir 11))
          rb)
      banked ir

unfoldable pub decode_store_byte_reg_offset : Decoder
decode_store_byte_reg_offset banked ir pc =
    with_shift
      (λ rb.
        cached store_byte_reg_offset (redirect banked (field ir 6)) (redirect banked (field ir 11))
          rb)
      banked ir

unfoldable pub decode_load_long_reg_offset : Decoder
decode_load_long_reg_offset banked ir pc =
    with_shift (λ rb. cached load_long_reg_offset (field ir 6) (redirect banked (field ir 11)) rb)
      banked ir

unfoldable pub decode_load_int_reg_offset : Decoder
decode_load_int_reg_offset banked ir pc =
    with_shift (λ rb. cached load_int_reg_offset (field ir 6) (redirect banked (field ir 11)) rb)
      banked ir

unfoldable pub decode_load_byte_reg_offset : Decoder
decode_load_byte_reg_offset banked ir pc =
    with_shift (λ rb. cached load_byte_reg_offset (field ir 6) (redirect banked (field ir 11)) rb)
      banked ir

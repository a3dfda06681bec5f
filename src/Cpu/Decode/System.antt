-- ===== src/Cpu/Decode/System.antt =====
-- Instructions with no shifted operand: the privileged group 101001, and the first half of 110001.
use xremu.Cpu.Decode.{
  Decoder, cached, one, last, field, redirect, illegal_instruction, sys, brk, wmb, mb, pause, sc,
  ll, rfe, hlt, mtcr, mfcr,
}

unfoldable pub decode_illegal_instruction : Decoder
decode_illegal_instruction banked ir pc = last (cached illegal_instruction 0 0 0)

unfoldable pub decode_rfe : Decoder
decode_rfe banked ir pc = last (cached rfe 0 0 0)

unfoldable pub decode_hlt : Decoder
decode_hlt banked ir pc = last (cached hlt 0 0 0)

unfoldable pub decode_mtcr : Decoder
decode_mtcr banked ir pc = one (cached mtcr (redirect banked (field ir 11)) (field ir 16) 0)

unfoldable pub decode_mfcr : Decoder
decode_mfcr banked ir pc = one (cached mfcr (field ir 6) (field ir 16) 0)

unfoldable pub decode_sys : Decoder
decode_sys banked ir pc = one (cached sys 0 0 0)

unfoldable pub decode_brk : Decoder
decode_brk banked ir pc = one (cached brk 0 0 0)

unfoldable pub decode_wmb : Decoder
decode_wmb banked ir pc = one (cached wmb 0 0 0)

unfoldable pub decode_mb : Decoder
decode_mb banked ir pc = one (cached mb 0 0 0)

unfoldable pub decode_pause : Decoder
decode_pause banked ir pc = one (cached pause 0 0 0)

unfoldable pub decode_sc : Decoder
decode_sc banked ir pc =
    one (cached sc (field ir 6) (redirect banked (field ir 11)) (redirect banked (field ir 16)))

unfoldable pub decode_ll : Decoder
decode_ll banked ir pc = one (cached ll (field ir 6) (redirect banked (field ir 11)) 0)

-- ===== src/Cpu/Execute/Handlers.antt =====
-- From the handler's name to the handler, for the instructions that touch neither memory nor the
-- block cache, and the run of a straight piece of block.
use xremu.Base.{Option, none, some, List, [], ◌∷◌}
use xremu.Cpu.State.{Processor}
use xremu.Cpu.Result.{next}
use xremu.Cpu.Decode.{
  CachedInst, Func, illegal_instruction, nor, or, xor, and, slt_signed, slt, sub, add, lsh, rsh,
  ash, ror, sys, brk, wmb, mb, pause, modulo, div_signed, div, mul, rfe, hlt, mtcr, mfcr, ori, xori,
  andi, slti_signed, slti, subi, addi, adr, virtual_lsh, virtual_rsh, virtual_ash, virtual_ror,
}
use xremu.Cpu.System
use xremu.Cpu.Execute.{
  Handler, execute_nor, execute_or, execute_xor, execute_and, execute_slt_signed, execute_slt,
  execute_sub, execute_add, execute_lsh, execute_rsh, execute_ash, execute_ror, execute_mod,
  execute_div_signed, execute_div, execute_mul, execute_ori, execute_xori, execute_andi,
  execute_slti_signed, execute_slti, execute_subi, execute_addi, execute_adr, execute_virtual_lsh,
  execute_virtual_rsh, execute_virtual_ash, execute_virtual_ror,
}

-- `inst->Func(proc, block, inst)`; `none` also for the handlers that are not modelled.
unfoldable pub handler : Func → Handler
handler nor = execute_nor
handler or = execute_or
handler xor = execute_xor
handler and = execute_and
handler slt_signed = execute_slt_signed
handler slt = execute_slt
handler sub = execute_sub
handler add = execute_add
handler lsh = execute_lsh
handler rsh = execute_rsh
handler ash = execute_ash
handler ror = execute_ror
handler modulo = execute_mod
handler div_signed = execute_div_signed
handler div = execute_div
handler mul = execute_mul
handler ori = execute_ori
handler xori = execute_xori
handler andi = execute_andi
handler slti_signed = execute_slti_signed
handler slti = execute_slti
handler subi = execute_subi
handler addi = execute_addi
handler adr = execute_adr
handler virtual_lsh = execute_virtual_lsh
handler virtual_rsh = execute_virtual_rsh
handler virtual_ash = execute_virtual_ash
handler virtual_ror = execute_virtual_ror
handler illegal_instruction = λ p i. some (System.execute_illegal_instruction p)
handler sys = λ p i. some (System.execute_sys p)
handler brk = λ p i. some (System.execute_brk p)
handler wmb = λ p i. some (System.execute_wmb p)
handler mb = λ p i. some (System.execute_mb p)
handler pause = λ p i. some (System.execute_pause p)
handler rfe = λ p i. some (System.execute_rfe p)
handler hlt = λ p i. some (System.execute_hlt p)
handler mtcr = λ p i. some (System.execute_mtcr p i.imm8_1 i.imm8_2)
handler mfcr = λ p i. some (System.execute_mfcr p i.imm8_1 i.imm8_2)
handler _ = λ p i. none

-- The cached instructions of one word, one after the other, up to the first that leaves the block.
unfoldable pub run : List CachedInst → Processor → Option Processor
run [] p = some p
run (i ∷ is) p = elim (handler i.func p i) [
  | none ↦ none
  | some r ↦ elim r.exit [ next ↦ run is r.proc | _ ↦ some r.proc ]
]

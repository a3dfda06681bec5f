-- ===== src/Cpu/Isa/Alu.antt =====
-- Decoding and running a register word of the group 111001 is what `Isa` says of its fields.
use xremu.Base.{
  ℕ, zero, suc, ◌/◌, ◌%◌, ◌^◌, ◌<◌, ◌≡◌, ◌≢◌, refl, arith, bit_and, false, some, List, [], ◌∷◌,
  get_or, update, ◌==◌, if◌then◌else◌, ◌∙◌, add32, ap,
}
use native.Mathlib.Decide.{ℕ_discrete}
use xremu.Bits.{bit_and-ones}
use xremu.Cpu.State.{Processor, fake_shift_sink, fake_zero_register}
use xremu.Cpu.Result.{next, leaves}
use xremu.Cpu.Decode.{
  CachedInst, Func, nor, or, xor, and, slt_signed, slt, sub, add, cached, with_shift,
  virtual_shift_instruction_table, illegal_instruction, field, redirect,
}
use xremu.Cpu.Decode.Reg.{
  decode_nor, decode_or, decode_xor, decode_and, decode_slt_signed, decode_slt, decode_sub,
  decode_add,
}
use xremu.Cpu.Decode.Tables.{decode, decode_major, decode_group_111001}
use xremu.Cpu.Execute.{
  execute_nor, execute_or, execute_xor, execute_and, execute_slt_signed, execute_slt, execute_sub,
  execute_add,
}
use xremu.Cpu.Execute.Handlers.{handler, run}
use xremu.Cpu.Isa.{
  seen, rd_of, ra_of, rb_of, amount_of, kind_of, function_of, computes, operand, shifted_by,
}
use xremu.Cpu.Isa.Shift.{field_lem, with_sink, virtual_shift_lem, shifted_by-defined}

alu_func : ℕ → Func
alu_func zero = nor
alu_func (suc zero) = or
alu_func (suc (suc zero)) = xor
alu_func (suc (suc (suc zero))) = and
alu_func (suc (suc (suc (suc zero)))) = slt_signed
alu_func (suc (suc (suc (suc (suc zero))))) = slt
alu_func (suc (suc (suc (suc (suc (suc zero)))))) = sub
alu_func (suc (suc (suc (suc (suc (suc (suc k))))))) = add

abbrev real : ℕ → ℕ → ℕ → CachedInst
real ir k rb = cached (alu_func k) (field ir 6) (redirect false (field ir 11)) rb

module _ (ir pc : ℕ) (group : ir % 64 ≡ 57) where
  low_three : bit_and ir 7 ≡ 1
  low_three = omega (arith, bit_and-ones 3 ir)

  low_six : bit_and ir 63 ≡ 57
  low_six = omega (arith, bit_and-ones 6 ir)

  decode_111001 : decode false ir pc ≡ decode_group_111001 false ir pc
  unfolding decode decode_major
  decode_111001 = rw low_three (rw low_six refl)

  decode-alu :
      (k : ℕ) → function_of ir ≡ k → k < 8 → decode false ir pc ≡ with_shift (real ir k) false ir
  unfolding decode_group_111001 decode_nor decode_or decode_xor decode_and decode_slt_signed
      decode_slt decode_sub decode_add alu_func
  decode-alu zero e h = rw decode_111001 (rw e refl)
  decode-alu (suc zero) e h = rw decode_111001 (rw e refl)
  decode-alu (suc (suc zero)) e h = rw decode_111001 (rw e refl)
  decode-alu (suc (suc (suc zero))) e h = rw decode_111001 (rw e refl)
  decode-alu (suc (suc (suc (suc zero)))) e h = rw decode_111001 (rw e refl)
  decode-alu (suc (suc (suc (suc (suc zero))))) e h = rw decode_111001 (rw e refl)
  decode-alu (suc (suc (suc (suc (suc (suc zero)))))) e h = rw decode_111001 (rw e refl)
  decode-alu (suc (suc (suc (suc (suc (suc (suc zero))))))) e h = rw decode_111001 (rw e refl)
  decode-alu (suc (suc (suc (suc (suc (suc (suc (suc k)))))))) e h = absurd (omega arith)

-- the processor after the real instruction
abbrev computed : ℕ → Processor → CachedInst → Processor
computed k p i = record p {
  reg = update p.reg i.imm8_1 (computes k (p.reg i.imm8_2) (p.reg i.imm32_1));
  pc = add32 p.pc 4;
}

handler-alu :
    (k : ℕ) (p : Processor) (x y z : ℕ)
    → k < 8
    → let i = cached (alu_func k) x y z in
      handler (alu_func k) p i ≡ some (leaves next (computed k p i))
unfolding handler alu_func computes execute_nor execute_or execute_xor execute_and
    execute_slt_signed execute_slt execute_sub execute_add
handler-alu zero p x y z h = refl
handler-alu (suc zero) p x y z h = refl
handler-alu (suc (suc zero)) p x y z h = refl
handler-alu (suc (suc (suc zero))) p x y z h = refl
handler-alu (suc (suc (suc (suc zero)))) p x y z h = refl
handler-alu (suc (suc (suc (suc (suc zero))))) p x y z h = refl
handler-alu (suc (suc (suc (suc (suc (suc zero)))))) p x y z h = refl
handler-alu (suc (suc (suc (suc (suc (suc (suc zero))))))) p x y z h = refl
handler-alu (suc (suc (suc (suc (suc (suc (suc (suc k)))))))) p x y z h = absurd (omega arith)

-- `q` is `p` after the instruction `ir`: the destination holds the result, every other register is
-- as it was, the program counter is at the next word, and nothing else has changed.
pub record IsExecuted (ir : ℕ) (p q : Processor) : Type 0 where
  pub second : ℕ
  pub second_lem : operand (kind_of ir) (seen p.reg (rb_of ir)) (amount_of ir) ≡ some second
  pub registers :
      (j : ℕ)
      → j < 32
      → q.reg j ≡ (
          if j == rd_of ir
          then computes (function_of ir) (seen p.reg (ra_of ir)) second
          else p.reg j)
  pub fake_zero : q.reg fake_zero_register ≡ 0
  pub counter : q.pc ≡ add32 p.pc 4
  pub rest : q ≡ record p { reg = q.reg; pc = q.pc }

seen_lem : (reg : ℕ → ℕ) (n : ℕ) → reg 32 ≡ 0 → reg (redirect false n) ≡ seen reg n
seen_lem reg n e = ground arith

run-cons :
    (i : CachedInst) (is : List CachedInst) (p q : Processor)
    → handler i.func p i ≡ some (leaves next q)
    → run (i ∷ is) p ≡ run is q
unfolding run
run-cons i is p q e = rw (e, run) refl

run-nil : (p : Processor) → run [] p ≡ some p
unfolding run
run-nil p = refl

with_shift-none :
    (r : ℕ → CachedInst) (ir : ℕ)
    → field ir 21 ≡ 0
    → (with_shift r false ir).insts ≡ r (redirect false (field ir 16)) ∷ []
with_shift-none r ir e = rw e refl

abbrev shift_inst : ℕ → CachedInst
shift_inst ir =
    cached (get_or virtual_shift_instruction_table (kind_of ir) illegal_instruction)
      (redirect false (field ir 16)) (field ir 21) 0

with_shift-some :
    (r : ℕ → CachedInst) (ir : ℕ)
    → field ir 21 ≢ 0
    → (with_shift r false ir).insts ≡ shift_inst ir ∷ r fake_shift_sink ∷ []
with_shift-some r ir ne = rw (← bit_and-ones 2 (ir / 2 ^ 26)) (ground arith)

module _ (ir : ℕ) (p : Processor) (zero_reads : p.reg 32 ≡ 0) (small : function_of ir < 8) where
  abbrev k : ℕ
  k = function_of ir

  run_plain :
      field ir 21 ≡ 0
      → run (with_shift (real ir k) false ir).insts p
        ≡ some (computed k p (real ir k (redirect false (field ir 16))))
  run_plain e = rw (with_shift-none (real ir k) ir e) (
      run-cons (real ir k (redirect false (field ir 16))) [] p _ (handler-alu k p _ _ _ small)
      ∙ run-nil _)

  run_shifted :
      field ir 21 ≢ 0
      → (value : ℕ)
      → shifted_by (kind_of ir) (p.reg (redirect false (field ir 16))) (field ir 21) ≡ some value
      → run (with_shift (real ir k) false ir).insts p
        ≡ some (computed k (with_sink p value) (real ir k fake_shift_sink))
  run_shifted ne value e = rw (with_shift-some (real ir k) ir ne) (
      run-cons (shift_inst ir) (real ir k fake_shift_sink ∷ []) p (with_sink p value) shifts
      ∙ (run-cons (real ir k fake_shift_sink) [] (with_sink p value) _
            (handler-alu k (with_sink p value) _ _ _ small)
          ∙ run-nil _))
    where
      shifts :
          handler (shift_inst ir).func p (shift_inst ir) ≡ some (leaves next (with_sink p value))
      shifts =
          virtual_shift_lem (kind_of ir) p (redirect false (field ir 16)) (field ir 21)
            (omega arith)
          ∙ rw e refl

  fields :
      (field ir 6 ≡ rd_of ir)
      × (field ir 11 ≡ ra_of ir)
      × (field ir 16 ≡ rb_of ir)
      × (field ir 21 ≡ amount_of ir)
  fields = (field_lem ir 6, field_lem ir 11, field_lem ir 16, field_lem ir 21)

  -- Both runs leave such a processor.
  computed-IsExecuted :
      (value : ℕ)
      → operand (kind_of ir) (seen p.reg (rb_of ir)) (amount_of ir) ≡ some value
      → (r : ℕ → ℕ) (z : ℕ) → ((j : ℕ) → j < 33 → r j ≡ p.reg j)
      → r z ≡ value
      → IsExecuted ir p (computed k (record p { reg = r }) (real ir k z))
  computed-IsExecuted value e r z keeps reads = record {
    second = value;
    second_lem = e;
    registers = λ j h. ground (arith, fields, keeps j, keeps (ra_of ir), keeps 32, reads);
    fake_zero = ground (arith, fields, keeps 32);
    counter = refl;
    rest = refl;
  }

operand-zero : (kind x n : ℕ) → n ≡ 0 → operand kind x n ≡ some x
unfolding operand
operand-zero kind x n e = rw e refl

operand_of_ne_zero : (kind x n : ℕ) → n ≢ 0 → operand kind x n ≡ shifted_by kind x n
unfolding operand
operand_of_ne_zero kind x n ne = ground arith

-- Decoding a register word of functions 0 to 7 of the group 111001 while no TB miss is handled,
-- with the fake zero register holding 0, and running the cached instructions that come out, always
-- ends with a processor, and that processor is the one the instruction set asks for: the
-- destination holds the function of the first operand and of the shifted second one, register 0
-- reads as zero, and nothing else that a program sees changes but the program counter.
pub decode-IsExecuted :
    (ir pc : ℕ) (p : Processor)
    → ir % 64 ≡ 57
    → function_of ir < 8
    → p.reg fake_zero_register ≡ 0
    → (q : Processor) × (run (decode false ir pc).insts p ≡ some q) × IsExecuted ir p q
decode-IsExecuted ir pc p group small zero_reads = elim (ℕ_discrete (field ir 21) 0) [
  | yes e ↦ (
    computed (function_of ir) p (real ir (function_of ir) src),
    rw dec (run_plain ir p zero_reads small e),
    computed-IsExecuted ir p zero_reads small (seen p.reg (rb_of ir))
        (operand-zero (kind_of ir) _ (amount_of ir) (omega (arith, field_lem ir 21))) p.reg src
        (λ j h. refl) reads,
  )
  | no ne ↦
      let (value, e) =
        shifted_by-defined (kind_of ir) (p.reg src) (field ir 21) (omega (arith, field_lem ir 21))
          ne in
      (
        computed (function_of ir) (with_sink p value) (real ir (function_of ir) fake_shift_sink),
        rw dec (run_shifted ir p zero_reads small ne value e),
        computed-IsExecuted ir p zero_reads small value
            (operand_of_ne_zero (kind_of ir) _ (amount_of ir) (omega (arith, field_lem ir 21, ne))
              ∙ ground (arith, e, reads, field_lem ir 21))
            (with_sink p value).reg fake_shift_sink (λ j h. ground arith) refl,
      )
]
  where
    src : ℕ
    src = redirect false (field ir 16)

    dec : decode false ir pc ≡ with_shift (real ir (function_of ir)) false ir
    dec = decode-alu ir pc group (function_of ir) refl small

    reads : p.reg src ≡ seen p.reg (rb_of ir)
    reads = seen_lem p.reg (field ir 16) zero_reads ∙ ap (seen p.reg) (field_lem ir 16)

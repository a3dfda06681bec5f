-- ===== src/Cpu/Isa/Shift.antt =====
-- The virtual shift that the decoder puts in front of a register instruction.
use xremu.Base.{
  ℕ, zero, suc, ◌-◌, ◌/◌, ◌%◌, ◌^◌, ◌<◌, ◌≡◌, ◌≢◌, refl, arith, bit_and, bit_or, ◌>>◌, ◌<<◌, some,
  get_or, update,
}
use xremu.Bits.{bit_and-ones}
use xremu.Cpu.State.{Processor, fake_shift_sink}
use xremu.Cpu.Result.{next, leaves}
use xremu.Cpu.Decode.{cached, virtual_shift_instruction_table, illegal_instruction, field}
use xremu.Cpu.Execute.{
  or_undefined, execute_virtual_lsh, execute_virtual_rsh, execute_virtual_ash, execute_virtual_ror,
}
use xremu.Cpu.Execute.Handlers.{handler}
use xremu.Cpu.Isa.{shifted_by}

pub field_lem : (ir k : ℕ) → field ir k ≡ ir / 2 ^ k % 32
unfolding field
field_lem ir k = bit_and-ones 5 (ir / 2 ^ k)

-- the processor with `value` in the sink
abbrev pub with_sink : Processor → ℕ → Processor
with_sink p value = record p { reg = update p.reg fake_shift_sink value }

pub virtual_shift_lem :
    (kind : ℕ) (p : Processor) (rb n : ℕ)
    → kind < 4
    → let i = cached (get_or virtual_shift_instruction_table kind illegal_instruction) rb n 0 in
      handler i.func p i
      ≡ or_undefined
          (shifted_by kind (p.reg rb) n)
          (λ value. some (leaves next (with_sink p value)))
unfolding handler shifted_by execute_virtual_lsh execute_virtual_rsh execute_virtual_ash
    execute_virtual_ror
virtual_shift_lem zero p rb n h = refl
virtual_shift_lem (suc zero) p rb n h = refl
virtual_shift_lem (suc (suc zero)) p rb n h = refl
virtual_shift_lem (suc (suc (suc zero))) p rb n h = refl
virtual_shift_lem (suc (suc (suc (suc k)))) p rb n h = absurd (omega arith)

-- The rotation of an inline shift is defined, since its amount is not zero.
pub shifted_by-defined :
    (kind x n : ℕ) → n < 32 → n ≢ 0 → (value : ℕ) × (shifted_by kind x n ≡ some value)
unfolding shifted_by
shifted_by-defined zero x n h ne = (_, refl)
shifted_by-defined (suc zero) x n h ne = (_, refl)
shifted_by-defined (suc (suc zero)) x n h ne = (_, refl)
shifted_by-defined (suc (suc (suc k))) x n h ne =
    (bit_or (x >> bit_and n 31) (x << (32 - bit_and n 31)), ground (arith, bit_and-ones 5 n))

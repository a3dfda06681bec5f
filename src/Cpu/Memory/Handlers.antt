-- ===== src/Cpu/Memory/Handlers.antt =====
-- The loads and stores of src/xr17032fast.c.
use xremu.Base.{
  ℕ, Bool, true, false, not, if◌then◌else◌, update, ◌<<◌, add32, ash32, Option, none, some,
}
use xremu.Cpu.State.{Processor}
use xremu.Cpu.Result.{Exit, next, early_exit}
use xremu.Cpu.Decode.{CachedInst}
use xremu.Cpu.Execute.{ra, rb}
use xremu.Cpu.Caches.{LineBus}
use xremu.Cpu.Memory.{
  IoBus, Machine, with_proc, reading, writing, Access, accessed, refused, failed, xr_access,
}

-- `XR_REG_RD()` as an operand, and SignExt5
abbrev pub rd : Processor → CachedInst → ℕ
rd p i = p.reg i.imm8_1

abbrev pub sign_ext5 : ℕ → ℕ
sign_ext5 n = ash32 (n << 27) 27

-- The machine and how the handler goes on.
abbrev pub Stepped : Type 0 → Type 0
Stepped M = Option (Machine M × Exit)

-- XR_NEXT
abbrev pub advance : {M : Type 0} → Machine M → Machine M × Exit
advance m = (with_proc m (record m.proc { pc = add32 m.proc.pc 4 }), next)

abbrev pub set_reg : {M : Type 0} → Machine M → ℕ → ℕ → Machine M
set_reg m n value = with_proc m (record m.proc { reg = update m.proc.reg n value })

-- A read puts its value into the register, an exception ends the block.
abbrev pub loaded : {M : Type 0} → ℕ → Option (Access M) → Stepped M
loaded n none = none
loaded n (some (accessed v m)) = some (advance (set_reg m n v))
loaded n (some (refused m)) = some (advance m)
loaded n (some (failed m)) = some (m, early_exit)

abbrev pub written : {M : Type 0} → Option (Access M) → Stepped M
written none = none
written (some (accessed v m)) = some (advance m)
written (some (refused m)) = some (advance m)
written (some (failed m)) = some (m, early_exit)

-- `XrExecuteLL` and `XrExecuteSC` after the access
abbrev pub linked : {M : Type 0} → ℕ → Option (Access M) → Stepped M
linked n none = none
linked n (some (accessed v m)) =
    some (advance (with_proc (set_reg m n v) (record (set_reg m n v).proc { locked = true })))
linked n (some (refused m)) = some (advance (with_proc m (record m.proc { locked = true })))
linked n (some (failed m)) = some (m, early_exit)

abbrev pub conditional : {M : Type 0} → ℕ → Option (Access M) → Stepped M
conditional n none = none
conditional n (some (accessed v m)) = some (advance (set_reg m n 1))
conditional n (some (refused m)) = some (advance (set_reg m n 0))
conditional n (some (failed m)) = some (m, early_exit)

module _ {M : Type 0} (bus : LineBus M) (io : IoBus M) (present : ℕ → Bool) where
  abbrev pub MemoryHandler : Type 0
  MemoryHandler = Machine M → CachedInst → Stepped M

  -- XrReadByte, XrReadInt and XrReadLong are loads of 1, 2 and 4 bytes.
  abbrev pub load_from : ℕ → Machine M → CachedInst → ℕ → Stepped M
  load_from length m i address = loaded i.imm8_1 (xr_access bus io present m address reading length)

  abbrev pub store_to : ℕ → Machine M → ℕ → ℕ → Stepped M
  store_to length m address value =
      written (xr_access bus io present m address (writing value false) length)

  unfoldable pub execute_store_long_reg_offset : MemoryHandler
  execute_store_long_reg_offset m i = store_to 4 m (add32 (ra m.proc i) (rb m.proc i)) (rd m.proc i)

  unfoldable pub execute_store_int_reg_offset : MemoryHandler
  execute_store_int_reg_offset m i = store_to 2 m (add32 (ra m.proc i) (rb m.proc i)) (rd m.proc i)

  unfoldable pub execute_store_byte_reg_offset : MemoryHandler
  execute_store_byte_reg_offset m i = store_to 1 m (add32 (ra m.proc i) (rb m.proc i)) (rd m.proc i)

  unfoldable pub execute_load_long_reg_offset : MemoryHandler
  execute_load_long_reg_offset m i = load_from 4 m i (add32 (ra m.proc i) (rb m.proc i))

  unfoldable pub execute_load_int_reg_offset : MemoryHandler
  execute_load_int_reg_offset m i = load_from 2 m i (add32 (ra m.proc i) (rb m.proc i))

  unfoldable pub execute_load_byte_reg_offset : MemoryHandler
  execute_load_byte_reg_offset m i = load_from 1 m i (add32 (ra m.proc i) (rb m.proc i))

  unfoldable pub execute_store_long_imm_offset_imm : MemoryHandler
  execute_store_long_imm_offset_imm m i =
      store_to 4 m (add32 (rd m.proc i) i.imm32_1) (sign_ext5 i.imm8_2)

  unfoldable pub execute_store_int_imm_offset_imm : MemoryHandler
  execute_store_int_imm_offset_imm m i =
      store_to 2 m (add32 (rd m.proc i) i.imm32_1) (sign_ext5 i.imm8_2)

  unfoldable pub execute_store_byte_imm_offset_imm : MemoryHandler
  execute_store_byte_imm_offset_imm m i =
      store_to 1 m (add32 (rd m.proc i) i.imm32_1) (sign_ext5 i.imm8_2)

  unfoldable pub execute_store_long_imm_offset_reg : MemoryHandler
  execute_store_long_imm_offset_reg m i = store_to 4 m (add32 (rd m.proc i) i.imm32_1) (ra m.proc i)

  unfoldable pub execute_store_int_imm_offset_reg : MemoryHandler
  execute_store_int_imm_offset_reg m i = store_to 2 m (add32 (rd m.proc i) i.imm32_1) (ra m.proc i)

  unfoldable pub execute_store_byte_imm_offset_reg : MemoryHandler
  execute_store_byte_imm_offset_reg m i = store_to 1 m (add32 (rd m.proc i) i.imm32_1) (ra m.proc i)

  unfoldable pub execute_load_long_imm_offset : MemoryHandler
  execute_load_long_imm_offset m i = load_from 4 m i (add32 (ra m.proc i) i.imm32_1)

  unfoldable pub execute_load_int_imm_offset : MemoryHandler
  execute_load_int_imm_offset m i = load_from 2 m i (add32 (ra m.proc i) i.imm32_1)

  unfoldable pub execute_load_byte_imm_offset : MemoryHandler
  execute_load_byte_imm_offset m i = load_from 1 m i (add32 (ra m.proc i) i.imm32_1)

  -- Something that has unlocked the processor makes the store fail.
  unfoldable pub execute_sc : MemoryHandler
  execute_sc m i =
      if not m.proc.locked
      then some (advance (set_reg m i.imm8_1 0))
      else conditional i.imm8_1
          (xr_access bus io present m (ra m.proc i) (writing (rb m.proc i) true) 4)

  unfoldable pub execute_ll : MemoryHandler
  execute_ll m i = linked i.imm8_1 (xr_access bus io present m (ra m.proc i) reading 4)

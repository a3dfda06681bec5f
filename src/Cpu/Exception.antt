-- ===== src/Cpu/Exception.antt =====
-- How an exception enters the kernel, and how RFE leaves it.
pub mod Words
use xremu.Base.{
  ℕ, ◌+◌, ◌-◌, ◌*◌, ◌/◌, ◌%◌, ◌^◌, ◌≤◌, ◌<◌, bit_and, bit_or, Bool, true, false, ◌==◌, ◌!=◌,
  if◌then◌else◌, update, ◌<<◌, ◌>>◌, not32,
}
use xremu.Cpu.State.{
  Processor, reset, rs, eb, epc, tbpc, rs_user, rs_mmu, rs_tbmiss, rs_legacy, nmi_mask_cycles,
  poll_max,
}

-- the mode bits, and the `cr[RS]` after each operation on them
abbrev pub pushed : ℕ → ℕ
pushed old = bit_or (bit_and old 0xFF0000FF) (bit_and old 0xFFFF << 8)

abbrev pub with_ecause : ℕ → ℕ → ℕ
with_ecause old exc = bit_or (bit_and old 0x0FFFFFFF) (exc << 28)

-- kernel mode with interrupts off
abbrev pub entry_mode : ℕ → ℕ
entry_mode old =
    if bit_and old rs_legacy != 0
    then bit_and (bit_and old 0xFC) (not32 rs_mmu)
    else bit_and old 0xFC

unfoldable pub push_mode : Processor → Processor
push_mode p = record p { cr = update p.cr rs (pushed (p.cr rs)) }

unfoldable pub set_ecause : Processor → ℕ → Processor
set_ecause p exc = record p { cr = update p.cr rs (with_ecause (p.cr rs) exc) }

-- With no exception block set up the processor is reset.
unfoldable pub vector_exception : Processor → ℕ → Processor
vector_exception p exc = if p.cr eb == 0 then reset p else record p {
  pc = bit_or (p.cr eb) (exc << 8);
  cr = update p.cr rs (bit_or (bit_and (p.cr rs) 0xFFFFFF00) (entry_mode (p.cr rs)));
  nmi_mask_counter = nmi_mask_cycles;
  progress = poll_max;
}

unfoldable pub basic_exception : Processor → ℕ → ℕ → Processor
basic_exception p exc pc =
    vector_exception (set_ecause (push_mode (record p { cr = update p.cr epc pc })) exc) exc

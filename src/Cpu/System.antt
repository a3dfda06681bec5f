-- ===== src/Cpu/System.antt =====
-- The instructions of xr17032fast.c that change the processor's mode or its control registers.
pub mod Control
pub mod Return
pub use Control.{execute_mtcr}
use xremu.Base.{
  ℕ, ◌+◌, ◌*◌, ◌/◌, ◌%◌, ◌^◌, bit_and, bit_or, Bool, true, false, ◌==◌, ◌!=◌, leb, if◌then◌else◌,
  update, ◌>>◌, add32,
}
use xremu.Cpu.State.{Processor, rs, eb, epc, tbpc, rs_user, rs_tbmiss, nmi_mask_cycles}
use xremu.Cpu.Exception.{basic_exception}
use xremu.Cpu.Dcache.{flush_write_buffer}
use xremu.Cpu.Result.{Result, Exit, next, early_exit, trivial_exit, goes_on, leaves, purge_none}

unfoldable pub execute_illegal_instruction : Processor → Result
execute_illegal_instruction p = leaves trivial_exit (basic_exception p 7 p.pc)

unfoldable pub execute_sys : Processor → Result
execute_sys p = leaves trivial_exit (basic_exception p 2 (add32 p.pc 4))

unfoldable pub execute_brk : Processor → Result
execute_brk p = leaves trivial_exit (basic_exception p 6 (add32 p.pc 4))

-- WMB and MB flush the write buffer.
unfoldable pub execute_wmb : Processor → Result
execute_wmb p =
    let (d, written) = flush_write_buffer p.dcache in
    record {
      proc = record p { dcache = d; pc = add32 p.pc 4 };
      exit = next;
      purge = purge_none;
      writes = written;
    }

unfoldable pub execute_mb : Processor → Result
execute_mb p =
    let (d, written) = flush_write_buffer p.dcache in
    record {
      proc = record p { dcache = d; pc = add32 p.pc 4 };
      exit = next;
      purge = purge_none;
      writes = written;
    }

-- XR_PAUSE_MAX is 256.
unfoldable pub execute_pause : Processor → Result
execute_pause p =
    let q : Processor = record p { pause_calls = add32 p.pause_calls 1; pc = add32 p.pc 4 } in
    if leb 256 p.pause_calls then leaves early_exit q else leaves next q

-- the mode stack popped, and the exception code kept
abbrev pub popped : ℕ → ℕ
popped old = bit_or (bit_and old 0xF0000000) (bit_and (old >> 8) 0xFFFF)

unfoldable pub execute_rfe : Processor → Result
execute_rfe p =
    let q : Processor = record p { locked = false } in
    if bit_and (q.cr rs) rs_user != 0
    then leaves early_exit (basic_exception q 8 q.pc)
    else leaves trivial_exit (record q {
      pc = if bit_and (q.cr rs) rs_tbmiss != 0 then q.cr tbpc else q.cr epc;
      cr = update q.cr rs (popped (q.cr rs));
    })

unfoldable pub execute_hlt : Processor → Result
execute_hlt p =
    if bit_and (p.cr rs) rs_user != 0
    then leaves early_exit (basic_exception p 8 p.pc)
    else leaves trivial_exit (record p { halted = true; pc = add32 p.pc 4 })

unfoldable pub execute_mfcr : Processor → ℕ → ℕ → Result
execute_mfcr p rd rb =
    if bit_and (p.cr rs) rs_user != 0
    then leaves early_exit (basic_exception p 8 p.pc)
    else goes_on (record p { nmi_mask_counter = nmi_mask_cycles; reg = update p.reg rd (p.cr rb) })

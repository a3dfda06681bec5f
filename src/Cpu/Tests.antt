-- ===== src/Cpu/Tests.antt =====
-- Runs of the processor's model on concrete words.
use xremu.Base.{
  ℕ, ◌+◌, ◌-◌, if_cases, ◌*◌, ◌/◌, ◌%◌, ◌^◌, ◌<◌, ◌≡◌, refl, arith, true, false, bit_or, ◌<<◌,
  update, ◌==◌, if◌then◌else◌, ◌++◌, some,
}
use xremu.Cpu.State.{
  Processor, rs, eb, epc, wb_depth, cache_index_invalid, itbtag, dtbtag, itbindex, dtbindex,
}
use xremu.Cpu.Exception.{basic_exception}
use xremu.Cpu.Result.{trivial_exit}
use xremu.Cpu.Dcache.{flush_write_buffer}
use xremu.Cpu.Dcache.Flush.{waiting, kept, flush_write_buffer-writes}
use xremu.Cpu.System.{execute_rfe}
use xremu.Cpu.System.Return.{basic_exception-IsEntered, execute_rfe-basic_exception}
use xremu.Cpu.System.Control.{
  cache_control, tb_control, tb_invalid_entry, write_itbctrl, write_dtbctrl, write_itbpte,
  write_dtbpte,
}
use xremu.Cpu.System.Control.TbControl.{tb_control-entry, control-IsMissed, drops_page}
use xremu.Cpu.System.Control.Lines.{cache_control-entry}
use xremu.Cpu.System.Control.Insert.{write_pte-IsFound}
use xremu.Cpu.Translate.{
  hit, missed, mapped, itb_miss, dtb_miss, entry_for, lookup_itb, find_entry, check_entry,
  translate, set_hint, hits,
}
use xremu.Cpu.Translate.Miss.{IsHandled, entry_for-IsHandled}
use xremu.Cpu.Translate.Check.{IsTranslated, translate-IsTranslated}
use xremu.Cpu.Translate.Hint.{translate-IsRepeated}
use xremu.Cpu.Decode.{CachedInst, cached, ror}
use xremu.Cpu.Decode.Tables.{decode}
use xremu.Cpu.Execute.Handlers.{run}
use xremu.Cpu.Isa.Alu.{IsExecuted, decode-IsExecuted}

-- In user mode with the MMU on and an exception block at 0x2000. TB entry 5 maps page 0x10 of address
-- space 1 to frame 0x33, valid and writable.
abbrev machine : Processor
machine = record {
  id = 0;
  pc = 0x10040;
  reg = λ n. if n == 32 then 0 else n * 1000;
  cr = λ n.
      if n == rs
      then 7
      else if n == eb
      then 0x2000
      else if n == itbtag
      then 0x00100010
      else if n == dtbtag
      then 0x00100010
      else if n == itbindex
      then 6
      else if n == dtbindex
      then 31
      else 0;
  itb = λ n. if n == 5 then 0x00100010 * 2 ^ 32 + 0x33 * 32 + 3 else tb_invalid_entry;
  dtb = λ n. if n == 5 then 0x00100010 * 2 ^ 32 + 0x33 * 32 + 3 else tb_invalid_entry;
  itb_last_vpn = 0xFFFFFFFF;
  itb_last_result = 0;
  dtb_last_vpn = 0xFFFFFFFF;
  dtb_last_result = 0;
  ic_tags = λ n. 0;
  ic_flags = λ n. 0;
  dcache = record {
    tags = λ n. 0x5000 + n / 2 * 16;
    flags = λ n. 1;
    lines = λ n. λ o. o;
    index_to_wb_index = λ n. if n == 77 then 1 else 255;
    wb_indices = λ n. if n == 1 then 77 else cache_index_invalid;
    replacement_index = 0;
    wb_write_index = 0;
    wb_fill_index = 0;
    wb_cycles = 0;
  };
  ic_replacement_index = 0;
  pause_calls = 0;
  nmi_mask_counter = 0;
  progress = 0;
  dispatches = 0;
  locked = false;
  last_tb_miss_was_write = false;
  user_break = false;
  halted = false;
  running = true;
}

-- add r3, r1, r2 LSH 4
abbrev add_word : ℕ
add_word = 7 * 2 ^ 28 + 0 * 2 ^ 26 + 4 * 2 ^ 21 + 2 * 2 ^ 16 + 1 * 2 ^ 11 + 3 * 2 ^ 6 + 57

decode-IsExecuted_example :
    (q : Processor) × (run (decode false add_word 0x10040).insts machine ≡ some q)
    × IsExecuted add_word machine q
decode-IsExecuted_example =
    decode-IsExecuted add_word 0x10040 machine (omega arith) (omega arith) refl

basic_exception-IsEntered_example :
    ((basic_exception machine 2 0x10044).pc ≡ bit_or 0x2000 (2 << 8))
    × ((basic_exception machine 2 0x10044).cr epc ≡ 0x10044)
    × ((basic_exception machine 2 0x10044).cr rs % 4 ≡ 0)
    × ((basic_exception machine 2 0x10044).cr rs / 2 ^ 28 ≡ 2)
basic_exception-IsEntered_example =
    basic_exception-IsEntered machine 2 0x10044 (omega arith) (omega arith) (omega arith)

execute_rfe-basic_exception_example :
    ((execute_rfe (basic_exception machine 2 0x10044)).proc.pc ≡ 0x10044)
    × ((execute_rfe (basic_exception machine 2 0x10044)).proc.cr rs ≡ 2 * 2 ^ 28 + 7)
    × ((execute_rfe (basic_exception machine 2 0x10044)).exit ≡ trivial_exit)
execute_rfe-basic_exception_example =
    execute_rfe-basic_exception machine 2 0x10044 (omega arith) (omega arith) (omega arith)
      (omega arith)

-- page 0x11 is not in the TB
misses : entry_for machine 0x11000 false true ≡ missed (itb_miss machine 0x11000)
unfolding entry_for lookup_itb find_entry
misses = refl

entry_for-IsHandled_example : IsHandled machine 14 0x11000 (itb_miss machine 0x11000)
entry_for-IsHandled_example =
    entry_for-IsHandled machine 0x11000 false true (itb_miss machine 0x11000) (omega arith)
      (omega arith) (omega arith) misses

translate-IsTranslated_example :
    IsTranslated machine 0x10123 true false (translate machine 0x10123 true false)
translate-IsTranslated_example = translate-IsTranslated machine 0x10123 true false

-- after the lookup of page 0x10
abbrev hinted : Processor
hinted = set_hint machine 0x10 (0x00100010 * 2 ^ 32 + 0x33 * 32 + 3) true

maps : translate machine 0x10123 false true ≡ mapped hinted 0x33123 3
unfolding translate entry_for check_entry lookup_itb find_entry
maps = refl

translate-IsRepeated_example : translate hinted 0x10123 false true ≡ mapped hinted 0x33123 3
translate-IsRepeated_example = translate-IsRepeated machine hinted 0x10123 0x33123 3 false true maps

-- the page 0x10 dropped
tb_control-entry_example : tb_control 0x10000 machine.itb 5 ≡ tb_invalid_entry
tb_control-entry_example = tb_control-entry 0x10000 machine.itb 5 (omega arith)

control-IsMissed_example :
    (entry_for (write_itbctrl machine 0x10000).proc 0x10123 true true
      ≡ missed (itb_miss (write_itbctrl machine 0x10000).proc 0x10123))
    × (entry_for (write_dtbctrl machine 0x10000).proc 0x10123 true false
        ≡ missed (dtb_miss (write_dtbctrl machine 0x10000).proc 0x10123 true))
control-IsMissed_example =
    control-IsMissed machine 0x10000 0x10123 true (omega arith) (omega arith) (omega arith)
      (drops_page refl refl)

-- lines of page 5, from 512 on
abbrev page_tags : ℕ → ℕ
page_tags n = 0x5000 + (n / 2 - 256) * 16

-- page 5 has the lines from 512 on
cache_control-entry_example : cache_control machine.dcache.tags 0x5002 machine.dcache.flags 600 ≡ 1
cache_control-entry_example =
    cache_control-entry machine.dcache.tags machine.dcache.flags 0x5002 600 (omega arith)
      (omega arith) (omega arith)

-- with the tag of page 0x11, which no entry has
abbrev tagged : Processor
tagged = record machine { cr = update (update machine.cr itbtag 0x00100011) dtbtag 0x00100011 }

none_before : (j : ℕ) → hits (tagged.itb j) 0x00100011 ≡ false
none_before j =
    if_cases (λ (e : ℕ). hits e 0x00100011 ≡ false) (j == 5)
      {x = 0x00100010 * 2 ^ 32 + 0x33 * 32 + 3} {y = tb_invalid_entry} (λ _. refl) (λ _. refl)

write_pte-IsFound_example :
    (entry_for (write_itbpte tagged 0x663).proc 0x11004 false true
      ≡ hit (0x00100011 * 2 ^ 32 + 0x663))
    × (entry_for (write_dtbpte tagged 0x663).proc 0x11004 false false
        ≡ hit (0x00100011 * 2 ^ 32 + 0x663))
write_pte-IsFound_example =
    write_pte-IsFound tagged 0x663 0x11004 false (omega arith) (omega arith, omega arith)
      (omega arith, omega arith) (omega arith, omega arith) (omega arith, omega arith)
      (λ j h. none_before j) (λ j h. none_before j)

flush_write_buffer-writes_example :
    ((flush_write_buffer machine.dcache).1
      ≡ ((waiting machine.dcache 0 ++ waiting machine.dcache 1) ++ waiting machine.dcache 2)
        ++ waiting machine.dcache 3)
    × ((i : ℕ)
        → i < wb_depth
        → (flush_write_buffer machine.dcache).0.wb_indices i ≡ cache_index_invalid)
    × (kept (flush_write_buffer machine.dcache).0 ≡ kept machine.dcache)
flush_write_buffer-writes_example = flush_write_buffer-writes machine.dcache

-- registers 32 and 5, the first of which holds 0
abbrev operands : CachedInst
operands = cached ror 3 32 5

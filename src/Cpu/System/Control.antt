-- ===== src/Cpu/System/Control.antt =====
-- `XrExecuteMtcr`: a case of its `switch` to a definition. `value` is `Reg[ra]`.
pub mod TbControl
pub mod Lines
pub mod Insert
use xremu.Base.{
  ℕ, ◌+◌, ◌-◌, ◌*◌, ◌^◌, bit_and, bit_or, ◌==◌, ◌!=◌, if◌then◌else◌, update, ◌>>◌, ◌<<◌, add32, [],
  zero, suc, not32,
}
use xremu.Cpu.State.{
  Processor, for_range, rs, rs_user, nmi_mask_cycles, itbpte, itbtag, itbindex, itbctrl, icachectrl,
  dtbpte, dtbtag, dtbindex, dtbctrl, dcachectrl, tb_size, line_count, line_invalid, no_vpn,
}
use xremu.Cpu.Exception.{basic_exception}
use xremu.Cpu.Dcache.{flush_write_buffer}
use xremu.Cpu.Result.{Result, next, early_exit, goes_on, leaves, purge_none, purge_all, purge_page}

abbrev pub tb_invalid_entry : ℕ
tb_invalid_entry = 0xFFF0000000000000

-- `for (int i = low; i < high; i++)` with `left` rounds to go: a line of the page is dropped.
unfoldable pub drop_lines : (ℕ → ℕ) → ℕ → ℕ → ℕ → (ℕ → ℕ) → ℕ → ℕ
drop_lines tags phys zero i flags = flags
drop_lines tags phys (suc left) i flags =
    drop_lines tags phys left (i + 1)
      (if bit_and (tags i) 0xFFFFF000 == phys then update flags i line_invalid else flags)

-- `lowindex`, and at the next page frame `highindex`
abbrev pub page_index : ℕ → ℕ
page_index phys = bit_and (phys >> 4) 1023 << 1

-- The flags of an L1 cache after a write of `value` to its control register.
unfoldable pub cache_control : (ℕ → ℕ) → ℕ → (ℕ → ℕ) → ℕ → ℕ
cache_control tags value flags =
    let phys = bit_and value 0xFFFFF000 in
    let low = page_index phys in
    let high = page_index (add32 phys 4096) in
    if bit_and value 3 == 3
    then for_range (λ _. line_invalid) line_count 0 flags
    else if bit_and value 3 == 2
    then drop_lines tags phys (high - low) low flags
    else flags

-- one entry under a loop of the TB control registers
unfoldable pub drop_not_global : ℕ → ℕ
drop_not_global entry = if bit_and entry 16 == 0 then tb_invalid_entry else entry

unfoldable pub drop_vpn : ℕ → ℕ → ℕ
drop_vpn vpn entry = if bit_and entry 0x000FFFFF00000000 == vpn then tb_invalid_entry else entry

-- The entries of a TB after a write of `value` to its control register.
unfoldable pub tb_control : ℕ → (ℕ → ℕ) → ℕ → ℕ
tb_control value tb =
    if bit_and value 3 == 3
    then for_range (λ _. tb_invalid_entry) tb_size 0 tb
    else if bit_and value 3 == 2
    then for_range drop_not_global (tb_size - 4) 4 tb
    else if bit_and value 3 == 1
    then for_range (λ _. tb_invalid_entry) (tb_size - 4) 4 tb
    else for_range (drop_vpn ((value >> 12) * 2 ^ 32)) tb_size 0 tb

-- The lookup hint after that write.
unfoldable pub hint_control : ℕ → ℕ → ℕ
hint_control value last =
    if bit_and value 3 == 0 then (if last == value >> 12 then no_vpn else last) else no_vpn

-- `(uint64_t)(tag) << 32 | pte`
abbrev pub tb_entry : ℕ → ℕ → ℕ
tb_entry tag pte = bit_or (tag * 2 ^ 32) pte

-- The index after an entry was written at it.
unfoldable pub next_index : ℕ → ℕ
next_index i = if add32 i 1 == tb_size then 4 else add32 i 1

unfoldable pub write_icachectrl : Processor → ℕ → Result
write_icachectrl p value = record {
  proc = record p { ic_flags = cache_control p.ic_tags value p.ic_flags; pc = add32 p.pc 4 };
  exit = early_exit;
  purge = purge_all;
  writes = [];
}

unfoldable pub write_dcachectrl : Processor → ℕ → Result
write_dcachectrl p value =
    let (d, written) = flush_write_buffer p.dcache in
    record {
      proc = record p {
        dcache = record d { flags = cache_control d.tags value d.flags };
        pc = add32 p.pc 4;
      };
      exit = next;
      purge = purge_none;
      writes = written;
    }

unfoldable pub write_itbctrl : Processor → ℕ → Result
write_itbctrl p value = record {
  proc = record p {
    itb = tb_control value p.itb;
    itb_last_vpn = hint_control value p.itb_last_vpn;
    pc = add32 p.pc 4;
  };
  exit = early_exit;
  purge = if bit_and value 3 == 0 then purge_page (bit_and value (not32 0xFFF)) else purge_all;
  writes = [];
}

unfoldable pub write_dtbctrl : Processor → ℕ → Result
write_dtbctrl p value =
    goes_on
      (record p { dtb = tb_control value p.dtb; dtb_last_vpn = hint_control value p.dtb_last_vpn })

unfoldable pub write_itbpte : Processor → ℕ → Result
write_itbpte p value = goes_on (record p {
  itb = update p.itb (p.cr itbindex) (tb_entry (p.cr itbtag) value);
  cr = update p.cr itbindex (next_index (p.cr itbindex));
})

unfoldable pub write_dtbpte : Processor → ℕ → Result
write_dtbpte p value = goes_on (record p {
  dtb = update p.dtb (p.cr dtbindex) (tb_entry (p.cr dtbtag) value);
  cr = update p.cr dtbindex (next_index (p.cr dtbindex));
})

-- The `switch` on the control register `rb`.
unfoldable pub write_control : Processor → ℕ → ℕ → Result
write_control p rb value =
    if rb == icachectrl
    then write_icachectrl p value
    else if rb == dcachectrl
    then write_dcachectrl p value
    else if rb == itbctrl
    then write_itbctrl p value
    else if rb == dtbctrl
    then write_dtbctrl p value
    else if rb == itbpte
    then write_itbpte p value
    else if rb == dtbpte
    then write_dtbpte p value
    else if rb == itbindex
    then goes_on (record p { cr = update p.cr itbindex (bit_and value (tb_size - 1)) })
    else if rb == dtbindex
    then goes_on (record p { cr = update p.cr dtbindex (bit_and value (tb_size - 1)) })
    else if rb == dtbtag
    then goes_on (record p { cr = update p.cr dtbtag value; dtb_last_vpn = no_vpn })
    else if rb == itbtag
    then goes_on (record p { cr = update p.cr itbtag value; itb_last_vpn = no_vpn })
    else goes_on (record p { cr = update p.cr rb value })

unfoldable pub execute_mtcr : Processor → ℕ → ℕ → Result
execute_mtcr p ra rb =
    if bit_and (p.cr rs) rs_user != 0
    then leaves early_exit (basic_exception p 8 p.pc)
    else write_control (record p { nmi_mask_counter = nmi_mask_cycles }) rb (p.reg ra)

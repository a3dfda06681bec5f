-- ===== src/Cpu/Translate.antt =====
-- src/xraccess.inc.c: the TB lookups and `XrTranslate`. On failure the processor has taken the
-- exception; on success it differs in its lookup hint only.
pub mod Miss
pub mod Hint
pub mod Check
use xremu.Base.{
  ℕ, zero, suc, ◌+◌, ◌*◌, ◌/◌, ◌%◌, ◌^◌, bit_and, bit_or, Bool, false, ◌==◌, ◌!=◌, ◌&&◌,
  if◌then◌else◌, update, ◌>>◌, ◌<<◌, add32, Option, none, some, not32,
}
use xremu.Cpu.State.{
  Processor, rs, rs_user, rs_tbmiss, itbtag, itbaddr, dtbtag, dtbaddr, tbmissaddr, tbpc, epc,
  ebadaddr, tb_size,
}
use xremu.Cpu.Exception.{basic_exception, push_mode, set_ecause, vector_exception}

-- `matching`
abbrev pub matching : ℕ → ℕ → ℕ
matching tag vpn = bit_or (bit_and tag 0xFFF00000) vpn

-- An entry that is marked global is compared without its address-space number.
abbrev pub hits : ℕ → ℕ → Bool
hits entry match =
    let mask = if bit_and entry 16 != 0 then 0xFFFFF else 0xFFFFFFFF in
    bit_and (entry / 2 ^ 32) mask == bit_and match mask

-- The loop over the TB, from index `i` with `left` entries to go.
unfoldable pub find_entry : (ℕ → ℕ) → ℕ → ℕ → ℕ → Option ℕ
find_entry tb match zero i = none
find_entry tb match (suc left) i =
    let rest = find_entry tb match left (i + 1) in if hits (tb i) match then some (tb i) else rest

-- the part of both misses that saves the state, unless a miss is being handled already
unfoldable pub save_miss : Processor → ℕ → Processor
save_miss p virtual =
    if bit_and (p.cr rs) rs_tbmiss == 0
    then (let q = push_mode p in
        record q {
          cr =
              update (update (update q.cr tbmissaddr virtual) tbpc q.pc) rs
                (bit_or (q.cr rs) rs_tbmiss);
        })
    else p

unfoldable pub itb_miss : Processor → ℕ → Processor
itb_miss p virtual =
    vector_exception
      (save_miss
        (record p {
          cr =
              update (update p.cr itbtag (matching (p.cr itbtag) (virtual >> 12))) itbaddr
                (bit_or (bit_and (p.cr itbaddr) 0xFFC00000) ((virtual >> 12) << 2));
          last_tb_miss_was_write = false;
        })
        virtual)
      14

unfoldable pub dtb_miss : Processor → ℕ → Bool → Processor
dtb_miss p virtual writing =
    vector_exception
      (save_miss
        (record p {
          cr =
              update (update p.cr dtbtag (matching (p.cr dtbtag) (virtual >> 12))) dtbaddr
                (bit_or (bit_and (p.cr dtbaddr) 0xFFC00000) ((virtual >> 12) << 2));
          last_tb_miss_was_write = writing;
        })
        virtual)
      15

-- An entry, or the processor after the miss.
pub data Lookup : Type 0 where
  hit : ℕ → Lookup
  missed : Processor → Lookup

abbrev pub found : Option ℕ → Processor → Lookup
found (some entry) q = hit entry
found none q = missed q

unfoldable pub lookup_itb : Processor → ℕ → Lookup
lookup_itb p virtual =
    found (find_entry p.itb (matching (p.cr itbtag) (virtual >> 12)) tb_size 0) (itb_miss p virtual)

unfoldable pub lookup_dtb : Processor → ℕ → Bool → Lookup
lookup_dtb p virtual writing =
    found (find_entry p.dtb (matching (p.cr dtbtag) (virtual >> 12)) tb_size 0)
      (dtb_miss p virtual writing)

-- The entry that `XrTranslate` works with: the hint's, if it is for the page.
unfoldable pub entry_for : Processor → ℕ → Bool → Bool → Lookup
entry_for p virtual writing ifetch =
    if ifetch
    then (if p.itb_last_vpn == virtual >> 12 then hit p.itb_last_result else lookup_itb p virtual)
    else (if p.dtb_last_vpn == virtual >> 12
        then hit p.dtb_last_result
        else lookup_dtb p virtual writing)

-- XR_EXC_PGW and XR_EXC_PGF
abbrev pub fault_code : Bool → ℕ
fault_code writing = if writing then 13 else 12

-- The fault on an entry that is not valid. During the handling of a TB miss it is a fault on a page
-- table, and is reported as one at the address and the instruction of the miss.
unfoldable pub invalid_fault : Processor → ℕ → Bool → Processor
invalid_fault p virtual writing =
    if bit_and (p.cr rs) rs_tbmiss != 0
    then (let q : Processor = record p {
      cr =
          update (update (update p.cr ebadaddr (p.cr tbmissaddr)) epc (p.cr tbpc)) rs
            (bit_and (p.cr rs) (not32 rs_tbmiss));
    } in
        vector_exception (set_ecause q (fault_code p.last_tb_miss_was_write))
          (fault_code p.last_tb_miss_was_write))
    else vector_exception
        (set_ecause (push_mode (record p { cr = update (update p.cr ebadaddr virtual) epc p.pc }))
          (fault_code writing))
        (fault_code writing)

unfoldable pub protection_fault : Processor → ℕ → Bool → Processor
protection_fault p virtual writing =
    basic_exception (record p { cr = update p.cr ebadaddr virtual }) (fault_code writing) p.pc

-- The physical address and the flags, or the processor after the exception.
pub data Translation : Type 0 where
  mapped : Processor → (phys flags : ℕ) → Translation
  faulted : Processor → Translation

-- The data hint is a `uint32_t`, so it keeps the low half of the entry.
abbrev pub set_hint : Processor → ℕ → ℕ → Bool → Processor
set_hint p vpn entry ifetch =
    if ifetch
    then record p { itb_last_vpn = vpn; itb_last_result = entry }
    else record p { dtb_last_vpn = vpn; dtb_last_result = entry % 2 ^ 32 }

-- `XrTranslate` from the entry on.
unfoldable pub check_entry : Processor → ℕ → ℕ → Bool → Bool → Translation
check_entry p entry virtual writing ifetch =
    if bit_and entry 1 == 0
    then faulted (invalid_fault p virtual writing)
    else if bit_and entry 4 != 0 && bit_and (p.cr rs) rs_user != 0
    then faulted (protection_fault p virtual writing)
    else if writing && bit_and entry 2 == 0
    then faulted (protection_fault p virtual writing)
    else mapped (set_hint p (virtual >> 12) entry ifetch)
        (add32 (bit_and entry 0x1FFFFE0 * 2 ^ 7) (bit_and virtual 0xFFF)) (bit_and entry 31)

unfoldable pub translate : Processor → ℕ → Bool → Bool → Translation
translate p virtual writing ifetch = elim (entry_for p virtual writing ifetch) [
  | hit entry ↦ check_entry p entry virtual writing ifetch
  | missed q ↦ faulted q
]

-- ===== src/Cpu/State.antt =====
-- `struct _XrProcessor`, the parts that the modelled functions read or write, and `XrReset`. Flags of
-- type `uint8_t` are Booleans. The basic-block cache is left out; what is done to it is a value of
-- `Purge` in the result of an instruction.
pub mod Loops
pub use xremu.Cpu.Dcache.{
  Dcache, line_count, wb_depth, wb_index_invalid, cache_index_invalid, line_invalid, line_shared,
  line_exclusive,
}
use xremu.Base.{ℕ, zero, suc, ◌+◌, ◌*◌, ◌^◌, Bool, true, false, update}

-- constants of xr17032fast.c and xr.h
abbrev pub rs : ℕ
rs = 0

abbrev pub whami : ℕ
whami = 1

abbrev pub eb : ℕ
eb = 5

abbrev pub epc : ℕ
epc = 6

abbrev pub ebadaddr : ℕ
ebadaddr = 7

abbrev pub tbmissaddr : ℕ
tbmissaddr = 9

abbrev pub tbpc : ℕ
tbpc = 10

abbrev pub itbpte : ℕ
itbpte = 16

abbrev pub itbtag : ℕ
itbtag = 17

abbrev pub itbindex : ℕ
itbindex = 18

abbrev pub itbctrl : ℕ
itbctrl = 19

abbrev pub icachectrl : ℕ
icachectrl = 20

abbrev pub itbaddr : ℕ
itbaddr = 21

abbrev pub dtbpte : ℕ
dtbpte = 24

abbrev pub dtbtag : ℕ
dtbtag = 25

abbrev pub dtbindex : ℕ
dtbindex = 26

abbrev pub dtbctrl : ℕ
dtbctrl = 27

abbrev pub dcachectrl : ℕ
dcachectrl = 28

abbrev pub dtbaddr : ℕ
dtbaddr = 29

abbrev pub rs_user : ℕ
rs_user = 1

abbrev pub rs_int : ℕ
rs_int = 2

abbrev pub rs_mmu : ℕ
rs_mmu = 4

abbrev pub rs_tbmiss : ℕ
rs_tbmiss = 8

abbrev pub rs_legacy : ℕ
rs_legacy = 128

abbrev pub nmi_mask_cycles : ℕ
nmi_mask_cycles = 64

abbrev pub poll_max : ℕ
poll_max = 32

abbrev pub fake_zero_register : ℕ
fake_zero_register = 32

abbrev pub fake_shift_sink : ℕ
fake_shift_sink = 33

-- XR_REG_MAX
abbrev pub reg_max : ℕ
reg_max = 34

abbrev pub tb_size : ℕ
tb_size = 32

-- `-1` as a `uint32_t`
abbrev pub no_vpn : ℕ
no_vpn = 0xFFFFFFFF

pub record Processor : Type 0 where
  pub id : ℕ
  pub pc : ℕ
  pub reg : ℕ → ℕ
  pub cr : ℕ → ℕ
  pub itb : ℕ → ℕ
  pub dtb : ℕ → ℕ
  pub itb_last_vpn : ℕ
  pub itb_last_result : ℕ
  pub dtb_last_vpn : ℕ
  pub dtb_last_result : ℕ
  pub ic_tags : ℕ → ℕ
  pub ic_flags : ℕ → ℕ
  pub ic_replacement_index : ℕ
  pub dcache : Dcache
  pub pause_calls : ℕ
  pub nmi_mask_counter : ℕ
  pub progress : ℕ
  pub dispatches : ℕ
  pub locked : Bool
  pub last_tb_miss_was_write : Bool
  pub user_break : Bool
  pub halted : Bool
  pub running : Bool

-- `for (int k = i; k < i + n; k++) a[k] = f(a[k]);`
unfoldable pub for_range : (ℕ → ℕ) → ℕ → ℕ → (ℕ → ℕ) → ℕ → ℕ
for_range f zero i a = a
for_range f (suc n) i a = for_range f n (i + 1) (update a i (f (a i)))

-- The registers that `XrReset` gives a value.
abbrev reset_cr : ℕ → (ℕ → ℕ) → ℕ → ℕ
reset_cr id cr =
    update
      (update (update (update (update cr rs 0) eb 0) icachectrl (11 * 2 ^ 16 + 1 * 2 ^ 8 + 4))
        dcachectrl (11 * 2 ^ 16 + 1 * 2 ^ 8 + 4))
      whami id

-- `XrReset`
unfoldable pub reset : Processor → Processor
reset p = record p {
  pc = 0xFFFE1000;
  cr = reset_cr p.id p.cr;
  reg = update p.reg fake_zero_register 0;
  itb_last_vpn = no_vpn;
  dtb_last_vpn = no_vpn;
  ic_replacement_index = 0;
  dcache = record p.dcache {
    replacement_index = 0;
    wb_write_index = 0;
    wb_cycles = 0;
    wb_fill_index = 0;
    wb_indices = for_range (λ _. cache_index_invalid) wb_depth 0 p.dcache.wb_indices;
    index_to_wb_index = for_range (λ _. wb_index_invalid) line_count 0 p.dcache.index_to_wb_index;
  };
  pause_calls = 0;
  nmi_mask_counter = nmi_mask_cycles;
  last_tb_miss_was_write = false;
  user_break = false;
  halted = false;
  running = true;
  dispatches = 0;
}

-- ===== src/Cpu/Blocks/Consistent/Kept.antt =====
-- What a fetch keeps of the processor, and of the blocks.
use xremu.Base.{ℕ, ◌-◌, ◌%◌, ◌≡◌, ◌≢◌, ◌∙◌, refl, true, false, Option, none, some, update, bit_and}
use xremu.Cpu.State.{Processor, rs, rs_user, rs_mmu, ebadaddr}
use xremu.Cpu.Exception.{basic_exception}
use xremu.Cpu.Translate.{faulted, translate}
use xremu.Cpu.Blocks.{path, to_table, BlockCache}
use xremu.Cpu.Blocks.Reclaim.{is_hazard}
use xremu.Cpu.Blocks.Fetch.{Front}
use xremu.Cpu.Blocks.Consistent.{IsActive}

-- The hazard, and the addresses of the tables, are as before.
pub record IsStill (c : BlockCache) (hazard : Option ℕ) (d : BlockCache) : Type 0 where
  pub active : (x : ℕ) → is_hazard hazard x ≡ true → IsActive c x → IsActive d x
  pub block : (x : ℕ) → is_hazard hazard x ≡ true → IsActive c x → d.blocks x ≡ c.blocks x
  pub table :
      (x t : ℕ)
      → is_hazard hazard x ≡ true
      → IsActive c x
      → c.links (path x 0) ≡ to_table t
      → d.links (path x 0) ≡ to_table t
  pub table_pcs : d.table_pcs ≡ c.table_pcs

pub IsStill-self : (c : BlockCache) (hazard : Option ℕ) → IsStill c hazard c
IsStill-self c hazard = record {
  active = λ x is a. a;
  block = λ x is a. refl;
  table = λ x t is a e. e;
  table_pcs = refl;
}

-- The program counter, the registers and the control registers are as before.
pub record IsKept (p q : Processor) : Type 0 where
  pub pc : q.pc ≡ p.pc
  pub reg : q.reg ≡ p.reg
  pub cr : q.cr ≡ p.cr

pub IsKept-self : (p : Processor) → IsKept p p
IsKept-self p = record { pc = refl; reg = refl; cr = refl }

pub IsKept-trans : {p q r : Processor} → IsKept p q → IsKept q r → IsKept p r
IsKept-trans f g = record { pc = g.pc ∙ f.pc; reg = g.reg ∙ f.reg; cr = g.cr ∙ f.cr }

-- A line could not be read: the bus error exception has been taken, with some bad address, from a
-- processor with the program counter, the registers and the control registers of `p`.
abbrev pub IsBusFailed : Processor → Processor → Type 0
IsBusFailed p q =
    (r : Processor) × (address : ℕ) × IsKept p r
    × (q ≡ basic_exception (record r { cr = update r.cr ebadaddr address }) 4 r.pc)

-- How a fetch from `p` is given up, with an exception after which the processor is as the last
-- index says: the page is only for the kernel, the page is not there for it, or the bus failed.
pub data IsTrapped (p : Processor) : Processor → Type 0 where
  kernel_page :
      bit_and (p.cr rs) rs_user ≢ 0
      → IsTrapped p (basic_exception (record p { cr = update p.cr ebadaddr p.pc }) 12 p.pc)
  not_translated :
      (q : Processor)
      → bit_and (p.cr rs) rs_mmu ≢ 0
      → translate p (p.pc - p.pc % 16) false true ≡ faulted q
      → IsTrapped p q
  bus_failed : (q : Processor) → IsBusFailed p q → IsTrapped p q

-- What a fetch keeps
abbrev pub Keeps : {M A : Type 0} → Front M → Option A → Front M → Type 0
Keeps f none g = (g.cache ≡ f.cache) × IsBusFailed f.proc g.proc
Keeps f (some a) g = (g.cache ≡ f.cache) × IsKept f.proc g.proc

-- ===== src/Cpu/Result.antt =====
-- What one instruction of a basic block leaves behind.
use xremu.Base.{ℕ, List, [], add32}
use xremu.Cpu.State.{Processor}
use xremu.Cpu.Dcache.{LineWrite}

-- How the handler hands over: XR_NEXT and XR_NEXT_NO_PC, XR_EARLY_EXIT, XR_TRIVIAL_EXIT, XR_DISPATCH.
pub data Exit : Type 0 where
  next early_exit trivial_exit dispatch : Exit

-- What is thrown out of the basic-block cache: nothing, all (`XrInvalidateIblockCache`), or the
-- blocks of a page (`XrInvalidateIblockCacheByVpn`).
pub data Purge : Type 0 where
  purge_none purge_all : Purge
  purge_page : ℕ → Purge

pub record Result : Type 0 where
  pub proc : Processor
  pub exit : Exit
  pub purge : Purge
  pub writes : List LineWrite

-- `XR_NEXT()`
abbrev pub goes_on : Processor → Result
goes_on p = record {
  proc = record p { pc = add32 p.pc 4 };
  exit = next;
  purge = purge_none;
  writes = [];
}

abbrev pub leaves : Exit → Processor → Result
leaves e p = record { proc = p; exit = e; purge = purge_none; writes = [] }

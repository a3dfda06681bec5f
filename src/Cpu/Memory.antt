-- ===== src/Cpu/Memory.antt =====
-- src/xraccess.inc.c: `XrAccess` and `XrNoncachedAccess`, for the processor that runs, with the data
-- caches of all and what is behind the bus.
mod Tests
pub mod Handlers
pub mod Placed
pub mod Accessed
pub mod Passing
use xremu.Base.{
  ℕ, ◌+◌, ◌-◌, ◌*◌, ◌^◌, Bool, true, false, ◌==◌, ◌!=◌, leb, if◌then◌else◌, List, [], ◌∷◌, get_or,
  update, bit_and, Option, none, some,
}
use xremu.Cpu.State.{Processor, rs, ebadaddr, rs_mmu}
use xremu.Cpu.Exception.{basic_exception}
use xremu.Cpu.Translate.{Translation, mapped, faulted, translate}
use xremu.Cpu.Caches.{LineBus, Caches}
use xremu.Cpu.Caches.Access.{
  Outcome, done, sc_failed, bus_failed, aborted, load_access, store_access,
}

-- What the processors use of the bus for accesses that are not cached, of `length` bytes: a read
-- gives the bytes, lowest first, or nothing on an error; a write says whether it was accepted.
pub record IoBus (M : Type 0) : Type 0 where
  pub read : M → (address length : ℕ) → Option ℕ × M
  pub write : M → (address value length : ℕ) → Bool × M

-- The processor that runs, with its data cache, and the rest of the machine.
pub record Machine (M : Type 0) : Type 0 where
  pub proc : Processor
  pub caches : Caches M

-- All data caches, that of the running processor among them, and back.
abbrev pub whole : {M : Type 0} → Machine M → Caches M
whole m = record m.caches { dcaches = update m.caches.dcaches m.proc.id m.proc.dcache }

abbrev pub with_caches : {M : Type 0} → Machine M → Caches M → Machine M
with_caches m c = record { proc = record m.proc { dcache = c.dcaches m.proc.id }; caches = c }

abbrev pub with_proc : {M : Type 0} → Machine M → Processor → Machine M
with_proc m p = record m { proc = p }

-- XR_EXC_BUS and XR_EXC_UNA
abbrev pub exc_bus : ℕ
exc_bus = 4

abbrev pub exc_una : ℕ
exc_una = 9

-- XR_NONCACHED_PHYS_BASE
abbrev pub noncached_phys_base : ℕ
noncached_phys_base = 0xC0000000

-- PTE_NONCACHED
abbrev pub pte_noncached : ℕ
pte_noncached = 8

-- An exception that gives the address in EBADADDR.
abbrev pub fails_at : {M : Type 0} → Machine M → ℕ → ℕ → Machine M
fails_at m address exc =
    with_proc m
      (basic_exception (record m.proc { cr = update m.proc.cr ebadaddr address }) exc m.proc.pc)

-- `dest != 0`, or the source value and `sc`.
pub data Direction : Type 0 where
  reading : Direction
  writing : (value : ℕ) → (sc : Bool) → Direction

abbrev pub is_writing : Direction → Bool
is_writing reading = false
is_writing (writing value sc) = true

-- The results 1, with what a read has read, 2 and 0; on 0 the processor has taken the exception.
pub data Access (M : Type 0) : Type 0 where
  accessed : ℕ → Machine M → Access M
  refused failed : Machine M → Access M

-- `XrAccessMasks`
abbrev pub access_masks : List ℕ
access_masks = 0 ∷ 0xFF ∷ 0xFFFF ∷ 0xFFFFFF ∷ 0xFFFFFFFF ∷ []

-- The physical address and the flags.
unfoldable pub locate : Processor → ℕ → Bool → Translation
locate p address writes =
    if bit_and (p.cr rs) rs_mmu != 0
    then translate p address writes false
    else mapped p address (if leb noncached_phys_base address then pte_noncached else 0)

module _ {M : Type 0} (bus : LineBus M) (io : IoBus M) (present : ℕ → Bool) where
  abbrev pub after_read : Machine M → ℕ → ℕ → Option ℕ × M → Access M
  after_read m address length (none, s) =
      failed (fails_at (record m { caches = record m.caches { memory = s } }) address exc_bus)
  after_read m address length (some v, s) =
      accessed (bit_and v (get_or access_masks length 0))
        (record m { caches = record m.caches { memory = s } })

  abbrev pub after_write : Machine M → ℕ → Bool × M → Access M
  after_write m address (false, s) =
      failed (fails_at (record m { caches = record m.caches { memory = s } }) address exc_bus)
  after_write m address (true, s) =
      accessed 0 (record m { caches = record m.caches { memory = s } })

  -- `XrNoncachedAccess`, and the case of `XrAccess` that leads to it.
  unfoldable pub noncached_access : Machine M → ℕ → Direction → ℕ → Access M
  noncached_access m address reading length =
      after_read m address length (io.read m.caches.memory address length)
  noncached_access m address (writing value true) length = failed (fails_at m address exc_bus)
  noncached_access m address (writing value false) length =
      after_write m address (io.write m.caches.memory address value length)

  -- The end of `XrDcacheAccess`; after `abort` there is nothing.
  abbrev pub after_dcache : Machine M → ℕ → Outcome × Caches M → Option (Access M)
  after_dcache m address (done v, c) = some (accessed v (with_caches m c))
  after_dcache m address (sc_failed, c) = some (refused (with_caches m c))
  after_dcache m address (bus_failed, c) =
      some (failed (fails_at (with_caches m c) address exc_bus))
  after_dcache m address (aborted, c) = none

  abbrev pub after_store : Machine M → ℕ → Option (Outcome × Caches M) → Option (Access M)
  after_store m address none = none
  after_store m address (some r) = after_dcache m address r

  unfoldable pub dcache_access : Machine M → ℕ → Direction → ℕ → Option (Access M)
  dcache_access m address reading length =
      after_dcache m address (load_access bus present (whole m) m.proc.id address length)
  dcache_access m address (writing value sc) length =
      after_store m address (store_access bus present 2 (whole m) m.proc.id address length value sc)

  -- `XrAccess`
  unfoldable pub xr_access : Machine M → ℕ → Direction → ℕ → Option (Access M)
  xr_access m address direction length =
      if bit_and address (length - 1) != 0
      then some (failed (fails_at m address exc_una))
      else elim (locate m.proc address (is_writing direction)) [
        | faulted q ↦ some (failed (with_proc m q))
        | mapped q phys flags ↦
            if bit_and flags pte_noncached != 0
            then some (noncached_access (with_proc m q) phys direction length)
            else dcache_access (with_proc m q) phys direction length
      ]

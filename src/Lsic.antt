-- ===== src/Lsic.antt =====
-- src/lsic.c: the interrupt controller of each processor. A handler for one processor takes the
-- `Lsic` and returns the new one; the table of all sixteen and the processors that exist are
-- functions of the processor's number. The interrupt lock makes each handler one step.
pub mod Digits
pub mod Claim
pub mod Inv
pub mod Write
pub mod Pending
pub mod Table
mod Tests
use xremu.Base.{
  ℕ, zero, suc, ◌+◌, ◌-◌, ◌*◌, ◌/◌, ◌%◌, ◌^◌, bit_and, bit_or, Bool, true, false, ◌||◌, ◌&&◌, not,
  Option, none, some, List, [], ◌∷◌, ltb, leb, ◌==◌, ◌!=◌, if◌then◌else◌, update, get_or, ◌<<◌,
  ◌>>◌, not32,
}
use xremu.Bus.{BusStatus, success, bus_error}

abbrev pub mask_0 : ℕ
mask_0 = 0

abbrev pub mask_1 : ℕ
mask_1 = 1

abbrev pub pending_0 : ℕ
pending_0 = 2

abbrev pub pending_1 : ℕ
pending_1 = 3

abbrev pub claim_complete : ℕ
claim_complete = 4

abbrev pub ipl : ℕ
ipl = 5

-- XR_PROC_MAX
abbrev pub proc_max : ℕ
proc_max = 16

-- `struct _Lsic`
pub record Lsic : Type 0 where
  pub registers : ℕ → ℕ
  pub low_ipl_mask : ℕ
  pub high_ipl_mask : ℕ
  pub interrupt_pending : Bool

-- static storage starts as zero
abbrev pub initial : Lsic
initial = record {
  registers = λ _. 0;
  low_ipl_mask = 0;
  high_ipl_mask = 0;
  interrupt_pending = false;
}

abbrev pub ipl_masks : List ℕ
ipl_masks =
    0x00000001 ∷ 0x00000003 ∷ 0x00000007 ∷ 0x0000000F ∷ 0x0000001F ∷ 0x0000003F ∷ 0x0000007F
    ∷ 0x000000FF ∷ 0x000001FF ∷ 0x000003FF ∷ 0x000007FF ∷ 0x00000FFF ∷ 0x00001FFF ∷ 0x00003FFF
    ∷ 0x00007FFF ∷ 0x0000FFFF ∷ 0x0001FFFF ∷ 0x0003FFFF ∷ 0x0007FFFF ∷ 0x000FFFFF ∷ 0x001FFFFF
    ∷ 0x003FFFFF ∷ 0x007FFFFF ∷ 0x00FFFFFF ∷ 0x01FFFFFF ∷ 0x03FFFFFF ∷ 0x07FFFFFF ∷ 0x0FFFFFFF
    ∷ 0x1FFFFFFF ∷ 0x3FFFFFFF ∷ 0x7FFFFFFF ∷ 0xFFFFFFFF ∷ []

-- pending and not masked off, in word `b` of the bitmaps (LSIC_MASK_0 is 0)
abbrev pub unmasked : (ℕ → ℕ) → ℕ → ℕ
unmasked regs b = bit_and (not32 (regs b)) (regs (pending_0 + b))

-- the assignment to `InterruptPending` that ends every handler
pub refresh : Lsic → Lsic
refresh l = record l {
  interrupt_pending =
      bit_and (unmasked l.registers 0) l.low_ipl_mask != 0
      || bit_and (unmasked l.registers 1) l.high_ipl_mask != 0;
}

pub interrupt_targeted : Lsic → ℕ → Lsic
interrupt_targeted l intsrc = refresh (record l {
  registers =
      update l.registers (pending_0 + intsrc / 32)
        (bit_or (l.registers (pending_0 + intsrc / 32)) (1 << bit_and intsrc 31));
})

-- A write of zero clears the word; any other is or-ed in, without its lowest bit.
pub write_pending : Lsic → ℕ → ℕ → Lsic
write_pending l reg value = record l {
  registers =
      update l.registers reg
        (if value == 0 then 0 else bit_or (l.registers reg) (bit_and value (not32 1)));
}

pub complete : Lsic → ℕ → Lsic
complete l value = record l {
  registers =
      update l.registers (pending_0 + (value >> 5))
        (bit_and (l.registers (pending_0 + (value >> 5))) (not32 (1 << bit_and value 31)));
}

pub set_ipl : Lsic → ℕ → Lsic
set_ipl l value = record l {
  registers = update l.registers ipl value;
  low_ipl_mask = if leb 32 value then 0xFFFFFFFF else get_or ipl_masks value 0;
  high_ipl_mask = if leb 32 value then get_or ipl_masks (value - 32) 0 else 0;
}

-- The `switch` of `LsicWrite`; `none` is the early return of EBUSERROR.
pub write_register : Lsic → ℕ → ℕ → Option Lsic
write_register l reg value =
    if reg == mask_0 || reg == mask_1
    then some (record l { registers = update l.registers reg value })
    else if reg == pending_0
    then some (write_pending l pending_0 value)
    else if reg == pending_1
    then some (write_pending l pending_1 value)
    else if reg == claim_complete
    then (if leb 64 value then none else some (complete l value))
    else if reg == ipl
    then (if leb 64 value then none else some (set_ipl l value))
    else none

-- `LsicWrite` once it has found its `Lsic`
pub write_one : Lsic → ℕ → ℕ → BusStatus × Lsic
write_one l reg value = elim (write_register l reg value) [
  | none ↦ (bus_error, l)
  | some l' ↦ (success, refresh l')
]

-- The loop of the claim register, from `i` on with `left` rounds to go.
pub claim_from : (ℕ → ℕ) → ℕ → ℕ → ℕ
claim_from regs zero i = 0
claim_from regs (suc left) i =
    let rest = claim_from regs left (i + 1) in
    if bit_and (unmasked regs (i / 32) >> bit_and i 31) 1 != 0 then i else rest

pub claim : Lsic → ℕ
claim l = claim_from l.registers (l.registers ipl) 1

-- The `switch` of `LsicRead`.
pub read_register : Lsic → ℕ → Option ℕ
read_register l reg =
    if reg == mask_0 || reg == mask_1 || reg == pending_0 || reg == pending_1 || reg == ipl
    then some (l.registers reg)
    else if reg == claim_complete
    then some (claim l)
    else none

module _ (present : ℕ → Bool) where
  pub lsic_write : (ℕ → Lsic) → ℕ → ℕ → BusStatus × (ℕ → Lsic)
  lsic_write table reg value =
      let id = reg >> 3 in
      if leb proc_max id || not (present id)
      then (bus_error, table)
      else let (status, l) = write_one (table id) (bit_and reg 7) value in
        (status, update table id l)

  pub lsic_read : (ℕ → Lsic) → ℕ → Option ℕ
  lsic_read table reg =
      let id = reg >> 3 in
      if leb proc_max id || not (present id) then none else read_register (table id) (bit_and reg 7)

  -- The loop of `LsicInterrupt` over the first `n` processors.
  pub broadcast : ℕ → (ℕ → Lsic) → ℕ → ℕ → Lsic
  broadcast zero table intsrc = table
  broadcast (suc n) table intsrc =
      let t = broadcast n table intsrc in
      if present n then update t n (interrupt_targeted (t n) intsrc) else t

  -- `none` is the call of `abort`.
  pub lsic_interrupt : (ℕ → Lsic) → ℕ → Option (ℕ → Lsic)
  lsic_interrupt table intsrc =
      if leb 64 intsrc || intsrc == 0 then none else some (broadcast proc_max table intsrc)

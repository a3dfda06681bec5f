-- ===== src/Ram.antt =====
-- src/ram256.c: the memory boards, and the bus of src/ebus.h as far as it leads to them.
mod Line
mod Tests
use xremu.Base.{
  ℕ, ◌+◌, ◌-◌, ◌*◌, ◌/◌, ◌%◌, ◌^◌, ◌≡◌, Bool, true, false, not, ◌&&◌, ltb, leb, if◌then◌else◌,
  update, bit_and, ◌>>◌, add32, ◌==◌,
}
use xremu.Bus.{BusStatus, success, bus_error}

-- `RAMSlots`: the bytes of a slot by their offset
abbrev pub Slots : Type 0
Slots = ℕ → ℕ → ℕ

-- EBUSBRANCHSIZE
abbrev pub branch_size : ℕ
branch_size = 2 ^ 27

-- CopyWithLength: `length` bytes go to `dest`, from `offset` on.
abbrev pub copy_with_length : (ℕ → ℕ) → ℕ → (ℕ → ℕ) → ℕ → ℕ → ℕ
copy_with_length dest offset src length o =
    if leb offset o && ltb o (offset + length) then src (o - offset) else dest o

abbrev pub ram_slot : ℕ → ℕ
ram_slot address = address >> 25

abbrev pub ram_offset : ℕ → ℕ
ram_offset address = bit_and address 0x1FFFFFF

-- `sizes` is `RAMSlotSizes`, which does not change once the boards are set up.
module _ (sizes : ℕ → ℕ) where
  unfoldable pub ram_write : Slots → ℕ → (ℕ → ℕ) → ℕ → BusStatus × Slots
  ram_write m address src length =
      let slot = ram_slot address in
      let offset = ram_offset address in
      if ltb (sizes slot) (offset + length)
      then (bus_error, m)
      else (success, update m slot (copy_with_length (m slot) offset src length))

  unfoldable pub ram_read : Slots → ℕ → (ℕ → ℕ) → ℕ → BusStatus × (ℕ → ℕ)
  ram_read m address dest length =
      let slot = ram_slot address in
      let offset = ram_offset address in
      if ltb (sizes slot) (offset + length)
      then (bus_error, dest)
      else (success, copy_with_length dest 0 (λ o. m slot (offset + o)) length)

  unfoldable pub ram_write_ext : Slots → ℕ → (ℕ → ℕ) → ℕ → BusStatus × Slots
  ram_write_ext m address src length = ram_write m (add32 address branch_size) src length

  unfoldable pub ram_read_ext : Slots → ℕ → (ℕ → ℕ) → ℕ → BusStatus × (ℕ → ℕ)
  ram_read_ext m address dest length = ram_read m (add32 address branch_size) dest length

-- The handlers that the other branches of `EBusBranches` have, with the state of their boards as it
-- is when they are called. A write may change the memory boards too, as a disk does.
pub record Boards : Type 0 where
  pub write : (branch : ℕ) → Slots → ℕ → (ℕ → ℕ) → ℕ → BusStatus × Slots
  pub read : (branch : ℕ) → Slots → ℕ → (ℕ → ℕ) → ℕ → BusStatus × (ℕ → ℕ)

module _ (sizes : ℕ → ℕ) (others : Boards) where
  -- `EBusWrite` and `EBusRead`; `RAMInit` fills the first two branches.
  unfoldable pub ebus_write : Slots → ℕ → (ℕ → ℕ) → ℕ → BusStatus × Slots
  ebus_write m address src length =
      let branch = address >> 27 in
      let inside = bit_and address 0x7FFFFFF in
      if branch == 0
      then ram_write sizes m inside src length
      else if branch == 1
      then ram_write_ext sizes m inside src length
      else others.write branch m inside src length

  unfoldable pub ebus_read : Slots → ℕ → (ℕ → ℕ) → ℕ → BusStatus × (ℕ → ℕ)
  ebus_read m address dest length =
      let branch = address >> 27 in
      let inside = bit_and address 0x7FFFFFF in
      if branch == 0
      then ram_read sizes m inside dest length
      else if branch == 1
      then ram_read_ext sizes m inside dest length
      else others.read branch m inside dest length

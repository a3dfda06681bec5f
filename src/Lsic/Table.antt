-- ===== src/Lsic/Table.antt =====
-- All sixteen controllers: which of them a bus write or a device's interrupt reaches.
use xremu.Base.{
  ℕ, zero, suc, ◌/◌, ◌^◌, ◌≤◌, ◌<◌, ◌≡◌, refl, arith, bit_and, ◌⊎◌, inl, inr, Bool, ◌||◌, ◌&&◌,
  ◌==◌, leb, ltb, if◌then◌else◌, Bool-cases, if_cases, none, some,
}
use xremu.Bus.{bus_error}
use xremu.Lsic.{
  Lsic, interrupt_targeted, write_one, lsic_write, broadcast, lsic_interrupt, proc_max,
}
use xremu.Lsic.Inv.{IsValid}
use xremu.Lsic.Write.{interrupt_targeted-IsValid, write_one-IsValid}

abbrev pub AllValid : (ℕ → Lsic) → Type 0
AllValid table = (id : ℕ) → IsValid (table id)

write_one_error :
    (l : Lsic) (reg value : ℕ)
    → (write_one l reg value).0 ≡ bus_error
    → (write_one l reg value).1 ≡ l
unfolding write_one
write_one_error l reg value e = ground arith

module _ (present : ℕ → Bool) (table : ℕ → Lsic) where
  -- the processor that register `reg` belongs to exists
  abbrev pub reaches : ℕ → Bool
  reaches reg = ltb (reg / 8) proc_max && present (reg / 8)

  lsic_write-entry :
      (reg value id : ℕ)
      → (lsic_write present table reg value).1 id ≡ (
          if reaches reg && id == reg / 8
          then (write_one (table id) (bit_and reg 7) value).1
          else table id)
  unfolding lsic_write
  lsic_write-entry reg value id = ground arith

  lsic_write-status :
      (reg value : ℕ)
      → (lsic_write present table reg value).0
        ≡ (if reaches reg then (write_one (table (reg / 8)) (bit_and reg 7) value).0 else bus_error)
  unfolding lsic_write
  lsic_write-status reg value = ground arith

  -- A bus write that is answered with an error changes no controller.
  pub lsic_write-error :
      (reg value id : ℕ)
      → (lsic_write present table reg value).0 ≡ bus_error
      → (lsic_write present table reg value).1 id ≡ table id
  lsic_write-error reg value id e = ground (
    arith,
    e,
    lsic_write-entry reg value id,
    lsic_write-status reg value,
    write_one_error (table (reg / 8)) (bit_and reg 7) value,
  )

  -- A bus write of a 32-bit word to any register number leaves every controller valid, provided
  -- that all were.
  pub lsic_write-AllValid :
      (reg value : ℕ)
      → AllValid table
      → value < 2 ^ 32
      → AllValid (lsic_write present table reg value).1
  lsic_write-AllValid reg value valid small id = rw (lsic_write-entry reg value id) (
      if_cases IsValid _ (λ _. write_one-IsValid (bit_and reg 7) value (valid id) small)
        (λ _. valid id))

  broadcast_lem :
      (n src id : ℕ)
      → broadcast present n table src id
        ≡ (if ltb id n && present id then interrupt_targeted (table id) src else table id)
  unfolding broadcast
  broadcast_lem zero src id = ground arith
  broadcast_lem (suc n) src id = ground (arith, broadcast_lem n src id, broadcast_lem n src n)

  -- An interrupt of a number from 1 to 63 that is sent to every processor leaves valid controllers
  -- valid.
  pub broadcast-AllValid :
      (src : ℕ)
      → 1 ≤ src
      → src < 64
      → AllValid table
      → AllValid (broadcast present proc_max table src)
  broadcast-AllValid src pos small valid id = rw (broadcast_lem proc_max src id) (
      if_cases IsValid _ (λ _. interrupt_targeted-IsValid src (valid id) pos small) (λ _. valid id))

  -- `t` is the table after an interrupt that was sent to every processor.
  pub record IsSent (src : ℕ) (t : ℕ → Lsic) : Type 0 where
    pub pos : 1 ≤ src
    pub small : src < 64
    pub entries :
        (id : ℕ)
        → t id
          ≡ (if ltb id proc_max && present id then interrupt_targeted (table id) src else table id)

  -- A device's interrupt with number 0, or above 63, stops the program; any other is sent to each
  -- processor that exists and to no other.
  pub lsic_interrupt_cases :
      (src : ℕ)
      → ((lsic_interrupt present table src ≡ none) × ((src ≡ 0) ⊎ (64 ≤ src)))
        ⊎ ((t : ℕ → Lsic) × (lsic_interrupt present table src ≡ some t) × IsSent src t)
  unfolding lsic_interrupt
  lsic_interrupt_cases src = elim (Bool-cases (leb 64 src || src == 0)) [
    | inl bad ↦ inl (rw bad refl, ground arith)
    | inr good ↦ inr (
      broadcast present proc_max table src,
      rw good refl,
      record { pos = ground arith; small = ground arith; entries = broadcast_lem proc_max src },
    )
  ]

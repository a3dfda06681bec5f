-- ===== src/Lsic/Pending.antt =====
-- What the handlers do to each pending digit.
use native.Mathlib.Decide.{ℕ_discrete}
use xremu.Base.{
  ℕ, ◌+◌, ◌/◌, ◌%◌, ◌^◌, ◌<◌, ◌≡◌, arith, bit_and, ◌∙◌, ap, not32, ◌<<◌, ◌&&◌, ◌==◌, ◌!=◌, max, ◌≢◌,
  if◌then◌else◌,
}
use xremu.Bits.{
  test_bit, test_bit-lt, test_bit-bit_and, test_bit-bit_or, test_bit-compl, test_bit-two-pow,
  test_bit-two-pow_ne, bit_and-ones,
}
use xremu.Lsic.{Lsic, refresh, interrupt_targeted, write_pending, complete, pending_0}
use xremu.Lsic.Write.{interrupt-digit, shifted_one, lowest_clear}

-- The pending digit of interrupt `j`.
abbrev pub pending_digit : Lsic → ℕ → ℕ
pending_digit l j = test_bit (l.registers (pending_0 + j / 32)) (j % 32)

-- An interrupt from a source below 64 sets the pending digit of the source and leaves every other
-- as it was.
pub pending_digit-interrupt_targeted :
    (l : Lsic) (src j : ℕ)
    → src < 64
    → j < 64
    → pending_digit (interrupt_targeted l src) j ≡ (if j == src then 1 else pending_digit l j)
unfolding interrupt_targeted refresh
pending_digit-interrupt_targeted l src j h g = ground (
  arith,
  interrupt-digit l src h,
  test_bit-bit_or (l.registers (pending_0 + src / 32)) (2 ^ (src % 32)) (j % 32),
  test_bit-two-pow (src % 32),
  test_bit-two-pow_ne (src % 32) (j % 32),
  test_bit-lt (l.registers (pending_0 + src / 32)) (j % 32),
)

complete-digit :
    (l : Lsic) (src : ℕ)
    → src < 64
    → bit_and (l.registers (pending_0 + src / 32)) (not32 (1 << bit_and src 31))
      ≡ bit_and (l.registers (pending_0 + src / 32)) (not32 (2 ^ (src % 32)))
complete-digit l src h =
    ap (λ (k : ℕ). bit_and (l.registers (pending_0 + src / 32)) (not32 (1 << k)))
      (bit_and-ones 5 src)
    ∙ ap (λ (m : ℕ). bit_and (l.registers (pending_0 + src / 32)) (not32 m))
        (shifted_one (src % 32) (omega arith)).0

-- A write of a number below 64 to the claim register clears the pending digit of that interrupt and
-- no other.
pub pending_digit-complete :
    (l : Lsic) (src j : ℕ)
    → src < 64
    → j < 64
    → pending_digit (complete l src) j ≡ (if j == src then 0 else pending_digit l j)
unfolding complete
pending_digit-complete l src j h g = ground (
  arith,
  complete-digit l src h,
  test_bit-bit_and (l.registers (pending_0 + src / 32)) (not32 (2 ^ (src % 32))) (j % 32),
  test_bit-compl 32 (2 ^ (src % 32)) (j % 32) (shifted_one (src % 32) (omega arith)).1
      (omega arith),
  test_bit-two-pow (src % 32),
  test_bit-two-pow_ne (src % 32) (j % 32),
  test_bit-lt (l.registers (pending_0 + src / 32)) (j % 32),
)

cleared_digit :
    (value k : ℕ) → k < 32 → k ≢ 0 → test_bit (bit_and value (not32 1)) k ≡ test_bit value k
cleared_digit value k h ne = ground (
  arith,
  test_bit-bit_and value (not32 1) k,
  test_bit-compl 32 1 k,
  test_bit-two-pow_ne 0 k,
  test_bit-lt value k,
)

clear_lowest : (value : ℕ) → test_bit (bit_and value (not32 1)) 0 ≡ 0
clear_lowest value = omega (arith, test_bit-bit_and value (not32 1) 0, lowest_clear)

-- A write of a number other than zero to a pending register raises the interrupts of its low 32
-- digits and lowers none, but the lowest digit of either register never counts: interrupt 0, and
-- also interrupt 32, keep the pending digit that they had.
pub pending_digit-write_pending :
    (l : Lsic) (b value j : ℕ)
    → b < 2
    → value ≢ 0
    → j < 64
    → pending_digit (write_pending l (pending_0 + b) value) j ≡ (
        if j / 32 == b && j % 32 != 0
        then max (pending_digit l j) (test_bit value (j % 32))
        else pending_digit l j)
unfolding write_pending
pending_digit-write_pending l b value j h ne g = elim (ℕ_discrete (j % 32) 0) [
  | yes lowest ↦ ground (
    arith,
    test_bit-bit_or (l.registers (pending_0 + b)) (bit_and value (not32 1)) 0,
    clear_lowest value,
  )
  | no other ↦ ground (
    arith,
    test_bit-bit_or (l.registers (pending_0 + b)) (bit_and value (not32 1)) (j % 32),
    cleared_digit value (j % 32),
  )
]

-- ===== src/Lsic/Digits.antt =====
-- The interrupt bitmaps, one interrupt at a time.
use xremu.Base.{
  ℕ, ◌+◌, ◌-◌, ◌/◌, ◌%◌, ◌^◌, ◌<◌, min, ◌≡◌, ◌≢◌, arith, bit_and, ◌∙◌, ap, sym, not32, ◌>>◌,
}
use xremu.Bits.{test_bit, test_bit_lem, test_bit-lt, test_bit-bit_and, test_bit-compl, bit_and-ones}
use xremu.Lsic.{Lsic, unmasked}

-- digit `i` of the unmasked pending interrupts
abbrev pub candidate : (ℕ → ℕ) → ℕ → ℕ
candidate regs i = test_bit (unmasked regs (i / 32)) (i % 32)

-- Interrupt `i` is pending, and its mask bit is clear.
abbrev pub IsRaised : Lsic → ℕ → Type 0
IsRaised l i =
    (test_bit (l.registers (2 + i / 32)) (i % 32) ≡ 1)
    × (test_bit (l.registers (i / 32)) (i % 32) ≡ 0)

-- the test in the loop of the claim register
pub claim_test :
    (regs : ℕ → ℕ) (i : ℕ) → bit_and (unmasked regs (i / 32) >> bit_and i 31) 1 ≡ candidate regs i
claim_test regs i =
    bit_and-ones 1 _
    ∙ ap (λ (k : ℕ). unmasked regs (i / 32) / 2 ^ k % 2) (bit_and-ones 5 i)
    ∙ sym (test_bit_lem (unmasked regs (i / 32)) (i % 32))

pub candidate_lem :
    (regs : ℕ → ℕ) (i : ℕ)
    → regs (i / 32) < 2 ^ 32
    → candidate regs i
      ≡ min (1 - test_bit (regs (i / 32)) (i % 32)) (test_bit (regs (2 + i / 32)) (i % 32))
candidate_lem regs i h =
    test_bit-bit_and (not32 (regs (i / 32))) (regs (2 + i / 32)) (i % 32)
    ∙ ap (λ (d : ℕ). min d (test_bit (regs (2 + i / 32)) (i % 32)))
        (test_bit-compl 32 (regs (i / 32)) (i % 32) h (omega arith))

pub candidate-IsRaised :
    (l : Lsic) (i : ℕ) → l.registers (i / 32) < 2 ^ 32 → candidate l.registers i ≢ 0 → IsRaised l i
candidate-IsRaised l i h c =
    omega (arith, candidate_lem l.registers i h, test_bit-lt (l.registers (2 + i / 32)) (i % 32))

pub IsRaised-candidate :
    (l : Lsic) (i : ℕ) → l.registers (i / 32) < 2 ^ 32 → IsRaised l i → candidate l.registers i ≡ 1
IsRaised-candidate l i h r = omega (arith, candidate_lem l.registers i h)

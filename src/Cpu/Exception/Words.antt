-- ===== src/Cpu/Exception/Words.antt =====
-- The masks on the status register, as arithmetic.
use xremu.Base.{
  ℕ, ◌+◌, ◌*◌, ◌/◌, ◌%◌, ◌^◌, ◌<◌, bit_and, bit_or, ◌≡◌, arith, refl, ◌<<◌, not32, all_below,
  all_below_sound, ==→eq, ◌==◌, true,
}
use xremu.Bits.{bit_and-ones, bit_and-shifted, bit_or-fields, bit_or-zero, bit_or_comm}
use xremu.Bits.Fields.{bit_and-split, bit_or-split}
use xremu.Cpu.Exception.{pushed, with_ecause, entry_mode}

outer_bytes : (x : ℕ) → x < 2 ^ 32 → bit_and x 0xFF0000FF ≡ x / 2 ^ 24 * 2 ^ 24 + x % 2 ^ 8
outer_bytes x h = omega (
  arith,
  bit_and-split 16 x 0xFF0000FF,
  bit_and-shifted 8 (x / 2 ^ 16) 0xFF,
  bit_and-ones 8 (x / 2 ^ 16 / 2 ^ 8),
  bit_and-ones 8 (x % 2 ^ 16),
)

-- Pushing copies the low half of the mode stack one byte up.
pub pushed_lem :
    (x : ℕ) → x < 2 ^ 32 → pushed x ≡ x / 2 ^ 24 * 2 ^ 24 + x % 2 ^ 16 * 2 ^ 8 + x % 2 ^ 8
pushed_lem x h = ground (
  arith,
  outer_bytes x h,
  bit_and-ones 16 x,
  bit_or-split 8 (bit_and x 0xFF0000FF) (bit_and x 0xFFFF << 8),
  bit_or-fields 16 (x / 2 ^ 24) (x % 2 ^ 16),
  bit_or-zero (x % 2 ^ 8),
)

-- The exception code goes into the top four bits.
pub with_ecause_lem :
    (x exc : ℕ) → x < 2 ^ 32 → exc < 16 → with_ecause x exc ≡ exc * 2 ^ 28 + x % 2 ^ 28
with_ecause_lem x exc h small = ground (
  arith,
  bit_and-ones 28 x,
  bit_or_comm (x % 2 ^ 28) (exc * 2 ^ 28),
  bit_or-fields 28 exc (x % 2 ^ 28),
)

low_mode : (x : ℕ) → bit_and x 0xFC ≡ x / 4 % 64 * 4
low_mode x = omega (arith, bit_and-shifted 2 x 63, bit_and-ones 6 (x / 4))

without_mmu_table : all_below 256 (λ m. bit_and m (not32 4) == m / 8 * 8 + m % 4) ≡ true
unfolding all_below
without_mmu_table = refl

without_mmu : (m : ℕ) → m < 2 ^ 8 → bit_and m (not32 4) ≡ m / 8 * 8 + m % 4
without_mmu m h = ==→eq _ _ (all_below_sound 256 _ m without_mmu_table h)

-- Whatever the mode was, the new one has the user bit and the interrupt bit clear, and the TB-miss
-- bit as it was.
pub entry_mode_lem :
    (x : ℕ) → (entry_mode x < 2 ^ 8) × (entry_mode x % 4 ≡ 0) × (entry_mode x / 8 ≡ x / 8 % 32)
entry_mode_lem x = ground (arith, low_mode x, without_mmu (x / 4 % 64 * 4))

-- The mode byte is replaced.
pub new_mode :
    (x m : ℕ) → x < 2 ^ 32 → m < 2 ^ 8 → bit_or (bit_and x 0xFFFFFF00) m ≡ x / 2 ^ 8 * 2 ^ 8 + m
new_mode x m h small = ground (
  arith,
  bit_and-shifted 8 x 0xFFFFFF,
  bit_and-ones 24 (x / 2 ^ 8),
  bit_or-fields 8 (x / 2 ^ 8) m,
)

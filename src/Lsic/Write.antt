-- ===== src/Lsic/Write.antt =====
-- The handlers that change an `Lsic`: each keeps it valid, and changes the digits it is meant to.
use xremu.Base.{
  ℕ, ◌+◌, ◌-◌, ◌/◌, ◌%◌, ◌^◌, ◌≤◌, ◌<◌, ◌≡◌, refl, arith, bit_and, bit_or, ◌∙◌, ap, not32, ◌<<◌,
  Bool, true, ◌||◌, ◌&&◌, ◌==◌, leb, and_both, ltb→lt, ==→eq, if◌then◌else◌, if_cases, all_below,
  all_below_sound, get_or, Option, none, some, ltb, update,
}
use xremu.Bits.{
  test_bit, test_bit-zero, test_bit-bit_and, test_bit-bit_or, test_bit-two-pow_ne, bit_and-lt,
  bit_or-lt, bit_and-ones,
}
use xremu.Bus.{BusStatus, success, bus_error}
use xremu.Lsic.{
  Lsic, refresh, interrupt_targeted, write_pending, complete, set_ipl, write_register, write_one,
  ipl_masks, pending_0,
}
use xremu.Lsic.Inv.{IsSound, IsValid}

abbrev row_test : ℕ → ℕ → Bool
row_test n i = test_bit (get_or ipl_masks n 0) i == (if leb i n then 1 else 0)

mask_table :
    all_below 32 (λ n. ltb (get_or ipl_masks n 0) (2 ^ 32) && all_below 32 (row_test n)) ≡ true
unfolding all_below test_bit
mask_table = refl

mask_row :
    (n : ℕ)
    → n < 32
    → (ltb (get_or ipl_masks n 0) (2 ^ 32) ≡ true) × (all_below 32 (row_test n) ≡ true)
mask_row n h = and_both _ _ (all_below_sound 32 _ n mask_table h)

ipl_masks-lt : (n : ℕ) → n < 32 → get_or ipl_masks n 0 < 2 ^ 32
ipl_masks-lt n h = ltb→lt _ _ (mask_row n h).0

-- Entry `n` of the table has the digits 0 to `n`.
ipl_masks-digit :
    (n i : ℕ) → n < 32 → i < 32 → test_bit (get_or ipl_masks n 0) i ≡ (if leb i n then 1 else 0)
ipl_masks-digit n i h g = ==→eq _ _ (all_below_sound 32 (row_test n) i (mask_row n h).1 g)

refresh-IsValid : {l : Lsic} → IsSound l → IsValid (refresh l)
unfolding refresh
refresh-IsValid s = record {
  sound = record {
    words = s.words;
    level = s.level;
    low_word = s.low_word;
    high_word = s.high_word;
    masks = s.masks;
    no_zero = s.no_zero;
  };
  flag = refl;
}

-- A new value for a mask or a bitmap.
set_word-IsSound :
    {l : Lsic} (reg value : ℕ)
    → IsSound l
    → reg < 4
    → value < 2 ^ 32
    → (reg ≡ pending_0 → test_bit value 0 ≡ 0)
    → IsSound (record l { registers = update l.registers reg value })
set_word-IsSound {l} reg value s h small zero_clear = record {
  words = λ r below. ground (arith, s.words r below);
  level = ground (arith, s.level);
  low_word = s.low_word;
  high_word = s.high_word;
  masks = λ i p q. ground (arith, s.masks i p q);
  no_zero = ground (arith, s.no_zero, zero_clear);
}

ones_digits : all_below 32 (λ i. test_bit 0xFFFFFFFF i == 1) ≡ true
unfolding all_below test_bit
ones_digits = refl

ones-digit : (i : ℕ) → i < 32 → test_bit 0xFFFFFFFF i ≡ 1
ones-digit i h = ==→eq _ _ (all_below_sound 32 _ i ones_digits h)

set_ipl-IsSound : {l : Lsic} (value : ℕ) → IsSound l → value < 64 → IsSound (set_ipl l value)
unfolding set_ipl
set_ipl-IsSound {l} value s h = record {
  words = λ r below. ground (arith, s.words r below);
  level = ground arith;
  low_word = ground (arith, ipl_masks-lt value);
  high_word = ground (arith, ipl_masks-lt (value - 32));
  masks = λ i p q. ground (
    arith,
    ipl_masks-digit value (i % 32),
    ipl_masks-digit (value - 32) (i % 32),
    ones-digit (i % 32),
    test_bit-zero (i % 32),
  );
  no_zero = ground (arith, s.no_zero);
}

two_pow_table : all_below 32 (λ k. (1 << k) == 2 ^ k && ltb (2 ^ k) (2 ^ 32)) ≡ true
unfolding all_below
two_pow_table = refl

-- `1 << k` for the place of an interrupt in its word
pub shifted_one : (k : ℕ) → k < 32 → (1 << k ≡ 2 ^ k) × (2 ^ k < 2 ^ 32)
shifted_one k h =
    let row : ((1 << k) == 2 ^ k ≡ true) × (ltb (2 ^ k) (2 ^ 32) ≡ true) =
      and_both _ _ (all_below_sound 32 _ k two_pow_table h) in
    (==→eq _ _ row.0, ltb→lt _ _ row.1)

pub lowest_clear : test_bit (not32 1) 0 ≡ 0
unfolding test_bit
lowest_clear = refl

write_pending-IsSound :
    {l : Lsic} (reg value : ℕ)
    → IsSound l
    → reg < 4
    → value < 2 ^ 32
    → IsSound (write_pending l reg value)
unfolding write_pending
write_pending-IsSound {l} reg value s h small =
    set_word-IsSound reg _ s h
      (ground (
        arith,
        s.words reg,
        bit_or-lt 32 (l.registers reg) (bit_and value (not32 1)),
        bit_and-lt 32 value (not32 1),
      ))
      (λ e. ground (
        arith,
        s.no_zero,
        test_bit-zero 0,
        test_bit-bit_or (l.registers reg) (bit_and value (not32 1)) 0,
        test_bit-bit_and value (not32 1) 0,
        lowest_clear,
      ))

complete-IsSound : {l : Lsic} (value : ℕ) → IsSound l → value < 64 → IsSound (complete l value)
unfolding complete
complete-IsSound {l} value s h =
    set_word-IsSound (2 + value / 32) _ s (omega arith)
      (bit_and-lt 32 _ _ (s.words (2 + value / 32) (omega arith)))
      (λ e. ground (
        arith,
        s.no_zero,
        test_bit-bit_and (l.registers (2 + value / 32)) (not32 (1 << bit_and value 31)) 0,
      ))

pub interrupt-digit :
    (l : Lsic) (src : ℕ)
    → src < 64
    → bit_or (l.registers (pending_0 + src / 32)) (1 << bit_and src 31)
      ≡ bit_or (l.registers (pending_0 + src / 32)) (2 ^ (src % 32))
interrupt-digit l src h =
    ap (λ (k : ℕ). bit_or (l.registers (pending_0 + src / 32)) (1 << k)) (bit_and-ones 5 src)
    ∙ ap (bit_or (l.registers (pending_0 + src / 32))) (shifted_one (src % 32) (omega arith)).0

-- An interrupt of a number from 1 to 63 keeps a valid controller valid.
pub interrupt_targeted-IsValid :
    {l : Lsic} (src : ℕ) → IsValid l → 1 ≤ src → src < 64 → IsValid (interrupt_targeted l src)
unfolding interrupt_targeted
interrupt_targeted-IsValid {l} src v pos h = refresh-IsValid (
    set_word-IsSound (2 + src / 32) _ v.sound (omega arith)
      (bit_or-lt 32 _ _ (v.words (2 + src / 32) (omega arith)) (shifted_small src))
      (λ e. rw (interrupt-digit l src h) (
        ground (
          arith,
          v.no_zero,
          test_bit-bit_or (l.registers (2 + src / 32)) (2 ^ (src % 32)) 0,
          test_bit-two-pow_ne (src % 32) 0,
        ))))
  where
    shifted_small : (i : ℕ) → 1 << bit_and i 31 < 2 ^ 32
    shifted_small i = omega arith

-- what the `switch` hands on, if it does not return early
data AllSound : Option Lsic → Type 0 where
  early : AllSound none
  goes_on : {l : Lsic} → IsSound l → AllSound (some l)

write_register-AllSound :
    {l : Lsic} (reg value : ℕ) → IsSound l → value < 2 ^ 32 → AllSound (write_register l reg value)
unfolding write_register
write_register-AllSound {l} reg value s small =
    if_cases AllSound (reg == 0 || reg == 1)
      (λ e.
        goes_on (set_word-IsSound reg value s (ground arith) small (λ e'. absurd (ground arith))))
      λ _.
        if_cases AllSound (reg == 2)
          (λ _. goes_on (write_pending-IsSound 2 value s (omega arith) small))
          λ _.
            if_cases AllSound (reg == 3)
              (λ _. goes_on (write_pending-IsSound 3 value s (omega arith) small))
              λ _.
                if_cases AllSound (reg == 4)
                  (λ _.
                    if_cases AllSound (leb 64 value) (λ _. early)
                      λ e. goes_on (complete-IsSound value s (ground arith)))
                  λ _.
                    if_cases AllSound (reg == 5)
                      (λ _.
                        if_cases AllSound (leb 64 value) (λ _. early)
                          λ e. goes_on (set_ipl-IsSound value s (ground arith)))
                      λ _. early

-- A write of any 32-bit word to any register keeps a valid controller valid.
pub write_one-IsValid :
    {l : Lsic} (reg value : ℕ) → IsValid l → value < 2 ^ 32 → IsValid (write_one l reg value).1
unfolding write_one
write_one-IsValid {l} reg value v small =
    settle (write_register l reg value) (write_register-AllSound reg value v.sound small)
  where
    settle :
        (o : Option Lsic)
        → AllSound o
        → IsValid
            (elim o as (λ _. BusStatus × Lsic) [
              | none ↦ (bus_error, l)
              | some l' ↦ (success, refresh l')
            ]).1
    settle none early = v
    settle (some l') (goes_on h) = refresh-IsValid h

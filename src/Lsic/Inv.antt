-- ===== src/Lsic/Inv.antt =====
-- What holds of an `Lsic` between handlers, and what it makes of the interrupt flag.
use native.Mathlib.Decide.{ℕ_discrete}
use xremu.Base.{
  ℕ, ◌+◌, ◌*◌, ◌/◌, ◌%◌, ◌^◌, ◌≤◌, ◌<◌, min, ◌≡◌, ◌≢◌, refl, arith, bit_and, ◌⊎◌, inl, inr, ◌↔◌,
  true, leb, if◌then◌else◌,
}
use xremu.Bits.{
  test_bit, test_bit-zero, test_bit-bit_and, test_bit_of_ne_zero, bit_and-lt, bit_and_comm,
}
use xremu.Lsic.{Lsic, initial, refresh, unmasked, claim, ipl, pending_0}
use xremu.Lsic.Digits.{candidate, IsRaised, candidate-IsRaised, IsRaised-candidate}
use xremu.Lsic.Claim.{claim_from-Answers, Answers}

-- the IPL mask that holds the digit of interrupt `i`
abbrev pub mask_word : Lsic → ℕ → ℕ
mask_word l i = if leb 32 i then l.high_ipl_mask else l.low_ipl_mask

-- What the registers keep, whatever the flag says.
pub record IsSound (l : Lsic) : Type 0 where
  pub words : (r : ℕ) → r < 6 → l.registers r < 2 ^ 32
  pub level : l.registers ipl < 64
  pub low_word : l.low_ipl_mask < 2 ^ 32
  pub high_word : l.high_ipl_mask < 2 ^ 32
  pub masks :
      (i : ℕ)
      → 1 ≤ i
      → i < 64
      → test_bit (mask_word l i) (i % 32) ≡ (if leb i (l.registers ipl) then 1 else 0)
  pub no_zero : test_bit (l.registers pending_0) 0 ≡ 0

-- ... and the flag is the one that `refresh` computes.
pub record IsValid (l : Lsic) : Type 0 where
  pub sound : IsSound l
  pub open sound use *
  pub flag : l.interrupt_pending ≡ (refresh l).interrupt_pending

initial-IsSound : IsSound initial
initial-IsSound = record {
  words = λ r h. omega arith;
  level = omega arith;
  low_word = omega arith;
  high_word = omega arith;
  masks = λ i p q. ground (arith, test_bit-zero (i % 32));
  no_zero = test_bit-zero 0;
}

-- The controllers start in order.
pub initial-IsValid : IsValid initial
unfolding refresh
initial-IsValid = record { sound = initial-IsSound; flag = refl }

pub claim-Answers : (l : Lsic) → Answers l.registers (l.registers ipl) 1 (claim l)
unfolding claim
claim-Answers l = claim_from-Answers l.registers (l.registers ipl) 1

-- bitmap word `b` as `refresh` tests it
abbrev enabled : Lsic → ℕ → ℕ
enabled l b = bit_and (unmasked l.registers b) (mask_word l (b * 32))

enabled-digit :
    (l : Lsic) (j : ℕ)
    → j < 64
    → test_bit (enabled l (j / 32)) (j % 32)
      ≡ min (candidate l.registers j) (test_bit (mask_word l j) (j % 32))
enabled-digit l j h =
    ground
      (arith, test_bit-bit_and (unmasked l.registers (j / 32)) (mask_word l (j / 32 * 32)) (j % 32))

module _ {l : Lsic} (v : IsValid l) where
  open v use {sound.{words, level, low_word, high_word, masks, no_zero}, flag}

  flag_tests : (l.interrupt_pending ≡ true) ↔ ((enabled l 0 ≢ 0) ⊎ (enabled l 1 ≢ 0))
  unfolding refresh
  flag_tests = (λ on. ground (arith, flag), λ either. ground (arith, flag))

  zero_no_candidate : candidate l.registers 0 ≡ 0
  zero_no_candidate = elim (ℕ_discrete (candidate l.registers 0) 0) [
    | yes e ↦ e
    | no set ↦
        absurd (omega (arith, no_zero, (candidate-IsRaised l 0 (words 0 (omega arith)) set).0))
  ]

  enabled-lt : (b : ℕ) → enabled l b < 2 ^ 32
  enabled-lt b =
      rw (bit_and_comm (unmasked l.registers b) (mask_word l (b * 32)))
        (bit_and-lt 32 (mask_word l (b * 32)) _ (ground (arith, low_word, high_word)))

  -- the interrupt behind a word that is not zero
  candidate_of_enabled :
      (b : ℕ)
      → b < 2
      → enabled l b ≢ 0
      → (j : ℕ) × (1 ≤ j) × (j ≤ l.registers ipl) × (candidate l.registers j ≢ 0)
  candidate_of_enabled b h ne =
      let (i, below, set) = test_bit_of_ne_zero 32 (enabled l b) (enabled-lt b) ne in
      let j : ℕ = b * 32 + i in
      let digit : test_bit (enabled l b) i
          ≡ min (candidate l.registers j) (test_bit (mask_word l j) (j % 32)) =
        ground (arith, enabled-digit l j) in
      let pos : 1 ≤ j = ground (arith, zero_no_candidate) in
      (j, pos, ground (arith, masks j), λ e. omega arith)

  enabled_of_candidate :
      (j : ℕ) → 1 ≤ j → j ≤ l.registers ipl → candidate l.registers j ≢ 0 → enabled l (j / 32) ≢ 0
  enabled_of_candidate j p q set e = absurd (
      ground (
        arith,
        enabled-digit l j (omega (arith, level)),
        masks j p (omega (arith, level)),
        test_bit-zero (j % 32),
      ))

  refute_none :
      (b : ℕ)
      → b < 2
      → enabled l b ≢ 0
      → Answers l.registers (l.registers ipl) 1 (claim l)
      → claim l ≢ 0
  refute_none b h ne (inl (e, none_left)) z =
      let (j, p, q, set) = candidate_of_enabled b h ne in set (none_left j p (omega arith))
  refute_none b h ne (inr first) z = omega (arith, first.from)

  some_enabled :
      Answers l.registers (l.registers ipl) 1 (claim l) → claim l ≢ 0 → enabled l (claim l / 32) ≢ 0
  some_enabled (inl (e, none_left)) ne = absurd (ne e)
  some_enabled (inr first) ne =
      enabled_of_candidate (claim l) first.from (omega (arith, first.below))
        (omega (arith, first.set))

  claim-le : Answers l.registers (l.registers ipl) 1 (claim l) → claim l ≤ l.registers ipl
  claim-le (inl (e, none_left)) = omega arith
  claim-le (inr first) = omega (arith, first.below)

  -- In a valid controller the flag that the processors poll is set exactly when the claim register
  -- has an interrupt to report.
  pub flag-iff-claim : (l.interrupt_pending ≡ true) ↔ (claim l ≢ 0)
  flag-iff-claim = (set_claim, claim_set)
    where
      high_half : claim l / 32 ≢ 0 → claim l / 32 ≡ 1
      high_half high = omega (arith, claim-le (claim-Answers l), level)

      set_claim : l.interrupt_pending ≡ true → claim l ≢ 0
      set_claim on = elim (flag_tests.0 on) [
        | inl ne ↦ refute_none 0 (omega arith) ne (claim-Answers l)
        | inr ne ↦ refute_none 1 (omega arith) ne (claim-Answers l)
      ]

      claim_set : claim l ≢ 0 → l.interrupt_pending ≡ true
      claim_set ne = flag_tests.1 (elim (ℕ_discrete (claim l / 32) 0) [
        | yes low ↦ inl (rw low at (some_enabled (claim-Answers l) ne))
        | no high ↦ inr (rw (high_half high) at (some_enabled (claim-Answers l) ne))
      ])

-- No interrupt from 1 up to the level is pending and unmasked, and the answer is 0; or the answer
-- is one, and none with a lower number is.
abbrev pub ClaimsLowest : Lsic → ℕ → Type 0
ClaimsLowest l r =
    ((r ≡ 0) × ((j : ℕ) → 1 ≤ j → j ≤ l.registers ipl → ¬ IsRaised l j))
    ⊎ ((1 ≤ r) × (r ≤ l.registers ipl) × IsRaised l r × ((j : ℕ) → 1 ≤ j → j < r → ¬ IsRaised l j))

module _ {l : Lsic} (v : IsValid l) where
  not-IsRaised : (j : ℕ) → j ≤ l.registers ipl → candidate l.registers j ≡ 0 → ¬ IsRaised l j
  not-IsRaised j q e raised =
      omega (arith, IsRaised-candidate l j (v.words (j / 32) (omega (arith, v.level))) raised)

  of_Answers : {r : ℕ} → Answers l.registers (l.registers ipl) 1 r → ClaimsLowest l r
  of_Answers (inl (e, none_left)) = inl (e, λ j p q. not-IsRaised j q (none_left j p (omega arith)))
  of_Answers {r} (inr first) = inr (
    first.from,
    omega (arith, first.below),
    candidate-IsRaised l r (v.words (r / 32) (omega (arith, v.level, first.below)))
        (omega (arith, first.set)),
    λ j p q. not-IsRaised j (omega (arith, first.below)) (first.least j p q),
  )

  -- In a valid controller a read of the claim register answers with the lowest-numbered interrupt
  -- that is pending, not masked off and not above the level, or with 0 when there is none.
  pub claim-ClaimsLowest : ClaimsLowest l (claim l)
  claim-ClaimsLowest = of_Answers (claim-Answers l)

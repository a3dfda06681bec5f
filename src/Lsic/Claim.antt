-- ===== src/Lsic/Claim.antt =====
-- The loop behind reads of LSIC_CLAIM_COMPLETE.
use xremu.Base.{ℕ, zero, suc, ◌+◌, ◌/◌, ◌≤◌, ◌<◌, ◌≡◌, ◌≢◌, refl, arith, ◌⊎◌, inl, inr, ◌%◌}
use native.Mathlib.Decide.{ℕ_discrete}
use xremu.Bits.{test_bit-lt}
use xremu.Lsic.{claim_from, unmasked}
use xremu.Lsic.Digits.{candidate, claim_test}

-- the interrupts `i`, …, `i + left - 1` are no candidates
abbrev pub NoneFrom : (ℕ → ℕ) → ℕ → ℕ → Type 0
NoneFrom regs left i = (j : ℕ) → i ≤ j → j < i + left → candidate regs j ≡ 0

-- `r` is the first candidate of that range
pub record IsFirst (regs : ℕ → ℕ) (left i r : ℕ) : Type 0 where
  pub from : i ≤ r
  pub below : r < i + left
  pub set : candidate regs r ≡ 1
  pub least : (j : ℕ) → i ≤ j → j < r → candidate regs j ≡ 0

claim_from-hit :
    (regs : ℕ → ℕ) (left i : ℕ) → candidate regs i ≢ 0 → claim_from regs (suc left) i ≡ i
unfolding claim_from
claim_from-hit regs left i h = ground (arith, claim_test regs i)

claim_from-miss :
    (regs : ℕ → ℕ) (left i : ℕ)
    → candidate regs i ≡ 0
    → claim_from regs (suc left) i ≡ claim_from regs left (i + 1)
unfolding claim_from
claim_from-miss regs left i h = ground (arith, claim_test regs i)

claim_from-zero : (regs : ℕ → ℕ) (i : ℕ) → claim_from regs 0 i ≡ 0
unfolding claim_from
claim_from-zero regs i = refl

-- Either no interrupt of the range is a candidate, and the answer is 0, or it is the first.
abbrev pub Answers : (ℕ → ℕ) → ℕ → ℕ → ℕ → Type 0
Answers regs left i r = ((r ≡ 0) × NoneFrom regs left i) ⊎ IsFirst regs left i r

-- One more interrupt in front of the range.
Answers-miss :
    (regs : ℕ → ℕ) (left i r : ℕ)
    → candidate regs i ≡ 0
    → Answers regs left (i + 1) r
    → Answers regs (suc left) i r
Answers-miss regs left i r miss (inl (none_left, e)) = inl (
  none_left,
  λ j p q. elim (ℕ_discrete j i) [
    | yes same ↦ rw same miss
    | no other ↦ e j (omega arith) (omega arith)
  ],
)
Answers-miss regs left i r miss (inr first) = inr (record {
  from = omega (arith, first.from);
  below = omega (arith, first.below);
  set = first.set;
  least = λ j p q. elim (ℕ_discrete j i) [
    | yes same ↦ rw same miss
    | no other ↦ first.least j (omega arith) q
  ];
})

pub claim_from-Answers : (regs : ℕ → ℕ) (left i : ℕ) → Answers regs left i (claim_from regs left i)
claim_from-Answers regs zero i =
    rw (claim_from-zero regs i) (inl (refl, λ j p q. absurd (omega arith)))
claim_from-Answers regs (suc left) i = elim (ℕ_discrete (candidate regs i) 0) [
  | yes miss ↦
      rw (claim_from-miss regs left i miss)
        (Answers-miss regs left i _ miss (claim_from-Answers regs left (i + 1)))
  | no hit ↦ rw (claim_from-hit regs left i hit) (
      inr (record {
        from = omega arith;
        below = omega arith;
        set = omega (arith, hit, test_bit-lt (unmasked regs (i / 32)) (i % 32));
        least = λ j p q. absurd (omega arith);
      }))
]

-- ===== src/Bits/Step.antt =====
-- One equation for the lowest digit of each native bit operation.
use Prim.Native.Nat.{digits, differ, bit_and-bitwise, bit_or-bitwise, bit_xor-bitwise}
use xremu.Base.{
  ℕ, zero, suc, ◌+◌, ◌-◌, ◌*◌, ap, ◌∙◌, ◌/◌, ◌%◌, ◌≤◌, ◌<◌, min, max, bit_and, bit_or, bit_xor, ◌≡◌,
  refl, arith,
}

-- The library counts down the digits it looks at. Counting on past the last digit adds nothing.
module _ (z : ℕ → ℕ) (f : ℕ → ℕ → ℕ) where
  one_more : (a n b : ℕ) → a ≤ n → digits z f (suc n) a b ≡ digits z f n a b
  one_more zero zero b short = refl
  one_more zero (suc n) b short = refl
  one_more (suc a) zero b short = absurd (omega arith)
  one_more (suc a) (suc n) b short = omega (arith, one_more (suc a / 2) n (b / 2) (omega arith))

  any_more : (k n a b : ℕ) → n ≡ k + a → digits z f n a b ≡ digits z f a a b
  any_more zero n a b e = ap (λ (m : ℕ). digits z f m a b) (omega arith)
  any_more (suc k) zero a b e = absurd (omega arith)
  any_more (suc k) (suc n) a b e = one_more a n b (omega arith) ∙ any_more k n a b (omega arith)

  digits-suc :
      (a b : ℕ)
      → digits z f (suc a) (suc a) b
        ≡ digits z f (suc a / 2) (suc a / 2) (b / 2) * 2 + f (suc a % 2) (b % 2)
  digits-suc a b = omega (arith, any_more (a - suc a / 2) a (suc a / 2) (b / 2) (omega arith))

-- The lowest digit and the rest, by the larger of two digits for `|`, the smaller for `&`, and the
-- sum without its carry for `^`.
pub bit_or_step : (x y : ℕ) → bit_or x y ≡ bit_or (x / 2) (y / 2) * 2 + max (x % 2) (y % 2)
bit_or_step (suc x) y = simp bit_or-bitwise (digits-suc (λ rest. rest) max x y)
bit_or_step zero y = simp bit_or-bitwise (omega arith)

differ-digits : (x y : ℕ) → x < 2 → y < 2 → differ x y ≡ (x + y) % 2
differ-digits zero y p q = omega arith
differ-digits (suc zero) zero p q = refl
differ-digits (suc zero) (suc zero) p q = refl
differ-digits (suc zero) (suc (suc y)) p q = absurd (omega arith)
differ-digits (suc (suc x)) y p q = absurd (omega arith)

pub bit_and_step : (x y : ℕ) → bit_and x y ≡ bit_and (x / 2) (y / 2) * 2 + min (x % 2) (y % 2)
bit_and_step (suc x) y = simp bit_and-bitwise (digits-suc (λ rest. 0) min x y)
bit_and_step zero y = simp bit_and-bitwise (omega arith)

pub bit_xor_step : (a b : ℕ) → bit_xor a b ≡ bit_xor (a / 2) (b / 2) * 2 + (a % 2 + b % 2) % 2
bit_xor_step zero b = simp bit_xor-bitwise (omega arith)
bit_xor_step (suc a) b =
    rw (← differ-digits (suc a % 2) (b % 2) (omega arith) (omega arith))
      (simp bit_xor-bitwise (digits-suc (λ y. y) differ a b))

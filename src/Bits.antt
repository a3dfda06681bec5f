-- ===== src/Bits.antt =====
-- The binary digits of a word, and what the bit operations do to each.
mod Step
pub mod Fields
use Prim.Native.Nat.{bit_and-bitwise, bit_or-bitwise, bit_xor-bitwise}
use native.Mathlib.Decide.{ℕ_discrete}
use Step.{bit_and_step, bit_or_step, bit_xor_step}
use native.Mathlib.Nat.{pow-suc, one-le-pow, div-add-mod', div-div-eq-div-mul, mul_comm}
use xremu.Base.{
  ℕ, zero, suc, ◌+◌, ◌-◌, ◌*◌, ◌/◌, ◌%◌, ◌^◌, ◌≤◌, ◌<◌, min, max, bit_and, bit_or, bit_xor, ◌≡◌,
  ◌≢◌, refl, arith, ◌⊎◌, inl, inr, ◌∙◌, ap, sym,
}

-- digit `i` of `x`
unfoldable pub test_bit : ℕ → ℕ → ℕ
test_bit x zero = x % 2
test_bit x (suc i) = test_bit (x / 2) i

pub test_bit-lt : (x i : ℕ) → test_bit x i < 2
unfolding test_bit
test_bit-lt x zero = omega arith
test_bit-lt x (suc i) = test_bit-lt (x / 2) i

half-bit_and : (x y : ℕ) → bit_and x y / 2 ≡ bit_and (x / 2) (y / 2)
half-bit_and x y = omega (arith, bit_and_step x y)

half-bit_or : (x y : ℕ) → bit_or x y / 2 ≡ bit_or (x / 2) (y / 2)
half-bit_or x y = omega (arith, bit_or_step x y)

half-bit_xor : (x y : ℕ) → bit_xor x y / 2 ≡ bit_xor (x / 2) (y / 2)
half-bit_xor x y = omega (arith, bit_xor_step x y)

pub test_bit-bit_and : (x y i : ℕ) → test_bit (bit_and x y) i ≡ min (test_bit x i) (test_bit y i)
unfolding test_bit
test_bit-bit_and x y zero = omega (arith, bit_and_step x y)
test_bit-bit_and x y (suc i) = rw (half-bit_and x y) (test_bit-bit_and (x / 2) (y / 2) i)

pub test_bit-bit_or : (x y i : ℕ) → test_bit (bit_or x y) i ≡ max (test_bit x i) (test_bit y i)
unfolding test_bit
test_bit-bit_or x y zero = omega (arith, bit_or_step x y)
test_bit-bit_or x y (suc i) = rw (half-bit_or x y) (test_bit-bit_or (x / 2) (y / 2) i)

pub test_bit-bit_xor : (x y i : ℕ) → test_bit (bit_xor x y) i ≡ (test_bit x i + test_bit y i) % 2
unfolding test_bit
test_bit-bit_xor x y zero = omega (arith, bit_xor_step x y)
test_bit-bit_xor x y (suc i) = rw (half-bit_xor x y) (test_bit-bit_xor (x / 2) (y / 2) i)

half-compl : (k x : ℕ) → x < 2 ^ suc k → (2 ^ suc k - 1 - x) / 2 ≡ 2 ^ k - 1 - x / 2
half-compl k x h = omega (arith, pow-suc 2 k, one-le-pow k 2)

-- `~x` in a word of `k` digits
pub test_bit-compl : (k x i : ℕ) → x < 2 ^ k → i < k → test_bit (2 ^ k - 1 - x) i ≡ 1 - test_bit x i
unfolding test_bit
test_bit-compl zero x i h lt = absurd (omega arith)
test_bit-compl (suc k) x zero h lt = omega (arith, pow-suc 2 k, one-le-pow k 2)
test_bit-compl (suc k) x (suc i) h lt =
    rw (half-compl k x h) (test_bit-compl k (x / 2) i (omega (arith, pow-suc 2 k)) (omega arith))

half-two-pow : (k : ℕ) → 2 ^ suc k / 2 ≡ 2 ^ k
half-two-pow k = omega (arith, pow-suc 2 k)

pub test_bit-zero : (i : ℕ) → test_bit 0 i ≡ 0
unfolding test_bit
test_bit-zero zero = refl
test_bit-zero (suc i) = test_bit-zero i

-- `1 << k` has the one digit
pub test_bit-two-pow : (k : ℕ) → test_bit (2 ^ k) k ≡ 1
unfolding test_bit
test_bit-two-pow zero = refl
test_bit-two-pow (suc k) = rw (half-two-pow k) (test_bit-two-pow k)

pub test_bit-two-pow_ne : (k i : ℕ) → i ≢ k → test_bit (2 ^ k) i ≡ 0
unfolding test_bit
test_bit-two-pow_ne zero zero ne = absurd (ne refl)
test_bit-two-pow_ne zero (suc i) ne = test_bit-zero i
test_bit-two-pow_ne (suc k) zero ne = omega (arith, pow-suc 2 k)
test_bit-two-pow_ne (suc k) (suc i) ne =
    rw (half-two-pow k) (test_bit-two-pow_ne k i (λ e. ne (omega arith)))

zero-bit_and : (y : ℕ) → bit_and 0 y ≡ 0
zero-bit_and y = bit_and-bitwise 0 y

zero-bit_or : (y : ℕ) → bit_or 0 y ≡ y
zero-bit_or y = bit_or-bitwise 0 y

-- The number of the lowest digit that is set, with `k` digits to look at.
pub test_bit_of_ne_zero : (k x : ℕ) → x < 2 ^ k → x ≢ 0 → (i : ℕ) × (i < k) × (test_bit x i ≡ 1)
unfolding test_bit
test_bit_of_ne_zero zero x h ne = absurd (ne (omega arith))
test_bit_of_ne_zero (suc k) x h ne = elim (ℕ_discrete (x % 2) 0) [
  | yes even ↦
      let (i, below, set) =
        test_bit_of_ne_zero k (x / 2) (omega (arith, pow-suc 2 k)) (λ e. ne (omega arith)) in
      (suc i, omega arith, set)
  | no odd ↦ (zero, omega arith, omega arith)
]

pub bits_ext :
    (k x y : ℕ) → x < 2 ^ k → y < 2 ^ k → ((i : ℕ) → i < k → test_bit x i ≡ test_bit y i) → x ≡ y
unfolding test_bit
bits_ext zero x y h g e = omega arith
bits_ext (suc k) x y h g e = omega (
  arith,
  e 0 (omega arith),
  bits_ext k (x / 2) (y / 2) (omega (arith, pow-suc 2 k)) (omega (arith, pow-suc 2 k))
      (λ i below. e (suc i) (omega arith)),
)

pub bit_and-lt : (k x y : ℕ) → x < 2 ^ k → bit_and x y < 2 ^ k
bit_and-lt zero zero y h = omega (arith, zero-bit_and y)
bit_and-lt zero (suc x) y h = absurd (omega arith)
bit_and-lt (suc k) x y h = omega (
  arith,
  bit_and_step x y,
  pow-suc 2 k,
  bit_and-lt k (x / 2) (y / 2) (omega (arith, pow-suc 2 k)),
)

pub bit_or-lt : (k x y : ℕ) → x < 2 ^ k → y < 2 ^ k → bit_or x y < 2 ^ k
bit_or-lt zero zero y h g = omega (arith, zero-bit_or y)
bit_or-lt zero (suc x) y h g = absurd (omega arith)
bit_or-lt (suc k) x y h g = omega (
  arith,
  bit_or_step x y,
  pow-suc 2 k,
  bit_or-lt k (x / 2) (y / 2) (omega (arith, pow-suc 2 k)) (omega (arith, pow-suc 2 k)),
)

pub bit_xor-lt : (k x y : ℕ) → x < 2 ^ k → y < 2 ^ k → bit_xor x y < 2 ^ k
bit_xor-lt zero zero y h g = omega (arith, bit_xor-bitwise 0 y)
bit_xor-lt zero (suc x) y h g = absurd (omega arith)
bit_xor-lt (suc k) x y h g = omega (
  arith,
  bit_xor_step x y,
  pow-suc 2 k,
  bit_xor-lt k (x / 2) (y / 2) (omega (arith, pow-suc 2 k)) (omega (arith, pow-suc 2 k)),
)

-- By a count `n` of digits that reaches both.
bit_and_comm_below : (n x y : ℕ) → x ≤ n → y ≤ n → bit_and x y ≡ bit_and y x
bit_and_comm_below zero x y h g =
    let x0 : x ≡ 0 = omega arith in let y0 : y ≡ 0 = omega arith in rw (x0, y0)
bit_and_comm_below (suc n) x y h g = omega (
  arith,
  bit_and_step x y,
  bit_and_step y x,
  bit_and_comm_below n (x / 2) (y / 2) (omega arith) (omega arith),
)

pub bit_and_comm : (x y : ℕ) → bit_and x y ≡ bit_and y x
bit_and_comm x y = bit_and_comm_below (x + y) x y (omega arith) (omega arith)

bit_or_comm_below : (n x y : ℕ) → x ≤ n → y ≤ n → bit_or x y ≡ bit_or y x
bit_or_comm_below zero x y h g =
    let x0 : x ≡ 0 = omega arith in let y0 : y ≡ 0 = omega arith in rw (x0, y0)
bit_or_comm_below (suc n) x y h g = omega (
  arith,
  bit_or_step x y,
  bit_or_step y x,
  bit_or_comm_below n (x / 2) (y / 2) (omega arith) (omega arith),
)

pub bit_or_comm : (x y : ℕ) → bit_or x y ≡ bit_or y x
bit_or_comm x y = bit_or_comm_below (x + y) x y (omega arith) (omega arith)

pub bit_or-zero : (x : ℕ) → bit_or x 0 ≡ x
bit_or-zero x = bit_or_comm x 0 ∙ zero-bit_or x

pub bit_and-zero : (x : ℕ) → bit_and x 0 ≡ 0
bit_and-zero x = bit_and_comm x 0 ∙ zero-bit_and x

split-pow : (q k : ℕ) → q * 2 ^ suc k ≡ 2 * (q * 2 ^ k)
split-pow q k = omega (arith, ap (λ (p : ℕ). q * p) (pow-suc 2 k))

half-ones : (k : ℕ) → (2 ^ suc k - 1) / 2 ≡ 2 ^ k - 1
half-ones k = omega (arith, pow-suc 2 k, one-le-pow k 2)

mod-double : (p x : ℕ) → x % (p * 2) ≡ x / 2 % p * 2 + x % 2
mod-double p x = omega (
  arith,
  div-add-mod' x (p * 2),
  div-add-mod' (x / 2) p,
  div-div-eq-div-mul x 2 p,
  ap (λ (q : ℕ). x / q) (mul_comm 2 p),
  ap (λ (q : ℕ). q * p) (div-div-eq-div-mul x 2 p ∙ ap (λ (q : ℕ). x / q) (mul_comm 2 p)),
)

pub mod-pow-suc : (k x : ℕ) → x % 2 ^ suc k ≡ x / 2 % 2 ^ k * 2 + x % 2
mod-pow-suc k x = ap (λ (q : ℕ). x % q) (pow-suc 2 k) ∙ mod-double (2 ^ k) x

pub half-div : (k x : ℕ) → x / 2 / 2 ^ k ≡ x / 2 ^ suc k
half-div k x =
    div-div-eq-div-mul x 2 (2 ^ k) ∙ ap (λ (q : ℕ). x / q) (mul_comm 2 (2 ^ k) ∙ sym (pow-suc 2 k))

-- `x & 1`, `x & 3`, …: the remainder.
pub bit_and-ones : (k x : ℕ) → bit_and x (2 ^ k - 1) ≡ x % 2 ^ k
bit_and-ones zero x = bit_and-zero x ∙ omega arith
bit_and-ones (suc k) x = omega (
  arith,
  bit_and_step x (2 ^ suc k - 1),
  ap (bit_and (x / 2)) (half-ones k),
  bit_and-ones k (x / 2),
  mod-pow-suc k x,
  pow-suc 2 k,
  one-le-pow k 2,
)

-- A mask that is clear below digit `k` acts on what stands above it.
pub bit_and-shifted : (k x m : ℕ) → bit_and x (m * 2 ^ k) ≡ bit_and (x / 2 ^ k) m * 2 ^ k
bit_and-shifted zero x m = ground (arith)
bit_and-shifted (suc k) x m = ground (
  arith,
  bit_and_step x (m * 2 ^ suc k),
  split-pow m k,
  split-pow (bit_and (x / 2 ^ suc k) m) k,
  bit_and-shifted k (x / 2) m,
  half-div k x,
)

-- Fields that do not overlap are joined by `|` as by a sum.
pub bit_or-fields : (k q r : ℕ) → r < 2 ^ k → bit_or (q * 2 ^ k) r ≡ q * 2 ^ k + r
bit_or-fields zero q r h = ground (arith, bit_or-zero q)
bit_or-fields (suc k) q r h =
    ground
      (arith, bit_or_step (q * 2 ^ suc k) r, split-pow q k, pow-suc 2 k, bit_or-fields k q (r / 2))

-- `(x >> i) & 1`
pub test_bit_lem : (x i : ℕ) → test_bit x i ≡ x / 2 ^ i % 2
unfolding test_bit
test_bit_lem x zero = omega arith
test_bit_lem x (suc i) = test_bit_lem (x / 2) i ∙ ap (λ (q : ℕ). q % 2) (half-div i x)

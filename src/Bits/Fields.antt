-- ===== src/Bits/Fields.antt =====
-- Words cut in two at digit `k`.
use native.Mathlib.Nat.{pow-suc}
use xremu.Base.{ℕ, zero, suc, ◌+◌, ◌*◌, ◌/◌, ◌%◌, ◌^◌, bit_and, bit_or, ◌≡◌, arith, ap}
use xremu.Bits.Step.{bit_and_step, bit_or_step}
use xremu.Bits.{mod-pow-suc, half-div, bit_and-zero, bit_or-zero}

half-mod : (k x : ℕ) → x % 2 ^ suc k / 2 ≡ x / 2 % 2 ^ k
half-mod k x = omega (arith, mod-pow-suc k x)

parity-mod : (k x : ℕ) → x % 2 ^ suc k % 2 ≡ x % 2
parity-mod k x = omega (arith, mod-pow-suc k x)

double-pow : (q k : ℕ) → q * 2 ^ suc k ≡ q * 2 ^ k * 2
double-pow q k = omega (arith, ap (λ (p : ℕ). q * p) (pow-suc 2 k))

pub bit_and-split :
    (k x y : ℕ)
    → bit_and x y ≡ bit_and (x / 2 ^ k) (y / 2 ^ k) * 2 ^ k + bit_and (x % 2 ^ k) (y % 2 ^ k)
bit_and-split zero x y = ground (arith, bit_and-zero 0)
bit_and-split (suc k) x y = ground (
  arith,
  bit_and_step x y,
  bit_and-split k (x / 2) (y / 2),
  half-div k x,
  half-div k y,
  bit_and_step (x % 2 ^ suc k) (y % 2 ^ suc k),
  half-mod k x,
  half-mod k y,
  parity-mod k x,
  parity-mod k y,
  double-pow (bit_and (x / 2 ^ suc k) (y / 2 ^ suc k)) k,
)

pub bit_or-split :
    (k x y : ℕ)
    → bit_or x y ≡ bit_or (x / 2 ^ k) (y / 2 ^ k) * 2 ^ k + bit_or (x % 2 ^ k) (y % 2 ^ k)
bit_or-split zero x y = ground (arith, bit_or-zero 0)
bit_or-split (suc k) x y = ground (
  arith,
  bit_or_step x y,
  bit_or-split k (x / 2) (y / 2),
  half-div k x,
  half-div k y,
  bit_or_step (x % 2 ^ suc k) (y % 2 ^ suc k),
  half-mod k x,
  half-mod k y,
  parity-mod k x,
  parity-mod k y,
  double-pow (bit_or (x / 2 ^ suc k) (y / 2 ^ suc k)) k,
)

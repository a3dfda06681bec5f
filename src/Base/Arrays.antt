-- ===== src/Base/Arrays.antt =====
-- A C array of fixed size is a function of its index; a table of literals is a list.
use Prim.Native.Nat.{ℕ, zero, suc}
use mathlib.Core.Path.{◌≡◌, fun_ext, ap, sym, ◌∙◌}
use mathlib.Core.Logic.{◌≢◌}
use mathlib.Core.List.{List, [], ◌∷◌}
use native.Mathlib.Decide.{ℕ_discrete}
use native.Mathlib.Omega.{arith}
use xremu.Base.Tests.{◌==◌, if◌then◌else◌}

module _ {ℓ} {A : Type ℓ} where
  -- `a[i] = v`
  abbrev pub update : (ℕ → A) → ℕ → A → ℕ → A
  update a i v j = if j == i then v else a j

  pub update_self : (a : ℕ → A) (i : ℕ) (v : A) → update a i v i ≡ v
  update_self a i v = ground arith

  pub update-ne : (a : ℕ → A) (i j : ℕ) (v : A) → j ≢ i → update a i v j ≡ a j
  update-ne a i j v h = ground arith

  abbrev pub get_or : List A → ℕ → A → A
  get_or [] i d = d
  get_or (x ∷ xs) zero d = x
  get_or (x ∷ xs) (suc i) d = get_or xs i d

pub update_same {ℓ} : {A : Type ℓ} (a : ℕ → A) (k : ℕ) → update a k (a k) ≡ a
update_same a k = fun_ext λ j. elim (ℕ_discrete j k) [
  | yes e ↦ ap (update a k (a k)) e ∙ update_self a k (a k) ∙ ap a (sym e)
  | no ne ↦ update-ne a k j (a k) ne
]

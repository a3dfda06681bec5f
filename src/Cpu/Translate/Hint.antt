-- ===== src/Cpu/Translate/Hint.antt =====
-- The lookup hint: a translation that succeeded is repeated from it.
use xremu.Base.{
  ℕ, ◌⊎◌, ◌+◌, ◌*◌, ◌/◌, ◌%◌, ◌^◌, ◌≡◌, refl, arith, true, false, Bool, if◌then◌else◌, ◌>>◌, subst,
  ap, ◌∙◌, eq→==,
}
use xremu.Cpu.State.{Processor, rs}
use xremu.Cpu.Translate.{
  hit, Translation, mapped, faulted, entry_for, check_entry, translate, set_hint,
}
use xremu.Cpu.Translate.Check.{
  IsChecked, not_valid, not_for_user, not_writable, granted, IsTranslated, an_entry, no_entry,
  translate-IsTranslated, from_entry, translate_lem, bit_one, bit_two, bit_four, physical,
}
use xremu.Bits.{bit_and-ones}

-- the check that ends in a grant
grant :
    (p : Processor) (entry virtual phys flags : ℕ) (writing ifetch : Bool)
    → entry % 2 ≡ 1
    → (p.cr rs % 2 ≡ 0) ⊎ (entry / 4 % 2 ≡ 0)
    → (writing ≡ false) ⊎ (entry / 2 % 2 ≡ 1)
    → phys ≡ entry / 2 ^ 5 % 2 ^ 20 * 2 ^ 12 + virtual % 2 ^ 12
    → flags ≡ entry % 2 ^ 5
    → check_entry p entry virtual writing ifetch
      ≡ mapped (set_hint p (virtual >> 12) entry ifetch) phys flags
unfolding check_entry
grant p entry virtual phys flags writing ifetch valid kernel write at bits = ground (
  arith,
  bit_one entry,
  bit_one (p.cr rs),
  bit_four entry,
  bit_two entry,
  physical entry virtual,
  bit_and-ones 5 entry,
)

entry-again :
    (p : Processor) (entry virtual : ℕ) (writing ifetch : Bool)
    → entry_for (set_hint p (virtual >> 12) entry ifetch) virtual writing ifetch
      ≡ hit (if ifetch then entry else entry % 2 ^ 32)
unfolding entry_for
entry-again p entry virtual writing true =
    ground (arith, eq→== (virtual >> 12) (virtual >> 12) refl)
entry-again p entry virtual writing false =
    ground (arith, eq→== (virtual >> 12) (virtual >> 12) refl)

from_hint :
    (q : Processor) (entry virtual : ℕ) (writing ifetch : Bool)
    → entry_for q virtual writing ifetch ≡ hit entry
    → translate q virtual writing ifetch ≡ check_entry q entry virtual writing ifetch
unfolding from_entry
from_hint q entry virtual writing ifetch h =
    translate_lem q virtual writing ifetch ∙ ap (from_entry q virtual writing ifetch) h

granted-again :
    (p : Processor) (entry virtual phys flags : ℕ) (writing ifetch : Bool)
    → entry % 2 ≡ 1
    → (p.cr rs % 2 ≡ 0) ⊎ (entry / 4 % 2 ≡ 0)
    → (writing ≡ false) ⊎ (entry / 2 % 2 ≡ 1)
    → phys ≡ entry / 2 ^ 5 % 2 ^ 20 * 2 ^ 12 + virtual % 2 ^ 12
    → flags ≡ entry % 2 ^ 5
    → translate (set_hint p (virtual >> 12) entry ifetch) virtual writing ifetch
      ≡ mapped (set_hint p (virtual >> 12) entry ifetch) phys flags
granted-again p entry virtual phys flags writing true valid kernel write at bits =
    from_hint _ entry virtual writing true (entry-again p entry virtual writing true)
    ∙ grant (set_hint p (virtual >> 12) entry true) entry virtual phys flags writing true valid
        kernel write at bits
granted-again p entry virtual phys flags writing false valid kernel write at bits =
    from_hint _ (entry % 2 ^ 32) virtual writing false (entry-again p entry virtual writing false)
    ∙ grant (set_hint p (virtual >> 12) entry false) (entry % 2 ^ 32) virtual phys flags writing
        false (omega arith) (ground (arith, kernel)) (ground (arith, write)) (omega arith)
        (omega arith)
    ∙ ap
        (λ (e : ℕ).
          mapped (record p { dtb_last_vpn = virtual >> 12; dtb_last_result = e }) phys flags)
        (omega arith)

data IsStable (virtual : ℕ) (writing ifetch : Bool) : Translation → Type 0 where
  stable_fault : (q : Processor) → IsStable virtual writing ifetch (faulted q)
  stable :
      (q : Processor) (phys flags : ℕ)
      → translate q virtual writing ifetch ≡ mapped q phys flags
      → IsStable virtual writing ifetch (mapped q phys flags)

checked-IsStable :
    (p : Processor) (entry virtual : ℕ) (writing ifetch : Bool) (t : Translation)
    → IsChecked p entry virtual writing ifetch t
    → IsStable virtual writing ifetch t
checked-IsStable p entry virtual writing ifetch t (not_valid _) = stable_fault _
checked-IsStable p entry virtual writing ifetch t (not_for_user _ _ _) = stable_fault _
checked-IsStable p entry virtual writing ifetch t (not_writable _ _ _) = stable_fault _
checked-IsStable p entry virtual writing ifetch t (granted phys flags valid kernel write at bits) =
    stable _ phys flags
      (granted-again p entry virtual phys flags writing ifetch valid kernel write at bits)

again :
    (p : Processor) (virtual : ℕ) (writing ifetch : Bool) (t : Translation)
    → IsTranslated p virtual writing ifetch t
    → IsStable virtual writing ifetch t
again p virtual writing ifetch t (no_entry q _) = stable_fault q
again p virtual writing ifetch t (an_entry entry _ _ checked) =
    checked-IsStable p entry virtual writing ifetch t checked

from_stable :
    (virtual : ℕ) (writing ifetch : Bool) (q : Processor) (phys flags : ℕ)
    → IsStable virtual writing ifetch (mapped q phys flags)
    → translate q virtual writing ifetch ≡ mapped q phys flags
from_stable virtual writing ifetch q phys flags (stable _ _ _ h) = h

-- The hint gives what the lookup gave: an access that was translated is translated alike from the
-- processor it leaves, which now goes by the hint.
pub translate-IsRepeated :
    (p q : Processor) (virtual phys flags : ℕ) (writing ifetch : Bool)
    → translate p virtual writing ifetch ≡ mapped q phys flags
    → translate q virtual writing ifetch ≡ mapped q phys flags
translate-IsRepeated p q virtual phys flags writing ifetch h =
    from_stable virtual writing ifetch q phys flags (
      subst (IsStable virtual writing ifetch) h
        (again p virtual writing ifetch _ (translate-IsTranslated p virtual writing ifetch)))

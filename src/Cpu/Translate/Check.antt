-- ===== src/Cpu/Translate/Check.antt =====
-- What `XrTranslate` checks and what it returns, with the fields of an entry as numbers: valid,
-- writable and kernel in bits 0 to 2, the page frame from bit 5.
use xremu.Base.{
  ℕ, ◌⊎◌, ◌+◌, ◌*◌, ◌/◌, ◌%◌, ◌^◌, ◌≡◌, refl, arith, bit_and, ◌==◌, ◌!=◌, ◌&&◌, true, false, Bool,
  if_cases, add32,
}
use xremu.Bits.{bit_and-ones, bit_and-shifted}
use xremu.Cpu.State.{Processor, rs, rs_user}
use xremu.Cpu.Translate.{
  Lookup, hit, missed, Translation, mapped, faulted, entry_for, check_entry, translate, set_hint,
  invalid_fault, protection_fault,
}

-- How the check of `entry` for an access ends.
pub data IsChecked (p : Processor) (entry virtual : ℕ) (writing ifetch : Bool)
    : Translation → Type 0 where
  not_valid :
      entry % 2 ≡ 0
      → IsChecked p entry virtual writing ifetch (faulted (invalid_fault p virtual writing))
  not_for_user :
      entry % 2 ≡ 1
      → entry / 4 % 2 ≡ 1
      → p.cr rs % 2 ≡ 1
      → IsChecked p entry virtual writing ifetch (faulted (protection_fault p virtual writing))
  not_writable :
      entry % 2 ≡ 1
      → writing ≡ true
      → entry / 2 % 2 ≡ 0
      → IsChecked p entry virtual writing ifetch (faulted (protection_fault p virtual writing))
  granted :
      (phys flags : ℕ)
      → entry % 2 ≡ 1
      → (p.cr rs % 2 ≡ 0) ⊎ (entry / 4 % 2 ≡ 0)
      → (writing ≡ false) ⊎ (entry / 2 % 2 ≡ 1)
      → phys ≡ entry / 2 ^ 5 % 2 ^ 20 * 2 ^ 12 + virtual % 2 ^ 12
      → flags ≡ entry % 2 ^ 5
      → IsChecked p entry virtual writing ifetch
          (mapped (set_hint p (virtual / 2 ^ 12) entry ifetch) phys flags)

pub bit_one : (x : ℕ) → bit_and x 1 ≡ x % 2
bit_one x = omega (arith, bit_and-ones 1 x)

pub bit_two : (x : ℕ) → bit_and x 2 ≡ x / 2 % 2 * 2
bit_two x = omega (arith, bit_and-shifted 1 x 1, bit_and-ones 1 (x / 2))

pub bit_four : (x : ℕ) → bit_and x 4 ≡ x / 4 % 2 * 4
bit_four x = omega (arith, bit_and-shifted 2 x 1, bit_and-ones 1 (x / 4))

pub physical :
    (entry virtual : ℕ)
    → add32 (bit_and entry 0x1FFFFE0 * 2 ^ 7) (bit_and virtual 0xFFF)
      ≡ entry / 2 ^ 5 % 2 ^ 20 * 2 ^ 12 + virtual % 2 ^ 12
physical entry virtual = omega (
  arith,
  bit_and-shifted 5 entry 0xFFFFF,
  bit_and-ones 20 (entry / 2 ^ 5),
  bit_and-ones 12 virtual,
)

-- The check of an entry
pub check_entry-IsChecked :
    (p : Processor) (entry virtual : ℕ) (writing ifetch : Bool)
    → IsChecked p entry virtual writing ifetch (check_entry p entry virtual writing ifetch)
unfolding check_entry
check_entry-IsChecked p entry virtual writing ifetch =
    if_cases (IsChecked p entry virtual writing ifetch) (bit_and entry 1 == 0)
      (λ e. not_valid (ground (arith, bit_one entry)))
      (λ valid.
        if_cases (IsChecked p entry virtual writing ifetch)
          (bit_and entry 4 != 0 && bit_and (p.cr rs) rs_user != 0)
          (λ e.
            not_for_user (ground (arith, bit_one entry)) (ground (arith, bit_four entry))
              (ground (arith, bit_one (p.cr rs))))
          (λ user.
            if_cases (IsChecked p entry virtual writing ifetch) (writing && bit_and entry 2 == 0)
              (λ e.
                not_writable (ground (arith, bit_one entry)) (ground arith)
                  (ground (arith, bit_two entry)))
              (λ write.
                granted _ _ (ground (arith, bit_one entry))
                  (ground (arith, bit_one (p.cr rs), bit_four entry))
                  (ground (arith, bit_two entry)) (physical entry virtual) (bit_and-ones 5 entry))))

pub data IsTranslated (p : Processor) (virtual : ℕ) (writing ifetch : Bool)
    : Translation → Type 0 where
  no_entry :
      (q : Processor)
      → entry_for p virtual writing ifetch ≡ missed q
      → IsTranslated p virtual writing ifetch (faulted q)
  an_entry :
      (entry : ℕ) (t : Translation)
      → entry_for p virtual writing ifetch ≡ hit entry
      → IsChecked p entry virtual writing ifetch t
      → IsTranslated p virtual writing ifetch t

unfoldable pub from_entry : Processor → ℕ → Bool → Bool → Lookup → Translation
from_entry p virtual writing ifetch (hit entry) = check_entry p entry virtual writing ifetch
from_entry p virtual writing ifetch (missed q) = faulted q

from_entry-IsTranslated :
    (p : Processor) (virtual : ℕ) (writing ifetch : Bool) (l : Lookup)
    → entry_for p virtual writing ifetch ≡ l
    → IsTranslated p virtual writing ifetch (from_entry p virtual writing ifetch l)
unfolding from_entry
from_entry-IsTranslated p virtual writing ifetch (hit entry) h =
    an_entry entry _ h (check_entry-IsChecked p entry virtual writing ifetch)
from_entry-IsTranslated p virtual writing ifetch (missed q) h = no_entry q h

pub translate_lem :
    (p : Processor) (virtual : ℕ) (writing ifetch : Bool)
    → translate p virtual writing ifetch
      ≡ from_entry p virtual writing ifetch (entry_for p virtual writing ifetch)
unfolding translate from_entry
translate_lem p virtual writing ifetch = refl

-- XrTranslate ends in a TB miss, or it has an entry and decides by the entry: a fault for one that
-- is not valid, for a kernel page in user mode and for a write to a page that is not writable;
-- otherwise the address in the entry's frame and the entry's flags, with only the hint changed.
pub translate-IsTranslated :
    (p : Processor) (virtual : ℕ) (writing ifetch : Bool)
    → IsTranslated p virtual writing ifetch (translate p virtual writing ifetch)
translate-IsTranslated p virtual writing ifetch =
    rw (translate_lem p virtual writing ifetch)
      (from_entry-IsTranslated p virtual writing ifetch _ refl)

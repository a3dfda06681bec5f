-- ===== src/Cpu/Memory/Placed.antt =====
-- Where `XrAccess` finds an address: translation keeps the place in the page, and nothing of the
-- processor but its lookup hint changes.
use xremu.Base.{
  ℕ, ◌/◌, ◌%◌, ◌^◌, ◌≡◌, refl, arith, Bool, true, false, leb, if◌then◌else◌, if_cases, bit_and,
  ◌!=◌,
}
use xremu.Cpu.State.{Processor, rs, rs_mmu}
use xremu.Cpu.Translate.{Translation, mapped, faulted, translate, set_hint}
use xremu.Cpu.Translate.Check.{
  IsChecked, not_valid, not_for_user, not_writable, granted, IsTranslated, no_entry, an_entry,
  translate-IsTranslated,
}
use xremu.Cpu.Memory.{locate, noncached_phys_base, pte_noncached}

-- The same processor with the same data cache, and an address at the same place of its page.
pub record IsPlaced (p : Processor) (virtual : ℕ) (q : Processor) (phys : ℕ) : Type 0 where
  pub id : q.id ≡ p.id
  pub dcache : q.dcache ≡ p.dcache
  pub reg : q.reg ≡ p.reg
  pub locked : q.locked ≡ p.locked
  pub pc : q.pc ≡ p.pc
  pub cr : q.cr ≡ p.cr
  pub place : phys % 2 ^ 12 ≡ virtual % 2 ^ 12

abbrev pub IsLocated : Processor → ℕ → Translation → Type 0
IsLocated p virtual (mapped q phys flags) = IsPlaced p virtual q phys
IsLocated p virtual (faulted q) = Unit

hinted :
    (p : Processor) (virtual n entry phys : ℕ) (fetch : Bool)
    → phys % 2 ^ 12 ≡ virtual % 2 ^ 12
    → IsPlaced p virtual (set_hint p n entry fetch) phys
hinted p virtual n entry phys true at = record {
  id = refl;
  dcache = refl;
  reg = refl;
  locked = refl;
  pc = refl;
  cr = refl;
  place = at;
}
hinted p virtual n entry phys false at = record {
  id = refl;
  dcache = refl;
  reg = refl;
  locked = refl;
  pc = refl;
  cr = refl;
  place = at;
}

checked :
    (p : Processor) (entry virtual : ℕ) (writing fetch : Bool) (t : Translation)
    → IsChecked p entry virtual writing fetch t
    → IsLocated p virtual t
checked p entry virtual writing fetch _ (not_valid e) = tt
checked p entry virtual writing fetch _ (not_for_user e e' e'') = tt
checked p entry virtual writing fetch _ (not_writable e e' e'') = tt
checked p entry virtual writing fetch _ (granted phys flags e e' e'' at same) =
    hinted p virtual (virtual / 2 ^ 12) entry phys fetch (omega (arith, at))

pub translated :
    (p : Processor) (virtual : ℕ) (writing fetch : Bool) (t : Translation)
    → IsTranslated p virtual writing fetch t
    → IsLocated p virtual t
translated p virtual writing fetch _ (no_entry q e) = tt
translated p virtual writing fetch _ (an_entry entry t e how) =
    checked p entry virtual writing fetch t how

pub locate-IsLocated :
    (p : Processor) (virtual : ℕ) (writing : Bool) → IsLocated p virtual (locate p virtual writing)
unfolding locate
locate-IsLocated p virtual writing =
    if_cases (IsLocated p virtual) (bit_and (p.cr rs) rs_mmu != 0)
      {x = translate p virtual writing false}
      {y = mapped p virtual (if leb noncached_phys_base virtual then pte_noncached else 0)}
      (λ _.
        translated p virtual writing false (translate p virtual writing false)
          (translate-IsTranslated p virtual writing false))
      (λ _. record {
        id = refl;
        dcache = refl;
        reg = refl;
        locked = refl;
        pc = refl;
        cr = refl;
        place = refl;
      })

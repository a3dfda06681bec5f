-- ===== src/Cpu/System/Control/TbControl.antt =====
-- What a write to ITBCTRL or DTBCTRL throws out of the TB.
use xremu.Base.{
  ℕ, zero, suc, ◌+◌, ◌-◌, ◌*◌, ◌/◌, ◌%◌, ◌^◌, ◌≤◌, ◌<◌, ◌≡◌, ◌≢◌, refl, arith, bit_and, ◌==◌, ◌&&◌,
  leb, true, false, Bool, if◌then◌else◌, ◌>>◌, none, ◌∙◌, ap, if_cases,
}
use xremu.Bits.{bit_and-ones, bit_and-shifted, bit_or-fields}
use xremu.Cpu.State.{Processor, tb_size, itbtag, dtbtag}
use xremu.Cpu.State.Loops.{for_range-entry}
use xremu.Cpu.System.Control.{
  tb_control, hint_control, drop_vpn, drop_not_global, tb_invalid_entry, write_itbctrl,
  write_dtbctrl,
}
use xremu.Cpu.Translate.{
  hits, matching, find_entry, entry_for, lookup_itb, lookup_dtb, missed, itb_miss, dtb_miss,
}

low_two : (value : ℕ) → bit_and value 3 ≡ value % 4
low_two value = bit_and-ones 2 value

-- Each of the 32 entries of a TB after a write to its control register: operation 3 drops it, 2
-- drops it unless it is global or one of the four wired ones, 1 drops it unless it is wired, and 0
-- drops it if it is for the page, under whatever address space; any other entry is as before.
pub tb_control-entry :
    (value : ℕ) (tb : ℕ → ℕ) (j : ℕ)
    → j < 32
    → tb_control value tb j ≡ (
        if value % 4 == 3
        then tb_invalid_entry
        else if value % 4 == 2
        then (if leb 4 j && tb j / 16 % 2 == 0 then tb_invalid_entry else tb j)
        else if value % 4 == 1
        then (if leb 4 j then tb_invalid_entry else tb j)
        else if tb j / 2 ^ 32 % 2 ^ 20 == value / 2 ^ 12
        then tb_invalid_entry
        else tb j)
unfolding tb_control drop_vpn drop_not_global
tb_control-entry value tb j below = ground (
  arith,
  low_two value,
  for_range-entry (λ _. tb_invalid_entry) tb_size 0 tb j,
  for_range-entry drop_not_global (tb_size - 4) 4 tb j,
  for_range-entry (λ _. tb_invalid_entry) (tb_size - 4) 4 tb j,
  for_range-entry (drop_vpn ((value >> 12) * 2 ^ 32)) tb_size 0 tb j,
  bit_and-shifted 4 (tb j) 1,
  bit_and-ones 1 (tb j / 2 ^ 4),
  bit_and-shifted 32 (tb j) 0xFFFFF,
  bit_and-ones 20 (tb j / 2 ^ 32),
)

tag_fields : (tag vpn : ℕ) → vpn < 2 ^ 20 → matching tag vpn ≡ tag / 2 ^ 20 % 2 ^ 12 * 2 ^ 20 + vpn
tag_fields tag vpn h = ground (
  arith,
  bit_and-shifted 20 tag 0xFFF,
  bit_and-ones 12 (tag / 2 ^ 20),
  bit_or-fields 20 (tag / 2 ^ 20 % 2 ^ 12) vpn,
)

-- a hit agrees on the page, and an invalid entry is hit by one tag only
hits_page : (entry match : ℕ) → entry / 2 ^ 32 % 2 ^ 20 ≢ match % 2 ^ 20 → hits entry match ≡ false
hits_page entry match ne = ground (
  arith,
  bit_and-ones 20 (entry / 2 ^ 32),
  bit_and-ones 32 (entry / 2 ^ 32),
  bit_and-ones 20 match,
  bit_and-ones 32 match,
)

hits_invalid :
    (match : ℕ) → match < 2 ^ 32 → match ≢ 0xFFF00000 → hits tb_invalid_entry match ≡ false
hits_invalid match h ne = ground (arith, bit_and-ones 32 match)

find_entry-none :
    (tb : ℕ → ℕ) (match n i : ℕ)
    → ((j : ℕ) → i ≤ j → j < i + n → hits (tb j) match ≡ false)
    → find_entry tb match n i ≡ none
unfolding find_entry
find_entry-none tb match zero i h = refl
find_entry-none tb match (suc n) i h = ground (
  arith,
  h i (omega arith) (omega arith),
  find_entry-none tb match n (i + 1) (λ j le lt. h j (omega arith) (omega arith)),
)

-- the operations that drop the page of `virtual`
pub data DropsPage (value virtual : ℕ) : Type 0 where
  drops_all : value % 4 ≡ 3 → DropsPage value virtual
  drops_page : value % 4 ≡ 0 → virtual / 2 ^ 12 ≡ value / 2 ^ 12 → DropsPage value virtual

module _ (tb : ℕ → ℕ) (value virtual tag : ℕ) (fits : virtual < 2 ^ 32)
    (named : matching tag (virtual >> 12) ≢ 0xFFF00000) where
  invalid_miss : hits tb_invalid_entry (matching tag (virtual >> 12)) ≡ false
  invalid_miss =
      hits_invalid (matching tag (virtual >> 12))
        (omega (arith, tag_fields tag (virtual >> 12) (omega arith))) named

  other_miss :
      (entry : ℕ)
      → entry / 2 ^ 32 % 2 ^ 20 ≢ virtual / 2 ^ 12
      → hits entry (matching tag (virtual >> 12)) ≡ false
  other_miss entry ne =
      hits_page entry (matching tag (virtual >> 12))
        (λ e. ne (omega (arith, e, tag_fields tag (virtual >> 12) (omega arith))))

  entry_miss :
      (j : ℕ)
      → j < 32
      → DropsPage value virtual
      → hits (tb_control value tb j) (matching tag (virtual >> 12)) ≡ false
  entry_miss j below (drops_all h) =
      ap (λ (e : ℕ). hits e (matching tag (virtual >> 12))) {y = tb_invalid_entry}
        (ground (arith, tb_control-entry value tb j below))
      ∙ invalid_miss
  entry_miss j below (drops_page h page) =
      ap (λ (e : ℕ). hits e (matching tag (virtual >> 12)))
        (ground (arith, tb_control-entry value tb j below))
      ∙ if_cases (λ (e : ℕ). hits e (matching tag (virtual >> 12)) ≡ false)
          (tb j / 2 ^ 32 % 2 ^ 20 == value / 2 ^ 12) {x = tb_invalid_entry} {y = tb j}
          (λ _. invalid_miss) (λ e. other_miss (tb j) (ground arith))

  lookup_miss :
      DropsPage value virtual
      → find_entry (tb_control value tb) (matching tag (virtual >> 12)) tb_size 0 ≡ none
  lookup_miss drops =
      find_entry-none (tb_control value tb) (matching tag (virtual >> 12)) 32 0
        (λ j le lt. entry_miss j lt drops)

hint_miss :
    (value virtual last : ℕ)
    → virtual < 2 ^ 32
    → DropsPage value virtual
    → (hint_control value last == virtual >> 12) ≡ false
unfolding hint_control
hint_miss value virtual last fits (drops_all h) = ground (arith, low_two value)
hint_miss value virtual last fits (drops_page h page) = ground (arith, low_two value)

-- After a write to ITBCTRL or DTBCTRL that drops everything or the page of an address, a
-- translation of the 32-bit address misses, whatever the TB and the lookup hint held; the tag of an
-- invalid entry itself, page 0 under address-space number 0xFFF, is left out.
pub control-IsMissed :
    (p : Processor) (value virtual : ℕ) (writing : Bool)
    → virtual < 2 ^ 32
    → matching (p.cr itbtag) (virtual >> 12) ≢ 0xFFF00000
    → matching (p.cr dtbtag) (virtual >> 12) ≢ 0xFFF00000
    → DropsPage value virtual
    → (entry_for (write_itbctrl p value).proc virtual writing true
        ≡ missed (itb_miss (write_itbctrl p value).proc virtual))
      × (entry_for (write_dtbctrl p value).proc virtual writing false
          ≡ missed (dtb_miss (write_dtbctrl p value).proc virtual writing))
unfolding write_itbctrl write_dtbctrl entry_for lookup_itb lookup_dtb
control-IsMissed p value virtual writing fits itag dtag drops = (
  ground (
    arith,
    hint_miss value virtual p.itb_last_vpn fits drops,
    lookup_miss p.itb value virtual (p.cr itbtag) fits itag drops,
  ),
  ground (
    arith,
    hint_miss value virtual p.dtb_last_vpn fits drops,
    lookup_miss p.dtb value virtual (p.cr dtbtag) fits dtag drops,
  ),
)

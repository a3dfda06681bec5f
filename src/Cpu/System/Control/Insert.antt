-- ===== src/Cpu/System/Control/Insert.antt =====
-- Writing an entry to a TB through ITBPTE or DTBPTE, and finding it.
use xremu.Base.{
  ℕ, zero, suc, ◌+◌, ◌*◌, ◌/◌, ◌%◌, ◌^◌, ◌≤◌, ◌<◌, ◌≡◌, ◌≢◌, refl, arith, bit_and, true, false,
  Bool, update, ◌>>◌, some, ◌∙◌, eq→==, ap, update_self, update-ne,
}
use native.Mathlib.Decide.{ℕ_discrete}
use xremu.Bits.{bit_and-ones, bit_and-shifted, bit_or-fields}
use xremu.Cpu.State.{Processor, tb_size, itbtag, dtbtag, itbindex, dtbindex}
use xremu.Cpu.System.Control.{tb_entry, next_index, write_itbpte, write_dtbpte}
use xremu.Cpu.Translate.{hits, matching, find_entry, entry_for, lookup_itb, lookup_dtb, hit}

-- the first entry that hits, from `i` on
find_entry-first :
    (tb : ℕ → ℕ) (match n i k : ℕ)
    → i ≤ k
    → k < i + n
    → ((j : ℕ) → i ≤ j → j < k → hits (tb j) match ≡ false)
    → hits (tb k) match ≡ true
    → find_entry tb match n i ≡ some (tb k)
unfolding find_entry
find_entry-first tb match zero i k le lt before here = absurd (omega arith)
find_entry-first tb match (suc n) i k le lt before here = elim (ℕ_discrete i k) [
  | yes e ↦ ground (arith, here, ap (λ (j : ℕ). hits (tb j) match) e, ap tb e)
  | no ne ↦ ground (
    arith,
    before i (omega arith) (omega arith),
    find_entry-first tb match n (i + 1) k (omega arith) (omega arith)
        (λ j le' lt'. before j (omega arith) lt') here,
  )
]

tag_again : (tag : ℕ) → tag < 2 ^ 32 → matching tag (tag % 2 ^ 20) ≡ tag
tag_again tag h = ground (
  arith,
  bit_and-shifted 20 tag 0xFFF,
  bit_and-ones 12 (tag / 2 ^ 20),
  bit_or-fields 20 (tag / 2 ^ 20 % 2 ^ 12) (tag % 2 ^ 20),
)

hits-entry : (tag pte : ℕ) → pte < 2 ^ 32 → hits (tb_entry tag pte) tag ≡ true
hits-entry tag pte h = ground (
  arith,
  bit_or-fields 32 tag pte,
  eq→== (bit_and tag 0xFFFFF) (bit_and tag 0xFFFFF) refl,
  eq→== (bit_and tag 0xFFFFFFFF) (bit_and tag 0xFFFFFFFF) refl,
)

-- an update at an index leaves the earlier entries
update-hits :
    (tb : ℕ → ℕ) (tag entry index j : ℕ)
    → j < index
    → hits (tb j) tag ≡ false
    → hits (update tb index entry j) tag ≡ false
update-hits tb tag entry index j h miss =
    ap (λ (e : ℕ). hits e tag) (update-ne tb index j entry (omega arith)) ∙ miss

found_at :
    (tb : ℕ → ℕ) (tag pte index : ℕ)
    → index < 32
    → pte < 2 ^ 32
    → ((j : ℕ) → j < index → hits (tb j) tag ≡ false)
    → find_entry (update tb index (tb_entry tag pte)) tag tb_size 0 ≡ some (tb_entry tag pte)
found_at tb tag pte index below small before =
    find_entry-first (update tb index (tb_entry tag pte)) tag 32 0 index (omega arith) below
      (λ j le lt. update-hits tb tag (tb_entry tag pte) index j lt (before j lt))
      (ap (λ (e : ℕ). hits e tag) (update_self tb index (tb_entry tag pte))
        ∙ hits-entry tag pte small)
    ∙ ap some (update_self tb index (tb_entry tag pte))

-- An address of the page that the tag names.
named_by :
    (tag virtual : ℕ)
    → tag < 2 ^ 32
    → virtual / 2 ^ 12 ≡ tag % 2 ^ 20
    → matching tag (virtual >> 12) ≡ tag
named_by tag virtual h e = ap (matching tag) e ∙ tag_again tag h

-- An entry written through ITBPTE is what a fetch from its page finds, and one written through
-- DTBPTE what an access to its page finds: the tag and the written word, provided that both are
-- 32-bit words, that the index is below 32, that no entry of a smaller index hits and that the
-- lookup hint is for another page.
pub write_pte-IsFound :
    (p : Processor) (value virtual : ℕ) (writing : Bool)
    → value < 2 ^ 32
    → (p.cr itbindex < 32) × (p.cr dtbindex < 32)
    → (p.cr itbtag < 2 ^ 32) × (p.cr dtbtag < 2 ^ 32)
    → (virtual / 2 ^ 12 ≡ p.cr itbtag % 2 ^ 20) × (virtual / 2 ^ 12 ≡ p.cr dtbtag % 2 ^ 20)
    → (p.itb_last_vpn ≢ virtual / 2 ^ 12) × (p.dtb_last_vpn ≢ virtual / 2 ^ 12)
    → ((j : ℕ) → j < p.cr itbindex → hits (p.itb j) (p.cr itbtag) ≡ false)
    → ((j : ℕ) → j < p.cr dtbindex → hits (p.dtb j) (p.cr dtbtag) ≡ false)
    → (entry_for (write_itbpte p value).proc virtual writing true
        ≡ hit (p.cr itbtag * 2 ^ 32 + value))
      × (entry_for (write_dtbpte p value).proc virtual writing false
          ≡ hit (p.cr dtbtag * 2 ^ 32 + value))
unfolding write_itbpte write_dtbpte entry_for lookup_itb lookup_dtb
write_pte-IsFound p value virtual writing small (iindex, dindex) (itag, dtag) (ipage, dpage)
      (ihint, dhint) iother dother =
    (
      ground (
        arith,
        named_by (p.cr itbtag) virtual itag ipage,
        found_at p.itb (p.cr itbtag) value (p.cr itbindex) iindex small iother,
        bit_or-fields 32 (p.cr itbtag) value,
      ),
      ground (
        arith,
        named_by (p.cr dtbtag) virtual dtag dpage,
        found_at p.dtb (p.cr dtbtag) value (p.cr dtbindex) dindex small dother,
        bit_or-fields 32 (p.cr dtbtag) value,
      ),
    )

-- From outside of the four wired entries the TB index goes to one outside of them.
pub next_index-wraps : (i : ℕ) → 4 ≤ i → i < tb_size → (4 ≤ next_index i) × (next_index i < tb_size)
unfolding next_index
next_index-wraps i le h = ground arith

-- ===== src/Cpu/System/Control/Lines.antt =====
-- What a write to ICACHECTRL or DCACHECTRL throws out of an L1 cache.
use xremu.Base.{
  ℕ, zero, suc, ◌+◌, ◌-◌, ◌*◌, ◌/◌, ◌%◌, ◌^◌, ◌<◌, ◌≡◌, ◌≢◌, arith, bit_and, ◌==◌, ◌!=◌, ◌&&◌, leb,
  ltb, if◌then◌else◌, update, add32,
}
use xremu.Bits.{bit_and-ones, bit_and-shifted}
use xremu.Cpu.State.{line_count, line_invalid}
use xremu.Cpu.State.Loops.{for_range-entry}
use xremu.Cpu.System.Control.{cache_control, drop_lines, page_index}

drop_lines-entry :
    (tags : ℕ → ℕ) (phys n i : ℕ) (flags : ℕ → ℕ) (j : ℕ)
    → drop_lines tags phys n i flags j ≡ (
        if leb i j && ltb j (i + n) && bit_and (tags j) 0xFFFFF000 == phys
        then line_invalid
        else flags j)
unfolding drop_lines
drop_lines-entry tags phys zero i flags j = ground arith
drop_lines-entry tags phys (suc n) i flags j = ground (
  arith,
  drop_lines-entry tags phys n (i + 1)
      (if bit_and (tags i) 0xFFFFF000 == phys then update flags i line_invalid else flags) j,
)

page_of : (x : ℕ) → x < 2 ^ 32 → bit_and x 0xFFFFF000 ≡ x / 2 ^ 12 * 2 ^ 12
page_of x h = omega (arith, bit_and-shifted 12 x 0xFFFFF, bit_and-ones 20 (x / 2 ^ 12))

page_index_lem : (phys : ℕ) → page_index phys ≡ phys / 2 ^ 4 % 2 ^ 10 * 2
page_index_lem phys = omega (arith, bit_and-ones 10 (phys / 2 ^ 4))

-- The 512 places of a page's lines; there are none for the last of every four pages.
low_lem :
    (value : ℕ) → value < 2 ^ 32 → page_index (bit_and value 0xFFFFF000) ≡ value / 2 ^ 12 % 4 * 512
low_lem value h = omega (arith, page_of value h, page_index_lem (bit_and value 0xFFFFF000))

high_lem :
    (value : ℕ)
    → value < 2 ^ 32
    → page_index (add32 (bit_and value 0xFFFFF000) 4096) ≡ (value / 2 ^ 12 + 1) % 4 * 512
high_lem value h =
    omega (arith, page_of value h, page_index_lem (add32 (bit_and value 0xFFFFF000) 4096))

-- Each of the 2048 flags of an L1 cache with 32-bit tags, after a write of a 32-bit word to its
-- control register: operation 3 drops every line, operation 2 drops the lines of the page that
-- stand in the page's 512 places, except that for a page whose frame number is 3 modulo 4 it drops
-- none; nothing else changes.
pub cache_control-entry :
    (tags flags : ℕ → ℕ) (value j : ℕ)
    → value < 2 ^ 32
    → tags j < 2 ^ 32
    → j < line_count
    → cache_control tags value flags j ≡ (
        if value % 4 == 3
        then line_invalid
        else if value % 4 == 2
            && value / 2 ^ 12 % 4 != 3
            && tags j / 2 ^ 12 == value / 2 ^ 12
            && j / 512 == value / 2 ^ 12 % 4
        then line_invalid
        else flags j)
unfolding cache_control
cache_control-entry tags flags value j h tag below = ground (
  arith,
  bit_and-ones 2 value,
  for_range-entry (λ _. line_invalid) line_count 0 flags j,
  drop_lines-entry tags (bit_and value 0xFFFFF000)
      (page_index (add32 (bit_and value 0xFFFFF000) 4096) - page_index (bit_and value 0xFFFFF000))
      (page_index (bit_and value 0xFFFFF000)) flags j,
  low_lem value h,
  high_lem value h,
  page_of value h,
  page_of (tags j) tag,
)

-- Where the L1 caches keep a line: in the set of its address, two lines to a set.
abbrev pub IsPlaced : (ℕ → ℕ) → ℕ → Type 0
IsPlaced tags j = tags j / 2 ^ 4 % 2 ^ 10 ≡ j / 2

-- No line of the page is left valid by operation 2 of a cache control register on a page, provided
-- that the line is in the set of its address, that the written word and the tag are 32-bit words
-- and that the frame number is not 3 modulo 4.
pub cache_control-page :
    (tags flags : ℕ → ℕ) (value j : ℕ)
    → value < 2 ^ 32
    → tags j < 2 ^ 32
    → j < line_count
    → IsPlaced tags j
    → value % 4 ≡ 2
    → value / 2 ^ 12 % 4 ≢ 3
    → tags j / 2 ^ 12 ≡ value / 2 ^ 12
    → cache_control tags value flags j ≡ line_invalid
cache_control-page tags flags value j h tag below placed mode early page =
    ground (arith, cache_control-entry tags flags value j h tag below)

-- ===== src/Cpu/Dcache.antt =====
-- src/xraccess.inc.c: the data cache of one processor and its write buffer, and the functions that
-- work on these alone. What they write to the bus is a list, in the order of the writes.
pub mod Flush
use xremu.Base.{
  ℕ, zero, suc, ◌+◌, ◌%◌, ◌^◌, Bool, List, [], ◌∷◌, ◌++◌, ◌==◌, ◌&&◌, ltb, if◌then◌else◌, update,
  bit_and, ◌>>◌, ◌<<◌, add32,
}

-- XR_IC_LINE_COUNT and XR_DC_LINE_COUNT
abbrev pub line_count : ℕ
line_count = 2048

abbrev pub wb_depth : ℕ
wb_depth = 4

abbrev pub wb_index_invalid : ℕ
wb_index_invalid = 255

abbrev pub cache_index_invalid : ℕ
cache_index_invalid = 0xFFFFFFFF

abbrev pub line_invalid : ℕ
line_invalid = 0

abbrev pub line_shared : ℕ
line_shared = 1

abbrev pub line_exclusive : ℕ
line_exclusive = 2

abbrev pub uncached_stall : ℕ
uncached_stall = 3

-- the bytes of a line, by their offset
abbrev pub Line : Type 0
Line = ℕ → ℕ

-- The fields of `struct _XrProcessor` that make up the data cache and the write buffer. `lines i` is
-- the part of `Dc` for line `i`.
pub record Dcache : Type 0 where
  pub tags : ℕ → ℕ
  pub flags : ℕ → ℕ
  pub lines : ℕ → Line
  pub index_to_wb_index : ℕ → ℕ
  pub wb_indices : ℕ → ℕ
  pub replacement_index : ℕ
  pub wb_write_index : ℕ
  pub wb_fill_index : ℕ
  pub wb_cycles : ℕ

-- `EBusWrite(tag, &Dc[line], XR_DC_LINE_SIZE, proc)`
pub record LineWrite : Type 0 where
  pub tag : ℕ
  pub contents : Line

abbrev pub line_write : Dcache → ℕ → LineWrite
line_write d index = record { tag = d.tags index; contents = d.lines index }

-- Entry `w` of the write buffer, which stands for the line `index`, is made free.
abbrev pub release : Dcache → ℕ → ℕ → Dcache
release d w index = record d {
  wb_indices = update d.wb_indices w cache_index_invalid;
  index_to_wb_index = update d.index_to_wb_index index wb_index_invalid;
}

-- Entry `w` of the write buffer is made to stand for the line `index`.
abbrev pub claim_entry : Dcache → ℕ → ℕ → Dcache
claim_entry d w index = record d {
  wb_indices = update d.wb_indices w index;
  index_to_wb_index = update d.index_to_wb_index index w;
}

-- One round of the loop in `XrFlushWriteBuffer`. The line's lock makes the two reads of the entry
-- one.
unfoldable pub flush_entry : Dcache → ℕ → Dcache × List LineWrite
flush_entry d w =
    let index = d.wb_indices w in
    if index == cache_index_invalid then (d, []) else (release d w index, line_write d index ∷ [])

-- The first `n` rounds.
unfoldable pub flush_entries : ℕ → Dcache → Dcache × List LineWrite
flush_entries zero d = (d, [])
flush_entries (suc n) d =
    let (e, before) = flush_entries n d in let (f, last) = flush_entry e n in (f, before ++ last)

unfoldable pub flush_write_buffer : Dcache → Dcache × List LineWrite
flush_write_buffer d = flush_entries wb_depth d

-- The loop of `XrWriteWbEntry`, from round `i` on with `left` rounds to go.
unfoldable pub write_wb_from : Dcache → ℕ → ℕ → Dcache × List LineWrite
write_wb_from d zero i = (d, [])
write_wb_from d (suc left) i =
    let rest = write_wb_from d left (i + 1) in
    let w = add32 d.wb_write_index i % wb_depth in
    let index = d.wb_indices w in
    if index == cache_index_invalid then rest else (
      record (release d w index) { wb_write_index = i + 1; wb_cycles = uncached_stall },
      line_write d index ∷ [],
    )

unfoldable pub write_wb_entry : Dcache → Dcache × List LineWrite
write_wb_entry d = write_wb_from d wb_depth 0

-- A line that is in the write buffer is written out.
unfoldable pub force_out : Dcache → ℕ → Dcache × List LineWrite
force_out d index =
    let w = d.index_to_wb_index index in
    if w == wb_index_invalid then (d, []) else (release d w index, line_write d index ∷ [])

-- XR_DC_SET_NUMBER, and the first line of the set
abbrev pub dc_index : ℕ → ℕ
dc_index address = bit_and (address >> 4) 1023 << 1

abbrev pub set_flag : Dcache → ℕ → ℕ → Dcache
set_flag d index state = record d { flags = update d.flags index state }

-- A line is written out if it waits, and goes to a lower state.
abbrev pub lower_line : Dcache → ℕ → ℕ → Dcache × List LineWrite
lower_line d index newstate =
    let (e, written) = force_out d index in (set_flag e index newstate, written)

-- The loop of `XrDowngradeLine` over the ways, from line `index` on with `left` ways to go.
unfoldable pub downgrade_from : Dcache → ℕ → ℕ → ℕ → ℕ → Dcache × List LineWrite
downgrade_from d tag newstate zero index = (d, [])
downgrade_from d tag newstate (suc left) index =
    let rest = downgrade_from d tag newstate left (index + 1) in
    if ltb newstate (d.flags index) && d.tags index == tag
    then lower_line d index newstate
    else rest

-- `XrDowngradeLine` on the data cache of its processor.
unfoldable pub downgrade : Dcache → ℕ → ℕ → Dcache × List LineWrite
downgrade d tag newstate = downgrade_from d tag newstate 2 (dc_index tag)

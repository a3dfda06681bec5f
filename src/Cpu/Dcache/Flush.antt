-- ===== src/Cpu/Dcache/Flush.antt =====
-- What `XrFlushWriteBuffer` writes and leaves.
use xremu.Base.{
  ℕ, zero, suc, ◌<◌, ◌≡◌, refl, arith, ap, ◌∙◌, List, [], ◌∷◌, ◌++◌, ◌==◌, ltb, if◌then◌else◌,
}
use xremu.Cpu.Dcache.{
  Dcache, Line, LineWrite, flush_entry, flush_entries, flush_write_buffer, wb_depth,
  cache_index_invalid,
}

-- what the flush does not touch
abbrev pub kept : Dcache → (ℕ → ℕ) × (ℕ → Line)
kept d = (d.tags, d.lines)

-- The line that entry `i` of the write buffer waits to write.
abbrev pub line_at : (ℕ → ℕ) × (ℕ → Line) → ℕ → List LineWrite
line_at k index =
    if index == cache_index_invalid
    then []
    else record { tag = k.0 index; contents = k.1 index } ∷ []

abbrev pub waiting : Dcache → ℕ → List LineWrite
waiting d i = line_at (kept d) (d.wb_indices i)

-- the first `n` entries'
all_waiting : ℕ → Dcache → List LineWrite
all_waiting zero p = []
all_waiting (suc n) p = all_waiting n p ++ waiting p n

flush_entry-writes : (p : Dcache) (i : ℕ) → (flush_entry p i).1 ≡ waiting p i
unfolding flush_entry
flush_entry-writes p i = ground arith

flush_entry-indices :
    (p : Dcache) (i j : ℕ)
    → (flush_entry p i).0.wb_indices j ≡ (if j == i then cache_index_invalid else p.wb_indices j)
unfolding flush_entry
flush_entry-indices p i j = ground arith

flush_entry_kept : (p : Dcache) (i : ℕ) → kept (flush_entry p i).0 ≡ kept p
unfolding flush_entry
flush_entry_kept p i = ground arith

flush_entries_kept : (n : ℕ) (p : Dcache) → kept (flush_entries n p).0 ≡ kept p
unfolding flush_entries
flush_entries_kept zero p = refl
flush_entries_kept (suc n) p = flush_entry_kept (flush_entries n p).0 n ∙ flush_entries_kept n p

flush_entries-indices :
    (n : ℕ) (p : Dcache) (j : ℕ)
    → (flush_entries n p).0.wb_indices j ≡ (if ltb j n then cache_index_invalid else p.wb_indices j)
unfolding flush_entries
flush_entries-indices zero p j = ground arith
flush_entries-indices (suc n) p j =
    ground (arith, flush_entries-indices n p j, flush_entry-indices (flush_entries n p).0 n j)

waiting-entries : (n : ℕ) (p : Dcache) → waiting (flush_entries n p).0 n ≡ waiting p n
waiting-entries n p =
    ap (λ k. line_at k ((flush_entries n p).0.wb_indices n)) (flush_entries_kept n p)
    ∙ ap (line_at (kept p)) (ground (arith, flush_entries-indices n p n))

flush_entries-writes : (n : ℕ) (p : Dcache) → (flush_entries n p).1 ≡ all_waiting n p
unfolding flush_entries all_waiting
flush_entries-writes zero p = refl
flush_entries-writes (suc n) p =
    ap (λ xs. xs ++ (flush_entry (flush_entries n p).0 n).1) (flush_entries-writes n p)
    ∙ ap (λ xs. all_waiting n p ++ xs)
        (flush_entry-writes (flush_entries n p).0 n ∙ waiting-entries n p)

-- The flush of the write buffer writes every waiting line once, in the order of the entries, with
-- the tag and the contents that it has in the data cache, and leaves every entry free.
pub flush_write_buffer-writes :
    (p : Dcache)
    → ((flush_write_buffer p).1 ≡ ((waiting p 0 ++ waiting p 1) ++ waiting p 2) ++ waiting p 3)
      × ((i : ℕ) → i < wb_depth → (flush_write_buffer p).0.wb_indices i ≡ cache_index_invalid)
      × (kept (flush_write_buffer p).0 ≡ kept p)
unfolding flush_write_buffer all_waiting
flush_write_buffer-writes p = (
  flush_entries-writes wb_depth p,
  λ i h. ground (arith, flush_entries-indices wb_depth p i),
  flush_entries_kept wb_depth p,
)

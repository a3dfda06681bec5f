-- ===== src/Cpu/Blocks/Fetch.antt =====
-- `XrIcacheAccess` of src/xraccess.inc.c and `XrDecodeInstructions` of src/xr17032fast.c.
use xremu.Base.{
  ℕ, zero, suc, ◌+◌, ◌-◌, ◌*◌, ◌/◌, ◌%◌, ◌^◌, ◌&&◌, Bool, true, false, ◌==◌, ◌!=◌, leb,
  if◌then◌else◌, List, [], ◌∷◌, ◌++◌, update, bit_and, Option, none, some, ◌>>◌, add32, sub32,
}
use xremu.Cpu.Dcache.{Line, line_invalid, line_shared}
use xremu.Cpu.State.{Processor, rs, ebadaddr, itbtag, rs_mmu, rs_user, rs_tbmiss}
use xremu.Cpu.Exception.{basic_exception}
use xremu.Cpu.Translate.{mapped, faulted, translate}
use xremu.Cpu.Decode.{CachedInst, cached, special_linkage}
use xremu.Cpu.Decode.Tables.{decode}
use xremu.Cpu.Caches.Access.{read_bytes}
use xremu.Cpu.Memory.{exc_bus}
use xremu.Cpu.Blocks.{BlockCache, null, path, put, iblock_insts, iblock_hash}
use xremu.Cpu.Blocks.Reclaim.{allocate_iblock, insert_iblock_in_vpage, lookup_iblock}

-- PTE_KERNEL and XR_EXC_PGF
abbrev pub pte_kernel : ℕ
pte_kernel = 4

abbrev pub exc_pgf : ℕ
exc_pgf = 12

-- The processor, with the contents of its instruction cache, its decoded blocks, and what is behind
-- the bus.
pub record Front (M : Type 0) : Type 0 where
  pub proc : Processor
  pub ic_lines : ℕ → Line
  pub cache : BlockCache
  pub memory : M

abbrev pub with_cache : {M : Type 0} → Front M → BlockCache → Front M
with_cache f c = record f { cache = c }

abbrev pub set_proc : {M : Type 0} → Front M → Processor → Front M
set_proc f p = record f { proc = p }

-- The exceptions of a fetch
abbrev pub fetch_fails : Processor → ℕ → ℕ → Processor
fetch_fails p address exc =
    basic_exception (record p { cr = update p.cr ebadaddr address }) exc p.pc

-- `XR_CURRENT_ASID`
abbrev pub current_asid : Processor → ℕ
current_asid p =
    if bit_and (p.cr rs) rs_mmu != 0 then bit_and (p.cr itbtag) 0xFFF00000 else 0xFFFFFFFF

-- The words of an array filled line by line.
abbrev pub copy_line : (ℕ → ℕ) → ℕ → Line → ℕ → ℕ
copy_line ir offset l k =
    if leb offset k && leb (k + 1) (offset + 4) then read_bytes l (4 * (k - offset)) 4 else ir k

abbrev pub length : List CachedInst → ℕ
length [] = 0
length (i ∷ is) = suc (length is)

-- The loop of `XrDecodeInstructions` over at most `n` words, from word `index`, with `count` of the
-- 32 instructions of the block used: what it writes, and by how much it raises `Cycles`.
unfoldable pub decode_block : ℕ → Bool → (ℕ → ℕ) → ℕ → ℕ → ℕ → List CachedInst × ℕ
decode_block zero banked ir index pc count = (cached special_linkage 0 0 0 ∷ [], 0)
decode_block (suc n) banked ir index pc count =
    let d = decode banked (ir index) pc in
    let used = count + length d.insts in
    let rest = decode_block n banked ir (index + 1) (add32 pc 4) used in
    if d.ends
    then (d.insts, 1)
    else if leb iblock_insts used
    then (d.insts ++ cached special_linkage 0 0 0 ∷ [], 1)
    else (d.insts ++ rest.0, rest.1 + 1)

-- The fields of a new block, and its place in the lists.
abbrev pub fresh : BlockCache → ℕ → ℕ → ℕ → ℕ → BlockCache
fresh c b pc asid flags = record c {
  blocks = update c.blocks b (record (c.blocks b) {
    pc = pc;
    asid = asid;
    cycles = 0;
    cached_by_fifo_index = 0;
    pte_flags = flags % 2 ^ 8;
    has_ptable = false;
  });
  links = put (put c.links (path b 0) null) (path b 1) null;
  cached_by = update c.cached_by b (λ i. none);
  iblock_hash_buckets =
      update c.iblock_hash_buckets (iblock_hash pc) (b ∷ c.iblock_hash_buckets (iblock_hash pc));
  iblock_lru_list = b ∷ c.iblock_lru_list;
}

-- The instructions of a block.
abbrev pub filled : BlockCache → ℕ → List CachedInst × ℕ → BlockCache
filled c b (insts, cycles) = record c {
  blocks = update c.blocks b (record (c.blocks b) { insts = insts; cycles = cycles });
}

-- The number of words to fetch, and the index of the first instruction.
abbrev pub inst_count : ℕ → ℕ → ℕ
inst_count pc fetchpc =
    if bit_and (add32 fetchpc 127) 0xFFFFF000 != bit_and pc 0xFFFFF000
    then sub32 (bit_and (add32 pc 0x1000) 0xFFFFF000) fetchpc / 4
    else iblock_insts

module _ {M : Type 0} (read_line : M → ℕ → Option Line × M) where
  abbrev pub ic_way : Processor → ℕ → ℕ → Bool
  ic_way p tag k = p.ic_flags k != 0 && p.ic_tags k == tag

  abbrev pub after_ic_read : Front M → ℕ → ℕ → Option Line × M → Option ℕ × Front M
  after_ic_read f address k (none, s) = (
    none,
    record f {
      proc =
          fetch_fails
            (record f.proc {
              ic_flags = update f.proc.ic_flags k line_invalid;
              ic_replacement_index = (f.proc.ic_replacement_index + 1) % 2 ^ 32;
            })
            address exc_bus;
      memory = s;
    },
  )
  after_ic_read f address k (some l, s) = (
    some k,
    record f {
      proc = record f.proc {
        ic_flags = update f.proc.ic_flags k line_shared;
        ic_tags = update f.proc.ic_tags k (address - address % 16);
        ic_replacement_index = (f.proc.ic_replacement_index + 1) % 2 ^ 32;
      };
      ic_lines = update f.ic_lines k l;
      memory = s;
    },
  )

  -- `XrIcacheAccess`: the index of the line
  unfoldable pub icache_access : Front M → ℕ → Option ℕ × Front M
  icache_access f address =
      let tag = address - address % 16 in
      let index = bit_and (address >> 4) 1023 * 2 in
      if ic_way f.proc tag index
      then (some index, f)
      else if ic_way f.proc tag (index + 1)
      then (some (index + 1), f)
      else after_ic_read f address (index + bit_and f.proc.ic_replacement_index 1)
          (read_line f.memory tag)

  -- The lines of `n` words, from `offset`: the words, unless a line could not be read.
  unfoldable pub fetch_lines : ℕ → Front M → (ℕ → ℕ) → ℕ → ℕ → Option (ℕ → ℕ) × Front M
  fetch_lines zero f ir offset fetchpc = (some ir, f)
  fetch_lines (suc n) f ir offset fetchpc =
      let (line, g) = icache_access f fetchpc in
      elim line [
        | none ↦ (none, g)
        | some k ↦
            fetch_lines n g (copy_line ir offset (g.ic_lines k)) (offset + 4) (add32 fetchpc 16)
      ]

  -- What becomes of a block that has been allocated.
  unfoldable pub decode_into :
      Front M
      → (pc asid : ℕ) → (ℕ → ℕ)
      → (first count flags : ℕ) → Option (ℕ × BlockCache)
      → Option (Option ℕ × Front M)
  decode_into f pc asid ir first count flags none = none
  decode_into f pc asid ir first count flags (some (b, c)) =
      elim (insert_iblock_in_vpage (fresh c b pc asid flags) b pc) [
        | none ↦ none
        | some d ↦ some (
          some b,
          with_cache f (
              filled d b (
                decode_block (count - first) (bit_and (f.proc.cr rs) rs_tbmiss != 0) ir first pc
                  0)),
        )
      ]

  -- The fetch from a physical address.
  unfoldable pub fetch_block :
      Front M → Option ℕ → (pc asid fetchpc first count flags : ℕ) → Option (Option ℕ × Front M)
  fetch_block f hazard pc asid fetchpc first count flags =
      let (words, g) = fetch_lines ((count + 3) / 4) f (λ k. 0) 0 fetchpc in
      elim words [
        | none ↦ some (none, g)
        | some ir ↦ decode_into g pc asid ir first count flags (allocate_iblock g.cache hazard)
      ]

  -- A miss.
  unfoldable pub decode_new : Front M → Option ℕ → Option (Option ℕ × Front M)
  decode_new f hazard =
      let pc = f.proc.pc in
      let fetchpc = pc - pc % 16 in
      elim (if bit_and (f.proc.cr rs) rs_mmu != 0
        then translate f.proc fetchpc false true
        else mapped f.proc fetchpc 0) [
          | faulted q ↦ some (none, set_proc f q)
          | mapped q phys flags ↦
              fetch_block (set_proc f q) hazard pc (current_asid f.proc) phys (pc % 16 / 4)
                (inst_count pc fetchpc) flags
        ]

  -- `XrDecodeInstructions`: the block at the program counter, or an exception. There is no result
  -- where the C code would follow a null pointer.
  unfoldable pub decode_instructions : Front M → Option ℕ → Option (Option ℕ × Front M)
  decode_instructions f hazard = elim (lookup_iblock f.cache f.proc.pc (current_asid f.proc)) [
    | some b ↦
        if bit_and (f.cache.blocks b).pte_flags pte_kernel != 0
          && bit_and (f.proc.cr rs) rs_user != 0
        then some (none, set_proc f (fetch_fails f.proc f.proc.pc exc_pgf))
        else some (some b, f)
    | none ↦ decode_new f hazard
  ]

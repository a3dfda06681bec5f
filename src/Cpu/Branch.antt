-- ===== src/Cpu/Branch.antt =====
-- The branches and jumps of src/xr17032fast.c, with the pointers to blocks that they keep.
mod Tests
pub mod Conditions
pub mod Dispatch
pub mod Tables
pub mod Jalr
use xremu.Base.{
  ℕ, ◌+◌, ◌%◌, ◌-◌, ◌^◌, ◌&&◌, ◌||◌, Bool, true, false, not, ◌==◌, ◌!=◌, leb, if◌then◌else◌, update,
  bit_and, Option, none, some, ◌>>◌, add32,
}
use xremu.Cpu.Dcache.{Line}
use xremu.Cpu.State.{Processor, ebadaddr}
use xremu.Cpu.Exception.{basic_exception}
use xremu.Cpu.Decode.{CachedInst}
use xremu.Cpu.Execute.{ra}
use xremu.Cpu.Memory.{exc_una}
use xremu.Cpu.Blocks.{
  Slot, path, entry, Link, null, to_block, to_table, put, table_entries, BlockCache,
  create_cached_pointer_to_block, allocate_ptable,
}
use xremu.Cpu.Blocks.Fetch.{Front, with_cache, set_proc, decode_instructions}

-- XR_DISPATCH, which goes on with a block or returns, or XR_EARLY_EXIT
pub data Leaving (M : Type 0) : Type 0 where
  dispatches : (block : ℕ) → Front M → Leaving M
  returns exits : Front M → Leaving M

-- XR_DISPATCH, without `CyclesDone`; `Dispatches` wraps at 2 ^ 8.
abbrev pub dispatch : {M : Type 0} → ℕ → Front M → Leaving M
dispatch b f =
    let g = set_proc f (record f.proc { dispatches = (f.proc.dispatches + 1) % 2 ^ 8 }) in
    if bit_and f.proc.dispatches 31 == 0 then returns g else dispatches b g

-- LR
abbrev pub lr : ℕ
lr = 31

abbrev pub value : Processor → CachedInst → ℕ
value p i = p.reg i.imm8_1

-- `(int32_t)value < 0`
abbrev pub negative : ℕ → Bool
negative n = leb (2 ^ 31) n

abbrev pub set_pc : {M : Type 0} → Front M → ℕ → Front M
set_pc f pc = set_proc f (record f.proc { pc = pc })

abbrev pub set_table : {M : Type 0} → Front M → ℕ → ℕ → ℕ → Front M
set_table f t k pc =
    with_cache f (record f.cache {
      table_pcs = update f.cache.table_pcs t (update (f.cache.table_pcs t) k pc);
    })

module _ {M : Type 0} (read_line : M → ℕ → Option Line × M) where
  -- A block found is recorded in the place that is to lead to it.
  abbrev pub record_and_dispatch : Slot → Option ℕ × Front M → Leaving M
  record_and_dispatch s (none, f) = exits f
  record_and_dispatch s (some b, f) =
      dispatch b (with_cache f (create_cached_pointer_to_block f.cache b s))

  abbrev pub after_decode : Slot → Option (Option ℕ × Front M) → Option (Leaving M)
  after_decode s none = none
  after_decode s (some r) = some (record_and_dispatch s r)

  -- `iblock = *referrent`, and what follows.
  abbrev pub through : Front M → ℕ → Slot → Link → Option (Leaving M)
  through f block s (to_block b) = some (dispatch b f)
  through f block s (to_table t) = none
  through f block s null = after_decode s (decode_instructions read_line f (some block))

  unfoldable pub follow : Front M → ℕ → Slot → Option (Leaving M)
  follow f block s = through f block s (f.cache.links s)

  abbrev pub BranchHandler : Type 0
  BranchHandler = Front M → ℕ → CachedInst → Option (Leaving M)

  -- The two paths of a conditional branch.
  abbrev pub branch_if : Bool → BranchHandler
  branch_if taken f block i =
      if taken
      then follow (set_pc f i.imm32_1) block (path block 0)
      else follow (set_pc f (add32 f.proc.pc 4)) block (path block 1)

  unfoldable pub execute_bpo : BranchHandler
  execute_bpo f block i = branch_if (bit_and (value f.proc i) 1 != 0) f block i

  unfoldable pub execute_bpe : BranchHandler
  execute_bpe f block i = branch_if (bit_and (value f.proc i) 1 == 0) f block i

  unfoldable pub execute_bge : BranchHandler
  execute_bge f block i = branch_if (not (negative (value f.proc i))) f block i

  unfoldable pub execute_ble : BranchHandler
  execute_ble f block i = branch_if (negative (value f.proc i) || value f.proc i == 0) f block i

  unfoldable pub execute_bgt : BranchHandler
  execute_bgt f block i =
      branch_if (not (negative (value f.proc i)) && value f.proc i != 0) f block i

  unfoldable pub execute_blt : BranchHandler
  execute_blt f block i = branch_if (negative (value f.proc i)) f block i

  unfoldable pub execute_bne : BranchHandler
  execute_bne f block i = branch_if (value f.proc i != 0) f block i

  unfoldable pub execute_beq : BranchHandler
  execute_beq f block i = branch_if (value f.proc i == 0) f block i

  unfoldable pub execute_b : BranchHandler
  execute_b f block i = follow (set_pc f i.imm32_1) block (path block 0)

  unfoldable pub execute_j : BranchHandler
  execute_j f block i = follow (set_pc f i.imm32_1) block (path block 0)

  unfoldable pub execute_jal : BranchHandler
  execute_jal f block i =
      let p = record f.proc { reg = update f.proc.reg lr (add32 f.proc.pc 4) } in
      follow (set_pc (set_proc f p) i.imm32_1) block (path block 0)

  unfoldable pub special_linkage_instruction : BranchHandler
  special_linkage_instruction f block i = follow f block (path block 0)

  -- A prediction that is not there, or not for this address.
  abbrev pub predict : Front M → ℕ → ℕ → ℕ → ℕ → Option (Option ℕ × Front M) → Option (Leaving M)
  predict f block pc t k none = none
  predict f block pc t k (some (none, g)) = some (exits g)
  predict f block pc t k (some (some b, g)) =
      some (record_and_dispatch (entry t k) (some b, set_table g t k pc))

  abbrev pub through_entry : Front M → ℕ → ℕ → ℕ → ℕ → Link → Option (Leaving M)
  through_entry f block pc t k (to_block b) = some (dispatch b f)
  through_entry f block pc t k (to_table u) = none
  through_entry f block pc t k null =
      predict f block pc t k (decode_instructions read_line f (some block))

  -- The table of the block.
  unfoldable pub jump_by_table : Front M → ℕ → ℕ → ℕ → Option (Leaving M)
  jump_by_table f block pc t =
      let k = bit_and (pc >> 2) (table_entries - 1) in
      if f.cache.table_pcs t k == pc
      then through_entry f block pc t k (f.cache.links (entry t k))
      else predict f block pc t k (decode_instructions read_line f (some block))

  abbrev pub give_table : Front M → ℕ → ℕ → Option (ℕ × BlockCache) → Option (Leaving M)
  give_table f block pc none = none
  give_table f block pc (some (t, c)) =
      jump_by_table
        (with_cache f (record c {
          links = put c.links (path block 0) (to_table t);
          blocks = update c.blocks block (record (c.blocks block) { has_ptable = true });
        }))
        block pc t

  abbrev pub find_table : Front M → ℕ → ℕ → Link → Option (Leaving M)
  find_table f block pc (to_block b) = none
  find_table f block pc (to_table t) = jump_by_table f block pc t
  find_table f block pc null = give_table f block pc (allocate_ptable f.cache)

  unfoldable pub execute_jalr : BranchHandler
  execute_jalr f block i =
      let pc = add32 (ra f.proc i) i.imm32_1 in
      let p = record f.proc { reg = update f.proc.reg i.imm8_1 (add32 f.proc.pc 4); pc = pc } in
      if bit_and pc 3 != 0
      then some (
          exits
            (set_proc f (basic_exception (record p { cr = update p.cr ebadaddr pc }) exc_una pc)))
      else find_table (set_proc f p) block pc (f.cache.links (path block 0))

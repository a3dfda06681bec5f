-- ===== src/Cpu/Branch/Tests.antt =====
-- Runs of the decoded blocks on a small cache.
use xremu.Base.{
  ℕ, ◌≡◌, refl, sym, arith, true, false, [], ◌∷◌, Option, none, some, if◌then◌else◌, ◌==◌,
}
use xremu.Cpu.Dcache.{Line}
use xremu.Cpu.State.{Processor}
use xremu.Cpu.Decode.{CachedInst, cached, beq, jalr}
use xremu.Cpu.Blocks.{
  path, null, Iblock, BlockCache, has, create_cached_pointer_to_block, iblock_reclaim,
}
use xremu.Cpu.Blocks.Reclaim.{
  runs_out, reverse_onto, take_first, populate_iblock_list, invalidate_iblock_cache,
}
use xremu.Cpu.Blocks.Start.{push_all, initialize_blocks}
use xremu.Cpu.Blocks.Fetch.{Front}
use xremu.Cpu.Blocks.Consistent.{IsActive, IsConsistent}
use xremu.Cpu.Blocks.Consistent.Slots.{block-null}
use xremu.Cpu.Blocks.Consistent.Pointing.{but_one, create_cached_pointer_to_block-IsConsistent}
use xremu.Cpu.Blocks.Consistent.Reclaiming.{IsReclaimed, populate_iblock_list-IsReclaimed}
use xremu.Cpu.Blocks.Consistent.Stocked.{IsStocked}
use xremu.Cpu.Blocks.Consistent.Emptied.{invalidate_iblock_cache-IsConsistent}
use xremu.Cpu.Blocks.Consistent.Initial.{distinct-push_all, initialize_blocks-IsConsistent}

-- At 0x1000, with the MMU off.
abbrev machine : Processor
machine = record {
  id = 0;
  pc = 0x1000;
  reg = λ n. if n == 5 then 0x2000 else 0;
  cr = λ n. 0;
  itb = λ n. 0;
  dtb = λ n. 0;
  itb_last_vpn = 0;
  itb_last_result = 0;
  dtb_last_vpn = 0;
  dtb_last_result = 0;
  ic_tags = λ n. 0;
  ic_flags = λ n. 0;
  ic_replacement_index = 0;
  dcache = record {
    tags = λ n. 0;
    flags = λ n. 0;
    lines = λ n o. 0;
    index_to_wb_index = λ n. 0;
    wb_indices = λ n. 0;
    replacement_index = 0;
    wb_write_index = 0;
    wb_fill_index = 0;
    wb_cycles = 0;
  };
  pause_calls = 0;
  nmi_mask_counter = 0;
  progress = 0;
  dispatches = 0;
  locked = false;
  last_tb_miss_was_write = false;
  user_break = false;
  halted = false;
  running = true;
}

-- Memory is all zero, and the bus always answers.
abbrev zero_line : ℕ → ℕ → Option Line × ℕ
zero_line m address = (some (λ o. 0), m)

-- A block at `pc` of the one instruction `i`
abbrev block_of : ℕ → CachedInst → Iblock
block_of pc i = record {
  vpage = 0;
  pc = pc;
  asid = 0xFFFFFFFF;
  cycles = 1;
  cached_by_fifo_index = 0;
  pte_flags = 0;
  has_ptable = false;
  insts = i ∷ [];
}

-- Block 0 is in use, and block 1 free.
abbrev one_block : Iblock → BlockCache
one_block k = record {
  blocks = λ b. k;
  cached_by = λ b i. none;
  links = λ s. null;
  table_pcs = λ t i. 0;
  vpns = λ v. 0;
  references = λ v. 1;
  iblock_free_list = 1 ∷ [];
  ptable_free_list = 0 ∷ [];
  vpage_free_list = 1 ∷ [];
  iblock_lru_list = 0 ∷ [];
  iblock_hash_buckets = λ h. [];
  vpage_hash_buckets = λ h. [];
  iblock_vpn_lists = λ v. [];
  undefined = false;
}

one_block-IsConsistent : (k : Iblock) → k.has_ptable ≡ false → IsConsistent (one_block k)
one_block-IsConsistent k none_there = record {
  linked = λ s b o e. absurd (block-null (sym e));
  apart = λ b f. ground (arith, f);
  free = refl;
  used = refl;
  hashed = λ n b there. absurd (ground (arith, there));
  defined = refl;
  tabled = λ b active e. absurd (ground (arith, e, none_there));
}

abbrev on : Iblock → Front ℕ
on k = record { proc = machine; ic_lines = λ n o. 0; cache = one_block k; memory = 0 }

-- Back to the start, if register 0 is zero.
abbrev loop_inst : CachedInst
loop_inst = cached beq 0 0 0x1000

abbrev loop : Iblock
loop = block_of 0x1000 loop_inst

abbrev far_inst : CachedInst
far_inst = cached jalr 31 5 8

abbrev far : Iblock
far = block_of 0x1000 far_inst

-- 40 blocks in use and none free.
abbrev forty_blocks : BlockCache
forty_blocks = record (one_block loop) { iblock_free_list = []; iblock_lru_list = push_all 40 }

forty_blocks-IsConsistent : IsConsistent forty_blocks
forty_blocks-IsConsistent = record {
  linked = λ s b o e. absurd (block-null (sym e));
  apart = λ b f. absurd (ground (arith, f));
  free = refl;
  used = distinct-push_all 40;
  hashed = λ n b there. absurd (ground (arith, there));
  defined = refl;
  tabled = λ b active e. absurd (ground (arith, e));
}

forty_blocks_enough : runs_out iblock_reclaim forty_blocks.iblock_lru_list ≡ false
unfolding push_all
forty_blocks_enough = refl

initialize_blocks-IsConsistent_example :
    IsConsistent
      (initialize_blocks (λ b. loop) (λ b i. none) (λ s. null) (λ t i. 0) (λ v. 0) (λ v. 0))
    × IsStocked
        (initialize_blocks (λ b. loop) (λ b i. none) (λ s. null) (λ t i. 0) (λ v. 0) (λ v. 0))
initialize_blocks-IsConsistent_example =
    initialize_blocks-IsConsistent (λ b. loop) (λ b i. none) (λ s. null) (λ t i. 0) (λ v. 0)
      (λ v. 0)

create_cached_pointer_to_block-IsConsistent_example :
    IsConsistent (create_cached_pointer_to_block (one_block loop) 0 (path 0 0))
create_cached_pointer_to_block-IsConsistent_example =
    create_cached_pointer_to_block-IsConsistent (one_block loop) 0 (path 0 0)
      (but_one (one_block loop) 0 (path 0 0) (one_block-IsConsistent loop refl) (λ x same. refl))
      (ground arith) refl

populate_iblock_list-IsReclaimed_example :
    IsReclaimed forty_blocks
      (some 3)
      (take_first iblock_reclaim (reverse_onto forty_blocks.iblock_lru_list []))
      (populate_iblock_list forty_blocks (some 3))
populate_iblock_list-IsReclaimed_example =
    populate_iblock_list-IsReclaimed forty_blocks (some 3) forty_blocks-IsConsistent
      forty_blocks_enough

invalidate_iblock_cache-IsConsistent_example :
    IsConsistent (invalidate_iblock_cache (one_block loop))
    × ((b : ℕ) → has (invalidate_iblock_cache (one_block loop)).iblock_lru_list b ≡ false)
    × ((b : ℕ)
        → IsActive (one_block loop) b
        → has (invalidate_iblock_cache (one_block loop)).iblock_free_list b ≡ true)
invalidate_iblock_cache-IsConsistent_example =
    invalidate_iblock_cache-IsConsistent (one_block loop) (one_block-IsConsistent loop refl)

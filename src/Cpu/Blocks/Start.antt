-- ===== src/Cpu/Blocks/Start.antt =====
-- The blocks that `XrInitializeProcessor` of src/xr17032fast.c allocates.
use xremu.Base.{ℕ, zero, suc, false, List, [], ◌∷◌, Option}
use xremu.Cpu.Blocks.{Slot, Link, Iblock, BlockCache}

-- XR_IBLOCK_COUNT
abbrev pub iblock_count : ℕ
iblock_count = 2048

-- What a loop of `n` pushes leaves: the last comes first.
unfoldable pub push_all : ℕ → List ℕ
push_all zero = []
push_all (suc n) = n ∷ push_all n

-- The lists as they start, over the contents that the memory has.
abbrev pub initialize_blocks :
    (ℕ → Iblock)
    → (ℕ → ℕ → Option Slot)
    → (Slot → Link)
    → (ℕ → ℕ → ℕ)
    → (vpns references : ℕ → ℕ) → BlockCache
initialize_blocks blocks cached_by links table_pcs vpns references = record {
  blocks = blocks;
  cached_by = cached_by;
  links = links;
  table_pcs = table_pcs;
  vpns = vpns;
  references = references;
  iblock_free_list = push_all iblock_count;
  ptable_free_list = push_all iblock_count;
  vpage_free_list = push_all iblock_count;
  iblock_lru_list = [];
  iblock_hash_buckets = λ h. [];
  vpage_hash_buckets = λ h. [];
  iblock_vpn_lists = λ v. [];
  undefined = false;
}

-- ===== src/Cpu/Blocks/Reclaim.antt =====
-- Blocks that are given out, looked up and thrown away, of src/xr17032fast.c.
use xremu.Base.{
  ℕ, zero, suc, ◌+◌, ◌&&◌, Bool, true, false, ◌==◌, if◌then◌else◌, List, [], ◌∷◌, update, bit_and,
  Option, none, some,
}
use xremu.Cpu.Blocks.{
  Iblock, BlockCache, iblock_reclaim, iblock_hash, vpn_bucket_index, invalidate_iblock_pointers,
  free_iblock, allocate_vpage,
}

abbrev pub reverse_onto : List ℕ → List ℕ → List ℕ
reverse_onto [] ys = ys
reverse_onto (x ∷ xs) ys = reverse_onto xs (x ∷ ys)

abbrev pub take_first : ℕ → List ℕ → List ℕ
take_first zero xs = []
take_first (suc n) [] = []
take_first (suc n) (x ∷ xs) = x ∷ take_first n xs

abbrev pub is_hazard : Option ℕ → ℕ → Bool
is_hazard none b = false
is_hazard (some h) b = h == b

-- The blocks of a list are invalidated and freed, but not the hazard.
unfoldable pub discard_all : Option ℕ → List ℕ → BlockCache → BlockCache
discard_all hazard [] c = c
discard_all hazard (b ∷ bs) c =
    discard_all hazard bs
      (if is_hazard hazard b then c else free_iblock (invalidate_iblock_pointers c b) b)

-- The list has fewer than `n` entries.
abbrev pub runs_out : ℕ → List ℕ → Bool
runs_out zero xs = false
runs_out (suc n) [] = true
runs_out (suc n) (x ∷ xs) = runs_out n xs

-- `XrPopulateIblockList`: the list is followed from its tail, and freeing a block keeps its links.
-- The loop has 32 rounds whatever the length of the list, so it would walk past the head of a
-- shorter one, and take it for a block.
unfoldable pub populate_iblock_list : BlockCache → Option ℕ → BlockCache
populate_iblock_list c hazard =
    if runs_out iblock_reclaim c.iblock_lru_list
    then record c { undefined = true }
    else discard_all hazard (take_first iblock_reclaim (reverse_onto c.iblock_lru_list [])) c

unfoldable pub free_all : List ℕ → BlockCache → BlockCache
free_all [] c = c
free_all (b ∷ bs) c = free_all bs (free_iblock c b)

-- `XrInvalidateIblockCache`
unfoldable pub invalidate_iblock_cache : BlockCache → BlockCache
invalidate_iblock_cache c = free_all c.iblock_lru_list c

abbrev pub find_vpage : (ℕ → ℕ) → ℕ → List ℕ → Option ℕ
find_vpage vpns vpn [] = none
find_vpage vpns vpn (v ∷ vs) = if vpns v == vpn then some v else find_vpage vpns vpn vs

abbrev pub page_of : BlockCache → ℕ → Option ℕ
page_of c vpn = find_vpage c.vpns vpn (c.vpage_hash_buckets (vpn_bucket_index vpn))

-- `XrInvalidateVpage`
unfoldable pub invalidate_vpage : BlockCache → ℕ → BlockCache
invalidate_vpage c v = discard_all none (c.iblock_vpn_lists v) c

-- `XrInvalidateIblockCacheByVpn`
unfoldable pub invalidate_iblock_cache_by_vpn : BlockCache → ℕ → BlockCache
invalidate_iblock_cache_by_vpn c vpn = elim (page_of c vpn) [
  | none ↦ c
  | some v ↦ invalidate_vpage c v
]

abbrev pub join_vpage : BlockCache → ℕ → ℕ → BlockCache
join_vpage c b v = record c {
  blocks = update c.blocks b (record (c.blocks b) { vpage = v });
  iblock_vpn_lists = update c.iblock_vpn_lists v (b ∷ c.iblock_vpn_lists v);
}

abbrev pub new_vpage : ℕ → ℕ → Option (ℕ × BlockCache) → Option BlockCache
new_vpage b vpn none = none
new_vpage b vpn (some (v, c)) = some (
    join_vpage
      (record c {
        vpns = update c.vpns v vpn;
        references = update c.references v 1;
        vpage_hash_buckets =
            update c.vpage_hash_buckets (vpn_bucket_index vpn)
              (v ∷ c.vpage_hash_buckets (vpn_bucket_index vpn));
      })
      b v)

-- `XrInsertIblockInVpage`; without a free page the C code would follow a null pointer.
unfoldable pub insert_iblock_in_vpage : BlockCache → ℕ → ℕ → Option BlockCache
insert_iblock_in_vpage c b pc =
    let vpn = bit_and pc 0xFFFFF000 in
    elim (page_of c vpn) [
      | none ↦ new_vpage b vpn (allocate_vpage c)
      | some v ↦
          some
            (join_vpage (record c { references = update c.references v (c.references v + 1) }) b v)
    ]

abbrev pub take_iblock : BlockCache → List ℕ → Option (ℕ × BlockCache)
take_iblock c [] = none
take_iblock c (b ∷ bs) = some (b, record c { iblock_free_list = bs })

abbrev pub is_empty : List ℕ → Bool
is_empty [] = true
is_empty (b ∷ bs) = false

-- The free list, filled when it was empty.
abbrev pub with_free_iblocks : BlockCache → Option ℕ → BlockCache
with_free_iblocks c hazard =
    if is_empty c.iblock_free_list then populate_iblock_list c hazard else c

-- `XrAllocateIblock`
unfoldable pub allocate_iblock : BlockCache → Option ℕ → Option (ℕ × BlockCache)
allocate_iblock c hazard =
    take_iblock (with_free_iblocks c hazard) (with_free_iblocks c hazard).iblock_free_list

abbrev pub find_iblock : (ℕ → Iblock) → ℕ → ℕ → List ℕ → Option ℕ
find_iblock blocks pc asid [] = none
find_iblock blocks pc asid (b ∷ bs) =
    if (blocks b).pc == pc && (blocks b).asid == asid then some b else find_iblock blocks pc asid bs

-- `XrLookupIblock`
unfoldable pub lookup_iblock : BlockCache → ℕ → ℕ → Option ℕ
lookup_iblock c pc asid = find_iblock c.blocks pc asid (c.iblock_hash_buckets (iblock_hash pc))

-- ===== src/Cpu/Blocks.antt =====
-- The cache of decoded blocks of src/xr17032fast.c: what a processor keeps of it. Blocks, tables for
-- JALR and pages are numbers; a list of the C code is the list of its entries.
pub mod Reclaim
pub mod Fetch
pub mod Consistent
pub mod Start
use xremu.Base.{
  ℕ, zero, suc, ◌+◌, ◌-◌, ◌%◌, ◌^◌, Bool, true, false, ◌&&◌, ◌==◌, if◌then◌else◌, List, [], ◌∷◌,
  update, bit_and, Option, none, some, ◌>>◌, sub32,
}
use xremu.Cpu.Decode.{CachedInst}

-- The constants XR_IBLOCK_CACHEDBY_MAX, XR_JALR_PREDICTION_TABLE_ENTRIES, XR_IBLOCK_INSTS and
-- XR_IBLOCK_RECLAIM
abbrev pub cachedby_max : ℕ
cachedby_max = 4

abbrev pub table_entries : ℕ
table_entries = 8

abbrev pub iblock_insts : ℕ
iblock_insts = 32

abbrev pub iblock_reclaim : ℕ
iblock_reclaim = 32

-- A place that holds a pointer to a block: an entry of `CachedPaths` or of a prediction table.
pub data Slot : Type 0 where
  path : (block i : ℕ) → Slot
  entry : (table i : ℕ) → Slot

-- What such a place holds.
pub data Link : Type 0 where
  null : Link
  to_block to_table : ℕ → Link

abbrev pub same_slot : Slot → Slot → Bool
same_slot (path b i) (path c j) = b == c && i == j
same_slot (path b i) (entry t j) = false
same_slot (entry t i) (path c j) = false
same_slot (entry t i) (entry u j) = t == u && i == j

abbrev pub points_to : Link → ℕ → Bool
points_to null b = false
points_to (to_block c) b = c == b
points_to (to_table t) b = false

-- `*s = l`
abbrev pub put : (Slot → Link) → Slot → Link → Slot → Link
put links s l t = if same_slot t s then l else links t

-- `struct _XrIblock`, without `CachedPaths`, `CachedBy` and the links of the lists
pub record Iblock : Type 0 where
  pub vpage : ℕ
  pub pc : ℕ
  pub asid : ℕ
  pub cycles : ℕ
  pub cached_by_fifo_index : ℕ
  pub pte_flags : ℕ
  pub has_ptable : Bool
  pub insts : List CachedInst

-- `undefined` is the model's own: the C code has followed a null pointer, taken a block for a table
-- or the head of a list for a block.
pub record BlockCache : Type 0 where
  pub blocks : ℕ → Iblock
  pub cached_by : ℕ → ℕ → Option Slot
  pub links : Slot → Link
  pub table_pcs : ℕ → ℕ → ℕ
  pub vpns : ℕ → ℕ
  pub references : ℕ → ℕ
  pub iblock_free_list : List ℕ
  pub ptable_free_list : List ℕ
  pub vpage_free_list : List ℕ
  pub iblock_lru_list : List ℕ
  pub iblock_hash_buckets : ℕ → List ℕ
  pub vpage_hash_buckets : ℕ → List ℕ
  pub iblock_vpn_lists : ℕ → List ℕ
  pub undefined : Bool

abbrev pub has : List ℕ → ℕ → Bool
has [] b = false
has (x ∷ xs) b = if b == x then true else has xs b

-- `RemoveEntryList`
abbrev pub remove_entry : ℕ → List ℕ → List ℕ
remove_entry b [] = []
remove_entry b (x ∷ xs) = let rest = remove_entry b xs in if x == b then rest else x ∷ rest

-- `XR_IBLOCK_HASH` and `XR_VPN_BUCKET_INDEX`
abbrev pub iblock_hash : ℕ → ℕ
iblock_hash pc = bit_and (pc >> 2) 255

abbrev pub vpn_bucket_index : ℕ → ℕ
vpn_bucket_index pc = bit_and (pc >> 12) 31

-- `if (s && *s == iblock) *s = 0;`
abbrev pub clear_slot : Option Slot → ℕ → (Slot → Link) → Slot → Link
clear_slot none b links = links
clear_slot (some s) b links = if points_to (links s) b then put links s null else links

abbrev pub clear_slots : ℕ → (ℕ → Option Slot) → ℕ → (Slot → Link) → Slot → Link
clear_slots zero by b links = links
clear_slots (suc n) by b links = clear_slot (by n) b (clear_slots n by b links)

-- `XrInvalidateIblockPointers`
unfoldable pub invalidate_iblock_pointers : BlockCache → ℕ → BlockCache
invalidate_iblock_pointers c b = record c {
  links = clear_slots cachedby_max (c.cached_by b) b c.links;
}

-- `XrCreateCachedPointerToBlock`; the index wraps at 2 ^ 8.
unfoldable pub create_cached_pointer_to_block : BlockCache → ℕ → Slot → BlockCache
create_cached_pointer_to_block c b s =
    let index = bit_and (c.blocks b).cached_by_fifo_index (cachedby_max - 1) in
    record c {
      blocks = update c.blocks b (record (c.blocks b) {
        cached_by_fifo_index = ((c.blocks b).cached_by_fifo_index + 1) % 2 ^ 8;
      });
      links = put (clear_slot (c.cached_by b index) b c.links) s (to_block b);
      cached_by = update c.cached_by b (update (c.cached_by b) index (some s));
    }

abbrev pub clear_entries : ℕ → ℕ → (Slot → Link) → Slot → Link
clear_entries zero t links = links
clear_entries (suc n) t links = put (clear_entries n t links) (entry t n) null

abbrev pub take_ptable : BlockCache → List ℕ → Option (ℕ × BlockCache)
take_ptable c [] = none
take_ptable c (t ∷ ts) =
    some (t, record c { ptable_free_list = ts; links = clear_entries table_entries t c.links })

-- `XrAllocatePtable`
unfoldable pub allocate_ptable : BlockCache → Option (ℕ × BlockCache)
allocate_ptable c = take_ptable c c.ptable_free_list

abbrev pub next_free : List ℕ → Link
next_free [] = null
next_free (t ∷ ts) = to_table t

-- `XrFreePtable`, of the table that a place points to
abbrev pub free_ptable : BlockCache → Link → BlockCache
free_ptable c null = record c { undefined = true }
free_ptable c (to_block b) = record c { undefined = true }
free_ptable c (to_table t) = record c {
  links = put c.links (entry t 0) (next_free c.ptable_free_list);
  ptable_free_list = t ∷ c.ptable_free_list;
}

abbrev pub take_vpage : BlockCache → List ℕ → Option (ℕ × BlockCache)
take_vpage c [] = none
take_vpage c (v ∷ vs) = some (v, record c { vpage_free_list = vs })

-- `XrAllocateVpage`
unfoldable pub allocate_vpage : BlockCache → Option (ℕ × BlockCache)
allocate_vpage c = take_vpage c c.vpage_free_list

-- What `XrFreeIblock` does to the page.
abbrev pub release_vpage : BlockCache → ℕ → BlockCache
release_vpage c v =
    let left = sub32 (c.references v) 1 in
    let fewer = record c { references = update c.references v left } in
    if left == 0
    then record fewer {
      vpage_hash_buckets = λ h. remove_entry v (c.vpage_hash_buckets h);
      vpage_free_list = v ∷ c.vpage_free_list;
    }
    else fewer

abbrev pub unlink : BlockCache → ℕ → BlockCache
unlink c b = record c {
  iblock_lru_list = remove_entry b c.iblock_lru_list;
  iblock_hash_buckets = λ h. remove_entry b (c.iblock_hash_buckets h);
  iblock_vpn_lists = λ v. remove_entry b (c.iblock_vpn_lists v);
}

-- `XrFreeIblock`
unfoldable pub free_iblock : BlockCache → ℕ → BlockCache
free_iblock c b =
    let d = release_vpage (unlink c b) (c.blocks b).vpage in
    let e = if (c.blocks b).has_ptable then free_ptable d (d.links (path b 0)) else d in
    record e { iblock_free_list = b ∷ e.iblock_free_list }

-- ===== src/Cpu/Blocks/Consistent/Decoding.antt =====
-- A block that is placed in its page and filled.
use xremu.Base.{
  ℕ, ◌+◌, ◌≡◌, ◌≢◌, ◌<◌, ◌∙◌, refl, ap, sym, List, [], ◌∷◌, Option, none, some, update, update-ne,
  bit_and,
}
use native.Mathlib.Decide.{ℕ_discrete}
use xremu.Cpu.Decode.{CachedInst}
use xremu.Cpu.Blocks.{
  Slot, path, entry, null, to_block, Iblock, BlockCache, vpn_bucket_index, take_vpage,
  allocate_vpage,
}
use xremu.Cpu.Blocks.Reclaim.{page_of, join_vpage, new_vpage, insert_iblock_in_vpage}
use xremu.Cpu.Blocks.Fetch.{filled}
use xremu.Cpu.Blocks.Consistent.{IsOpen, IsConsistent, IsSimilar, aim, leads, update_keeps}
use xremu.Cpu.Blocks.Consistent.Slots.{block-null}

module _ (c : BlockCache) (b v : ℕ) where
  join_vpage-IsSimilar : IsSimilar c (join_vpage c b v)
  join_vpage-IsSimilar = record {
    links = refl;
    cached_by = refl;
    lru = refl;
    free_list = refl;
    pcs = λ a.
        sym (
          update_keeps (λ (k : Iblock). k.pc) c.blocks b (record (c.blocks b) { vpage = v }) refl
            a);
    targets = λ a i. sym (
        update_keeps (λ (k : Iblock). leads k i) c.blocks b (record (c.blocks b) { vpage = v }) refl
          a);
    table_pcs = refl;
    buckets = refl;
    ptables = λ a. sym (
        update_keeps (λ (k : Iblock). k.has_ptable) c.blocks b (record (c.blocks b) { vpage = v })
          refl a);
    defined = refl;
  }

-- What becomes of a block of the cache when it is placed in its page: only block `b` is changed.
pub record IsJoined (c : BlockCache) (b : ℕ) (d : BlockCache) : Type 0 where
  pub similar : IsSimilar c d
  pub others : (a : ℕ) → a ≢ b → d.blocks a ≡ c.blocks a

joined :
    (c : BlockCache) (b v : ℕ) (d : BlockCache)
    → IsSimilar c d
    → d.blocks ≡ c.blocks
    → IsJoined c b (join_vpage d b v)
joined c b v d s same = record {
  similar = record {
    links = s.links;
    cached_by = s.cached_by;
    lru = s.lru;
    free_list = s.free_list;
    pcs = λ a. s.pcs a ∙ t.pcs a;
    targets = λ a i. s.targets a i ∙ t.targets a i;
    table_pcs = s.table_pcs;
    buckets = s.buckets;
    ptables = λ a. s.ptables a ∙ t.ptables a;
    defined = s.defined;
  };
  others = λ a ne.
      update-ne d.blocks b a (record (d.blocks b) { vpage = v }) ne
      ∙ ap (λ (f : ℕ → Iblock). f a) same;
}
  where
    t : IsSimilar d (join_vpage d b v)
    t = join_vpage-IsSimilar d b v

-- The result of placing a block in its page.
pub data IsInserted (c : BlockCache) (b : ℕ) : Option BlockCache → Type 0 where
  inserted : (d : BlockCache) → IsJoined c b d → IsInserted c b (some d)
  no_page : c.vpage_free_list ≡ [] → IsInserted c b none

abbrev paged : BlockCache → List ℕ → ℕ → ℕ → BlockCache
paged c vs v vpn = record c {
  vpage_free_list = vs;
  vpns = update c.vpns v vpn;
  references = update c.references v 1;
  vpage_hash_buckets =
      update c.vpage_hash_buckets (vpn_bucket_index vpn)
        (v ∷ c.vpage_hash_buckets (vpn_bucket_index vpn));
}

abbrev counted_page : BlockCache → ℕ → BlockCache
counted_page c v = record c { references = update c.references v (c.references v + 1) }

pub insert_iblock_in_vpage-IsInserted :
    (c : BlockCache) (b pc : ℕ) → IsInserted c b (insert_iblock_in_vpage c b pc)
unfolding insert_iblock_in_vpage allocate_vpage
insert_iblock_in_vpage-IsInserted c b pc = by_page (page_of c vpn)
  where
    vpn : ℕ
    vpn = bit_and pc 0xFFFFF000

    by_list :
        (vs : List ℕ) → c.vpage_free_list ≡ vs → IsInserted c b (new_vpage b vpn (take_vpage c vs))
    by_list [] e = no_page e
    by_list (v ∷ vs) e = inserted (join_vpage (paged c vs v vpn) b v) (
        joined c b v (paged c vs v vpn)
          (record {
            links = refl;
            cached_by = refl;
            lru = refl;
            free_list = refl;
            pcs = λ a. refl;
            targets = λ a i. refl;
            table_pcs = refl;
            buckets = refl;
            ptables = λ a. refl;
            defined = refl;
          })
          refl)

    by_page :
        (o : Option ℕ)
        → IsInserted c b (elim o [
          | none ↦ new_vpage b vpn (take_vpage c c.vpage_free_list)
          | some v ↦ some (
              join_vpage (record c { references = update c.references v (c.references v + 1) }) b v)
        ])
    by_page none = by_list c.vpage_free_list refl
    by_page (some v) = inserted (join_vpage (counted_page c v) b v) (
        joined c b v (counted_page c v)
          (record {
            links = refl;
            cached_by = refl;
            lru = refl;
            free_list = refl;
            pcs = λ a. refl;
            targets = λ a i. refl;
            table_pcs = refl;
            buckets = refl;
            ptables = λ a. refl;
            defined = refl;
          })
          refl)

-- The instructions of a block to which nothing leads from its own places.
pub filled-IsConsistent :
    (c : BlockCache) (b : ℕ) (what : List CachedInst × ℕ)
    → ((i : ℕ) → i < 2 → c.links (path b i) ≡ null)
    → IsConsistent c
    → IsConsistent (filled c b what)
filled-IsConsistent c b (insts, cycles) new h = record {
  linked = λ t a o e.
      let k = h.linked t a (opened t o) e in
      record {
        active = k.active;
        recorded = k.recorded;
        aimed = pcs a ∙ k.aimed ∙ sym (aims t a o e);
      };
  apart = h.apart;
  free = h.free;
  used = h.used;
  hashed = h.hashed;
  defined = h.defined;
  tabled = λ a active e. h.tabled a active (sym (ptables a) ∙ e);
}
  where
    pcs : (a : ℕ) → ((filled c b (insts, cycles)).blocks a).pc ≡ (c.blocks a).pc
    pcs a =
        update_keeps (λ (k : Iblock). k.pc) c.blocks b
          (record (c.blocks b) { insts = insts; cycles = cycles }) refl a

    ptables : (a : ℕ) → ((filled c b (insts, cycles)).blocks a).has_ptable ≡ (c.blocks a).has_ptable
    ptables a =
        update_keeps (λ (k : Iblock). k.has_ptable) c.blocks b
          (record (c.blocks b) { insts = insts; cycles = cycles }) refl a

    opened : (t : Slot) → IsOpen (filled c b (insts, cycles)) t → IsOpen c t
    opened (path x i) o = o
    opened (entry t k) o = o

    aims :
        (t : Slot) (a : ℕ)
        → IsOpen (filled c b (insts, cycles)) t
        → c.links t ≡ to_block a
        → aim (filled c b (insts, cycles)) t ≡ aim c t
    aims (entry t k) a o e = refl
    aims (path x i) a (active, lt) e = elim (ℕ_discrete x b) [
      | yes same ↦ absurd (block-null (sym e ∙ ap (λ (n : ℕ). c.links (path n i)) same ∙ new i lt))
      | no ne ↦
          ap (λ (k : Iblock). leads k i)
            (update-ne c.blocks b x (record (c.blocks b) { insts = insts; cycles = cycles }) ne)
    ]

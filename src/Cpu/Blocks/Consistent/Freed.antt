-- ===== src/Cpu/Blocks/Consistent/Freed.antt =====
-- One block is thrown away, with its pointers.
use xremu.Base.{
  subst, ℕ, ◌≡◌, ◌∙◌, refl, ap, sym, arith, true, false, ◌==◌, if_cases, List, ◌∷◌, update, sub32,
}
use xremu.Cpu.Blocks.{
  Slot, path, Link, to_table, BlockCache, has, remove_entry, cachedby_max,
  invalidate_iblock_pointers, free_ptable, release_vpage, unlink, free_iblock,
}
use xremu.Cpu.Blocks.Consistent.{IsActive, IsConsistent, IsSimilar, similar-IsConsistent}
use xremu.Cpu.Blocks.Consistent.Slots.{clear_slots_table, has-remove_entry_self}
use xremu.Cpu.Blocks.Consistent.Freeing.{
  IsUnlinked, invalidate-IsConsistent, invalidate-IsUnlinked, unlink-IsConsistent,
  release_vpage-IsSimilar, free_ptable-IsConsistent, pushed_free, pushed_free-IsConsistent,
}

-- What freeing blocks leaves of the others.
pub record IsLeft (c d : BlockCache) : Type 0 where
  pub blocks : d.blocks ≡ c.blocks
  pub table_pcs : d.table_pcs ≡ c.table_pcs
  pub tables : (a t : ℕ) → c.links (path a 0) ≡ to_table t → d.links (path a 0) ≡ to_table t
  pub pages : (v : ℕ) → has c.vpage_free_list v ≡ true → has d.vpage_free_list v ≡ true

pub IsLeft-self : (c : BlockCache) → IsLeft c c
IsLeft-self c = record {
  blocks = refl;
  table_pcs = refl;
  tables = λ a t e. e;
  pages = λ v' there. there;
}

pub IsLeft-trans : {c d e : BlockCache} → IsLeft c d → IsLeft d e → IsLeft c e
IsLeft-trans f g = record {
  blocks = g.blocks ∙ f.blocks;
  table_pcs = g.table_pcs ∙ f.table_pcs;
  tables = λ a t e. g.tables a t (f.tables a t e);
  pages = λ v there. g.pages v (f.pages v there);
}

invalidate-IsLeft : (c : BlockCache) (b : ℕ) → IsLeft c (invalidate_iblock_pointers c b)
unfolding invalidate_iblock_pointers
invalidate-IsLeft c b = record {
  blocks = refl;
  table_pcs = refl;
  tables = λ a t e. clear_slots_table cachedby_max (c.cached_by b) b c.links (path a 0) t e;
  pages = λ v there. there;
}

-- One block has been freed.
pub record IsFreed (c : BlockCache) (b : ℕ) (d : BlockCache) : Type 0 where
  pub consistent : IsConsistent d
  pub lru : d.iblock_lru_list ≡ remove_entry b c.iblock_lru_list
  pub free_list : d.iblock_free_list ≡ b ∷ c.iblock_free_list
  pub left : IsLeft c d

-- The same before the block is in the free list.
record IsTaken (c : BlockCache) (b : ℕ) (d : BlockCache) : Type 0 where
  pub consistent : IsConsistent d
  pub lru : d.iblock_lru_list ≡ remove_entry b c.iblock_lru_list
  pub free_list : d.iblock_free_list ≡ c.iblock_free_list
  pub left : IsLeft c d

module _ (c : BlockCache) (b : ℕ) (h : IsConsistent c) where
  released : IsUnlinked c b → IsTaken c b (release_vpage (unlink c b) (c.blocks b).vpage)
  released away = record {
    consistent = similar-IsConsistent similar (unlink-IsConsistent c b h away);
    lru = sym similar.lru;
    free_list = sym similar.free_list;
    left =
        IsLeft-trans
          (record {
            blocks = refl;
            table_pcs = refl;
            tables = λ a t e. e;
            pages = λ v' there. there;
          })
          (left (unlink c b) (c.blocks b).vpage);
  }
    where
      similar : IsSimilar (unlink c b) (release_vpage (unlink c b) (c.blocks b).vpage)
      similar = release_vpage-IsSimilar (unlink c b) (c.blocks b).vpage

      left : (d : BlockCache) (v : ℕ) → IsLeft d (release_vpage d v)
      left d v =
          if_cases (IsLeft d) (sub32 (d.references v) 1 == 0)
            {x = record (fewer d v) {
              vpage_hash_buckets = λ h'. remove_entry v (d.vpage_hash_buckets h');
              vpage_free_list = v ∷ d.vpage_free_list;
            }}
            {y = fewer d v}
            (λ last. record {
              blocks = refl;
              table_pcs = refl;
              tables = λ a t e. e;
              pages = λ v' there. ground (arith, there);
            })
            (λ more. record {
              blocks = refl;
              table_pcs = refl;
              tables = λ a t e. e;
              pages = λ v' there. there;
            })
        where
          fewer : BlockCache → ℕ → BlockCache
          fewer d' v' = record d' {
            references = update d'.references v' (sub32 (d'.references v') 1);
          }

  table_freed : (d : BlockCache) (u : ℕ) → IsTaken c b d → IsTaken c b (free_ptable d (to_table u))
  table_freed d u t = record {
    consistent = free_ptable-IsConsistent d u t.consistent;
    lru = t.lru;
    free_list = t.free_list;
    left = IsLeft-trans t.left (record {
      blocks = refl;
      table_pcs = refl;
      tables = λ a u' e. e;
      pages = λ v' there. there;
    });
  }

  pub free_iblock-IsFreed : IsActive c b → IsUnlinked c b → IsFreed c b (free_iblock c b)
  unfolding free_iblock
  free_iblock-IsFreed active away =
      if_cases (λ (e : BlockCache). IsFreed c b (pushed_free e b)) (c.blocks b).has_ptable
        {x = free_ptable d (d.links (path b 0))} {y = d}
        (λ table.
          let (u, l) = h.tabled b active table in
          subst (λ (m : Link). IsFreed c b (pushed_free (free_ptable d m) b))
            (sym (ap (λ (m : Slot → Link). m (path b 0)) (sym similar.links) ∙ l))
            (finish (free_ptable d (to_table u)) (table_freed d u (released away))))
        (λ plain. finish d (released away))
    where
      d : BlockCache
      d = release_vpage (unlink c b) (c.blocks b).vpage

      similar : IsSimilar (unlink c b) d
      similar = release_vpage-IsSimilar (unlink c b) (c.blocks b).vpage

      finish : (e : BlockCache) → IsTaken c b e → IsFreed c b (pushed_free e b)
      finish e t = record {
        consistent =
            pushed_free-IsConsistent e b
              (ap (λ (l : List ℕ). has l b) t.lru ∙ has-remove_entry_self b c.iblock_lru_list)
              (ap (λ (l : List ℕ). has l b) t.free_list ∙ not_free) t.consistent;
        lru = t.lru;
        free_list = ap (λ (l : List ℕ). b ∷ l) t.free_list;
        left = IsLeft-trans t.left (record {
          blocks = refl;
          table_pcs = refl;
          tables = λ a u e'. e';
          pages = λ v' there. there;
        });
      }
        where
          not_free : has c.iblock_free_list b ≡ false
          not_free = ground (arith, active, h.apart b)

-- `XrInvalidateIblockPointers` and `XrFreeIblock`
pub discard-IsFreed :
    (c : BlockCache) (b : ℕ)
    → IsConsistent c
    → IsActive c b
    → IsFreed c b (free_iblock (invalidate_iblock_pointers c b) b)
unfolding invalidate_iblock_pointers
discard-IsFreed c b h active =
    let f =
      free_iblock-IsFreed (invalidate_iblock_pointers c b) b (invalidate-IsConsistent c b h) active
        (invalidate-IsUnlinked c b h) in
    record {
      consistent = f.consistent;
      lru = f.lru;
      free_list = f.free_list;
      left = IsLeft-trans (invalidate-IsLeft c b) f.left;
    }

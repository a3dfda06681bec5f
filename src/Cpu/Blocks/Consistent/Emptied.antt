-- ===== src/Cpu/Blocks/Consistent/Emptied.antt =====
-- All blocks thrown away, without following the pointers to them.
use xremu.Base.{
  subst, ℕ, ◌≡◌, ◌∙◌, refl, ap, sym, arith, Bool, true, false, ◌==◌, if_cases, List, [], ◌∷◌,
}
use xremu.Cpu.Blocks.{
  Slot, path, entry, Link, to_table, BlockCache, has, remove_entry, free_ptable, release_vpage,
  unlink, free_iblock,
}
use xremu.Cpu.Blocks.Reclaim.{free_all, invalidate_iblock_cache}
use xremu.Cpu.Blocks.Consistent.{IsActive, IsOpen, IsConsistent, IsSimilar, distinct}
use xremu.Cpu.Blocks.Consistent.Slots.{has-remove_entry_self, has-remove_entry, has-remove_entry_ne}
use xremu.Cpu.Blocks.Consistent.Freeing.{
  distinct-remove_entry, release_vpage-IsSimilar, pushed_free,
}

-- What freeing does to the lists
record IsListed (c : BlockCache) (b : ℕ) (d : BlockCache) : Type 0 where
  lru : d.iblock_lru_list ≡ remove_entry b c.iblock_lru_list
  free_list : d.iblock_free_list ≡ c.iblock_free_list
  buckets : (n : ℕ) → d.iblock_hash_buckets n ≡ remove_entry b (c.iblock_hash_buckets n)
  ptables : (a : ℕ) → (d.blocks a).has_ptable ≡ (c.blocks a).has_ptable
  paths : (a : ℕ) → d.links (path a 0) ≡ c.links (path a 0)
  defined : d.undefined ≡ c.undefined

table-IsListed :
    (c : BlockCache) (b : ℕ) (d : BlockCache) (t : ℕ)
    → IsListed c b d
    → IsListed c b (free_ptable d (to_table t))
table-IsListed c b d t h = record {
  lru = h.lru;
  free_list = h.free_list;
  buckets = h.buckets;
  ptables = h.ptables;
  paths = h.paths;
  defined = h.defined;
}

-- The lists are in order.
record IsPooled (c : BlockCache) : Type 0 where
  apart : (b : ℕ) → has c.iblock_free_list b ≡ true → has c.iblock_lru_list b ≡ false
  free : distinct c.iblock_free_list ≡ true
  used : distinct c.iblock_lru_list ≡ true
  hashed : (n b : ℕ) → has (c.iblock_hash_buckets n) b ≡ true → IsActive c b
  defined : c.undefined ≡ false
  tabled :
      (b : ℕ)
      → IsActive c b
      → (c.blocks b).has_ptable ≡ true
      → (t : ℕ) × (c.links (path b 0) ≡ to_table t)

-- One block less.
record IsShorter (c : BlockCache) (b : ℕ) (d : BlockCache) : Type 0 where
  pooled : IsPooled d
  lru : d.iblock_lru_list ≡ remove_entry b c.iblock_lru_list
  free_list : d.iblock_free_list ≡ b ∷ c.iblock_free_list

module _ (c : BlockCache) (b : ℕ) (h : IsPooled c) (active : IsActive c b) where
  listed : IsListed c b (release_vpage (unlink c b) (c.blocks b).vpage)
  listed =
      let s : IsSimilar (unlink c b) (release_vpage (unlink c b) (c.blocks b).vpage) =
        release_vpage-IsSimilar (unlink c b) (c.blocks b).vpage in
      record {
        lru = sym s.lru;
        free_list = sym s.free_list;
        buckets = λ n. ap (λ (l : ℕ → List ℕ). l n) (sym s.buckets);
        ptables = λ a. sym (s.ptables a);
        paths = λ a. ap (λ (l : Slot → Link). l (path a 0)) (sym s.links);
        defined = sym s.defined;
      }

  shorter : (d : BlockCache) → IsListed c b d → IsShorter c b (pushed_free d b)
  shorter d l = record {
    pooled = record {
      apart = λ a f. apart a f;
      free = ground (
        arith,
        ap (λ (xs : List ℕ). has xs b) l.free_list,
        not_free,
        ap distinct l.free_list,
        h.free,
      );
      used = ap distinct l.lru ∙ distinct-remove_entry b c.iblock_lru_list h.used;
      hashed = λ n a there. hashed n a (ap (λ (xs : List ℕ). has xs a) (sym (l.buckets n)) ∙ there);
      defined = l.defined ∙ h.defined;
      tabled = λ a there e.
          let (t, k) =
            h.tabled a
              (has-remove_entry b a c.iblock_lru_list
                (ap (λ (xs : List ℕ). has xs a) (sym l.lru) ∙ there))
              (sym (l.ptables a) ∙ e) in
          (t, l.paths a ∙ k);
    };
    lru = l.lru;
    free_list = ap (λ (xs : List ℕ). b ∷ xs) l.free_list;
  }
    where
      not_free : has c.iblock_free_list b ≡ false
      not_free = ground (arith, active, h.apart b)

      hashed :
          (n a : ℕ)
          → has (remove_entry b (c.iblock_hash_buckets n)) a ≡ true
          → has d.iblock_lru_list a ≡ true
      hashed n a there =
          ap (λ (xs : List ℕ). has xs a) l.lru
          ∙ has-remove_entry_ne b a c.iblock_lru_list
              (h.hashed n a (has-remove_entry b a (c.iblock_hash_buckets n) there))
              (λ same. ground (
                arith,
                there,
                has-remove_entry_self b (c.iblock_hash_buckets n),
                ap (has (remove_entry b (c.iblock_hash_buckets n))) same,
              ))

      gone :
          (a : ℕ)
          → has c.iblock_lru_list a ≡ false
          → has (remove_entry b c.iblock_lru_list) a ≡ false
      gone a not = ground (arith, not, has-remove_entry b a c.iblock_lru_list)

      apart : (a : ℕ) → has (b ∷ d.iblock_free_list) a ≡ true → has d.iblock_lru_list a ≡ false
      apart a f =
          ap (λ (xs : List ℕ). has xs a) l.lru
          ∙ if_cases (λ (x : Bool). x ≡ true → has (remove_entry b c.iblock_lru_list) a ≡ false)
              (a == b) {x = true} {y = has d.iblock_free_list a}
              (λ same u.
                ap (has (remove_entry b c.iblock_lru_list)) (ground (arith, same))
                ∙ has-remove_entry_self b c.iblock_lru_list)
              (λ other u. gone a (h.apart a (ap (λ (xs : List ℕ). has xs a) (sym l.free_list) ∙ u)))
              f

  free_iblock-IsShorter : IsShorter c b (free_iblock c b)
  unfolding free_iblock
  free_iblock-IsShorter =
      if_cases (λ (e : BlockCache). IsShorter c b (pushed_free e b)) (c.blocks b).has_ptable
        {x = free_ptable d (d.links (path b 0))} {y = d}
        (λ table.
          let (t, l) = h.tabled b active table in
          subst (λ (m : Link). IsShorter c b (pushed_free (free_ptable d m) b))
            (sym (listed.paths b ∙ l))
            (shorter (free_ptable d (to_table t)) (table-IsListed c b d t listed)))
        (λ plain. shorter d listed)
    where
      d : BlockCache
      d = release_vpage (unlink c b) (c.blocks b).vpage

record IsFreed (c : BlockCache) (bs : List ℕ) (d : BlockCache) : Type 0 where
  pooled : IsPooled d
  left : (x : ℕ) → IsActive d x → IsActive c x × (has bs x ≡ false)
  now_free : (x : ℕ) → has bs x ≡ true → has d.iblock_free_list x ≡ true
  still_free : (x : ℕ) → has c.iblock_free_list x ≡ true → has d.iblock_free_list x ≡ true

free_all-IsFreed :
    (bs : List ℕ) (c : BlockCache)
    → IsPooled c
    → distinct bs ≡ true
    → ((x : ℕ) → has bs x ≡ true → IsActive c x)
    → IsFreed c bs (free_all bs c)
unfolding free_all
free_all-IsFreed [] c h once all = record {
  pooled = h;
  left = λ x active. (active, refl);
  now_free = λ x there. ground (arith, there);
  still_free = λ x there. there;
}
free_all-IsFreed (b ∷ bs) c h once all =
    let s = free_iblock-IsShorter c b h (all b (ground arith)) in
    let r = free_all-IsFreed bs (free_iblock c b) s.pooled (ground (arith, once)) (λ x there.
      ap (λ (xs : List ℕ). has xs x) s.lru
      ∙ has-remove_entry_ne b x c.iblock_lru_list (all x (ground (arith, there)))
          (λ same. ground (arith, once, there, ap (has bs) same))) in
    record {
      pooled = r.pooled;
      left = λ x active.
          let (before, not) = r.left x active in
          let kept : has (remove_entry b c.iblock_lru_list) x ≡ true =
            ap (λ (xs : List ℕ). has xs x) (sym s.lru) ∙ before in
          (has-remove_entry b x c.iblock_lru_list kept, by_test x kept not);
      now_free = λ x there.
          if_cases
            (λ (t : Bool). t ≡ true → has (free_all bs (free_iblock c b)).iblock_free_list x ≡ true)
            (x == b) {x = true} {y = has bs x}
            (λ same u.
              r.still_free x (ap (λ (xs : List ℕ). has xs x) s.free_list ∙ ground (arith, same)))
            (λ other u. r.now_free x u) there;
      still_free = λ x there.
          r.still_free x (ap (λ (xs : List ℕ). has xs x) s.free_list ∙ ground (arith, there));
    }
  where
    by_test :
        (x : ℕ)
        → has (remove_entry b c.iblock_lru_list) x ≡ true
        → has bs x ≡ false
        → has (b ∷ bs) x ≡ false
    by_test x kept not =
        if_cases (λ (t : Bool). t ≡ false) (x == b) {x = true} {y = has bs x}
          (λ same. absurd (
            ground (
              arith,
              kept,
              has-remove_entry_self b c.iblock_lru_list,
              ap (has (remove_entry b c.iblock_lru_list)) (is_b x same),
            )))
          (λ other. not)
      where
        is_b : (x' : ℕ) → (x' == b) ≡ true → x' ≡ b
        is_b x' same = ground (arith, same)

-- XrInvalidateIblockCache, which leaves the pointers to the blocks where they are, leaves no block
-- in use, frees every block that was in use, and keeps the pointers right, when they were.
pub invalidate_iblock_cache-IsConsistent :
    (c : BlockCache)
    → IsConsistent c
    → IsConsistent (invalidate_iblock_cache c)
      × ((b : ℕ) → has (invalidate_iblock_cache c).iblock_lru_list b ≡ false)
      × ((b : ℕ) → IsActive c b → has (invalidate_iblock_cache c).iblock_free_list b ≡ true)
unfolding invalidate_iblock_cache
invalidate_iblock_cache-IsConsistent c h = (
  record {
    linked = λ s b o e. absurd (ground (arith, closed s o));
    apart = r.pooled.apart;
    free = r.pooled.free;
    used = r.pooled.used;
    hashed = r.pooled.hashed;
    defined = r.pooled.defined;
    tabled = r.pooled.tabled;
  },
  empty,
  r.now_free,
)
  where
    r : IsFreed c c.iblock_lru_list (free_all c.iblock_lru_list c)
    r =
        free_all-IsFreed c.iblock_lru_list c
          (record {
            apart = h.apart;
            free = h.free;
            used = h.used;
            hashed = h.hashed;
            defined = h.defined;
            tabled = h.tabled;
          })
          h.used (λ x there. there)

    none_active : (x : ℕ) → IsActive (free_all c.iblock_lru_list c) x → true ≡ false
    none_active x active = ground (arith, r.left x active)

    empty : (b : ℕ) → has (free_all c.iblock_lru_list c).iblock_lru_list b ≡ false
    empty b = by_value (has (free_all c.iblock_lru_list c).iblock_lru_list b) refl
      where
        by_value : (v : Bool) → has (free_all c.iblock_lru_list c).iblock_lru_list b ≡ v → v ≡ false
        by_value true e = absurd (ground (arith, none_active b e))
        by_value false e = refl

    closed : (s : Slot) → IsOpen (free_all c.iblock_lru_list c) s → true ≡ false
    closed (path b i) (active, lt) = none_active b active
    closed (entry t k) (b, active, e, lt) = none_active b active

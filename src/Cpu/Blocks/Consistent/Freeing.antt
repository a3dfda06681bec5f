-- ===== src/Cpu/Blocks/Consistent/Freeing.antt =====
-- A block that is invalidated and freed takes the pointers to it along.
use xremu.Base.{
  ℕ, ◌≡◌, ◌≢◌, ◌∙◌, refl, ap, sym, arith, Bool, true, false, ◌==◌, if_cases, List, [], ◌∷◌, inl,
  inr, update, sub32,
}
use xremu.Cpu.Blocks.{
  Slot, path, entry, Link, to_block, to_table, BlockCache, has, remove_entry, cachedby_max,
  clear_slots, next_free, invalidate_iblock_pointers, free_ptable, release_vpage, unlink,
}
use xremu.Cpu.Blocks.Consistent.{IsOpen, IsConsistent, IsSimilar, aim, distinct}
use xremu.Cpu.Blocks.Consistent.Slots.{
  path-entry, clear_slots_table, block-null, table-null, block-table, put_cases, clear_slots_keeps,
  clear_slots_cleared, has-remove_entry_self, has-remove_entry, has-remove_entry_ne,
}

pub distinct-remove_entry :
    (b : ℕ) (xs : List ℕ) → distinct xs ≡ true → distinct (remove_entry b xs) ≡ true
distinct-remove_entry b [] h = h
distinct-remove_entry b (x ∷ xs) h =
    ground (arith, h, distinct-remove_entry b xs, has-remove_entry b x xs)

module _ (c : BlockCache) (b : ℕ) where
  -- No place of a block in use leads to `b`.
  abbrev pub IsUnlinked : Type 0
  IsUnlinked = (t : Slot) → IsOpen c t → c.links t ≢ to_block b

abbrev pub keeps_open : (Slot → Link) → BlockCache → BlockCache
keeps_open links c = record c { links = links }

-- Fewer pointers are as right as before.
pub fewer-IsOpen :
    (c : BlockCache) (links : Slot → Link)
    → ((t : Slot) (u : ℕ) → links t ≡ to_table u → c.links t ≡ to_table u)
    → (t : Slot) → IsOpen (keeps_open links c) t
    → IsOpen c t
fewer-IsOpen c links tables (path b i) o = o
fewer-IsOpen c links tables (entry t k) (b, a, e, lt) = (b, a, tables (path b 0) t e, lt)

pub aim-fewer :
    (c : BlockCache) (links : Slot → Link) (t : Slot) → aim (keeps_open links c) t ≡ aim c t
aim-fewer c links (path b i) = refl
aim-fewer c links (entry t k) = refl

pub fewer-IsConsistent :
    (c : BlockCache) (links : Slot → Link)
    → ((t : Slot) (u : ℕ)
        → links t ≡ to_table u
        → IsOpen (keeps_open links c) t
        → c.links t ≡ to_table u)
    → ((t : Slot) (a : ℕ) → links t ≡ to_block a → c.links t ≡ to_block a)
    → ((t : Slot) (u : ℕ) → c.links t ≡ to_table u → links t ≡ to_table u)
    → IsConsistent c
    → IsConsistent (keeps_open links c)
fewer-IsConsistent c links tables blocks forward h = record {
  linked = λ t a o e.
      let k = h.linked t a (opened t o) (blocks t a e) in
      record {
        active = k.active;
        recorded = k.recorded;
        aimed = k.aimed ∙ sym (aim-fewer c links t);
      };
  apart = h.apart;
  free = h.free;
  used = h.used;
  hashed = h.hashed;
  defined = h.defined;
  tabled = λ a active e. let (t, l) = h.tabled a active e in (t, forward (path a 0) t l);
}
  where
    opened : (t : Slot) → IsOpen (keeps_open links c) t → IsOpen c t
    opened (path b i) o = o
    opened (entry t k) (b, a, e, lt) = (b, a, tables (path b 0) t e (a, omega arith), lt)

module _ (c : BlockCache) (b : ℕ) (h : IsConsistent c) where
  abbrev cleared : Slot → Link
  cleared = clear_slots cachedby_max (c.cached_by b) b c.links

  pub invalidate-IsConsistent : IsConsistent (invalidate_iblock_pointers c b)
  unfolding invalidate_iblock_pointers
  invalidate-IsConsistent =
      fewer-IsConsistent c cleared
        (λ t u e o.
          clear_slots_keeps cachedby_max (c.cached_by b) b c.links t (to_table u) table-null e)
        (λ t a e.
          clear_slots_keeps cachedby_max (c.cached_by b) b c.links t (to_block a) block-null e)
        (λ t u e. clear_slots_table cachedby_max (c.cached_by b) b c.links t u e) h

  pub invalidate-IsUnlinked : IsUnlinked (invalidate_iblock_pointers c b) b
  unfolding invalidate_iblock_pointers
  invalidate-IsUnlinked t o e =
      let opened =
        fewer-IsOpen c cleared
          (λ t' u e'.
            clear_slots_keeps cachedby_max (c.cached_by b) b c.links t' (to_table u) table-null e')
          t o in
      let k =
        h.linked t b opened
          (clear_slots_keeps cachedby_max (c.cached_by b) b c.links t (to_block b) block-null e) in
      let (i, lt, r) = k.recorded in
      clear_slots_cleared cachedby_max (c.cached_by b) b c.links t i lt r e

module _ (c : BlockCache) (b : ℕ) (h : IsConsistent c) where
  unlink-IsOpen : (t : Slot) → IsOpen (unlink c b) t → IsOpen c t
  unlink-IsOpen (path a i) (active, lt) = (has-remove_entry b a c.iblock_lru_list active, lt)
  unlink-IsOpen (entry t k) (a, active, e, lt) =
      (a, has-remove_entry b a c.iblock_lru_list active, e, lt)

  aim-unlink : (t : Slot) → aim (unlink c b) t ≡ aim c t
  aim-unlink (path a i) = refl
  aim-unlink (entry t k) = refl

  pub unlink-IsConsistent : IsUnlinked c b → IsConsistent (unlink c b)
  unlink-IsConsistent away = record {
    linked = λ t a o e.
        let k = h.linked t a (unlink-IsOpen t o) e in
        record {
          active =
              has-remove_entry_ne b a c.iblock_lru_list k.active
                (λ same. away t (unlink-IsOpen t o) (e ∙ ap to_block same));
          recorded = k.recorded;
          aimed = k.aimed ∙ sym (aim-unlink t);
        };
    apart = λ a f. ground (arith, h.apart a f, has-remove_entry b a c.iblock_lru_list);
    free = h.free;
    used = distinct-remove_entry b c.iblock_lru_list h.used;
    hashed = λ n a there.
        has-remove_entry_ne b a c.iblock_lru_list
          (h.hashed n a (has-remove_entry b a (c.iblock_hash_buckets n) there))
          (λ same. ground (
            arith,
            there,
            has-remove_entry_self b (c.iblock_hash_buckets n),
            ap (has (remove_entry b (c.iblock_hash_buckets n))) same,
          ));
    defined = h.defined;
    tabled = λ a active e. h.tabled a (has-remove_entry b a c.iblock_lru_list active) e;
  }

pub release_vpage-IsSimilar : (c : BlockCache) (v : ℕ) → IsSimilar c (release_vpage c v)
release_vpage-IsSimilar c v =
    if_cases (IsSimilar c) (sub32 (c.references v) 1 == 0)
      {x = record fewer {
        vpage_hash_buckets = λ h. remove_entry v (c.vpage_hash_buckets h);
        vpage_free_list = v ∷ c.vpage_free_list;
      }}
      {y = fewer}
      (λ last. record {
        links = refl;
        cached_by = refl;
        lru = refl;
        free_list = refl;
        pcs = λ b. refl;
        targets = λ b i. refl;
        table_pcs = refl;
        buckets = refl;
        ptables = λ b. refl;
        defined = refl;
      })
      (λ more. record {
        links = refl;
        cached_by = refl;
        lru = refl;
        free_list = refl;
        pcs = λ b. refl;
        targets = λ b i. refl;
        table_pcs = refl;
        buckets = refl;
        ptables = λ b. refl;
        defined = refl;
      })
  where
    fewer : BlockCache
    fewer = record c { references = update c.references v (sub32 (c.references v) 1) }

next_free-block : (ts : List ℕ) (a : ℕ) → next_free ts ≢ to_block a
next_free-block [] a e = block-null (sym e)
next_free-block (t ∷ ts) a e = block-table (sym e)

pub free_ptable-IsConsistent :
    (c : BlockCache) (u : ℕ) → IsConsistent c → IsConsistent (free_ptable c (to_table u))
free_ptable-IsConsistent c u h = record {
  linked = λ t a o e.
      elim (put_cases c.links (entry u 0) (next_free c.ptable_free_list) t (to_block a) e) [
        | inl (same, wrong) ↦ absurd (next_free-block c.ptable_free_list a wrong)
        | inr (differ, kept) ↦
            let k = h.linked t a (opened t o) kept in
            record { active = k.active; recorded = k.recorded; aimed = k.aimed ∙ sym (aims t) }
      ];
  apart = h.apart;
  free = h.free;
  used = h.used;
  hashed = h.hashed;
  defined = h.defined;
  tabled = h.tabled;
}
  where
    opened : (t : Slot) → IsOpen (free_ptable c (to_table u)) t → IsOpen c t
    opened (path b i) o = o
    opened (entry t k) (b, a, e, lt) =
        elim (put_cases c.links (entry u 0) (next_free c.ptable_free_list) (path b 0) (to_table t)
          e) [
            | inl (same, wrong) ↦ absurd (path-entry same)
            | inr (differ, kept) ↦ (b, a, kept, lt)
          ]

    aims : (t : Slot) → aim (free_ptable c (to_table u)) t ≡ aim c t
    aims (path b i) = refl
    aims (entry t k) = refl

abbrev pub pushed_free : BlockCache → ℕ → BlockCache
pushed_free c b = record c { iblock_free_list = b ∷ c.iblock_free_list }

pub pushed_free-IsConsistent :
    (c : BlockCache) (b : ℕ)
    → has c.iblock_lru_list b ≡ false
    → has c.iblock_free_list b ≡ false
    → IsConsistent c
    → IsConsistent (pushed_free c b)
pushed_free-IsConsistent c b gone taken h = record {
  linked = λ t a o e.
      let k = h.linked t a (opened t o) e in
      record { active = k.active; recorded = k.recorded; aimed = k.aimed ∙ sym (aims t) };
  apart = λ a f. apart a f;
  free = ground (arith, taken, h.free);
  used = h.used;
  hashed = h.hashed;
  defined = h.defined;
  tabled = h.tabled;
}
  where
    opened : (t : Slot) → IsOpen (pushed_free c b) t → IsOpen c t
    opened (path a i) o = o
    opened (entry t k) o = o

    aims : (t : Slot) → aim (pushed_free c b) t ≡ aim c t
    aims (path a i) = refl
    aims (entry t k) = refl

    apart : (a : ℕ) → has (b ∷ c.iblock_free_list) a ≡ true → has c.iblock_lru_list a ≡ false
    apart a f =
        if_cases (λ (x : Bool). x ≡ true → has c.iblock_lru_list a ≡ false) (a == b) {x = true}
          {y = has c.iblock_free_list a}
          (λ same kept. ap (has c.iblock_lru_list) (ground (arith, same)) ∙ gone)
          (λ other kept. h.apart a kept) f

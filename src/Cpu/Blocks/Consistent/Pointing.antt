-- ===== src/Cpu/Blocks/Consistent/Pointing.antt =====
-- `XrCreateCachedPointerToBlock` keeps the pointers right.
use xremu.Base.{
  if_cases, false, ℕ, ◌+◌, ◌-◌, ◌%◌, ◌^◌, ◌≡◌, ◌<◌, ◌∙◌, refl, ap, sym, arith, subst, true, false,
  Option, some, inl, inr, update, update_self, update-ne, bit_and,
}
use native.Mathlib.Decide.{ℕ_discrete}
use xremu.Bits.{bit_and-ones}
use xremu.Cpu.Blocks.{
  put, same_slot, has, Slot, path, entry, Link, to_block, to_table, Iblock, BlockCache,
  cachedby_max, clear_slot, create_cached_pointer_to_block,
}
use xremu.Cpu.Blocks.Consistent.{
  IsActive, IsOpen, IsLinked, IsConsistent, aim, leads, distinct, update_keeps,
}
use xremu.Cpu.Blocks.Consistent.Slots.{
  same_slot-true, clear_slot_table, same_block, block-null, table-null, block-table, put_cases,
  clear_slot_keeps, clear_slot_cleared,
}

module _ (c : BlockCache) (b : ℕ) (s : Slot) where
  abbrev index : ℕ
  index = bit_and (c.blocks b).cached_by_fifo_index (cachedby_max - 1)

  abbrev cleared : Slot → Link
  cleared = clear_slot (c.cached_by b index) b c.links

  abbrev created_by : ℕ → ℕ → Option Slot
  created_by = update c.cached_by b (update (c.cached_by b) index (some s))

  abbrev counted : Iblock
  counted = record (c.blocks b) {
    cached_by_fifo_index = ((c.blocks b).cached_by_fifo_index + 1) % 2 ^ 8;
  }

  abbrev created_blocks : ℕ → Iblock
  created_blocks = update c.blocks b counted

  pub created_pc : (a : ℕ) → (created_blocks a).pc ≡ (c.blocks a).pc
  created_pc a = update_keeps (λ (k : Iblock). k.pc) c.blocks b counted refl a

  leads-created : (a i : ℕ) → leads (created_blocks a) i ≡ leads (c.blocks a) i
  leads-created a i = update_keeps (λ (k : Iblock). leads k i) c.blocks b counted refl a

  index_lt : index < cachedby_max
  index_lt = omega (arith, bit_and-ones 2 (c.blocks b).cached_by_fifo_index)

  new_recorded : created_by b index ≡ some s
  new_recorded =
      ap (λ (f : ℕ → Option Slot). f index)
        (update_self c.cached_by b (update (c.cached_by b) index (some s)))
      ∙ update_self (c.cached_by b) index (some s)

  -- What is not cleared is still recorded.
  still_recorded :
      (t : Slot) (a i : ℕ)
      → cleared t ≡ to_block a
      → c.cached_by a i ≡ some t
      → created_by a i ≡ some t
  still_recorded t a i kept r = elim (ℕ_discrete a b) [
    | no ne ↦
        ap (λ (f : ℕ → Option Slot). f i)
          (update-ne c.cached_by b a (update (c.cached_by b) index (some s)) ne)
        ∙ r
    | yes e ↦ elim (ℕ_discrete i index) [
      | no ne ↦
          ap (λ (n : ℕ). created_by n i) e
          ∙ ap (λ (f : ℕ → Option Slot). f i)
              (update_self c.cached_by b (update (c.cached_by b) index (some s)))
          ∙ update-ne (c.cached_by b) index i (some s) ne
          ∙ ap (λ (n : ℕ). c.cached_by n i) (sym e)
          ∙ r
      | yes same ↦ absurd (
          clear_slot_cleared t b c.links (
            ap (λ (o : Option Slot). clear_slot o b c.links t)
              (sym r ∙ ap (λ (n : ℕ). c.cached_by n i) e ∙ ap (c.cached_by b) same)
            ∙ kept
            ∙ ap to_block e))
    ]
  ]

  pub created-IsOpen : (t : Slot) → IsOpen (create_cached_pointer_to_block c b s) t → IsOpen c t
  unfolding create_cached_pointer_to_block
  created-IsOpen (path a i) o = o
  created-IsOpen (entry t k) (a, active, e, lt) = (a, active, before, lt)
    where
      before : c.links (path a 0) ≡ to_table t
      before = elim (put_cases cleared s (to_block b) (path a 0) (to_table t) e) [
        | inl (same, wrong) ↦ absurd (block-table wrong)
        | inr (differ, kept) ↦
            clear_slot_keeps (c.cached_by b index) b c.links (path a 0) (to_table t) table-null kept
      ]

  aim-created : (t : Slot) → aim (create_cached_pointer_to_block c b s) t ≡ aim c t
  unfolding create_cached_pointer_to_block
  aim-created (path a i) = leads-created a i
  aim-created (entry t k) = refl

  -- All but the pointer in `s` are right, and `s` is not where a block has its table.
  pub record IsConsistentBut : Type 0 where
    pub linked :
        (t : Slot) (a : ℕ)
        → same_slot t s ≡ false
        → IsOpen c t
        → c.links t ≡ to_block a
        → IsLinked c t a
    pub apart : (a : ℕ) → has c.iblock_free_list a ≡ true → has c.iblock_lru_list a ≡ false
    pub free : distinct c.iblock_free_list ≡ true
    pub used : distinct c.iblock_lru_list ≡ true
    pub hashed : (n a : ℕ) → has (c.iblock_hash_buckets n) a ≡ true → IsActive c a
    pub defined : c.undefined ≡ false
    pub tabled :
        (a : ℕ)
        → IsActive c a
        → (c.blocks a).has_ptable ≡ true
        → (t : ℕ) × (c.links (path a 0) ≡ to_table t)
    pub untabled : (x : ℕ) → s ≡ path x 0 → (c.blocks x).has_ptable ≡ false

  pub but_one :
      IsConsistent c → ((x : ℕ) → s ≡ path x 0 → (c.blocks x).has_ptable ≡ false) → IsConsistentBut
  but_one h untabled = record {
    linked = λ t a differ o e. h.linked t a o e;
    apart = h.apart;
    free = h.free;
    used = h.used;
    hashed = h.hashed;
    defined = h.defined;
    tabled = h.tabled;
    untabled = untabled;
  }

  -- A new cached pointer, by XrCreateCachedPointerToBlock, leaves every pointer from a block in use
  -- to a block right, even one that the four back pointers have no room for: it leads to a block in
  -- use that starts where it should, and is among the back pointers of that block. It may replace a
  -- pointer that was wrong, when the block is in use and starts where the place should lead. The
  -- place is not where a block has its table, and every block with a table keeps it.
  pub create_cached_pointer_to_block-IsConsistent :
      IsConsistentBut
      → IsActive c b
      → (c.blocks b).pc ≡ aim c s
      → IsConsistent (create_cached_pointer_to_block c b s)
  unfolding create_cached_pointer_to_block
  create_cached_pointer_to_block-IsConsistent h active aimed = record {
    linked = λ t a o e. elim (put_cases cleared s (to_block b) t (to_block a) e) [
      | inl (same, block) ↦
          subst (λ (n : ℕ). IsLinked (create_cached_pointer_to_block c b s) t n) (same_block block)
            (subst (λ (u : Slot). IsLinked (create_cached_pointer_to_block c b s) u b) (sym same)
              fresh)
      | inr (differ, kept) ↦ old t a differ o kept
    ];
    apart = h.apart;
    free = h.free;
    used = h.used;
    hashed = h.hashed;
    defined = h.defined;
    tabled = tabled;
  }
    where
      tabled :
          (a : ℕ)
          → IsActive c a
          → (created_blocks a).has_ptable ≡ true
          → (t : ℕ) × (put cleared s (to_block b) (path a 0) ≡ to_table t)
      tabled a there has_one =
          let before : (c.blocks a).has_ptable ≡ true =
            sym (update_keeps (λ (k : Iblock). k.has_ptable) c.blocks b counted refl a) ∙ has_one in
          let (t, l) = h.tabled a there before in
          (
            t,
            if_cases (λ (m : Link). m ≡ to_table t) (same_slot (path a 0) s) {x = to_block b}
                {y = cleared (path a 0)}
                (λ same.
                  absurd
                    (ground (arith, before, h.untabled a (sym (same_slot-true (path a 0) s same)))))
                (λ differ. clear_slot_table (c.cached_by b index) b c.links (path a 0) t l),
          )

      fresh : IsLinked (create_cached_pointer_to_block c b s) s b
      fresh = record {
        active = active;
        recorded = (index, index_lt, new_recorded);
        aimed = created_pc b ∙ aimed ∙ sym (aim-created s);
      }

      old :
          (t : Slot) (a : ℕ)
          → same_slot t s ≡ false
          → IsOpen (create_cached_pointer_to_block c b s) t
          → cleared t ≡ to_block a
          → IsLinked (create_cached_pointer_to_block c b s) t a
      old t a differ o kept =
          let k =
            h.linked t a differ (created-IsOpen t o)
              (clear_slot_keeps (c.cached_by b index) b c.links t (to_block a) block-null kept) in
          let (i, lt, r) = k.recorded in
          record {
            active = k.active;
            recorded = (i, lt, still_recorded t a i kept r);
            aimed = created_pc a ∙ k.aimed ∙ sym (aim-created t);
          }

-- ===== src/Cpu/Branch/Tables.antt =====
-- The prediction tables of JALR: a block gets one, and an entry gets another address.
use xremu.Base.{
  ℕ, zero, suc, ◌≡◌, ◌≢◌, ◌<◌, ◌∙◌, refl, ap, sym, arith, true, false, if_cases, List, inl, inr,
  update, update_self, update-ne,
}
use native.Mathlib.Decide.{ℕ_discrete}
use xremu.Cpu.Blocks.{
  Slot, path, entry, Link, null, to_block, to_table, same_slot, put, Iblock, BlockCache,
  table_entries, clear_entries,
}
use xremu.Cpu.Blocks.Consistent.{IsActive, IsOpen, IsConsistent, aim, leads, update_keeps}
use xremu.Cpu.Blocks.Consistent.Slots.{path-entry, put_self, block-null, block-table, put_cases}
use xremu.Cpu.Blocks.Consistent.Pointing.{IsConsistentBut}

clear_entries_path :
    (n t : ℕ) (links : Slot → Link) (x i : ℕ)
    → clear_entries n t links (path x i) ≡ links (path x i)
clear_entries_path zero t links x i = refl
clear_entries_path (suc n) t links x i = clear_entries_path n t links x i

pub clear_entries_null :
    (n t : ℕ) (links : Slot → Link) (k : ℕ) → k < n → clear_entries n t links (entry t k) ≡ null
clear_entries_null zero t links k lt = absurd (omega arith)
clear_entries_null (suc n) t links k lt =
    if_cases (λ (l : Link). l ≡ null) (same_slot (entry t k) (entry t n)) {x = null}
      {y = clear_entries n t links (entry t k)} (λ same. refl)
      (λ differ. clear_entries_null n t links k (ground (arith, differ, lt)))

clear_entries_block :
    (n t : ℕ) (links : Slot → Link) (s : Slot) (a : ℕ)
    → clear_entries n t links s ≡ to_block a
    → links s ≡ to_block a
clear_entries_block zero t links s a e = e
clear_entries_block (suc n) t links s a e =
    elim (put_cases (clear_entries n t links) (entry t n) null s (to_block a) e) [
      | inl (same, wrong) ↦ absurd (block-null (sym wrong))
      | inr (differ, kept) ↦ clear_entries_block n t links s a kept
    ]

abbrev table_number : Link → ℕ
table_number null = 0
table_number (to_block b) = 0
table_number (to_table t) = t

-- A block that gets a table.
module _ (c : BlockCache) (block t : ℕ) (rest : List ℕ) (h : IsConsistent c) where
  abbrev cleared : Slot → Link
  cleared = clear_entries table_entries t c.links

  abbrev pub given : BlockCache
  given = record c {
    ptable_free_list = rest;
    links = put cleared (path block 0) (to_table t);
    blocks = update c.blocks block (record (c.blocks block) { has_ptable = true });
  }

  leads-given : (a i : ℕ) → leads (given.blocks a) i ≡ leads (c.blocks a) i
  leads-given a i =
      update_keeps (λ (k : Iblock). leads k i) c.blocks block
        (record (c.blocks block) { has_ptable = true }) refl a

  aim-given : (s : Slot) → aim given s ≡ aim c s
  aim-given (path a i) = leads-given a i
  aim-given (entry u k) = refl

  given-IsOpen : (s : Slot) (a : ℕ) → IsOpen given s → given.links s ≡ to_block a → IsOpen c s
  given-IsOpen (path x i) a o e = o
  given-IsOpen (entry u k) a (x, active, l, lt) e =
      elim (put_cases cleared (path block 0) (to_table t) (path x 0) (to_table u) l) [
        | inl (same, mine) ↦ absurd (
            block-null (
              sym e
              ∙ ap (λ (n : ℕ). cleared (entry n k)) (sym (ap table_number mine))
              ∙ clear_entries_null table_entries t c.links k lt))
        | inr (differ, kept) ↦
            (x, active, sym (clear_entries_path table_entries t c.links x 0) ∙ kept, lt)
      ]

  given_tabled :
      (a : ℕ)
      → IsActive c a
      → (given.blocks a).has_ptable ≡ true
      → (u : ℕ) × (given.links (path a 0) ≡ to_table u)
  given_tabled a active has_one = elim (ℕ_discrete a block) [
    | yes same ↦ (
      t,
      ap (λ (n : ℕ). given.links (path n 0)) same ∙ put_self cleared (path block 0) (to_table t),
    )
    | no ne ↦
        let (u, l) = h.tabled a active (
          ap (λ (k : Iblock). k.has_ptable)
            (sym (update-ne c.blocks block a (record (c.blocks block) { has_ptable = true }) ne))
          ∙ has_one) in
        (u, kept_link a ne ∙ clear_entries_path table_entries t c.links a 0 ∙ l)
  ]
    where
      kept_link : (x : ℕ) → x ≢ block → given.links (path x 0) ≡ cleared (path x 0)
      kept_link x ne = ground (arith, ne)

  pub given-IsConsistent : IsConsistent given
  given-IsConsistent = record {
    linked = λ s a o e. elim (put_cases cleared (path block 0) (to_table t) s (to_block a) e) [
      | inl (same, wrong) ↦ absurd (block-table (sym wrong))
      | inr (differ, kept) ↦
          let k =
            h.linked s a (given-IsOpen s a o e)
              (clear_entries_block table_entries t c.links s a kept) in
          record {
            active = k.active;
            recorded = k.recorded;
            aimed =
                update_keeps (λ (n : Iblock). n.pc) c.blocks block
                  (record (c.blocks block) { has_ptable = true }) refl a
                ∙ k.aimed
                ∙ sym (aim-given s);
          }
    ];
    apart = h.apart;
    free = h.free;
    used = h.used;
    hashed = h.hashed;
    defined = h.defined;
    tabled = given_tabled;
  }

-- The address of an entry is changed.
module _ (c : BlockCache) (t k pc : ℕ) where
  abbrev pub retargeted : BlockCache
  retargeted = record c { table_pcs = update c.table_pcs t (update (c.table_pcs t) k pc) }

  pub retargeted_pc : retargeted.table_pcs t k ≡ pc
  retargeted_pc =
      ap (λ (l : ℕ → ℕ). l k) (update_self c.table_pcs t (update (c.table_pcs t) k pc))
      ∙ update_self (c.table_pcs t) k pc

  aim-retargeted : (s : Slot) → same_slot s (entry t k) ≡ false → aim retargeted s ≡ aim c s
  aim-retargeted (path b i) differ = refl
  aim-retargeted (entry u j) differ = elim (ℕ_discrete u t) [
    | no ne ↦ ap (λ (l : ℕ → ℕ). l j) (update-ne c.table_pcs t u (update (c.table_pcs t) k pc) ne)
    | yes e ↦
        ap (λ (n : ℕ). retargeted.table_pcs n j) e
        ∙ ap (λ (l : ℕ → ℕ). l j) (update_self c.table_pcs t (update (c.table_pcs t) k pc))
        ∙ update-ne (c.table_pcs t) k j pc (λ same. ground (arith, differ, e, same))
        ∙ ap (λ (n : ℕ). c.table_pcs n j) (sym e)
  ]

  retargeted-IsOpen : (s : Slot) → IsOpen retargeted s → IsOpen c s
  retargeted-IsOpen (path b i) o = o
  retargeted-IsOpen (entry u j) o = o

  pub retargeted-IsConsistentBut :
      (b : ℕ) → IsConsistent c → IsConsistentBut retargeted b (entry t k)
  retargeted-IsConsistentBut b h = record {
    linked = λ s a differ o e.
        let l = h.linked s a (retargeted-IsOpen s o) e in
        record {
          active = l.active;
          recorded = l.recorded;
          aimed = l.aimed ∙ sym (aim-retargeted s differ);
        };
    apart = h.apart;
    free = h.free;
    used = h.used;
    hashed = h.hashed;
    defined = h.defined;
    tabled = h.tabled;
    untabled = λ x e. absurd (path-entry (sym e));
  }

-- ===== src/Cpu/Blocks/Consistent/Made.antt =====
-- A block that has been made.
use xremu.Base.{
  ℕ, ◌%◌, ◌≡◌, ◌≢◌, ◌∙◌, ap, sym, arith, true, false, List, ◌∷◌, Option, update_self, update-ne,
  ◌^◌,
}
use xremu.Cpu.Decode.{CachedInst}
use xremu.Cpu.Blocks.{Slot, path, Link, Iblock, BlockCache, has}
use xremu.Cpu.Blocks.Reclaim.{is_hazard}
use xremu.Cpu.Blocks.Fetch.{fresh, filled}
use xremu.Cpu.Blocks.Consistent.{
  IsActive, IsConsistent, similar-IsConsistent, similar-IsActive_back,
}
use xremu.Cpu.Blocks.Consistent.Stocked.{IsReady}
use xremu.Cpu.Blocks.Consistent.Fresh.{fresh-IsConsistent, new_null}
use xremu.Cpu.Blocks.Consistent.Decoding.{IsJoined, filled-IsConsistent}
use xremu.Cpu.Blocks.Consistent.Kept.{IsStill}

module _ (e : BlockCache) (b : ℕ) (rest : List ℕ) (pc asid flags : ℕ)
    (popped : e.iblock_free_list ≡ b ∷ rest) (h : IsConsistent e) where
  abbrev pub new : BlockCache
  new = fresh (record e { iblock_free_list = rest }) b pc asid flags

  new-IsConsistent : IsConsistent new
  new-IsConsistent = fresh-IsConsistent e b rest pc asid flags popped h

  pub made :
      (d : BlockCache) (what : List CachedInst × ℕ)
      → IsJoined new b d
      → IsConsistent (filled d b what)
  made d what j =
      filled-IsConsistent d b what
        (λ i lt.
          ap (λ (l : Slot → Link). l (path b i)) (sym j.similar.links)
          ∙ new_null e b rest pc asid flags popped h i lt)
        (similar-IsConsistent j.similar new-IsConsistent)

  pub made-IsActive : (d : BlockCache) → IsJoined new b d → IsActive d b
  made-IsActive d j = similar-IsActive_back j.similar b (ground arith)

  pub made_pc :
      (d : BlockCache) (insts : List CachedInst) (cycles : ℕ)
      → IsJoined new b d
      → ((filled d b (insts, cycles)).blocks b).pc ≡ pc
  made_pc d insts cycles j =
      ap (λ (k : Iblock). k.pc)
        (update_self d.blocks b (record (d.blocks b) { insts = insts; cycles = cycles }))
      ∙ sym (j.similar.pcs b)
      ∙ ap (λ (k : Iblock). k.pc)
          (update_self e.blocks b (record (e.blocks b) {
            pc = pc;
            asid = asid;
            cycles = 0;
            cached_by_fifo_index = 0;
            pte_flags = flags % 2 ^ 8;
            has_ptable = false;
          }))

  module _ (c : BlockCache) (hazard : Option ℕ) (ready : IsReady c hazard e) (d : BlockCache)
      (j : IsJoined new b d) (insts : List CachedInst) (cycles : ℕ) where
    apart : (x : ℕ) → is_hazard hazard x ≡ true → IsActive c x → x ≢ b
    apart x is active same = ground (
      arith,
      ready.kept x is active,
      h.apart b (ap (λ (l : List ℕ). has l b) popped ∙ ground arith),
      ap (has e.iblock_lru_list) same,
    )

    pub made-IsStill : IsStill c hazard (filled d b (insts, cycles))
    made-IsStill = record {
      active =
          λ x is active. similar-IsActive_back j.similar x (ground (arith, ready.kept x is active));
      block = λ x is active.
          update-ne d.blocks b x (record (d.blocks b) { insts = insts; cycles = cycles })
            (apart x is active)
          ∙ j.others x (apart x is active)
          ∙ update-ne e.blocks b x
              (record (e.blocks b) {
                pc = pc;
                asid = asid;
                cycles = 0;
                cached_by_fifo_index = 0;
                pte_flags = flags % 2 ^ 8;
                has_ptable = false;
              })
              (apart x is active)
          ∙ ap (λ (k : ℕ → Iblock). k x) ready.left.blocks;
      table = λ x t is active l.
          ap (λ (m : Slot → Link). m (path x 0)) (sym j.similar.links)
          ∙ kept_link x (apart x is active)
          ∙ ready.left.tables x t l;
      table_pcs = sym j.similar.table_pcs ∙ ready.left.table_pcs;
    }
      where
        kept_link : (x : ℕ) → x ≢ b → new.links (path x 0) ≡ e.links (path x 0)
        kept_link x ne = ground (arith, ne)

-- ===== src/Cpu/Branch/Jalr.antt =====
-- JALR, with the table in which it keeps the blocks it has led to.
use xremu.Base.{
  ℕ, ◌-◌, ◌%◌, ◌≡◌, ◌≢◌, ◌<◌, ◌∙◌, refl, sym, arith, subst, true, false, ◌==◌, if_cases, Option,
  some, add32, update, bit_and, ◌>>◌,
}
use xremu.Bits.{bit_and-ones}
use xremu.Cpu.Dcache.{Line}
use xremu.Cpu.State.{Processor, ebadaddr}
use xremu.Cpu.Exception.{basic_exception}
use xremu.Cpu.Decode.{CachedInst}
use xremu.Cpu.Execute.{ra}
use xremu.Cpu.Memory.{exc_una}
use xremu.Cpu.Blocks.{
  path, entry, Link, null, to_block, to_table, BlockCache, table_entries,
  create_cached_pointer_to_block,
}
use xremu.Cpu.Blocks.Reclaim.{is_empty}
use xremu.Cpu.Blocks.Fetch.{Front, with_cache, set_proc, decode_instructions}
use xremu.Cpu.Blocks.Consistent.{IsActive, IsConsistent}
use xremu.Cpu.Blocks.Consistent.Pointing.{created_pc, create_cached_pointer_to_block-IsConsistent}
use xremu.Cpu.Blocks.Consistent.Stocked.{IsStocked}
use xremu.Cpu.Blocks.Consistent.Decoded.{IsDecoded, at_block, raised, Goes}
use xremu.Cpu.Blocks.Consistent.Outcome.{decode_instructions-IsDecoded}
use xremu.Cpu.Blocks.Consistent.Kept.{IsKept-self}
use xremu.Cpu.Branch.{Leaving, dispatch, exits, predict, through_entry, jump_by_table}
use xremu.Cpu.Branch.Dispatch.{IsDispatched, left, dispatch-IsDispatched}
use xremu.Cpu.Branch.Tables.{retargeted, retargeted_pc, retargeted-IsConsistentBut}

equal : (m n : ℕ) → (m == n) ≡ true → m ≡ n
equal m n same = ground (arith, same)

module _ {M : Type 0} (read_line : M → ℕ → Option Line × M) where
  module _ (f : Front M) (block t : ℕ) (h : IsConsistent f.cache) (stocked : IsStocked f.cache)
      (active : IsActive f.cache block) where
    abbrev index : ℕ
    index = bit_and (f.proc.pc >> 2) (table_entries - 1)

    index_lt : index < table_entries
    index_lt = omega (arith, bit_and-ones 3 (f.proc.pc >> 2))

    predict-IsDispatched :
        Goes (IsDispatched f.proc) (
          predict read_line f block f.proc.pc t index
            (decode_instructions read_line f (some block)))
    unfolding create_cached_pointer_to_block
    predict-IsDispatched =
        let (r, same, d) = decode_instructions-IsDecoded read_line f (some block) h stocked in
        subst
          (λ (o : Option (Option ℕ × Front M)).
            Goes (IsDispatched f.proc) (predict read_line f block f.proc.pc t index o))
          (sym same) (by_result r d)
      where
        by_result :
            (r : Option ℕ × Front M)
            → IsDecoded f.proc f.cache (some block) r
            → Goes (IsDispatched f.proc) (predict read_line f block f.proc.pc t index (some r))
        by_result _ (raised g consistent still trapped) = (exits g, refl, left g consistent trapped)
        by_result _ (at_block b g consistent there at kept still) =
            let c : BlockCache = retargeted g.cache t index f.proc.pc in
            let e : BlockCache = create_cached_pointer_to_block c b (entry t index) in
            (
              dispatch b (with_cache g e),
              refl,
              dispatch-IsDispatched f.proc b (with_cache g e)
                  (create_cached_pointer_to_block-IsConsistent c b (entry t index)
                    (retargeted-IsConsistentBut g.cache t index f.proc.pc b consistent) there
                    (at ∙ sym (retargeted_pc g.cache t index f.proc.pc)))
                  there (created_pc c b (entry t index) b ∙ at) kept,
            )

    pub jump_by_table-IsDispatched :
        f.cache.links (path block 0) ≡ to_table t
        → ((k u : ℕ) → k < table_entries → f.cache.links (entry t k) ≢ to_table u)
        → Goes (IsDispatched f.proc) (jump_by_table read_line f block f.proc.pc t)
    unfolding jump_by_table
    jump_by_table-IsDispatched owned clean =
        if_cases (Goes (IsDispatched f.proc)) (f.cache.table_pcs t index == f.proc.pc)
          {x = through_entry read_line f block f.proc.pc t index (f.cache.links (entry t index))}
          {y = predict read_line f block f.proc.pc t index
            (decode_instructions read_line f (some block))}
          (λ known. by_link (f.cache.links (entry t index)) refl (equal _ _ known))
          (λ unknown. predict-IsDispatched)
      where
        by_link :
            (l : Link)
            → f.cache.links (entry t index) ≡ l
            → f.cache.table_pcs t index ≡ f.proc.pc
            → Goes (IsDispatched f.proc) (through_entry read_line f block f.proc.pc t index l)
        by_link null e at = predict-IsDispatched
        by_link (to_table u) e at = absurd (clean index u index_lt e)
        by_link (to_block b) e at =
            let k = h.linked (entry t index) b (block, active, owned, index_lt) e in
            (
              dispatch b f,
              refl,
              dispatch-IsDispatched f.proc b f h k.active (k.aimed ∙ at) (IsKept-self f.proc),
            )

  -- A block in use that ends in JALR: it has a table, with blocks in it, or a table is free.
  pub record IsAtJalr (f : Front M) (block : ℕ) : Type 0 where
    pub active : IsActive f.cache block
    pub no_block : (b : ℕ) → f.cache.links (path block 0) ≢ to_block b
    pub clean :
        (t k u : ℕ)
        → f.cache.links (path block 0) ≡ to_table t
        → k < table_entries
        → f.cache.links (entry t k) ≢ to_table u
    pub tables : is_empty f.cache.ptable_free_list ≡ false

  -- How JALR ends.
  pub data IsJumped (f : Front M) (target : ℕ) (p : Processor) : Leaving M → Type 0 where
    misaligned :
        target % 4 ≢ 0
        → IsJumped f target p (
            exits (
              set_proc f
                (basic_exception (record p { cr = update p.cr ebadaddr target }) exc_una target)))
    aligned : (l : Leaving M) → target % 4 ≡ 0 → IsDispatched p l → IsJumped f target p l

  module _ (f : Front M) (block : ℕ) (i : CachedInst) (h : IsConsistent f.cache)
      (stocked : IsStocked f.cache) (at : IsAtJalr f block) where
    abbrev to : ℕ
    to = add32 (ra f.proc i) i.imm32_1

    abbrev linked_at : Processor
    linked_at = record f.proc { reg = update f.proc.reg i.imm8_1 (add32 f.proc.pc 4); pc = to }

-- ===== src/Cpu/Branch/Dispatch.antt =====
-- Every branch goes on at the block that starts at the new program counter.
use xremu.Base.{
  if_cases, ◌+◌, ℕ, ◌%◌, ◌^◌, ◌≡◌, ◌≢◌, ◌<◌, ◌∙◌, refl, ap, sym, arith, Bool, true, false, ◌==◌,
  Option, some, add32, update, bit_and,
}
use xremu.Cpu.Dcache.{Line}
use xremu.Cpu.State.{Processor}
use xremu.Cpu.Decode.{CachedInst}
use xremu.Cpu.Blocks.{path, Link, null, to_block, to_table, Iblock, create_cached_pointer_to_block}
use xremu.Cpu.Blocks.Fetch.{Front, with_cache, set_proc}
use xremu.Cpu.Blocks.Consistent.{IsActive, IsConsistent, leads}
use xremu.Cpu.Blocks.Consistent.Pointing.{
  but_one, created_pc, create_cached_pointer_to_block-IsConsistent,
}
use xremu.Cpu.Blocks.Consistent.Slots.{path_block, path_index}
use xremu.Cpu.Blocks.Consistent.Stocked.{IsStocked}
use xremu.Cpu.Blocks.Consistent.Decoded.{IsDecoded, at_block, raised, Goes}
use xremu.Cpu.Blocks.Consistent.Outcome.{decode_instructions-IsDecoded}
use xremu.Bits.{bit_and-ones}
use xremu.Cpu.Blocks.Consistent.Kept.{IsTrapped, IsKept, IsKept-self}
use xremu.Cpu.Branch.{
  Leaving, dispatches, returns, exits, dispatch, set_pc, after_decode, record_and_dispatch, through,
  follow, execute_jal, lr,
}

-- The block that starts at the program counter of `p` is next, with the registers of `p`, or was
-- found, but the emulator returns for every 32nd count of `Dispatches`, or an exception of the fetch
-- has been taken; the pointers are right.
pub data IsDispatched {M : Type 0} (p : Processor) : Leaving M → Type 0 where
  dispatched :
      (b : ℕ) (g : Front M)
      → IsConsistent g.cache
      → IsActive g.cache b
      → (g.cache.blocks b).pc ≡ p.pc
      → IsKept p g.proc
      → g.proc.dispatches % 32 ≢ 1
      → IsDispatched p (dispatches b g)
  returned :
      (b : ℕ) (g : Front M)
      → IsConsistent g.cache
      → IsActive g.cache b
      → (g.cache.blocks b).pc ≡ p.pc
      → IsKept p g.proc
      → g.proc.dispatches % 32 ≡ 1
      → IsDispatched p (returns g)
  left : (g : Front M) → IsConsistent g.cache → IsTrapped p g.proc → IsDispatched p (exits g)

pub dispatch-IsDispatched :
    {M : Type 0} (p : Processor) (b : ℕ) (g : Front M)
    → IsConsistent g.cache
    → IsActive g.cache b
    → (g.cache.blocks b).pc ≡ p.pc
    → IsKept p g.proc
    → IsDispatched p (dispatch b g)
dispatch-IsDispatched {M = M} p b g h active at kept =
    if_cases (IsDispatched p) (bit_and g.proc.dispatches 31 == 0) {x = returns counted}
      {y = dispatches b counted}
      (λ due.
        returned b counted h active at (record { pc = kept.pc; reg = kept.reg; cr = kept.cr })
          (ground (arith, due, bit_and-ones 5 g.proc.dispatches)))
      (λ not_due.
        dispatched b counted h active at (record { pc = kept.pc; reg = kept.reg; cr = kept.cr })
          (ground (arith, not_due, bit_and-ones 5 g.proc.dispatches)))
  where
    counted : Front M
    counted = set_proc g (record g.proc { dispatches = (g.proc.dispatches + 1) % 2 ^ 8 })

module _ {M : Type 0} (read_line : M → ℕ → Option Line × M) where
  module _ (f : Front M) (block i : ℕ) (lt : i < 2) (h : IsConsistent f.cache)
      (stocked : IsStocked f.cache) (active : IsActive f.cache block)
      (aimed : leads (f.cache.blocks block) i ≡ f.proc.pc) where
    no_table :
        ((t : ℕ) → f.cache.links (path block i) ≢ to_table t)
        → (v : Bool) → (f.cache.blocks block).has_ptable ≡ v
        → i ≡ 0
        → v ≡ false
    no_table plain false e first = refl
    no_table plain true e first =
        let (t, l) = h.tabled block active e in
        absurd (plain t (ap (λ (n : ℕ). f.cache.links (path block n)) first ∙ l))

    recorded :
        (r : Option ℕ × Front M)
        → ((t : ℕ) → f.cache.links (path block i) ≢ to_table t)
        → IsDecoded f.proc f.cache (some block) r
        → IsDispatched f.proc (record_and_dispatch read_line (path block i) r)
    unfolding create_cached_pointer_to_block
    recorded _ plain (at_block b g consistent there at kept still) =
        dispatch-IsDispatched f.proc b
          (with_cache g (create_cached_pointer_to_block g.cache b (path block i)))
          (create_cached_pointer_to_block-IsConsistent g.cache b (path block i)
            (but_one g.cache b (path block i) consistent (λ x same.
              ap (λ (n : ℕ). (g.cache.blocks n).has_ptable) (sym (path_block same))
              ∙ ap (λ (k : Iblock). k.has_ptable) (still.block block (ground arith) active)
              ∙ no_table plain (f.cache.blocks block).has_ptable refl (path_index same)))
            there
            (at
              ∙ sym aimed
              ∙ ap (λ (k : Iblock). leads k i) (sym (still.block block (ground arith) active))))
          there (created_pc g.cache b (path block i) b ∙ at) kept
    recorded _ plain (raised g consistent still trapped) = left g consistent trapped

    pub follow-IsDispatched :
        ((t : ℕ) → f.cache.links (path block i) ≢ to_table t)
        → Goes (IsDispatched f.proc) (follow read_line f block (path block i))
    unfolding follow
    follow-IsDispatched plain = by_link (f.cache.links (path block i)) refl
      where
        by_link :
            (l : Link)
            → f.cache.links (path block i) ≡ l
            → Goes (IsDispatched f.proc) (through read_line f block (path block i) l)
        by_link (to_table t) e = absurd (plain t e)
        by_link (to_block b) e =
            let k = h.linked (path block i) b (active, lt) e in
            (
              dispatch b f,
              refl,
              dispatch-IsDispatched f.proc b f h k.active (k.aimed ∙ aimed) (IsKept-self f.proc),
            )
        by_link null e =
            let (r, same, d) = decode_instructions-IsDecoded read_line f (some block) h stocked in
            (
              record_and_dispatch read_line (path block i) r,
              ap (after_decode read_line (path block i)) same,
              recorded r plain d,
            )

-- The last instruction of a block in use is run: its two ways lead to its target and behind it.
pub record IsAtBranch {M : Type 0} (f : Front M) (block : ℕ) (i : CachedInst) : Type 0 where
  pub active : IsActive f.cache block
  pub plain : (k t : ℕ) → f.cache.links (path block k) ≢ to_table t
  pub taken : leads (f.cache.blocks block) 0 ≡ i.imm32_1
  pub passed : leads (f.cache.blocks block) 1 ≡ add32 f.proc.pc 4

module _ {M : Type 0} (read_line : M → ℕ → Option Line × M) (f : Front M) (block : ℕ)
    (i : CachedInst) (h : IsConsistent f.cache) (stocked : IsStocked f.cache)
    (at : IsAtBranch f block i) where
  jumped :
      (p : Processor)
      → Goes
          (IsDispatched (record p { pc = i.imm32_1 }))
          (follow read_line (set_pc (set_proc f p) i.imm32_1) block (path block 0))
  jumped p =
      follow-IsDispatched read_line (set_pc (set_proc f p) i.imm32_1) block 0 (omega arith) h
        stocked at.active at.taken (at.plain 0)

  -- JAL goes on at the block of its target, with the return address in LR.
  pub execute_jal-IsDispatched :
      Goes
        (IsDispatched
          (record f.proc { reg = update f.proc.reg lr (add32 f.proc.pc 4); pc = i.imm32_1 }))
        (execute_jal read_line f block i)
  unfolding execute_jal
  execute_jal-IsDispatched =
      jumped (record f.proc { reg = update f.proc.reg lr (add32 f.proc.pc 4) })

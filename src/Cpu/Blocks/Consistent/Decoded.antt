-- ===== src/Cpu/Blocks/Consistent/Decoded.antt =====
-- What becomes of a fetch whose words have been read.
use xremu.Base.{
  ℕ, ◌-◌, ◌≡◌, ◌∙◌, refl, ap, sym, arith, Bool, true, false, ◌==◌, ◌!=◌, ◌&&◌, if_cases, List, [],
  ◌∷◌, Option, none, some, bit_and,
}
use xremu.Cpu.Dcache.{Line}
use xremu.Cpu.State.{Processor, rs, rs_tbmiss}
use xremu.Cpu.Blocks.{Iblock, BlockCache, has}
use xremu.Cpu.Blocks.Reclaim.{
  is_empty, with_free_iblocks, take_iblock, allocate_iblock, insert_iblock_in_vpage, find_iblock,
}
use xremu.Cpu.Blocks.Fetch.{Front, with_cache, filled, decode_block, decode_into}
use xremu.Cpu.Blocks.Consistent.{IsActive, IsConsistent}
use xremu.Cpu.Blocks.Consistent.Stocked.{IsStocked, IsReady, with_free_iblocks-IsReady}
use xremu.Cpu.Blocks.Consistent.Decoding.{
  IsInserted, inserted, no_page, insert_iblock_in_vpage-IsInserted,
}
use xremu.Cpu.Blocks.Consistent.Kept.{IsStill, IsKept, IsTrapped}
use xremu.Cpu.Blocks.Consistent.Made.{new, made, made-IsActive, made_pc, made-IsStill}

-- A block that starts at the program counter is found or made, or an exception is taken.
pub data IsDecoded {M : Type 0} (p : Processor) (c : BlockCache) (hazard : Option ℕ)
    : Option ℕ × Front M → Type 0 where
  at_block :
      (b : ℕ) (g : Front M)
      → IsConsistent g.cache
      → IsActive g.cache b
      → (g.cache.blocks b).pc ≡ p.pc
      → IsKept p g.proc
      → IsStill c hazard g.cache
      → IsDecoded p c hazard (some b, g)
  raised :
      (g : Front M)
      → IsConsistent g.cache
      → IsStill c hazard g.cache
      → IsTrapped p g.proc
      → IsDecoded p c hazard (none, g)

abbrev is_some : Option ℕ → Bool
is_some none = false
is_some (some b) = true

abbrev number : ℕ → Option ℕ → ℕ
number n none = n
number n (some b) = b

abbrev pub Goes : {A : Type 0} → (A → Type 0) → Option A → Type 0
Goes {A} P o = (r : A) × (o ≡ some r) × P r

-- What is found is in the list, and starts at the address.
pub find_iblock_sound :
    (blocks : ℕ → Iblock) (pc asid : ℕ) (bs : List ℕ) (b : ℕ)
    → find_iblock blocks pc asid bs ≡ some b
    → (has bs b ≡ true) × ((blocks b).pc ≡ pc)
find_iblock_sound blocks pc asid [] b e = absurd (ground (arith, ap is_some e))
find_iblock_sound blocks pc asid (x ∷ xs) b found =
    if_cases (λ (o : Option ℕ). o ≡ some b → (has (x ∷ xs) b ≡ true) × ((blocks b).pc ≡ pc))
      ((blocks x).pc == pc && (blocks x).asid == asid) {x = some x}
      {y = find_iblock blocks pc asid xs}
      (λ same e.
        let is : x ≡ b = ap (number x) e in
        (ground (arith, is), ap (λ (n : ℕ). (blocks n).pc) (sym is) ∙ ground (arith, same)))
      (λ other e.
        let (there, at) = find_iblock_sound blocks pc asid xs b e in (ground (arith, there), at))
      found

module _ {M : Type 0} (read_line : M → ℕ → Option Line × M) where
  module _ (p : Processor) (hazard : Option ℕ) (asid first count flags : ℕ) where
    pub decode_into-Goes :
        (g : Front M) (ir : ℕ → ℕ)
        → IsKept p g.proc
        → IsConsistent g.cache
        → IsStocked g.cache
        → Goes (IsDecoded p g.cache hazard) (
            decode_into read_line g p.pc asid ir first count flags (allocate_iblock g.cache hazard))
    unfolding decode_into allocate_iblock
    decode_into-Goes g ir kept h stocked = by_list e.iblock_free_list refl
      where
        e : BlockCache
        e = with_free_iblocks g.cache hazard

        ready : IsReady g.cache hazard e
        ready = with_free_iblocks-IsReady g.cache hazard h stocked

        by_page :
            (b : ℕ) (rest : List ℕ) (popped : e.iblock_free_list ≡ b ∷ rest) (o : Option BlockCache)
            → IsInserted (new e b rest p.pc asid flags popped ready.consistent) b o
            → Goes (IsDecoded p g.cache hazard) (elim o [
              | none ↦ none
              | some d ↦ some (
                some b,
                with_cache g (
                    filled d b (
                      decode_block
                        (count - first)
                        (bit_and (g.proc.cr rs) rs_tbmiss != 0)
                        ir
                        first
                        p.pc
                        0)),
              )
            ])
        by_page b rest popped _ (no_page empty) =
            let (v, there) = stocked.page in
            absurd (ground (arith, ready.left.pages v there, ap (λ (l : List ℕ). has l v) empty))
        by_page b rest popped _ (inserted d j) =
            let what =
              decode_block (count - first) (bit_and (g.proc.cr rs) rs_tbmiss != 0) ir first p.pc
                0 in
            (
              (some b, with_cache g (filled d b what)),
              refl,
              at_block b (with_cache g (filled d b what))
                  (made e b rest p.pc asid flags popped ready.consistent d what j)
                  (made-IsActive e b rest p.pc asid flags popped ready.consistent d j)
                  (made_pc e b rest p.pc asid flags popped ready.consistent d what.0 what.1 j) kept
                  (made-IsStill e b rest p.pc asid flags popped ready.consistent g.cache hazard
                    ready d j what.0 what.1),
            )

        by_list :
            (xs : List ℕ)
            → e.iblock_free_list ≡ xs
            → Goes
                (IsDecoded p g.cache hazard)
                (decode_into read_line g p.pc asid ir first count flags (take_iblock e xs))
        by_list [] none_free = absurd (ground (arith, ready.stocked, ap is_empty none_free))
        by_list (b ∷ rest) popped =
            by_page b rest popped
              (insert_iblock_in_vpage (new e b rest p.pc asid flags popped ready.consistent) b p.pc)
              (insert_iblock_in_vpage-IsInserted
                (new e b rest p.pc asid flags popped ready.consistent) b p.pc)

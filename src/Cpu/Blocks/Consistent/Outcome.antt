-- ===== src/Cpu/Blocks/Consistent/Outcome.antt =====
-- How `XrDecodeInstructions` ends.
use xremu.Base.{
  ℕ, ◌+◌, ◌-◌, ◌/◌, ◌%◌, ◌≡◌, refl, ap, sym, arith, subst, Bool, true, false, ◌!=◌, ◌&&◌, if_cases,
  if◌then◌else◌, Option, none, some, bit_and,
}
use xremu.Cpu.Dcache.{Line}
use xremu.Cpu.State.{Processor, rs, rs_mmu, rs_user}
use xremu.Cpu.Translate.{Translation, mapped, faulted, translate}
use xremu.Cpu.Translate.Check.{translate-IsTranslated}
use xremu.Cpu.Memory.Placed.{IsLocated, translated}
use xremu.Cpu.Blocks.{BlockCache, iblock_hash}
use xremu.Cpu.Blocks.Reclaim.{allocate_iblock, lookup_iblock}
use xremu.Cpu.Blocks.Fetch.{
  Front, set_proc, fetch_fails, exc_pgf, pte_kernel, current_asid, fetch_lines, inst_count,
  decode_into, fetch_block, decode_new, decode_instructions,
}
use xremu.Cpu.Blocks.Consistent.{IsConsistent}
use xremu.Cpu.Blocks.Consistent.Stocked.{IsStocked}
use xremu.Cpu.Blocks.Consistent.Kept.{
  IsStill, IsStill-self, IsKept, IsKept-self, Keeps, IsTrapped, kernel_page, not_translated,
  bus_failed,
}
use xremu.Cpu.Blocks.Consistent.Fetched.{Keeps-trans, fetch_lines-Keeps}
use xremu.Cpu.Blocks.Consistent.Decoded.{
  IsDecoded, at_block, raised, Goes, find_iblock_sound, decode_into-Goes,
}

abbrev is_fault : Translation → Bool
is_fault (faulted q) = true
is_fault (mapped q phys flags) = false

module _ {M : Type 0} (read_line : M → ℕ → Option Line × M) where
  module _ (f : Front M) (hazard : Option ℕ) (h : IsConsistent f.cache)
      (stocked : IsStocked f.cache) where
    abbrev Ends : Option (Option ℕ × Front M) → Type 0
    Ends = Goes (IsDecoded f.proc f.cache hazard)

    fetch_block-Ends :
        (g : Front M)
        → g.cache ≡ f.cache
        → IsKept f.proc g.proc
        → (asid fetchpc first count flags : ℕ)
        → Ends (fetch_block read_line g hazard f.proc.pc asid fetchpc first count flags)
    unfolding fetch_block
    fetch_block-Ends g same kept_g asid fetchpc first count flags =
        by_words (fetch_lines read_line ((count + 3) / 4) g (λ k. 0) 0 fetchpc).0
          (fetch_lines read_line ((count + 3) / 4) g (λ k. 0) 0 fetchpc).1
          (Keeps-trans read_line f g (fetch_lines read_line ((count + 3) / 4) g (λ k. 0) 0 fetchpc)
            same kept_g (fetch_lines-Keeps read_line ((count + 3) / 4) g (λ k. 0) 0 fetchpc))
      where
        by_words :
            (words : Option (ℕ → ℕ)) (k : Front M)
            → Keeps f words k
            → Ends (elim words [
              | none ↦ some (none, k)
              | some ir ↦
                  decode_into read_line k f.proc.pc asid ir first count flags
                    (allocate_iblock k.cache hazard)
            ])
        by_words none k (kept, failed) = (
          (none, k),
          refl,
          raised k (subst IsConsistent (sym kept) h)
              (subst (IsStill f.cache hazard) (sym kept) (IsStill-self f.cache hazard))
              (bus_failed k.proc failed),
        )
        by_words (some ir) k (same', kept) =
            subst
              (λ (c : BlockCache). Goes (IsDecoded f.proc c hazard) (
                decode_into read_line k f.proc.pc asid ir first count flags
                  (allocate_iblock k.cache hazard)))
              same'
              (decode_into-Goes read_line f.proc hazard asid first count flags k ir kept
                (subst IsConsistent (sym same') h) (subst IsStocked (sym same') stocked))

    unchanged :
        (q : Processor) → IsTrapped f.proc q → IsDecoded f.proc f.cache hazard (none, set_proc f q)
    unchanged q trapped = raised (set_proc f q) h (IsStill-self f.cache hazard) trapped

    decode_new-Ends : Ends (decode_new read_line f hazard)
    unfolding decode_new
    decode_new-Ends =
        by_translation
          (if bit_and (f.proc.cr rs) rs_mmu != 0
            then translate f.proc fetchpc false true
            else mapped f.proc fetchpc 0)
          (if_cases (IsLocated f.proc fetchpc) (bit_and (f.proc.cr rs) rs_mmu != 0)
            {x = translate f.proc fetchpc false true} {y = mapped f.proc fetchpc 0}
            (λ on.
              translated f.proc fetchpc false true (translate f.proc fetchpc false true)
                (translate-IsTranslated f.proc fetchpc false true))
            (λ off. record {
              id = refl;
              dcache = refl;
              reg = refl;
              locked = refl;
              pc = refl;
              cr = refl;
              place = refl;
            }))
          (λ q.
            if_cases (λ (t : Translation). t ≡ faulted q → IsTrapped f.proc q)
              (bit_and (f.proc.cr rs) rs_mmu != 0) {x = translate f.proc fetchpc false true}
              {y = mapped f.proc fetchpc 0} (λ on e. not_translated q (ground (arith, on)) e)
              (λ off e. absurd (ground (arith, ap is_fault e))))
      where
        fetchpc : ℕ
        fetchpc = f.proc.pc - f.proc.pc % 16

        by_translation :
            (t : Translation)
            → IsLocated f.proc fetchpc t
            → ((q : Processor) → t ≡ faulted q → IsTrapped f.proc q)
            → Ends (elim t [
              | faulted q ↦ some (none, set_proc f q)
              | mapped q phys flags ↦
                  fetch_block read_line
                    (set_proc f q)
                    hazard
                    f.proc.pc
                    (current_asid f.proc)
                    phys
                    (f.proc.pc % 16 / 4)
                    (inst_count f.proc.pc fetchpc)
                    flags
            ])
        by_translation (faulted q) placed trapped =
            ((none, set_proc f q), refl, unchanged q (trapped q refl))
        by_translation (mapped q phys flags) placed trapped =
            fetch_block-Ends (set_proc f q) refl
              (record { pc = placed.pc; reg = placed.reg; cr = placed.cr }) (current_asid f.proc)
              phys (f.proc.pc % 16 / 4) (inst_count f.proc.pc fetchpc) flags

    pub decode_instructions-IsDecoded :
        (r : Option ℕ × Front M) × (decode_instructions read_line f hazard ≡ some r)
        × IsDecoded f.proc f.cache hazard r
    unfolding decode_instructions lookup_iblock
    decode_instructions-IsDecoded =
        by_lookup (lookup_iblock f.cache f.proc.pc (current_asid f.proc)) refl
      where
        by_lookup :
            (o : Option ℕ)
            → lookup_iblock f.cache f.proc.pc (current_asid f.proc) ≡ o
            → Ends (elim o [
              | some b ↦
                  (if bit_and (f.cache.blocks b).pte_flags pte_kernel != 0
                      && bit_and (f.proc.cr rs) rs_user != 0
                    then some (none, set_proc f (fetch_fails f.proc f.proc.pc exc_pgf))
                    else some (some b, f))
              | none ↦ decode_new read_line f hazard
            ])
        by_lookup none e = decode_new-Ends
        by_lookup (some b) e =
            let (there, at) =
              find_iblock_sound f.cache.blocks f.proc.pc (current_asid f.proc)
                (f.cache.iblock_hash_buckets (iblock_hash f.proc.pc)) b e in
            if_cases Ends
              (bit_and (f.cache.blocks b).pte_flags pte_kernel != 0
                && bit_and (f.proc.cr rs) rs_user != 0)
              {x = some (none, set_proc f (fetch_fails f.proc f.proc.pc exc_pgf))}
              {y = some (some b, f)}
              (λ forbidden. (
                (none, set_proc f (fetch_fails f.proc f.proc.pc exc_pgf)),
                refl,
                unchanged (fetch_fails f.proc f.proc.pc exc_pgf)
                    (kernel_page (ground (arith, forbidden))),
              ))
              (λ allowed. (
                (some b, f),
                refl,
                at_block b f h (h.hashed (iblock_hash f.proc.pc) b there) at (IsKept-self f.proc)
                    (IsStill-self f.cache hazard),
              ))

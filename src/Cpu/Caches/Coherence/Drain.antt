-- ===== src/Cpu/Caches/Coherence/Drain.antt =====
-- `XrWriteWbEntry` and the caches' coherence.
use xremu.Base.{
  ℕ, zero, suc, ◌+◌, ◌%◌, subst, arith, Bool, List, [], ◌∷◌, ◌==◌, if_cases, update_self, add32,
}
use xremu.Cpu.Dcache.{Dcache, Line, LineWrite, wb_depth, cache_index_invalid}
use xremu.Cpu.Caches.{LineBus, Caches, with_dcache, drain}
use xremu.Cpu.Caches.Access.{fill}
use xremu.Cpu.Caches.Coherence.{IsLive, IsCoherent}
use xremu.Cpu.Caches.Coherence.Release.{
  counters, release-IsCoherent, counters-IsCoherent, with_dcache_quiet, counters-IsCoherent,
  same-IsCoherent,
}
use xremu.Cpu.Dcache.{uncached_stall, release, line_write, write_wb_from, write_wb_entry}

module _ {M : Type 0} (bus : LineBus M) (mem : ℕ → Line) (present : ℕ → Bool) {c : Caches M}
    (id : ℕ) (live : IsLive present id) (h : IsCoherent bus mem present c) where
  then_counters :
      (d : Dcache) (ws : List LineWrite) (replacement write fill cycles : ℕ)
      → IsCoherent bus mem present (with_dcache bus present c id (d, ws))
      → IsCoherent bus mem present
          (with_dcache bus present c id (counters d replacement write fill cycles, ws))
  then_counters d ws replacement write fill cycles so_far =
      subst (IsCoherent bus mem present)
        (with_dcache_quiet bus mem present c id d (counters d replacement write fill cycles) ws)
        (subst
          (λ (e : Dcache). IsCoherent bus mem present (
            with_dcache bus present (with_dcache bus present c id (d, ws)) id
              (counters e replacement write fill cycles, [])))
          (update_self c.dcaches id d)
          (counters-IsCoherent bus mem present id live so_far replacement write fill cycles))

  write_wb_from-IsCoherent :
      (left i : ℕ)
      → IsCoherent bus mem present
          (with_dcache bus present c id (write_wb_from (c.dcaches id) left i))
  unfolding write_wb_from
  write_wb_from-IsCoherent zero i = same-IsCoherent bus mem present id h live
  write_wb_from-IsCoherent (suc left) i =
      let d = c.dcaches id in
      let w = add32 d.wb_write_index i % wb_depth in
      if_cases
        (λ (r : Dcache × List LineWrite).
          IsCoherent bus mem present (with_dcache bus present c id r))
        (d.wb_indices w == cache_index_invalid) {x = write_wb_from d left (i + 1)}
        {y = (
          counters (release d w (d.wb_indices w)) d.replacement_index (i + 1) d.wb_fill_index
              uncached_stall,
          line_write d (d.wb_indices w) ∷ [],
        )}
        (λ _. write_wb_from-IsCoherent left (i + 1))
        (λ used.
          then_counters (release d w (d.wb_indices w)) (line_write d (d.wb_indices w) ∷ [])
            d.replacement_index (i + 1) d.wb_fill_index uncached_stall
            (release-IsCoherent bus mem present id h live w (omega arith) (ground (arith, used))))

  -- The timed write of an entry of a processor's write buffer keeps the caches coherent, with the
  -- same memory.
  pub drain-IsCoherent : IsCoherent bus mem present (drain bus present c id)
  unfolding write_wb_entry
  drain-IsCoherent = write_wb_from-IsCoherent wb_depth 0

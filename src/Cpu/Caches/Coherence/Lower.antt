-- ===== src/Cpu/Caches/Coherence/Lower.antt =====
-- A line is made invalid, or an exclusive line shared.
use native.Mathlib.Decide.{ℕ_discrete}
use xremu.Base.{
  ℕ, ◌≡◌, ◌≢◌, ◌<◌, ◌∙◌, sym, subst, arith, Bool, false, List, [], ◌∷◌, ◌==◌, if_cases, update-ne,
}
use xremu.Cpu.Dcache.{
  Dcache, Line, LineWrite, line_count, wb_depth, wb_index_invalid, release, line_write, force_out,
  set_flag,
}
use xremu.Cpu.Caches.{LineBus, Scache, Caches, sc_index, set_entry, with_dcache}
use xremu.Cpu.Caches.Coherence.{IsLive, IsHeld, IsConsistent, IsCoherent}
use xremu.Cpu.Caches.Coherence.Release.{release-IsCoherent, same-IsCoherent, quiet-IsCoherent}

-- what writing a line out leaves
pub force_out-tags : (d : Dcache) (i : ℕ) → (force_out d i).0.tags ≡ d.tags
unfolding force_out
force_out-tags d i = ground arith

pub force_out-flags : (d : Dcache) (i : ℕ) → (force_out d i).0.flags ≡ d.flags
unfolding force_out
force_out-flags d i = ground arith

pub force_out-free : (d : Dcache) (i : ℕ) → (force_out d i).0.index_to_wb_index i ≡ wb_index_invalid
unfolding force_out
force_out-free d i = ground arith

module _ {M : Type 0} (bus : LineBus M) (mem : ℕ → Line) (present : ℕ → Bool) where
  pub force_out-IsCoherent :
      {c : Caches M} (p i : ℕ)
      → IsCoherent bus mem present c
      → IsLive present p
      → i < line_count
      → IsCoherent bus mem present (with_dcache bus present c p (force_out (c.dcaches p) i))
  unfolding force_out
  force_out-IsCoherent {c} p i h live small =
      if_cases
        (λ (r : Dcache × List LineWrite).
          IsCoherent bus mem present (with_dcache bus present c p r))
        (d.index_to_wb_index i == wb_index_invalid) {x = (d, [])}
        {y = (release d (d.index_to_wb_index i) i, line_write d i ∷ [])}
        (λ _. same-IsCoherent bus mem present p h live)
        (λ used.
          subst
            (λ (j : ℕ). IsCoherent bus mem present (
              with_dcache bus present c p
                (release d (d.index_to_wb_index i) j, line_write d j ∷ [])))
            (entry used).1
            (release-IsCoherent bus mem present p h live (d.index_to_wb_index i) (entry used).0
              (ground (arith, entry used))))
    where
      d : Dcache
      d = c.dcaches p

      entry :
          (d.index_to_wb_index i == wb_index_invalid) ≡ false
          → (d.index_to_wb_index i < wb_depth) × (d.wb_indices (d.index_to_wb_index i) ≡ i)
      entry used = (h.each p live).back i small (ground (arith, used))

  pub invalidate-IsConsistent :
      {sc : Scache} {p : ℕ} {d : Dcache} (i : ℕ)
      → IsConsistent bus mem sc p d
      → d.index_to_wb_index i ≡ wb_index_invalid
      → IsConsistent bus mem sc p (set_flag d i 0)
  invalidate-IsConsistent {sc} {p} {d} i h free = record {
    held = λ j lt. elim (ℕ_discrete j i) [
      | yes e ↦ λ ne. absurd (ne (ground (arith, e)))
      | no other ↦ λ ne.
          subst (λ (f : ℕ). IsHeld bus mem sc p j (d.tags j) f (d.lines j))
            (sym (update-ne d.flags i j 0 other))
            (h.held j lt (λ z. ne (update-ne d.flags i j 0 other ∙ z)))
    ];
    unique =
        λ j k lt lt' ne ne' e. h.unique j k lt lt' (ground (arith, ne)) (ground (arith, ne')) e;
    entry = λ w lt ne. ground (arith, h.entry w lt ne, free);
    back = h.back;
  }

  -- A line that does not wait is made invalid.
  pub invalidate-IsCoherent :
      {c : Caches M} (p i : ℕ)
      → IsCoherent bus mem present c
      → IsLive present p
      → (c.dcaches p).index_to_wb_index i ≡ wb_index_invalid
      → IsCoherent bus mem present (with_dcache bus present c p (set_flag (c.dcaches p) i 0, []))
  invalidate-IsCoherent {c} p i h live free =
      quiet-IsCoherent bus mem present p (set_flag (c.dcaches p) i 0) h
        (invalidate-IsConsistent i (h.each p live) free)
        (λ t mine. record {
          index = mine.index;
          small = mine.small;
          tagged = mine.tagged;
          buffered = mine.buffered;
        })

  -- The entry at `s` of the Scache changes: the lines it is for are in the new state already.
  pub set_entry-IsConsistent :
      {sc : Scache} {p : ℕ} {d : Dcache} (s state id : ℕ)
      → IsConsistent bus mem sc p d
      → ((i : ℕ)
          → i < line_count
          → d.flags i ≢ 0
          → sc_index (d.tags i) ≡ s
          → (d.flags i ≡ state) × (state ≡ 2 → id ≡ p))
      → IsConsistent bus mem (set_entry sc s state id) p d
  set_entry-IsConsistent {sc} {p} {d} s state id h agrees = record {
    held = λ i lt ne.
        let l = h.held i lt ne in
        record {
          placed = l.placed;
          aligned = l.aligned;
          answered = l.answered;
          state = ground (arith, l.state, agrees i lt ne);
          known = l.known;
          owned = λ e. ground (arith, l.owned e, agrees i lt ne, e);
          contents = l.contents;
        };
    unique = h.unique;
    entry = h.entry;
    back = h.back;
  }

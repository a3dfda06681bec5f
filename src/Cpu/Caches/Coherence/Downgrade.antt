-- ===== src/Cpu/Caches/Coherence/Downgrade.antt =====
-- `XrDowngradeLine` and `XrDowngradeAll` to the invalid state: the line is gone, and the caches are
-- coherent as before.
use native.Mathlib.Decide.{ℕ_discrete}
use xremu.Base.{
  ℕ, zero, suc, ◌+◌, ◌*◌, ◌/◌, ◌%◌, ◌≡◌, ◌≢◌, ◌<◌, ◌≤◌, ◌∙◌, sym, ap, subst, refl, arith, Bool,
  ◌&&◌, ltb, List, [], ◌==◌, if_cases, update, update_self, update-ne,
}
use xremu.Bits.{bit_and-ones}
use xremu.Cpu.Dcache.{
  Dcache, Line, LineWrite, line_count, cache_index_invalid, set_flag, force_out, lower_line,
  downgrade, downgrade_from, dc_index,
}
use xremu.Cpu.Caches.{LineBus, Caches, with_dcache}
use xremu.Cpu.Caches.Coherence.{IsLive, IsCoherent}
use xremu.Cpu.Caches.Coherence.Release.{with_dcache_quiet, same-IsCoherent}
use xremu.Cpu.Caches.Coherence.Lower.{
  force_out-tags, force_out-flags, force_out-free, force_out-IsCoherent, invalidate-IsCoherent,
}

pub dc_index_lem : (a : ℕ) → dc_index a ≡ a / 16 % 1024 * 2
dc_index_lem a = omega (arith, bit_and-ones 10 (a / 16))

-- How a downgrade ends: at a line of the tag in a higher state, or there is none.
pub data IsDowngraded (d : Dcache) (tag new : ℕ) : Dcache × List LineWrite → Type 0 where
  lowered :
      (i : ℕ)
      → i < line_count
      → new < d.flags i
      → d.tags i ≡ tag
      → IsDowngraded d tag new (lower_line d i new)
  untouched :
      ((i : ℕ) → i / 2 ≡ tag / 16 % 1024 → new < d.flags i → d.tags i ≢ tag)
      → IsDowngraded d tag new (d, [])

downgrade_from-IsDowngraded :
    (d : Dcache) (tag new left i : ℕ)
    → i + left ≡ dc_index tag + 2
    → ((j : ℕ) → dc_index tag ≤ j → j < i → new < d.flags j → d.tags j ≢ tag)
    → IsDowngraded d tag new (downgrade_from d tag new left i)
unfolding downgrade_from
downgrade_from-IsDowngraded d tag new zero i e none_yet =
    untouched
      (λ j set. none_yet j (omega (arith, dc_index_lem tag)) (omega (arith, dc_index_lem tag)))
downgrade_from-IsDowngraded d tag new (suc left) i e none_yet =
    if_cases (IsDowngraded d tag new) (ltb new (d.flags i) && d.tags i == tag)
      {x = lower_line d i new} {y = downgrade_from d tag new left (i + 1)}
      (λ here. lowered i (omega (arith, dc_index_lem tag)) (ground arith) (ground arith))
      (λ other. downgrade_from-IsDowngraded d tag new left (i + 1) (omega arith) (λ j le lt above.
        elim (ℕ_discrete j i) [
          | yes same ↦ λ tagged. absurd (ground (arith, ap d.flags same, ap d.tags same))
          | no ne ↦ none_yet j le (omega arith) above
        ]))

pub downgrade-IsDowngraded :
    (d : Dcache) (tag new : ℕ) → IsDowngraded d tag new (downgrade d tag new)
unfolding downgrade
downgrade-IsDowngraded d tag new =
    downgrade_from-IsDowngraded d tag new 2 (dc_index tag) refl (λ j le lt. absurd (omega arith))

-- No valid line has the tag.
abbrev pub IsAbsent : Dcache → ℕ → Type 0
IsAbsent d tag = (i : ℕ) → i < line_count → d.flags i ≢ 0 → d.tags i ≢ tag

-- Every valid line was there before, and what was free in the write buffer is free.
pub record IsShrunk (d e : Dcache) : Type 0 where
  pub lines : (i : ℕ) → e.flags i ≢ 0 → (d.flags i ≢ 0) × (e.tags i ≡ d.tags i)
  pub spare : (w : ℕ) → d.wb_indices w ≡ cache_index_invalid → e.wb_indices w ≡ cache_index_invalid

pub same_IsShrunk : (d : Dcache) → IsShrunk d d
same_IsShrunk d = record { lines = λ i valid. (valid, refl); spare = λ w free. free }

force_out_spare :
    (d : Dcache) (i w : ℕ)
    → d.wb_indices w ≡ cache_index_invalid
    → (force_out d i).0.wb_indices w ≡ cache_index_invalid
unfolding force_out
force_out_spare d i w free = ground (arith, free)

pub lower_line-flags :
    (d : Dcache) (i new j : ℕ) → (lower_line d i new).0.flags j ≡ update d.flags i new j
lower_line-flags d i new j = ap (λ (f : ℕ → ℕ). update f i new j) (force_out-flags d i)

pub lower_line-tags : (d : Dcache) (i new : ℕ) → (lower_line d i new).0.tags ≡ d.tags
lower_line-tags d i new = force_out-tags d i

pub lower_line-IsShrunk :
    (d : Dcache) (i new : ℕ) → new < d.flags i → IsShrunk d (lower_line d i new).0
lower_line-IsShrunk d i new above = record {
  lines = λ j ne. (
    elim (ℕ_discrete j i) [
      | yes e ↦ λ z. absurd (ground (arith, above, z, ap d.flags e))
      | no other ↦ λ z. ne (lower_line-flags d i new j ∙ update-ne d.flags i j new other ∙ z)
    ],
    ap (λ (f : ℕ → ℕ). f j) (lower_line-tags d i new),
  );
  spare = λ w free. force_out_spare d i w free;
}

module _ {M : Type 0} (bus : LineBus M) (mem : ℕ → Line) (present : ℕ → Bool) where
  -- A line goes out of the write buffer and becomes invalid.
  pub drop-IsCoherent :
      {c : Caches M} (p i : ℕ)
      → IsCoherent bus mem present c
      → IsLive present p
      → i < line_count
      → IsCoherent bus mem present (with_dcache bus present c p (lower_line (c.dcaches p) i 0))
  drop-IsCoherent {c} p i h live small =
      let (e, written) = force_out (c.dcaches p) i in
      let out : IsCoherent bus mem present (with_dcache bus present c p (e, written)) =
        force_out-IsCoherent bus mem present p i h live small in
      subst (IsCoherent bus mem present)
        (with_dcache_quiet bus mem present c p e (set_flag e i 0) written)
        (subst
          (λ (d : Dcache). IsCoherent bus mem present (
            with_dcache bus present (with_dcache bus present c p (e, written)) p
              (set_flag d i 0, [])))
          (update_self c.dcaches p e)
          (invalidate-IsCoherent bus mem present p i out live (
            ap (λ (d : Dcache). d.index_to_wb_index i) (update_self c.dcaches p e)
            ∙ force_out-free (c.dcaches p) i)))

  -- After a downgrade to the invalid state
  pub record IsDropped (c : Caches M) (p tag : ℕ) (d : Dcache) (ws : List LineWrite) : Type 0 where
    pub coherent : IsCoherent bus mem present (with_dcache bus present c p (d, ws))
    pub absent : IsAbsent d tag
    pub shrunk : IsShrunk (c.dcaches p) d

  pub dropped :
      {c : Caches M} (p tag : ℕ)
      → IsCoherent bus mem present c
      → IsLive present p
      → (r : Dcache × List LineWrite) → IsDowngraded (c.dcaches p) tag 0 r
      → IsDropped c p tag r.0 r.1
  dropped {c} p tag h live _ (lowered i small above tagged) = record {
    coherent = drop-IsCoherent p i h live small;
    absent = λ j lt ne same. elim (ℕ_discrete j i) [
      | yes e ↦ ne (
          lower_line-flags (c.dcaches p) i 0 j
          ∙ ap (update (c.dcaches p).flags i 0) e
          ∙ update_self (c.dcaches p).flags i 0)
      | no other ↦
          let before = (lower_line-IsShrunk (c.dcaches p) i 0 above).lines j ne in
          other (
            (h.each p live).unique j i lt small before.0 (omega (arith, above))
              (sym before.1 ∙ same ∙ sym tagged))
    ];
    shrunk = lower_line-IsShrunk (c.dcaches p) i 0 above;
  }
  dropped {c} p tag h live _ (untouched none_there) = record {
    coherent = same-IsCoherent bus mem present p h live;
    absent = λ j lt ne tagged.
        none_there j (ground (arith, ((h.each p live).held j lt ne).placed, tagged))
          (ground (arith, ne)) tagged;
    shrunk = same_IsShrunk (c.dcaches p);
  }

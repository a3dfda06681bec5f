-- ===== src/Cpu/Caches/Coherence/Scanned.antt =====
-- `XrDcacheAccess`, the search of the write buffer.
use native.Mathlib.Decide.{ℕ_discrete}
use xremu.Base.{
  ℕ, zero, suc, ◌+◌, ◌≡◌, ◌≢◌, ◌<◌, ◌≤◌, ◌∙◌, sym, ap, refl, arith, ◌==◌, if◌then◌else◌, if_cases,
  Option, none, some,
}
use xremu.Cpu.Dcache.{Dcache, wb_depth, cache_index_invalid}
use xremu.Cpu.Caches.Access.{Scan, merge_at, free_at, full, scan, scan_end}

-- What the search finds.
pub data IsScanned (d : Dcache) (tag : ℕ) : Scan → Type 0 where
  waiting :
      (w : ℕ)
      → w < wb_depth
      → d.wb_indices w ≢ cache_index_invalid
      → d.tags (d.wb_indices w) ≡ tag
      → IsScanned d tag (merge_at (d.wb_indices w))
  vacant :
      (w : ℕ)
      → w < wb_depth
      → d.wb_indices w ≡ cache_index_invalid
      → ((v : ℕ)
          → v < wb_depth
          → d.wb_indices v ≢ cache_index_invalid
          → d.tags (d.wb_indices v) ≢ tag)
      → IsScanned d tag (free_at w)
  no_room : ((v : ℕ) → v < wb_depth → d.wb_indices v ≢ cache_index_invalid) → IsScanned d tag full

-- The last free entry so far, of the first `w`.
data IsFree (d : Dcache) (w : ℕ) : Option ℕ → Type 0 where
  none_free : ((v : ℕ) → v < w → d.wb_indices v ≢ cache_index_invalid) → IsFree d w none
  one_free : (v : ℕ) → v < wb_depth → d.wb_indices v ≡ cache_index_invalid → IsFree d w (some v)

next-IsFree :
    (d : Dcache) (w : ℕ) (free : Option ℕ)
    → d.wb_indices w ≢ cache_index_invalid
    → IsFree d w free
    → IsFree d (w + 1) free
next-IsFree d w _ used (none_free all) = none_free (λ v lt. elim (ℕ_discrete v w) [
  | yes e ↦ λ z. used (sym (ap d.wb_indices e) ∙ z)
  | no ne ↦ all v (omega arith)
])
next-IsFree d w _ used (one_free v lt z) = one_free v lt z

scan_end-IsScanned :
    (d : Dcache) (tag w : ℕ) (free : Option ℕ)
    → wb_depth ≤ w
    → IsFree d w free
    → ((v : ℕ) → v < w → d.wb_indices v ≢ cache_index_invalid → d.tags (d.wb_indices v) ≢ tag)
    → IsScanned d tag (scan_end free)
scan_end-IsScanned d tag w _ all (none_free used) none_yet = no_room (λ v lt. used v (omega arith))
scan_end-IsScanned d tag w _ all (one_free v lt z) none_yet =
    vacant v lt z (λ x small. none_yet x (omega arith))

scan-IsScanned_from :
    (d : Dcache) (tag left w : ℕ) (free : Option ℕ)
    → w + left ≡ wb_depth
    → IsFree d w free
    → ((v : ℕ) → v < w → d.wb_indices v ≢ cache_index_invalid → d.tags (d.wb_indices v) ≢ tag)
    → IsScanned d tag (scan d tag left w free)
unfolding scan
scan-IsScanned_from d tag zero w free e so_far none_yet =
    scan_end-IsScanned d tag w free (omega arith) so_far none_yet
scan-IsScanned_from d tag (suc left) w free e so_far none_yet =
    if_cases (IsScanned d tag) (d.wb_indices w == cache_index_invalid)
      {x = scan d tag left (w + 1) (some w)}
      {y = if d.tags (d.wb_indices w) == tag
        then merge_at (d.wb_indices w)
        else scan d tag left (w + 1) free}
      (λ here.
        scan-IsScanned_from d tag left (w + 1) (some w) (omega arith)
          (one_free w (omega arith) (ground (arith, here)))
          (λ v lt used.
            none_yet v
              (elim (ℕ_discrete v w) [
                | yes e ↦ absurd (used (ap d.wb_indices e ∙ ground (arith, here)))
                | no ne ↦ omega arith
              ])
              used))
      (λ used.
        if_cases (IsScanned d tag) (d.tags (d.wb_indices w) == tag) {x = merge_at (d.wb_indices w)}
          {y = scan d tag left (w + 1) free}
          (λ same. waiting w (omega arith) (ground (arith, used)) (ground (arith, same)))
          (λ other.
            scan-IsScanned_from d tag left (w + 1) free (omega arith)
              (next-IsFree d w free (ground (arith, used)) so_far)
              (λ v lt. elim (ℕ_discrete v w) [
                | yes e ↦ λ _ same.
                    absurd (
                      ground (arith, other, sym (ap (λ (x : ℕ). d.tags (d.wb_indices x)) e) ∙ same))
                | no ne ↦ none_yet v (omega arith)
              ])))

-- The search of the write buffer for a tag gives the line of an entry with the tag; or it gives a
-- free entry, and no entry has the tag; or no entry is free.
pub scan-IsScanned : (d : Dcache) (tag : ℕ) → IsScanned d tag (scan d tag wb_depth 0 none)
scan-IsScanned d tag =
    scan-IsScanned_from d tag wb_depth 0 none refl (none_free (λ v lt. absurd (omega arith)))
      (λ v lt. absurd (omega arith))

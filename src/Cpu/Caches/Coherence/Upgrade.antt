-- ===== src/Cpu/Caches/Coherence/Upgrade.antt =====
-- `XrDcacheAccess`, a store into a shared line: the other copies go, and the line becomes exclusive.
use native.Mathlib.Decide.{ℕ_discrete}
use xremu.Base.{
  ℕ, ◌≡◌, ◌≢◌, ◌<◌, ◌∙◌, sym, ap, subst, arith, Bool, ◌&&◌, [], ◌==◌, ◌!=◌, if◌then◌else◌, if_cases,
  Option, none, some, update, update_self, update-ne,
}
use xremu.Cpu.Dcache.{Dcache, Line, line_count, set_flag, line_shared, line_exclusive, line_invalid}
use xremu.Cpu.Caches.{
  LineBus, Scache, Caches, sc_index, set_entry, with_dcache, with_scache, put_all, downgrade_line,
  downgrade_all, find_in_scache,
}
use xremu.Cpu.Caches.Access.{upgrade}
use xremu.Cpu.Caches.Coherence.{IsLive, IsHeld, IsConsistent, waits, stored, IsCoherent}
use xremu.Cpu.Caches.Coherence.Release.{waits_other}
use xremu.Cpu.Caches.Coherence.Entry.{kept_again, entries_after}
use xremu.Cpu.Caches.Coherence.Lower.{set_entry-IsConsistent}
use xremu.Cpu.Caches.Coherence.Downgrade.{IsAbsent}
use xremu.Cpu.Caches.Coherence.Clear.{IsCleared, downgrade_all-IsCleared}
use xremu.Lsic.{proc_max}

module _ {M : Type 0} (bus : LineBus M) (mem : ℕ → Line) (present : ℕ → Bool) where
  module _ {c : Caches M} (id i : ℕ) (h : IsCoherent bus mem present c) (live : IsLive present id)
      (small : i < line_count) (shared : (c.dcaches id).flags i ≡ 1)
      (alone : (p : ℕ)
        → IsLive present p
        → p ≢ id
        → IsAbsent (c.dcaches p) ((c.dcaches id).tags i)) where
    abbrev mine : Dcache
    mine = c.dcaches id

    abbrev entry : ℕ
    entry = sc_index (mine.tags i)

    abbrev raised : Scache
    raised = set_entry c.scache entry 2 id

    line : IsHeld bus mem c.scache id i (mine.tags i) (mine.flags i) (mine.lines i)
    line = (h.each id live).held i small (ground (arith, shared))

    same_tag :
        (p j : ℕ)
        → IsLive present p
        → j < line_count
        → (c.dcaches p).flags j ≢ 0
        → sc_index ((c.dcaches p).tags j) ≡ entry
        → (c.dcaches p).tags j ≡ mine.tags i
    same_tag p j there lt ne e =
        sym ((h.each p there).held j lt ne).known ∙ ap c.scache.tags e ∙ line.known

    raise-IsConsistent : IsConsistent bus mem raised id (set_flag mine i 2)
    raise-IsConsistent = record {
      held = λ j lt. elim (ℕ_discrete j i) [
        | yes e ↦ λ ne.
            subst
              (λ (k : ℕ).
                IsHeld bus mem raised id k (mine.tags k) (update mine.flags i 2 k) (mine.lines k))
              (sym e)
              (record {
                placed = line.placed;
                aligned = line.aligned;
                answered = line.answered;
                state = ground arith;
                known = line.known;
                owned = λ _. update_self c.scache.exclusive_ids entry id;
                contents = line.contents;
              })
        | no other ↦ λ ne.
            let valid : mine.flags j ≢ 0 = λ z. ne (update-ne mine.flags i j 2 other ∙ z) in
            let l = (h.each id live).held j lt valid in
            let elsewhere : sc_index (mine.tags j) ≢ entry = λ e. other (
              (h.each id live).unique j i lt small valid (ground (arith, shared))
                (same_tag id j live lt valid e)) in
            record {
              placed = l.placed;
              aligned = l.aligned;
              answered = l.answered;
              state = ground (arith, l.state, elsewhere, other);
              known = l.known;
              owned = λ two. ground (arith, l.owned, two, elsewhere, other);
              contents = l.contents;
            }
      ];
      unique = λ j k lt lt' ne ne' e.
          (h.each id live).unique j k lt lt' (ground (arith, ne, shared))
            (ground (arith, ne', shared)) e;
      entry = λ w lt ne. ground (arith, (h.each id live).entry w lt ne, shared);
      back = (h.each id live).back;
    }

    pub raise-IsCoherent :
        IsCoherent bus mem present
          (with_dcache bus present (with_scache bus present c raised) id (set_flag mine i 2, []))
    unfolding put_all
    raise-IsCoherent = record {
      each = λ p there. elim (ℕ_discrete p id) [
        | yes e ↦
            subst
              (λ (r : ℕ). IsConsistent bus mem raised r (update c.dcaches id (set_flag mine i 2) r))
              (sym e)
              (subst (IsConsistent bus mem raised id)
                (sym (update_self c.dcaches id (set_flag mine i 2))) raise-IsConsistent)
        | no other ↦
            subst (IsConsistent bus mem raised p)
              (sym (update-ne c.dcaches id p (set_flag mine i 2) other))
              (set_entry-IsConsistent bus mem present entry 2 id (h.each p there)
                (λ j lt ne e. absurd (alone p there other j lt ne (same_tag p j there lt ne e))))
      ];
      kept = λ t aligned answered.
          kept_again bus mem present {c = with_dcache bus present c id (set_flag mine i 2, [])} _ t
            (elim (h.kept t aligned answered) [
              | waits r live' wait ↦
                  waits_other bus mem present c id r (set_flag mine i 2) [] t live'
                    (λ own. record {
                      index = own.index;
                      small = own.small;
                      tagged = own.tagged;
                      buffered = own.buffered;
                    })
                    wait
              | stored same ↦ stored same
            ]);
      entries =
          entries_after bus mem present entry 2 id h.entries (ground (arith, line.state, shared))
            (omega arith) live;
    }

  -- How an upgrade ends: with the exclusive line, in a data cache that is as it was for the rest.
  pub data IsUpgraded (c : Caches M) (id i : ℕ) : Option (Caches M) → Type 0 where
    upgraded :
        (e : Caches M)
        → IsCoherent bus mem present e
        → e.dcaches id ≡ set_flag (c.dcaches id) i 2
        → IsUpgraded c id i (some e)

  module _ {c : Caches M} (id i : ℕ) (h : IsCoherent bus mem present c) (live : IsLive present id)
      (small : i < line_count) (shared : (c.dcaches id).flags i ≡ 1) where
    abbrev tag : ℕ
    tag = (c.dcaches id).tags i

    held : IsHeld bus mem c.scache id i tag ((c.dcaches id).flags i) ((c.dcaches id).lines i)
    held = (h.each id live).held i small (ground (arith, shared))

    abbrev cleared_by : Caches M
    cleared_by = downgrade_all bus present (λ q. q == id) c tag 0

    clear : IsCleared bus mem present (λ q. q == id) proc_max tag c cleared_by
    clear = downgrade_all-IsCleared bus mem present (λ q. q == id) tag h

    mine_kept : cleared_by.dcaches id ≡ c.dcaches id
    mine_kept = clear.kept id (ground arith)

    same_tag_after : (cleared_by.dcaches id).tags i ≡ tag
    same_tag_after = ap (λ (d : Dcache). d.tags i) mine_kept

    abbrev raise : ℕ → Caches M → Caches M
    raise s e =
        with_dcache bus present (with_scache bus present e (set_entry e.scache s 2 id)) id
          (set_flag (e.dcaches id) i 2, [])

    raise_cleared : IsUpgraded c id i (some (raise (sc_index tag) cleared_by))
    raise_cleared =
        upgraded (raise (sc_index tag) cleared_by)
          (subst (λ (t : ℕ). IsCoherent bus mem present (raise (sc_index t) cleared_by))
            same_tag_after
            (raise-IsCoherent id i clear.reduced.coherent live small
              (ap (λ (d : Dcache). d.flags i) mine_kept ∙ shared)
              (λ p there other.
                subst (IsAbsent (cleared_by.dcaches p)) (sym same_tag_after)
                  (clear.absent p there.small there (ground (arith, other))))))
          (update_self cleared_by.dcaches id (set_flag (cleared_by.dcaches id) i 2)
            ∙ ap (λ (d : Dcache). set_flag d i 2) mine_kept)

    abbrev cleared_at : ℕ → Caches M
    cleared_at s =
        if c.scache.flags s == line_shared
        then cleared_by
        else if c.scache.flags s == line_exclusive
        then downgrade_line bus present c (c.scache.exclusive_ids s) tag line_invalid
        else c

    -- A store that hits a shared line in coherent caches finds its Scache entry, and ends with the
    -- line exclusive, the processor's data cache otherwise as it was, and the caches coherent with
    -- the same memory.
    pub upgrade-IsUpgraded : IsUpgraded c id i (upgrade bus present c id i tag)
    unfolding upgrade find_in_scache
    upgrade-IsUpgraded =
        if_cases
          (λ (o : Option ℕ).
            IsUpgraded c id i (elim o [ none ↦ none | some s ↦ some (raise s (cleared_at s)) ]))
          (c.scache.flags (sc_index tag) != line_invalid && c.scache.tags (sc_index tag) == tag)
          {x = some (sc_index tag)} {y = none}
          (λ _.
            if_cases (λ (e : Caches M). IsUpgraded c id i (some (raise (sc_index tag) e)))
              (c.scache.flags (sc_index tag) == line_shared) {x = cleared_by}
              {y = if c.scache.flags (sc_index tag) == line_exclusive
                then downgrade_line bus present c (c.scache.exclusive_ids (sc_index tag)) tag
                    line_invalid
                else c}
              (λ _. raise_cleared) (λ other. absurd (ground (arith, other, held.state, shared))))
          (λ lost. absurd (ground (arith, lost, held.state, held.known, shared)))

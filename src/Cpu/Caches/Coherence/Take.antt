-- ===== src/Cpu/Caches/Coherence/Take.antt =====
-- The Scache's part of a miss: `XrFindOrReplaceInScache` and what follows it.
use native.Mathlib.Decide.{ℕ_discrete}
use xremu.Base.{
  ℕ, ◌/◌, ◌%◌, ◌≡◌, ◌≢◌, ◌<◌, ◌∙◌, sym, ap, subst, refl, arith, Bool, true, false, List, [], ◌==◌,
  if◌then◌else◌, if_cases, update, update_self, update-ne,
}
use xremu.Cpu.Dcache.{
  Dcache, Line, LineWrite, line_count, downgrade, set_flag, force_out, line_shared, line_exclusive,
}
use xremu.Cpu.Caches.{
  LineBus, Scache, Caches, sc_index, set_entry, with_dcache, with_scache, downgrade_line,
  downgrade_all,
}
use xremu.Cpu.Caches.Access.{settle}
use xremu.Cpu.Caches.Coherence.{IsLive, IsHeld, IsCoherent}
use xremu.Cpu.Caches.Coherence.Release.{with_dcache_quiet, with_dcache_same}
use xremu.Cpu.Caches.Coherence.Lower.{
  force_out-IsCoherent, force_out-tags, force_out-flags, force_out-free,
}
use xremu.Cpu.Caches.Coherence.Entry.{set_entry-IsCoherent, share-IsCoherent}
use xremu.Cpu.Caches.Coherence.Downgrade.{
  IsShrunk, same_IsShrunk, IsDowngraded, lowered, untouched, downgrade-IsDowngraded,
  lower_line-IsShrunk,
}
use xremu.Cpu.Caches.Coherence.Clear.{
  IsReduced, IsCleared, IsVacant, downgrade_line-IsReduced, downgrade_all-IsCleared, evict_shared,
  evict_exclusive,
}
use xremu.Lsic.{proc_max}

module _ {M : Type 0} (bus : LineBus M) (mem : ℕ → Line) (present : ℕ → Bool) where
  -- The entry for the tag is in the new state and the processor's.
  pub record IsTaken (c e : Caches M) (id tag state : ℕ) : Type 0 where
    pub coherent : IsCoherent bus mem present e
    pub shrunk : (q : ℕ) → IsShrunk (c.dcaches q) (e.dcaches q)
    pub in_state : e.scache.flags (sc_index tag) ≡ state
    pub tagged : e.scache.tags (sc_index tag) ≡ tag
    pub named : e.scache.exclusive_ids (sc_index tag) ≡ id

  module _ {c : Caches M} (id tag : ℕ) (h : IsCoherent bus mem present c) (live : IsLive present id)
      (tagged : c.scache.tags (sc_index tag) ≡ tag) where
    abbrev owner : ℕ
    owner = c.scache.exclusive_ids (sc_index tag)

    -- The exclusive line of the owner, if it has it still, becomes shared.
    share_out :
        (named : IsLive present owner)
        → c.scache.flags (sc_index tag) ≡ 2
        → (r : Dcache × List LineWrite) → IsDowngraded (c.dcaches owner) tag 1 r
        → IsCoherent bus mem present (
            with_scache bus present
              (with_dcache bus present c owner r)
              (set_entry c.scache (sc_index tag) 1 id))
    share_out named two _ (lowered i small above at) =
        let (e, written) = force_out (c.dcaches owner) i in
        let out : IsCoherent bus mem present (with_dcache bus present c owner (e, written)) =
          force_out-IsCoherent bus mem present owner i h named small in
        let here : update c.dcaches owner e owner ≡ e = update_self c.dcaches owner e in
        let line = (h.each owner named).held i small (omega (arith, above)) in
        let state : (c.dcaches owner).flags i ≡ 2 =
          sym line.state ∙ ap (λ (t : ℕ). c.scache.flags (sc_index t)) at ∙ two in
        let tag_of : e.tags i ≡ tag =
          ap (λ (f : ℕ → ℕ). f i) (force_out-tags (c.dcaches owner) i) ∙ at in
        subst
          (λ (t : ℕ). IsCoherent bus mem present (
            with_scache bus present (with_dcache bus present c owner (set_flag e i 1, written))
              (set_entry c.scache (sc_index t) 1 id)))
          tag_of
          (subst
            (λ (x : Caches M).
              IsCoherent bus mem present
                (with_scache bus present x (set_entry c.scache (sc_index (e.tags i)) 1 id)))
            (with_dcache_quiet bus mem present c owner e (set_flag e i 1) written)
            (subst
              (λ (d : Dcache). IsCoherent bus mem present (
                with_scache bus present
                  (with_dcache bus present (with_dcache bus present c owner (e, written)) owner
                    (set_flag d i 1, []))
                  (set_entry c.scache (sc_index (d.tags i)) 1 id)))
              here
              (share-IsCoherent bus mem present owner i id out named small
                (ap (λ (d : Dcache). d.flags i) here
                  ∙ ap (λ (f : ℕ → ℕ). f i) (force_out-flags (c.dcaches owner) i)
                  ∙ state)
                (ap (λ (d : Dcache). d.index_to_wb_index i) here
                  ∙ force_out-free (c.dcaches owner) i)
                live)))
    share_out named two _ (untouched none_there) =
        subst
          (λ (x : Caches M).
            IsCoherent bus mem present
              (with_scache bus present x (set_entry c.scache (sc_index tag) 1 id)))
          (sym (with_dcache_same bus mem present c owner))
          (set_entry-IsCoherent bus mem present (sc_index tag) 1 id h (ground (arith, two))
            (omega arith) live (λ p i there lt ne at. absurd (nobody p i there lt ne at)))
      where
        nobody :
            (p i : ℕ)
            → IsLive present p
            → i < line_count
            → (c.dcaches p).flags i ≢ 0
            → sc_index ((c.dcaches p).tags i) ≢ sc_index tag
        nobody p i there lt ne at = none_there i set above here
          where
            line :
                IsHeld bus mem c.scache p i
                  ((c.dcaches p).tags i)
                  ((c.dcaches p).flags i)
                  ((c.dcaches p).lines i)
            line = (h.each p there).held i lt ne

            mine : owner ≡ p
            mine =
                ap c.scache.exclusive_ids (sym at)
                ∙ line.owned (sym line.state ∙ ap c.scache.flags at ∙ two)

            same : (c.dcaches p).tags i ≡ tag
            same = sym line.known ∙ ap c.scache.tags at ∙ tagged

            set : i / 2 ≡ tag / 16 % 1024
            set = sym line.placed ∙ ap (λ (t : ℕ). t / 16 % 1024) same

            above : 1 < (c.dcaches owner).flags i
            above = ground (
              arith,
              line.state,
              ap c.scache.flags at,
              two,
              ap (λ (q : ℕ). (c.dcaches q).flags i) mine,
            )

            here : (c.dcaches owner).tags i ≡ tag
            here = ap (λ (q : ℕ). (c.dcaches q).tags i) mine ∙ same

    -- The owner's copy has gone, or has become shared.
    sharer_IsShrunk :
        (r : Dcache × List LineWrite)
        → IsDowngraded (c.dcaches owner) tag 1 r
        → (q : ℕ) → IsShrunk (c.dcaches q) (update c.dcaches owner r.0 q)
    sharer_IsShrunk r how q = elim (ℕ_discrete q owner) [
      | yes e ↦
          subst (λ (x : ℕ). IsShrunk (c.dcaches x) (update c.dcaches owner r.0 x)) (sym e)
            (subst (IsShrunk (c.dcaches owner)) (sym (update_self c.dcaches owner r.0))
              (shrunk r how))
      | no ne ↦
          subst (IsShrunk (c.dcaches q)) (sym (update-ne c.dcaches owner q r.0 ne))
            (same_IsShrunk (c.dcaches q))
    ]
      where
        shrunk :
            (r : Dcache × List LineWrite)
            → IsDowngraded (c.dcaches owner) tag 1 r
            → IsShrunk (c.dcaches owner) r.0
        shrunk _ (lowered i small above at) = lower_line-IsShrunk (c.dcaches owner) i 1 above
        shrunk _ (untouched none_there) = same_IsShrunk (c.dcaches owner)

    set_entry-IsTaken :
        {f : Caches M} (state : ℕ)
        → ((q : ℕ) → IsShrunk (c.dcaches q) (f.dcaches q))
        → f.scache ≡ c.scache
        → IsCoherent bus mem present
            (with_scache bus present f (set_entry f.scache (sc_index tag) state id))
        → IsTaken c
            (with_scache bus present f (set_entry f.scache (sc_index tag) state id))
            id
            tag
            state
    set_entry-IsTaken {f} state shrunk same coherent = record {
      coherent = coherent;
      shrunk = shrunk;
      in_state = update_self f.scache.flags (sc_index tag) state;
      tagged = ap (λ (sc : Scache). sc.tags (sc_index tag)) same ∙ tagged;
      named = update_self f.scache.exclusive_ids (sc_index tag) id;
    }

    vacant-IsTaken :
        {f : Caches M}
        → IsReduced bus mem present c f
        → IsVacant bus mem present f (sc_index tag)
        → c.scache.flags (sc_index tag) ≢ 0
        → IsTaken c (with_scache bus present f (set_entry f.scache (sc_index tag) 2 id)) id tag 2
    vacant-IsTaken {f} reduced vacant used = set_entry-IsTaken 2 reduced.shrunk reduced.scache (
        set_entry-IsCoherent bus mem present (sc_index tag) 2 id reduced.coherent
          (λ z. used (ap (λ (sc : Scache). sc.flags (sc_index tag)) (sym reduced.scache) ∙ z))
          (omega arith) live (λ p i there lt ne at. absurd (vacant p i there lt ne at)))

    owner_IsLive : c.scache.flags (sc_index tag) ≡ 2 → IsLive present owner
    owner_IsLive two = (h.entries (sc_index tag) (ground (arith, two))).live two

    pub settle-IsTaken :
        (writing : Bool)
        → c.scache.flags (sc_index tag) ≢ 0
        → IsTaken c (settle bus present c id tag writing) id tag (if writing then 2 else 1)
    unfolding settle
    settle-IsTaken true used =
        if_cases
          (λ (f : Caches M).
            IsTaken c (with_scache bus present f (set_entry f.scache (sc_index tag) 2 id)) id tag 2)
          (c.scache.flags (sc_index tag) == line_exclusive)
          {x = downgrade_line bus present c owner tag 0}
          {y = if c.scache.flags (sc_index tag) == line_shared
            then downgrade_all bus present (λ _. false) c tag 0
            else c}
          (λ exclusive.
            vacant-IsTaken
              (downgrade_line-IsReduced bus mem present owner tag h
                (owner_IsLive (ground (arith, exclusive))))
              (subst
                (λ (t : ℕ).
                  IsVacant bus mem present (downgrade_line bus present c owner t 0) (sc_index tag))
                tagged
                (evict_exclusive bus mem present (sc_index tag) h (ground (arith, exclusive))
                  (owner_IsLive (ground (arith, exclusive)))))
              used)
          (λ other.
            if_cases
              (λ (f : Caches M).
                IsTaken c (with_scache bus present f (set_entry f.scache (sc_index tag) 2 id)) id
                  tag 2)
              (c.scache.flags (sc_index tag) == line_shared)
              {x = downgrade_all bus present (λ _. false) c tag 0} {y = c}
              (λ one.
                let cleared = downgrade_all-IsCleared bus mem present (λ _. false) tag h in
                vacant-IsTaken cleared.reduced
                  (evict_shared bus mem present (sc_index tag) h (
                    subst
                      (λ (t : ℕ).
                        IsCleared bus mem present (λ _. false) proc_max t c
                          (downgrade_all bus present (λ _. false) c tag 0))
                      (sym tagged) cleared))
                  used)
              (λ unshared.
                absurd
                  (ground (arith, (h.entries (sc_index tag) used).small, used, other, unshared))))
    settle-IsTaken false used =
        if_cases
          (λ (f : Caches M).
            IsTaken c (with_scache bus present f (set_entry f.scache (sc_index tag) 1 id)) id tag 1)
          (c.scache.flags (sc_index tag) == line_exclusive)
          {x = downgrade_line bus present c owner tag 1} {y = c}
          (λ exclusive.
            let how = downgrade-IsDowngraded (c.dcaches owner) tag 1 in
            set_entry-IsTaken 1 (sharer_IsShrunk (downgrade (c.dcaches owner) tag 1) how) refl (
              share_out (owner_IsLive (ground (arith, exclusive))) (ground (arith, exclusive))
                (downgrade (c.dcaches owner) tag 1) how))
          (λ other.
            set_entry-IsTaken 1 (λ q. same_IsShrunk (c.dcaches q)) refl
              (set_entry-IsCoherent bus mem present (sc_index tag) 1 id h used (omega arith) live
                (λ p i there lt ne at. (
                  ground (
                    arith,
                    (h.entries (sc_index tag) used).small,
                    used,
                    other,
                    ((h.each p there).held i lt ne).state,
                    ap c.scache.flags at,
                  ),
                  λ two. absurd (ground (arith, two)),
                ))))

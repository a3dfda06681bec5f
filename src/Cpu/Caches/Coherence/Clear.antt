-- ===== src/Cpu/Caches/Coherence/Clear.antt =====
-- A tag is taken out of one data cache, or out of all.
use native.Mathlib.Decide.{ℕ_discrete}
use xremu.Base.{
  ℕ, zero, suc, ◌≡◌, ◌≢◌, ◌<◌, ◌≤◌, ◌∙◌, sym, ap, subst, refl, arith, Bool, true, false, not, ◌||◌,
  ◌==◌, if◌then◌else◌, if_cases, update, update_self, update-ne,
}
use xremu.Cpu.Dcache.{
  Dcache, Line, line_count, downgrade, line_shared, line_exclusive, line_invalid,
}
use xremu.Cpu.Caches.{
  LineBus, Scache, Caches, sc_index, downgrade_line, downgrade_first, downgrade_all, evict_entry,
}
use xremu.Cpu.Caches.Coherence.{IsLive, IsHeld, IsCoherent}
use xremu.Cpu.Caches.Coherence.Downgrade.{
  IsAbsent, IsShrunk, same_IsShrunk, IsDropped, dropped, downgrade-IsDowngraded,
}
use xremu.Lsic.{proc_max}

module _ {M : Type 0} (bus : LineBus M) (mem : ℕ → Line) (present : ℕ → Bool) where
  -- Only lines were given up.
  pub record IsReduced (c e : Caches M) : Type 0 where
    pub coherent : IsCoherent bus mem present e
    pub shrunk : (q : ℕ) → IsShrunk (c.dcaches q) (e.dcaches q)
    pub scache : e.scache ≡ c.scache

  pub shrunk-IsAbsent : (d e : Dcache) (tag : ℕ) → IsShrunk d e → IsAbsent d tag → IsAbsent e tag
  shrunk-IsAbsent d e tag s a i lt ne same = a i lt (s.lines i ne).0 (sym (s.lines i ne).1 ∙ same)

  pub same-IsReduced : {c : Caches M} → IsCoherent bus mem present c → IsReduced c c
  same-IsReduced {c} h = record {
    coherent = h;
    shrunk = λ q. same_IsShrunk (c.dcaches q);
    scache = refl;
  }

  module _ {c : Caches M} (p tag : ℕ) (h : IsCoherent bus mem present c)
      (live : IsLive present p) where
    drop :
        IsDropped bus mem present c p tag
          (downgrade (c.dcaches p) tag 0).0
          (downgrade (c.dcaches p) tag 0).1
    drop =
        dropped bus mem present p tag h live (downgrade (c.dcaches p) tag 0)
          (downgrade-IsDowngraded (c.dcaches p) tag 0)

    pub downgrade_line-IsReduced : IsReduced c (downgrade_line bus present c p tag 0)
    downgrade_line-IsReduced = record {
      coherent = drop.coherent;
      shrunk = λ q. elim (ℕ_discrete q p) [
        | yes e ↦
            subst
              (λ (r : ℕ).
                IsShrunk (c.dcaches r) (update c.dcaches p (downgrade (c.dcaches p) tag 0).0 r))
              (sym e)
              (subst (IsShrunk (c.dcaches p))
                (sym (update_self c.dcaches p (downgrade (c.dcaches p) tag 0).0)) drop.shrunk)
        | no ne ↦
            subst (IsShrunk (c.dcaches q))
              (sym (update-ne c.dcaches p q (downgrade (c.dcaches p) tag 0).0 ne))
              (same_IsShrunk (c.dcaches q))
      ];
      scache = refl;
    }

    pub downgrade_line-IsAbsent : IsAbsent ((downgrade_line bus present c p tag 0).dcaches p) tag
    downgrade_line-IsAbsent =
        subst (λ (d : Dcache). IsAbsent d tag)
          (sym (update_self c.dcaches p (downgrade (c.dcaches p) tag 0).0)) drop.absent

  -- The first `n` processors have given up the line of the tag, except for those to keep.
  pub record IsCleared (keep : ℕ → Bool) (n tag : ℕ) (c e : Caches M) : Type 0 where
    pub reduced : IsReduced c e
    pub absent : (p : ℕ) → p < n → IsLive present p → keep p ≡ false → IsAbsent (e.dcaches p) tag
    pub kept : (p : ℕ) → keep p ≡ true → e.dcaches p ≡ c.dcaches p

  then-IsReduced : {c d e : Caches M} → IsReduced c d → IsReduced d e → IsReduced c e
  then-IsReduced first second = record {
    coherent = second.coherent;
    shrunk = λ q. record {
      lines = λ i ne.
          let after = (second.shrunk q).lines i ne in
          let before = (first.shrunk q).lines i after.0 in (before.0, after.1 ∙ before.1);
      spare = λ w free. (second.shrunk q).spare w ((first.shrunk q).spare w free);
    };
    scache = second.scache ∙ first.scache;
  }

  step-IsCleared :
      {keep : ℕ → Bool} {n tag : ℕ} {c e : Caches M}
      → IsCleared keep n tag c e
      → n < proc_max
      → (b : Bool) → (not (present n) || keep n) ≡ b
      → IsCleared keep (suc n) tag c (if b then e else downgrade_line bus present e n tag 0)
  step-IsCleared {keep} {n} {tag} {c} {e} so_far small true skip = record {
    reduced = so_far.reduced;
    absent = λ p lt live other. elim (ℕ_discrete p n) [
      | yes same ↦ absurd (ground (arith, skip, live.there, other, ap present same, ap keep same))
      | no ne ↦ so_far.absent p (omega arith) live other
    ];
    kept = so_far.kept;
  }
  step-IsCleared {keep} {n} {tag} {c} {e} so_far small false act = record {
    reduced = then-IsReduced so_far.reduced step;
    absent = λ p lt live other. elim (ℕ_discrete p n) [
      | yes same ↦
          subst (λ (r : ℕ). IsAbsent ((downgrade_line bus present e n tag 0).dcaches r) tag)
            (sym same) (downgrade_line-IsAbsent n tag so_far.reduced.coherent there)
      | no ne ↦
          shrunk-IsAbsent (e.dcaches p) ((downgrade_line bus present e n tag 0).dcaches p) tag
            (step.shrunk p) (so_far.absent p (omega arith) live other)
    ];
    kept = λ p keeps.
        update-ne e.dcaches n p (downgrade (e.dcaches n) tag 0).0
          (λ same. ground (arith, act, keeps, ap keep same))
        ∙ so_far.kept p keeps;
  }
    where
      there : IsLive present n
      there = record { small = small; there = ground (arith, act) }

      step : IsReduced e (downgrade_line bus present e n tag 0)
      step = downgrade_line-IsReduced n tag so_far.reduced.coherent there

  downgrade_first-IsCleared :
      {c : Caches M} (n : ℕ) (keep : ℕ → Bool) (tag : ℕ)
      → IsCoherent bus mem present c
      → n ≤ proc_max
      → IsCleared keep n tag c (downgrade_first bus present n keep c tag 0)
  unfolding downgrade_first
  downgrade_first-IsCleared zero keep tag h le = record {
    reduced = same-IsReduced h;
    absent = λ p lt. absurd (omega arith);
    kept = λ p keeps. refl;
  }
  downgrade_first-IsCleared (suc n) keep tag h le =
      step-IsCleared (downgrade_first-IsCleared n keep tag h (omega arith)) (omega arith)
        (not (present n) || keep n) refl

  pub downgrade_all-IsCleared :
      {c : Caches M} (keep : ℕ → Bool) (tag : ℕ)
      → IsCoherent bus mem present c
      → IsCleared keep proc_max tag c (downgrade_all bus present keep c tag 0)
  downgrade_all-IsCleared keep tag h = downgrade_first-IsCleared proc_max keep tag h (omega arith)

  -- No line needs the entry at `s`.
  abbrev pub IsVacant : Caches M → ℕ → Type 0
  IsVacant c s =
      (p i : ℕ)
      → IsLive present p
      → i < line_count
      → (c.dcaches p).flags i ≢ 0
      → sc_index ((c.dcaches p).tags i) ≢ s

  pub evict_shared :
      {c e : Caches M} (s : ℕ)
      → IsCoherent bus mem present c
      → IsCleared (λ _. false) proc_max (c.scache.tags s) c e
      → IsVacant e s
  evict_shared {c} {e} s h cleared p i live lt ne at =
      cleared.absent p live.small live refl i lt ne (
        sym ((cleared.reduced.coherent.each p live).held i lt ne).known
        ∙ ap e.scache.tags at
        ∙ ap (λ (sc : Scache). sc.tags s) cleared.reduced.scache)

  pub evict_exclusive :
      {c : Caches M} (s : ℕ) (h : IsCoherent bus mem present c)
      → c.scache.flags s ≡ 2
      → IsLive present (c.scache.exclusive_ids s)
      → IsVacant (downgrade_line bus present c (c.scache.exclusive_ids s) (c.scache.tags s) 0) s
  evict_exclusive {c} s h two named p i live lt ne at =
      subst (λ (r : ℕ). IsAbsent (e.dcaches r) (c.scache.tags s)) owner_is
        (downgrade_line-IsAbsent owner (c.scache.tags s) h named) i lt ne
        (sym line.known ∙ ap c.scache.tags at)
    where
      owner : ℕ
      owner = c.scache.exclusive_ids s

      e : Caches M
      e = downgrade_line bus present c owner (c.scache.tags s) 0

      line :
          IsHeld bus mem c.scache p i
            ((e.dcaches p).tags i)
            ((e.dcaches p).flags i)
            ((e.dcaches p).lines i)
      line =
          ((downgrade_line-IsReduced owner (c.scache.tags s) h named).coherent.each p live).held i
            lt ne

      owner_is : owner ≡ p
      owner_is =
          ap c.scache.exclusive_ids (sym at)
          ∙ line.owned (sym line.state ∙ ap c.scache.flags at ∙ two)

  pub record IsEvicted (c e : Caches M) (s : ℕ) : Type 0 where
    pub reduced : IsReduced c e
    pub vacant : IsVacant e s

  -- The entry is free for another tag.
  pub evict_entry-IsEvicted :
      {c : Caches M} (s : ℕ)
      → IsCoherent bus mem present c
      → IsEvicted c (evict_entry bus present c s) s
  unfolding evict_entry
  evict_entry-IsEvicted {c} s h =
      if_cases (λ (e : Caches M). IsEvicted c e s) (c.scache.flags s == line_shared)
        {x = downgrade_all bus present (λ _. false) c (c.scache.tags s) line_invalid}
        {y = if c.scache.flags s == line_exclusive
          then downgrade_line bus present c (c.scache.exclusive_ids s) (c.scache.tags s)
              line_invalid
          else c}
        (λ _. record {
          reduced = (downgrade_all-IsCleared (λ _. false) (c.scache.tags s) h).reduced;
          vacant = evict_shared s h (downgrade_all-IsCleared (λ _. false) (c.scache.tags s) h);
        })
        (λ unshared.
          if_cases (λ (e : Caches M). IsEvicted c e s) (c.scache.flags s == line_exclusive)
            {x = downgrade_line bus present c (c.scache.exclusive_ids s) (c.scache.tags s)
              line_invalid}
            {y = c}
            (λ two. record {
              reduced =
                  downgrade_line-IsReduced (c.scache.exclusive_ids s) (c.scache.tags s) h
                    ((h.entries s (ground (arith, two))).live (ground (arith, two)));
              vacant =
                  evict_exclusive s h (ground (arith, two))
                    ((h.entries s (ground (arith, two))).live (ground (arith, two)));
            })
            (λ other. record {
              reduced = same-IsReduced h;
              vacant = λ p i live lt ne at.
                  let line = (h.each p live).held i lt ne in
                  let used : c.scache.flags s ≢ 0 =
                    λ z. ne (sym line.state ∙ ap c.scache.flags at ∙ z) in
                  ground (arith, (h.entries s used).small, used, unshared, other);
            }))

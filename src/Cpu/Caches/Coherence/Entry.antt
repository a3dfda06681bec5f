-- ===== src/Cpu/Caches/Coherence/Entry.antt =====
-- An entry of the Scache changes its state, or its tag.
use native.Mathlib.Decide.{ℕ_discrete}
use xremu.Base.{
  ℕ, ◌≡◌, ◌≢◌, ◌<◌, ◌≤◌, ◌∙◌, sym, ap, subst, arith, Bool, [], update, update_self, update-ne,
}
use xremu.Cpu.Dcache.{Dcache, Line, line_count, wb_index_invalid, set_flag}
use xremu.Cpu.Caches.{
  LineBus, Scache, Caches, sc_index, set_entry, new_entry, with_dcache, with_scache, put_all,
}
use xremu.Cpu.Caches.Coherence.{
  IsLive, IsHeld, IsConsistent, IsKept, waits, stored, IsEntry, IsCoherent,
}
use xremu.Cpu.Caches.Coherence.Release.{waits_other}
use xremu.Cpu.Caches.Coherence.Lower.{set_entry-IsConsistent}

module _ {M : Type 0} (bus : LineBus M) (mem : ℕ → Line) (present : ℕ → Bool) where
  pub kept_again :
      {c : Caches M} (sc : Scache) (t : ℕ)
      → IsKept bus mem present c t
      → IsKept bus mem present (with_scache bus present c sc) t
  kept_again sc t (waits q live wait) = waits q live wait
  kept_again sc t (stored same) = stored same

  pub entries_after :
      {sc : Scache} (s state id : ℕ)
      → ((r : ℕ) → sc.flags r ≢ 0 → IsEntry bus mem present sc r)
      → sc.flags s ≢ 0
      → state ≤ 2
      → IsLive present id
      → (r : ℕ) → (set_entry sc s state id).flags r ≢ 0
      → IsEntry bus mem present (set_entry sc s state id) r
  entries_after {sc} s state id old used small live r ne = elim (ℕ_discrete r s) [
    | yes e ↦ record {
      small = ground (arith, e);
      live = λ _.
          subst (IsLive present)
            (sym (ap (update sc.exclusive_ids s id) e ∙ update_self sc.exclusive_ids s id)) live;
    }
    | no other ↦
        let was = old r (λ z. ne (update-ne sc.flags s r state other ∙ z)) in
        record {
          small = ground (arith, was.small, other);
          live = λ e.
              subst (IsLive present) (sym (update-ne sc.exclusive_ids s r id other))
                (was.live (sym (update-ne sc.flags s r state other) ∙ e));
        }
  ]

  -- The lines that the entry is for are in the new state already.
  pub set_entry-IsCoherent :
      {c : Caches M} (s state id : ℕ)
      → IsCoherent bus mem present c
      → c.scache.flags s ≢ 0
      → state ≤ 2
      → IsLive present id
      → ((p i : ℕ)
          → IsLive present p
          → i < line_count
          → (c.dcaches p).flags i ≢ 0
          → sc_index ((c.dcaches p).tags i) ≡ s
          → ((c.dcaches p).flags i ≡ state) × (state ≡ 2 → id ≡ p))
      → IsCoherent bus mem present (with_scache bus present c (set_entry c.scache s state id))
  set_entry-IsCoherent {c} s state id h used small live agrees = record {
    each = λ p there.
        set_entry-IsConsistent bus mem present s state id (h.each p there) (λ i. agrees p i there);
    kept = λ t aligned answered. kept_again _ t (h.kept t aligned answered);
    entries = entries_after s state id h.entries used small live;
  }

  module _ {c : Caches M} (q i id : ℕ) (h : IsCoherent bus mem present c) (live : IsLive present q)
      (low : i < line_count) (exclusive : (c.dcaches q).flags i ≡ 2)
      (free : (c.dcaches q).index_to_wb_index i ≡ wb_index_invalid) where
    abbrev owner : Dcache
    owner = c.dcaches q

    abbrev entry : ℕ
    entry = sc_index (owner.tags i)

    line : IsHeld bus mem c.scache q i (owner.tags i) (owner.flags i) (owner.lines i)
    line = (h.each q live).held i low (ground (arith, exclusive))

    -- No other line of the owner is for the entry.
    other_entry :
        (j : ℕ) → j < line_count → owner.flags j ≢ 0 → j ≢ i → sc_index (owner.tags j) ≢ entry
    other_entry j lt ne other e = other (
        (h.each q live).unique j i lt low ne (ground (arith, exclusive))
          (sym ((h.each q live).held j lt ne).known ∙ ap c.scache.tags e ∙ line.known))

    share-IsConsistent : IsConsistent bus mem (set_entry c.scache entry 1 id) q (set_flag owner i 1)
    share-IsConsistent = record {
      held = λ j lt. elim (ℕ_discrete j i) [
        | yes e ↦ λ ne.
            subst
              (λ (k : ℕ).
                IsHeld bus mem (set_entry c.scache entry 1 id) q k (owner.tags k)
                  (update owner.flags i 1 k) (owner.lines k))
              (sym e)
              (record {
                placed = line.placed;
                aligned = line.aligned;
                answered = line.answered;
                state = ground arith;
                known = line.known;
                owned = λ two. absurd (ground (arith, two));
                contents = line.contents;
              })
        | no other ↦ λ ne.
            let valid : owner.flags j ≢ 0 = λ z. ne (update-ne owner.flags i j 1 other ∙ z) in
            let l = (h.each q live).held j lt valid in
            record {
              placed = l.placed;
              aligned = l.aligned;
              answered = l.answered;
              state = ground (arith, l.state, other_entry j lt valid other, other);
              known = l.known;
              owned = λ two. ground (arith, l.owned, two, other_entry j lt valid other, other);
              contents = l.contents;
            }
      ];
      unique = λ j k lt lt' ne ne' e.
          (h.each q live).unique j k lt lt' (ground (arith, ne, exclusive))
            (ground (arith, ne', exclusive)) e;
      entry = λ w lt ne. ground (arith, (h.each q live).entry w lt ne, free);
      back = (h.each q live).back;
    }

    -- No other processor has a line for the entry.
    nobody_else :
        (p j : ℕ)
        → IsLive present p
        → j < line_count
        → (c.dcaches p).flags j ≢ 0
        → sc_index ((c.dcaches p).tags j) ≡ entry
        → p ≡ q
    nobody_else p j there lt ne e =
        let l = (h.each p there).held j lt ne in
        ground (
          arith,
          l.owned,
          l.state,
          line.owned,
          line.state,
          exclusive,
          ap c.scache.flags e,
          ap c.scache.exclusive_ids e,
        )

    -- The owner's line and the entry become shared together.
    pub share-IsCoherent :
        IsLive present id
        → IsCoherent bus mem present (
            with_scache bus present
              (with_dcache bus present c q (set_flag owner i 1, []))
              (set_entry c.scache entry 1 id))
    unfolding put_all
    share-IsCoherent named = record {
      each = λ p there. elim (ℕ_discrete p q) [
        | yes e ↦
            subst
              (λ (r : ℕ).
                IsConsistent bus mem (set_entry c.scache entry 1 id) r
                  (update c.dcaches q (set_flag owner i 1) r))
              (sym e)
              (subst (IsConsistent bus mem (set_entry c.scache entry 1 id) q)
                (sym (update_self c.dcaches q (set_flag owner i 1))) share-IsConsistent)
        | no other ↦
            subst (IsConsistent bus mem (set_entry c.scache entry 1 id) p)
              (sym (update-ne c.dcaches q p (set_flag owner i 1) other))
              (set_entry-IsConsistent bus mem present entry 1 id (h.each p there)
                (λ j lt ne e. absurd (other (nobody_else p j there lt ne e))))
      ];
      kept = λ t aligned answered.
          kept_again {c = with_dcache bus present c q (set_flag owner i 1, [])} _ t
            (elim (h.kept t aligned answered) [
              | waits r live' wait ↦
                  waits_other bus mem present c q r (set_flag owner i 1) [] t live'
                    (λ mine. record {
                      index = mine.index;
                      small = mine.small;
                      tagged = mine.tagged;
                      buffered = mine.buffered;
                    })
                    wait
              | stored same ↦ stored same
            ]);
      entries =
          entries_after entry 1 id h.entries (ground (arith, line.state, exclusive)) (omega arith)
            named;
    }

  -- An entry that no line needs is given another tag.
  pub new_entry-IsCoherent :
      {c : Caches M} (tag state id : ℕ)
      → IsCoherent bus mem present c
      → state ≤ 2
      → IsLive present id
      → ((p i : ℕ)
          → IsLive present p
          → i < line_count
          → (c.dcaches p).flags i ≢ 0
          → sc_index ((c.dcaches p).tags i) ≢ sc_index tag)
      → IsCoherent bus mem present
          (with_scache bus present c (new_entry c.scache (sc_index tag) tag state id))
  new_entry-IsCoherent {c} tag state id h small live vacant = record {
    each = λ p there. record {
      held = λ i lt ne.
          let l = (h.each p there).held i lt ne in
          record {
            placed = l.placed;
            aligned = l.aligned;
            answered = l.answered;
            state = ground (arith, l.state, vacant p i there lt ne);
            known = ground (arith, l.known, vacant p i there lt ne);
            owned = λ two. ground (arith, l.owned, two, vacant p i there lt ne);
            contents = l.contents;
          };
      unique = (h.each p there).unique;
      entry = (h.each p there).entry;
      back = (h.each p there).back;
    };
    kept = λ t aligned answered. kept_again _ t (h.kept t aligned answered);
    entries = λ s ne. elim (ℕ_discrete s (sc_index tag)) [
      | yes e ↦ record {
        small = ground (arith, e);
        live = λ _.
            subst (IsLive present)
              (sym (
                ap (update c.scache.exclusive_ids (sc_index tag) id) e
                ∙ update_self c.scache.exclusive_ids (sc_index tag) id))
              live;
      }
      | no other ↦
          let was =
            h.entries s (λ z. ne (update-ne c.scache.flags (sc_index tag) s state other ∙ z)) in
          record {
            small = ground (arith, was.small, other);
            live = λ e.
                subst (IsLive present)
                  (sym (update-ne c.scache.exclusive_ids (sc_index tag) s id other))
                  (was.live (sym (update-ne c.scache.flags (sc_index tag) s state other) ∙ e));
          }
    ];
  }

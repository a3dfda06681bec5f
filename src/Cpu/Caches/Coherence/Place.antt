-- ===== src/Cpu/Caches/Coherence/Place.antt =====
-- The line of a miss: an empty line is given the tag and is read in, or it is given up after a bus
-- error, with its entry of the Scache.
use native.Mathlib.Decide.{ℕ_discrete}
use xremu.Base.{
  ℕ, ◌/◌, ◌%◌, ◌≡◌, ◌≢◌, ◌<◌, ◌∙◌, sym, ap, subst, refl, arith, Bool, true, [], update, update_self,
  update-ne,
}
use xremu.Cpu.Dcache.{Dcache, Line, line_count, set_flag, line_invalid, wb_index_invalid}
use xremu.Cpu.Caches.{LineBus, Caches, sc_index, with_dcache, with_scache}
use xremu.Cpu.Caches.Access.{new_line}
use xremu.Cpu.Caches.Coherence.{IsLive, IsHeld, IsConsistent, Waits, waits, stored, IsCoherent}
use xremu.Cpu.Caches.Coherence.Release.{quiet-IsCoherent}
use xremu.Cpu.Caches.Coherence.Entry.{kept_again}
use xremu.Cpu.Caches.Coherence.Downgrade.{IsAbsent}
use xremu.Cpu.Caches.Coherence.Clear.{IsVacant}

module _ {M : Type 0} (bus : LineBus M) (mem : ℕ → Line) (present : ℕ → Bool) where
  -- The line at `index` is empty and is given the tag.
  module _ {c : Caches M} (id index tag : ℕ) (h : IsCoherent bus mem present c)
      (live : IsLive present id) (small : index < line_count) (set : index / 2 ≡ tag / 16 % 1024)
      (empty : (c.dcaches id).flags index ≡ 0) where
    abbrev mine : Dcache
    mine = c.dcaches id

    pub not_waiting : mine.index_to_wb_index index ≡ wb_index_invalid
    not_waiting = elim (ℕ_discrete (mine.index_to_wb_index index) wb_index_invalid) [
      | yes e ↦ e
      | no used ↦
          let back = (h.each id live).back index small used in
          absurd (
            ground (
              arith,
              back,
              (h.each id live).entry (mine.index_to_wb_index index) back.0,
              empty,
              small,
            ))
    ]

    abbrev read_line : ℕ → Dcache
    read_line state = record mine {
      flags = update mine.flags index state;
      tags = update mine.tags index tag;
      lines = update mine.lines index (bus.line c.memory tag);
    }

    read_line-Waits :
        (d : Dcache) (t : ℕ)
        → d.tags ≡ update mine.tags index tag
        → d.index_to_wb_index ≡ mine.index_to_wb_index
        → Waits mine t
        → Waits d t
    read_line-Waits d t tags same w = record {
      index = w.index;
      small = w.small;
      tagged =
          ap (λ (f : ℕ → ℕ). f w.index) tags
          ∙ update-ne mine.tags index w.index tag
              (λ e. w.buffered (ap mine.index_to_wb_index e ∙ not_waiting))
          ∙ w.tagged;
      buffered = λ e. w.buffered (ap (λ (f : ℕ → ℕ). f w.index) (sym same) ∙ e);
    }

    module _ (absent : IsAbsent mine tag) (state : ℕ)
        (in_state : c.scache.flags (sc_index tag) ≡ state)
        (tagged : c.scache.tags (sc_index tag) ≡ tag)
        (named : c.scache.exclusive_ids (sc_index tag) ≡ id) (aligned : tag % 16 ≡ 0)
        (answers : bus.answers tag ≡ true) where
      -- No write buffer has the line.
      behind : (o : ℕ) → o < 16 → bus.line c.memory tag o ≡ mem tag o
      behind = elim (h.kept tag aligned answers) [
        | waits q there w ↦
            let back = (h.each q there).back w.index w.small w.buffered in
            let entry =
              (h.each q there).entry ((c.dcaches q).index_to_wb_index w.index) back.0
                (ground (arith, back, w.small)) in
            let valid : (c.dcaches q).flags w.index ≡ 2 =
              ap (c.dcaches q).flags (sym back.1) ∙ entry.1 in
            let line = (h.each q there).held w.index w.small (ground (arith, valid)) in
            let owner : id ≡ q =
              sym named
              ∙ ap (λ (t : ℕ). c.scache.exclusive_ids (sc_index t)) (sym w.tagged)
              ∙ line.owned valid in
            absurd (
              absent w.index w.small
                (λ z. ground (arith, z, valid, ap (λ (p : ℕ). (c.dcaches p).flags w.index) owner))
                (ap (λ (p : ℕ). (c.dcaches p).tags w.index) owner ∙ w.tagged))
        | stored same ↦ same
      ]

      new_held : IsHeld bus mem c.scache id index tag state (bus.line c.memory tag)
      new_held = record {
        placed = sym set;
        aligned = aligned;
        answered = answers;
        state = in_state;
        known = tagged;
        owned = λ _. named;
        contents = behind;
      }

      again :
          {i t f : ℕ} {l : Line} (j u g : ℕ) (m : Line)
          → i ≡ j
          → t ≡ u
          → f ≡ g
          → l ≡ m
          → IsHeld bus mem c.scache id i t f l
          → IsHeld bus mem c.scache id j u g m
      again {i} {t} {f} {l} j u g m e0 e1 e2 e3 held =
          subst (λ (x : ℕ). IsHeld bus mem c.scache id x u g m) e0
            (subst (λ (x : ℕ). IsHeld bus mem c.scache id i x g m) e1
              (subst (λ (x : ℕ). IsHeld bus mem c.scache id i t x m) e2
                (subst (IsHeld bus mem c.scache id i t f) e3 held)))

      read_line-IsConsistent : IsConsistent bus mem c.scache id (read_line state)
      read_line-IsConsistent = record {
        held = λ i lt. elim (ℕ_discrete i index) [
          | yes e ↦ λ ne.
              again i (update mine.tags index tag i) (update mine.flags index state i)
                (update mine.lines index (bus.line c.memory tag) i) (sym e)
                (sym (ap (update mine.tags index tag) e ∙ update_self mine.tags index tag))
                (sym (ap (update mine.flags index state) e ∙ update_self mine.flags index state))
                (sym (
                  ap (update mine.lines index (bus.line c.memory tag)) e
                  ∙ update_self mine.lines index (bus.line c.memory tag)))
                new_held
          | no other ↦ λ ne.
              again i (update mine.tags index tag i) (update mine.flags index state i)
                (update mine.lines index (bus.line c.memory tag) i) refl
                (sym (update-ne mine.tags index i tag other))
                (sym (update-ne mine.flags index i state other))
                (sym (update-ne mine.lines index i (bus.line c.memory tag) other))
                ((h.each id live).held i lt
                  (λ z. ne (update-ne mine.flags index i state other ∙ z)))
        ];
        unique = λ i j lt lt' ne ne' e.
            ground
              (arith, (h.each id live).unique i j lt lt', absent i lt, absent j lt', ne, ne', e);
        entry = λ w lt ne. ground (arith, (h.each id live).entry w lt ne, empty);
        back = (h.each id live).back;
      }

      pub read_line-IsCoherent :
          IsCoherent bus mem present (with_dcache bus present c id (read_line state, []))
      read_line-IsCoherent =
          quiet-IsCoherent bus mem present id (read_line state) h read_line-IsConsistent
            (λ t. read_line-Waits (read_line state) t refl refl)

    -- The line after a bus error.
    abbrev lost_line : ℕ → Dcache
    lost_line state = set_flag (new_line mine index tag state) index line_invalid

    lost_line-flags :
        (state i : ℕ) → (lost_line state).flags i ≢ 0 → (i ≢ index) × (mine.flags i ≢ 0)
    lost_line-flags state i ne = ground (arith, ne, empty)

    lost_line-IsConsistent : (state : ℕ) → IsConsistent bus mem c.scache id (lost_line state)
    lost_line-IsConsistent state = record {
      held = λ i lt ne.
          let was = lost_line-flags state i ne in
          subst
            (λ (f : ℕ).
              IsHeld bus mem c.scache id i (update mine.tags index tag i) f (mine.lines i))
            (ground (arith, was.0))
            (subst (λ (t : ℕ). IsHeld bus mem c.scache id i t (mine.flags i) (mine.lines i))
              (sym (update-ne mine.tags index i tag was.0)) ((h.each id live).held i lt was.1));
      unique = λ i j lt lt' ne ne' e. ground (
        arith,
        (h.each id live).unique i j lt lt',
        lost_line-flags state i ne,
        lost_line-flags state j ne',
        e,
      );
      entry = λ w lt ne. ground (arith, (h.each id live).entry w lt ne, empty);
      back = (h.each id live).back;
    }

    pub lost_line-IsCoherent :
        (state : ℕ)
        → IsCoherent bus mem present (with_dcache bus present c id (lost_line state, []))
    lost_line-IsCoherent state =
        quiet-IsCoherent bus mem present id (lost_line state) h (lost_line-IsConsistent state)
          (λ t. read_line-Waits (lost_line state) t refl refl)

  -- An entry that no line needs is emptied.
  pub empty_entry-IsCoherent :
      {c : Caches M} (s : ℕ)
      → IsCoherent bus mem present c
      → IsVacant bus mem present c s
      → IsCoherent bus mem present
          (with_scache bus present c (record c.scache { flags = update c.scache.flags s 0 }))
  empty_entry-IsCoherent {c} s h vacant = record {
    each = λ p there. record {
      held = λ i lt ne.
          let l = (h.each p there).held i lt ne in
          record {
            placed = l.placed;
            aligned = l.aligned;
            answered = l.answered;
            state =
                update-ne c.scache.flags s (sc_index ((c.dcaches p).tags i)) 0
                  (vacant p i there lt ne)
                ∙ l.state;
            known = l.known;
            owned = l.owned;
            contents = l.contents;
          };
      unique = (h.each p there).unique;
      entry = (h.each p there).entry;
      back = (h.each p there).back;
    };
    kept = λ t aligned answered. kept_again bus mem present _ t (h.kept t aligned answered);
    entries = λ r ne.
        let other : r ≢ s =
          λ e. ne (ap (update c.scache.flags s 0) e ∙ update_self c.scache.flags s 0) in
        let was = h.entries r (λ z. ne (update-ne c.scache.flags s r 0 other ∙ z)) in
        record {
          small = ground (arith, was.small, other);
          live = λ e. was.live (sym (update-ne c.scache.flags s r 0 other) ∙ e);
        };
  }

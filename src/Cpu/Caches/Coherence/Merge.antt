-- ===== src/Cpu/Caches/Coherence/Merge.antt =====
-- `XrDcacheAccess`, a store into a line that the processor has: the line becomes exclusive, gets an
-- entry of the write buffer, and takes the bytes.
use native.Mathlib.Decide.{ℕ_discrete}
use xremu.Base.{
  ℕ, ◌+◌, ◌*◌, ◌/◌, ◌%◌, ◌^◌, ◌≡◌, ◌≢◌, ◌<◌, ◌∙◌, sym, ap, subst, arith, Bool, ◌&&◌, ltb, leb, ◌-◌,
  [], if◌then◌else◌, update, update_self, update-ne,
}
use xremu.Cpu.Dcache.{
  claim_entry, Dcache, Line, line_count, wb_index_invalid, wb_depth, cache_index_invalid,
}
use xremu.Cpu.Caches.{LineBus, Scache, Caches, sc_index, with_dcache, put_all}
use xremu.Cpu.Caches.Access.{merge, write_bytes}
use xremu.Cpu.Caches.Coherence.{
  IsLive, IsHeld, IsConsistent, Waits, IsKept, waits, stored, IsCoherent,
}
use xremu.Cpu.Caches.Coherence.Release.{quiet-IsCoherent, waits_other}

-- A store of the bytes, as the programs see it.
abbrev pub stored_in : (ℕ → Line) → ℕ → ℕ → ℕ → ℕ → ℕ → Line
stored_in mem tag offset length value = update mem tag (write_bytes (mem tag) offset length value)

write_bytes_ext :
    (l m : Line) (offset length value o : ℕ)
    → l o ≡ m o
    → write_bytes l offset length value o ≡ write_bytes m offset length value o
write_bytes_ext l m offset length value o same =
    ap
      (λ (b : ℕ).
        if leb offset o && ltb o (offset + length)
        then value / 2 ^ (8 * (o - offset)) % 2 ^ 8
        else b)
      same

module _ {M : Type 0} (bus : LineBus M) (mem : ℕ → Line) (present : ℕ → Bool) where
  module _ {c : Caches M} (id i : ℕ) (h : IsCoherent bus mem present c) (live : IsLive present id)
      (small : i < line_count) where
    abbrev mine : Dcache
    mine = c.dcaches id

    -- An exclusive line that is not in the write buffer gets a free entry.
    claim_entry-IsConsistent :
        (w : ℕ)
        → w < wb_depth
        → mine.wb_indices w ≡ cache_index_invalid
        → mine.flags i ≡ 2
        → mine.index_to_wb_index i ≡ wb_index_invalid
        → IsConsistent bus mem c.scache id (claim_entry mine w i)
    claim_entry-IsConsistent w in_wb vacant exclusive free = record {
      held = (h.each id live).held;
      unique = (h.each id live).unique;
      entry =
          λ v lt ne. ground (arith, (h.each id live).entry v lt, ne, exclusive, small, in_wb, free);
      back = λ j lt ne. ground (arith, (h.each id live).back j lt, ne, in_wb, vacant, lt);
    }

    pub claim_entry-IsCoherent :
        (w : ℕ)
        → w < wb_depth
        → mine.wb_indices w ≡ cache_index_invalid
        → mine.flags i ≡ 2
        → mine.index_to_wb_index i ≡ wb_index_invalid
        → IsCoherent bus mem present (with_dcache bus present c id (claim_entry mine w i, []))
    claim_entry-IsCoherent w in_wb vacant exclusive free =
        quiet-IsCoherent bus mem present id (claim_entry mine w i) h
          (claim_entry-IsConsistent w in_wb vacant exclusive free)
          (λ t wait. record {
            index = wait.index;
            small = wait.small;
            tagged = wait.tagged;
            buffered = λ e. wait.buffered (
                sym (
                  update-ne mine.index_to_wb_index i wait.index w
                    (λ at. wait.buffered (ap mine.index_to_wb_index at ∙ free)))
                ∙ e);
          })

    module _ (exclusive : mine.flags i ≡ 2) (offset length value : ℕ) where
      abbrev tag : ℕ
      tag = mine.tags i

      abbrev after : ℕ → Line
      after = stored_in mem tag offset length value

      line : IsHeld bus mem c.scache id i tag (mine.flags i) (mine.lines i)
      line = (h.each id live).held i small (ground (arith, exclusive))

      -- Every other valid line has another tag.
      nobody_else :
          (p j : ℕ)
          → IsLive present p
          → j < line_count
          → (c.dcaches p).flags j ≢ 0
          → (c.dcaches p).tags j ≡ tag
          → p ≡ id
      nobody_else p j there lt ne same =
          let l = (h.each p there).held j lt ne in
          let one : c.scache.exclusive_ids (sc_index tag) ≡ p =
            ap (λ (t : ℕ). c.scache.exclusive_ids (sc_index t)) (sym same)
            ∙ l.owned (
                sym l.state
                ∙ ap (λ (t : ℕ). c.scache.flags (sc_index t)) same
                ∙ line.state
                ∙ exclusive) in
          sym one ∙ line.owned exclusive

      moved :
          {sc : Scache} {p j t flag : ℕ} {l : Line}
          → t ≢ tag
          → IsHeld bus mem sc p j t flag l
          → IsHeld bus after sc p j t flag l
      moved {sc} {p} {j} {t} {flag} {l} other was = record {
        placed = was.placed;
        aligned = was.aligned;
        answered = was.answered;
        state = was.state;
        known = was.known;
        owned = was.owned;
        contents = λ o lt.
            was.contents o lt
            ∙ ap (λ (m : Line). m o)
                (sym (update-ne mem tag t (write_bytes (mem tag) offset length value) other));
      }

      written :
          IsHeld bus after c.scache id i tag
            (mine.flags i)
            (write_bytes (mine.lines i) offset length value)
      written = record {
        placed = line.placed;
        aligned = line.aligned;
        answered = line.answered;
        state = line.state;
        known = line.known;
        owned = line.owned;
        contents = λ o lt.
            write_bytes_ext (mine.lines i) (mem tag) offset length value o (line.contents o lt)
            ∙ ap (λ (m : Line). m o)
                (sym (update_self mem tag (write_bytes (mem tag) offset length value)));
      }

      merge-IsConsistent : IsConsistent bus after c.scache id (merge mine i offset length value)
      merge-IsConsistent = record {
        held = λ j lt ne. elim (ℕ_discrete j i) [
          | yes e ↦
              subst
                (λ (k : ℕ).
                  IsHeld bus after c.scache id k (mine.tags k) (mine.flags k)
                    (update mine.lines i (write_bytes (mine.lines i) offset length value) k))
                (sym e)
                (subst (IsHeld bus after c.scache id i tag (mine.flags i))
                  (sym (update_self mine.lines i (write_bytes (mine.lines i) offset length value)))
                  written)
          | no other ↦
              subst (IsHeld bus after c.scache id j (mine.tags j) (mine.flags j))
                (sym
                  (update-ne mine.lines i j (write_bytes (mine.lines i) offset length value) other))
                (moved
                  (λ same.
                    other
                      ((h.each id live).unique j i lt small ne (ground (arith, exclusive)) same))
                  ((h.each id live).held j lt ne))
        ];
        unique = (h.each id live).unique;
        entry = (h.each id live).entry;
        back = (h.each id live).back;
      }

      -- The bytes go into a line that waits in the write buffer.
      pub merge-IsCoherent :
          mine.index_to_wb_index i ≢ wb_index_invalid
          → IsCoherent bus after present
              (with_dcache bus present c id (merge mine i offset length value, []))
      unfolding put_all
      merge-IsCoherent buffered = record {
        each = λ p there. elim (ℕ_discrete p id) [
          | yes e ↦
              subst
                (λ (r : ℕ).
                  IsConsistent bus after c.scache r
                    (update c.dcaches id (merge mine i offset length value) r))
                (sym e)
                (subst (IsConsistent bus after c.scache id)
                  (sym (update_self c.dcaches id (merge mine i offset length value)))
                  merge-IsConsistent)
          | no other ↦
              subst (IsConsistent bus after c.scache p)
                (sym (update-ne c.dcaches id p (merge mine i offset length value) other))
                (record {
                  held = λ j lt ne.
                      moved (λ same. other (nobody_else p j there lt ne same))
                        ((h.each p there).held j lt ne);
                  unique = (h.each p there).unique;
                  entry = (h.each p there).entry;
                  back = (h.each p there).back;
                })
        ];
        kept = λ t aligned answered. elim (ℕ_discrete t tag) [
          | yes e ↦ waits id live (
              subst (λ (d : Dcache). Waits d t)
                (sym (update_self c.dcaches id (merge mine i offset length value)))
                (record { index = i; small = small; tagged = sym e; buffered = buffered }))
          | no other ↦ elim (h.kept t aligned answered) [
            | waits q there wait ↦ waits_after q t there wait
            | stored same ↦ stored (λ o lt.
                same o lt
                ∙ ap (λ (m : Line). m o)
                    (sym (update-ne mem tag t (write_bytes (mem tag) offset length value) other)))
          ]
        ];
        entries = λ s ne. let was = h.entries s ne in record { small = was.small; live = was.live };
      }
        where
          waits_after :
              (q t : ℕ)
              → IsLive present q
              → Waits (c.dcaches q) t
              → IsKept bus after present
                  (with_dcache bus present c id (merge mine i offset length value, []))
                  t
          waits_after q t there wait =
              waits_other bus after present c id q (merge mine i offset length value) [] t there
                (λ own. record {
                  index = own.index;
                  small = own.small;
                  tagged = own.tagged;
                  buffered = own.buffered;
                })
                wait

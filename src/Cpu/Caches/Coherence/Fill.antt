-- ===== src/Cpu/Caches/Coherence/Fill.antt =====
-- `XrDcacheAccess`, a miss as a whole: the old line goes, and the new one is read in or the bus does
-- not answer.
use xremu.Base.{
  ℕ, ◌/◌, ◌%◌, ◌≡◌, ◌<◌, ◌∙◌, sym, ap, subst, arith, Bool, true, false, List, [], ◌!=◌,
  if◌then◌else◌, if_cases, update, update_self, add32,
}
use xremu.Bits.{bit_and-ones}
use xremu.Cpu.Dcache.{
  Dcache, Line, LineWrite, line_count, lower_line, set_flag, line_shared, line_exclusive,
  line_invalid, wb_index_invalid, cache_index_invalid,
}
use xremu.Cpu.Caches.{LineBus, Caches, sc_index, with_dcache, with_scache}
use xremu.Cpu.Caches.Access.{
  take, evict_line, new_line, read_in, fill, next_replacement, replace_index,
}
use xremu.Cpu.Caches.Coherence.{IsLive, IsCoherent}
use xremu.Cpu.Caches.Coherence.Release.{counters-IsCoherent, same-IsCoherent}
use xremu.Cpu.Caches.Coherence.Downgrade.{
  IsAbsent, IsShrunk, same_IsShrunk, lower_line-IsShrunk, lower_line-flags, drop-IsCoherent,
  dc_index_lem,
}
use xremu.Cpu.Caches.Coherence.Clear.{IsVacant, shrunk-IsAbsent}
use xremu.Cpu.Caches.Coherence.Take.{IsTaken}
use xremu.Cpu.Caches.Coherence.Miss.{take-IsTaken}
use xremu.Cpu.Caches.Coherence.Place.{
  read_line-IsCoherent, lost_line-IsCoherent, empty_entry-IsCoherent, not_waiting,
}

module _ {M : Type 0} (bus : LineBus M) (mem : ℕ → Line) (present : ℕ → Bool) where
  record IsEmptied (c : Caches M) (id index : ℕ) (r : Dcache × List LineWrite) : Type 0 where
    pub coherent : IsCoherent bus mem present (with_dcache bus present c id r)
    pub empty : r.0.flags index ≡ 0
    pub shrunk : IsShrunk (c.dcaches id) r.0

  evict_line-IsEmptied :
      {c : Caches M} (id index : ℕ)
      → IsCoherent bus mem present c
      → IsLive present id
      → index < line_count
      → IsEmptied c id index (evict_line (c.dcaches id) index)
  unfolding evict_line
  evict_line-IsEmptied {c} id index h live small =
      if_cases (IsEmptied c id index) ((c.dcaches id).flags index != line_invalid)
        {x = lower_line (c.dcaches id) index line_invalid} {y = (c.dcaches id, [])}
        (λ used. record {
          coherent = drop-IsCoherent bus mem present id index h live small;
          empty =
              lower_line-flags (c.dcaches id) index 0 index
              ∙ update_self (c.dcaches id).flags index 0;
          shrunk = lower_line-IsShrunk (c.dcaches id) index 0 (ground (arith, used));
        })
        (λ invalid. record {
          coherent = same-IsCoherent bus mem present id h live;
          empty = ground (arith, invalid);
          shrunk = same_IsShrunk (c.dcaches id);
        })

  -- How a miss ends: with the line in its state, or with a bus error. The caches are coherent.
  pub record IsFilled (d : Dcache) (id index tag state : ℕ) (r : Bool × Caches M) : Type 0 where
    pub answered : r.0 ≡ bus.answers tag
    pub coherent : IsCoherent bus mem present r.1
    pub in_state : r.0 ≡ true → (r.1.dcaches id).flags index ≡ state
    pub tagged : r.0 ≡ true → (r.1.dcaches id).tags index ≡ tag
    pub spare :
        r.0 ≡ true
        → (w : ℕ) → d.wb_indices w ≡ cache_index_invalid
        → (r.1.dcaches id).wb_indices w ≡ cache_index_invalid
    pub free : r.0 ≡ true → (r.1.dcaches id).index_to_wb_index index ≡ wb_index_invalid

  module _ {c : Caches M} (id index tag : ℕ) (h : IsCoherent bus mem present c)
      (live : IsLive present id) (small : index < line_count) (set : index / 2 ≡ tag / 16 % 1024)
      (aligned : tag % 16 ≡ 0) (absent : IsAbsent (c.dcaches id) tag)
      (known : c.scache.tags (sc_index tag) ≡ tag) where
    abbrev e : Caches M
    e = with_dcache bus present c id (evict_line (c.dcaches id) index)

    emptied : IsEmptied c id index (evict_line (c.dcaches id) index)
    emptied = evict_line-IsEmptied id index h live small

    there : e.dcaches id ≡ (evict_line (c.dcaches id) index).0
    there = update_self c.dcaches id (evict_line (c.dcaches id) index).0

    empty : (e.dcaches id).flags index ≡ 0
    empty = ap (λ (d : Dcache). d.flags index) there ∙ emptied.empty

    evict_line-IsAbsent : IsAbsent (e.dcaches id) tag
    evict_line-IsAbsent =
        subst (λ (d : Dcache). IsAbsent d tag) (sym there)
          (shrunk-IsAbsent bus mem present (c.dcaches id) (evict_line (c.dcaches id) index).0 tag
            emptied.shrunk absent)

    abbrev loaded : ℕ → Dcache
    loaded state = record (new_line (e.dcaches id) index tag state) {
      lines = update (e.dcaches id).lines index (bus.line e.memory tag);
    }

    loaded_there :
        (state : ℕ) → (with_dcache bus present e id (loaded state, [])).dcaches id ≡ loaded state
    loaded_there state = update_self e.dcaches id (loaded state)

    unanswered-IsVacant :
        (x : Caches M)
        → IsCoherent bus mem present x
        → x.scache.tags (sc_index tag) ≡ tag
        → bus.answers tag ≡ false
        → IsVacant bus mem present x (sc_index tag)
    unanswered-IsVacant x coherent tagged silent p i there lt ne at =
        let l = (coherent.each p there).held i lt ne in
        ground
          (arith, silent, l.answered, ap bus.answers (sym l.known ∙ ap x.scache.tags at ∙ tagged))

    pub read_in-IsFilled :
        (state : ℕ)
        → c.scache.flags (sc_index tag) ≡ state
        → c.scache.exclusive_ids (sc_index tag) ≡ id
        → (d : Dcache)
        → ((w : ℕ)
            → d.wb_indices w ≡ cache_index_invalid
            → (c.dcaches id).wb_indices w ≡ cache_index_invalid)
        → IsFilled d id index tag state (read_in bus present c id index tag state)
    unfolding read_in
    read_in-IsFilled state in_state named d before =
        if_cases (IsFilled d id index tag state) (bus.answers tag)
          {x = (true, with_dcache bus present e id (loaded state, []))}
          {y = (
            false,
            with_scache bus present
                (with_dcache bus present e id
                  (set_flag (new_line (e.dcaches id) index tag state) index line_invalid, []))
                (record e.scache { flags = update e.scache.flags (sc_index tag) line_invalid }),
          )}
          (λ answers. record {
            spare = λ _ w free.
                ap (λ (x : Dcache). x.wb_indices w) (loaded_there state)
                ∙ ap (λ (x : Dcache). x.wb_indices w) there
                ∙ emptied.shrunk.spare w (before w free);
            answered = sym answers;
            coherent =
                read_line-IsCoherent bus mem present id index tag emptied.coherent live small set
                  empty evict_line-IsAbsent state in_state known named aligned answers;
            in_state = λ _.
                ap (λ (d : Dcache). d.flags index) (loaded_there state)
                ∙ update_self (e.dcaches id).flags index state;
            tagged = λ _.
                ap (λ (d : Dcache). d.tags index) (loaded_there state)
                ∙ update_self (e.dcaches id).tags index tag;
            free = λ _.
                ap (λ (d : Dcache). d.index_to_wb_index index) (loaded_there state)
                ∙ not_waiting bus mem present id index tag emptied.coherent live small set empty;
          })
          (λ silent. record {
            answered = sym silent;
            spare = λ z. absurd (ground (arith, z));
            coherent =
                empty_entry-IsCoherent bus mem present (sc_index tag)
                  (lost_line-IsCoherent bus mem present id index tag emptied.coherent live small set
                    empty state)
                  (unanswered-IsVacant
                    (with_dcache bus present e id
                      (set_flag (new_line (e.dcaches id) index tag state) index line_invalid, []))
                    (lost_line-IsCoherent bus mem present id index tag emptied.coherent live small
                      set empty state)
                    known silent);
            in_state = λ z. absurd (ground (arith, z));
            tagged = λ z. absurd (ground (arith, z));
            free = λ z. absurd (ground (arith, z));
          })

  pub replace_index-bounds :
      (d : Dcache) (tag : ℕ)
      → (replace_index d tag < line_count) × (replace_index d tag / 2 ≡ tag / 16 % 1024)
  replace_index-bounds d tag = (
    omega (arith, dc_index_lem tag, bit_and-ones 1 d.replacement_index),
    omega (arith, dc_index_lem tag, bit_and-ones 1 d.replacement_index),
  )

  pub fill-IsFilled :
      {c : Caches M} (id tag : ℕ) (writing : Bool)
      → IsCoherent bus mem present c
      → IsLive present id
      → tag % 16 ≡ 0
      → IsAbsent (c.dcaches id) tag
      → IsFilled
          (c.dcaches id)
          id
          (replace_index ((take bus present c id tag writing).dcaches id) tag)
          tag
          (if writing then 2 else 1)
          (fill bus present c id tag writing)
  unfolding fill
  fill-IsFilled {c} id tag writing h live aligned absent =
      read_in-IsFilled id (replace_index (f.dcaches id) tag) tag
        (counters-IsCoherent bus mem present id live taken.coherent
          (add32 (f.dcaches id).replacement_index 1) (f.dcaches id).wb_write_index
          (f.dcaches id).wb_fill_index (f.dcaches id).wb_cycles)
        live (replace_index-bounds (f.dcaches id) tag).0 (replace_index-bounds (f.dcaches id) tag).1
        aligned absent_there taken.tagged (if writing then line_exclusive else line_shared)
        taken.in_state taken.named (c.dcaches id)
        (λ w free.
          ap (λ (x : Dcache). x.wb_indices w)
            (update_self f.dcaches id (next_replacement (f.dcaches id)))
          ∙ (taken.shrunk id).spare w free)
    where
      f : Caches M
      f = take bus present c id tag writing

      taken : IsTaken bus mem present c f id tag (if writing then 2 else 1)
      taken = take-IsTaken bus mem present id tag h live writing

      absent_there : IsAbsent (update f.dcaches id (next_replacement (f.dcaches id)) id) tag
      absent_there =
          subst (λ (d : Dcache). IsAbsent d tag)
            (sym (update_self f.dcaches id (next_replacement (f.dcaches id))))
            (shrunk-IsAbsent bus mem present (c.dcaches id) (f.dcaches id) tag (taken.shrunk id)
              absent)

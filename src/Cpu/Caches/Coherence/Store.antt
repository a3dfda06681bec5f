-- ===== src/Cpu/Caches/Coherence/Store.antt =====
-- `XrDcacheAccess`, a store: the memory that the programs see is changed at the bytes of the store, or
-- the store fails and nothing is.
use native.Mathlib.Decide.{ℕ_discrete}
use xremu.Base.{
  ℕ, ◌≡◌, ◌≢◌, ◌<◌, ◌∙◌, sym, ap, subst, refl, arith, Bool, true, false, [], ◌==◌, if◌then◌else◌,
  if_cases, Option, none, some, update_self,
}
use xremu.Cpu.Dcache.{
  claim_entry, Dcache, Line, line_count, line_exclusive, wb_index_invalid, wb_depth,
  cache_index_invalid,
}
use xremu.Cpu.Caches.{LineBus, Caches, sc_index, with_dcache}
use xremu.Cpu.Caches.Access.{
  merge, upgrade, store_in, aborted, sc_failed, Outcome, done, bus_failed, tag_of, offset_of, take,
  fill, replace_index,
}
use xremu.Cpu.Caches.Coherence.{IsLive, IsCoherent}
use xremu.Cpu.Caches.Coherence.Release.{with_dcache_quiet}
use xremu.Cpu.Caches.Coherence.Downgrade.{IsAbsent}
use xremu.Cpu.Caches.Coherence.Fill.{IsFilled, fill-IsFilled, replace_index-bounds}
use xremu.Cpu.Caches.Coherence.Load.{IsLooked, hit, miss, miss-IsAbsent, tag_of_aligned}
use xremu.Cpu.Caches.Coherence.Merge.{claim_entry-IsCoherent, merge-IsCoherent, stored_in}
use xremu.Cpu.Caches.Coherence.Upgrade.{IsUpgraded, upgraded, upgrade-IsUpgraded}

module _ {M : Type 0} (bus : LineBus M) (mem : ℕ → Line) (present : ℕ → Bool) where
  -- How a store ends.
  pub data IsStored (address length value : ℕ) (sc : Bool) : Outcome × Caches M → Type 0 where
    written :
        (e : Caches M)
        → bus.answers (tag_of address) ≡ true
        → IsCoherent bus (stored_in mem (tag_of address) (offset_of address) length value) present e
        → IsStored address length value sc (done 0, e)
    refused :
        (e : Caches M)
        → sc ≡ true
        → IsCoherent bus mem present e
        → IsStored address length value sc (sc_failed, e)
    unanswered :
        (e : Caches M)
        → bus.answers (tag_of address) ≡ false
        → IsCoherent bus mem present e
        → IsStored address length value sc (bus_failed, e)

  module _ {c : Caches M} (id index w address length value : ℕ) (h : IsCoherent bus mem present c)
      (live : IsLive present id) (small : index < line_count)
      (exclusive : (c.dcaches id).flags index ≡ 2)
      (tagged : (c.dcaches id).tags index ≡ tag_of address) (in_wb : w < wb_depth)
      (spare : (c.dcaches id).wb_indices w ≡ cache_index_invalid)
      (free : (c.dcaches id).index_to_wb_index index ≡ wb_index_invalid) where
    abbrev mine : Dcache
    mine = c.dcaches id

    abbrev claimed : Caches M
    claimed = with_dcache bus present c id (claim_entry mine w index, [])

    there : claimed.dcaches id ≡ claim_entry mine w index
    there = update_self c.dcaches id (claim_entry mine w index)

    store_in-IsCoherent :
        IsCoherent bus
          (stored_in mem (tag_of address) (offset_of address) length value)
          present
          (store_in bus present c id w index address length value)
    store_in-IsCoherent =
        subst
          (IsCoherent bus (stored_in mem (tag_of address) (offset_of address) length value) present)
          (with_dcache_quiet bus mem present c id (claim_entry mine w index)
            (merge (claim_entry mine w index) index (offset_of address) length value) [])
          (subst
            (λ (d : Dcache).
              IsCoherent bus (stored_in mem (tag_of address) (offset_of address) length value)
                present
                (with_dcache bus present claimed id
                  (merge d index (offset_of address) length value, [])))
            there
            (subst
              (λ (t : ℕ).
                IsCoherent bus (stored_in mem t (offset_of address) length value) present (
                  with_dcache bus present claimed id
                    (merge (claimed.dcaches id) index (offset_of address) length value, [])))
              (ap (λ (d : Dcache). d.tags index) there ∙ tagged)
              (merge-IsCoherent bus mem present id index
                (claim_entry-IsCoherent bus mem present id index h live small w in_wb spare
                  exclusive free)
                live small (ap (λ (d : Dcache). d.flags index) there ∙ exclusive)
                (offset_of address) length value
                (λ e. ground (
                  arith,
                  in_wb,
                  sym (update_self mine.index_to_wb_index index w)
                      ∙ sym (ap (λ (d : Dcache). d.index_to_wb_index index) there)
                      ∙ e,
                )))))

    store_in-IsStored :
        (sc : Bool)
        → IsStored address length value sc
            (done 0, store_in bus present c id w index address length value)
    store_in-IsStored sc =
        written (store_in bus present c id w index address length value)
          (ap bus.answers (sym tagged)
            ∙ ((h.each id live).held index small (ground (arith, exclusive))).answered)
          store_in-IsCoherent

  module _ {c : Caches M} (id w address length value : ℕ) (h : IsCoherent bus mem present c)
      (live : IsLive present id) (in_wb : w < wb_depth)
      (spare : (c.dcaches id).wb_indices w ≡ cache_index_invalid)
      (none_waiting : (v : ℕ)
        → v < wb_depth
        → (c.dcaches id).wb_indices v ≢ cache_index_invalid
        → (c.dcaches id).tags ((c.dcaches id).wb_indices v) ≢ tag_of address) where
    abbrev tag : ℕ
    tag = tag_of address

    -- A line of the tag is not in the write buffer.
    outside :
        (i : ℕ)
        → i < line_count
        → (c.dcaches id).tags i ≡ tag
        → (c.dcaches id).index_to_wb_index i ≡ wb_index_invalid
    outside i small tagged =
        elim (ℕ_discrete ((c.dcaches id).index_to_wb_index i) wb_index_invalid) [
          | yes e ↦ e
          | no used ↦
              let back = (h.each id live).back i small used in
              absurd (
                none_waiting ((c.dcaches id).index_to_wb_index i) back.0
                  (ground (arith, back, small)) (ap (c.dcaches id).tags back.1 ∙ tagged))
        ]

    abbrev finish : ℕ → Option (Caches M) → Outcome × Caches M
    finish i o = elim o [
      | none ↦ (aborted, c)
      | some e ↦ (done 0, store_in bus present e id w i address length value)
    ]

    upgraded-IsStored :
        (i : ℕ) (sc : Bool)
        → i < line_count
        → (c.dcaches id).tags i ≡ tag
        → (o : Option (Caches M)) → IsUpgraded bus mem present c id i o
        → IsStored address length value sc (finish i o)
    upgraded-IsStored i sc small tagged _ (upgraded e coherent now) =
        store_in-IsStored id i w address length value coherent live small
          (ap (λ (d : Dcache). d.flags i) now ∙ update_self (c.dcaches id).flags i 2)
          (ap (λ (d : Dcache). d.tags i) now ∙ tagged) in_wb
          (ap (λ (d : Dcache). d.wb_indices w) now ∙ spare)
          (ap (λ (d : Dcache). d.index_to_wb_index i) now ∙ outside i small tagged) sc

    hit-IsStored :
        (i : ℕ) (sc : Bool)
        → i < line_count
        → (c.dcaches id).flags i ≢ 0
        → (c.dcaches id).tags i ≡ tag
        → IsStored address length value sc (
            if (c.dcaches id).flags i == line_exclusive
            then (done 0, store_in bus present c id w i address length value)
            else finish i (upgrade bus present c id i tag))
    hit-IsStored i sc small valid tagged =
        if_cases (IsStored address length value sc) ((c.dcaches id).flags i == line_exclusive)
          {x = (done 0, store_in bus present c id w i address length value)}
          {y = finish i (upgrade bus present c id i tag)}
          (λ exclusive.
            store_in-IsStored id i w address length value h live small (ground (arith, exclusive))
              tagged in_wb spare (outside i small tagged) sc)
          (λ other.
            let line = (h.each id live).held i small valid in
            let shared : (c.dcaches id).flags i ≡ 1 = ground (
              arith,
              valid,
              other,
              line.state,
              (h.entries (sc_index ((c.dcaches id).tags i))
                  (ground (arith, line.state, valid))).small,
            ) in
            upgraded-IsStored i sc small tagged (upgrade bus present c id i tag) (
              subst (λ (t : ℕ). IsUpgraded bus mem present c id i (upgrade bus present c id i t))
                tagged (upgrade-IsUpgraded bus mem present id i h live small shared)))

    filled-IsStored :
        (i : ℕ)
        → i < line_count
        → (r : Bool × Caches M) → IsFilled bus mem present (c.dcaches id) id i tag 2 r
        → IsStored address length value false (
            if r.0
            then (done 0, store_in bus present r.1 id w i address length value)
            else (bus_failed, r.1))
    filled-IsStored i small (true, e) f =
        store_in-IsStored id i w address length value f.coherent live small (f.in_state refl)
          (f.tagged refl) in_wb (f.spare refl w spare) (f.free refl) false
    filled-IsStored i small (false, e) f = unanswered e (sym f.answered) f.coherent

    abbrev missed : Bool → Outcome × Caches M
    missed sc =
        if sc
        then (sc_failed, c)
        else (let index = replace_index ((take bus present c id tag true).dcaches id) tag in
            let (filled, e) = fill bus present c id tag true in
            if filled
            then (done 0, store_in bus present e id w index address length value)
            else (bus_failed, e))

    missed-IsStored :
        (sc : Bool) → IsAbsent (c.dcaches id) tag → IsStored address length value sc (missed sc)
    missed-IsStored true absent = refused c refl h
    missed-IsStored false absent =
        filled-IsStored (replace_index ((take bus present c id tag true).dcaches id) tag)
          (replace_index-bounds bus mem present ((take bus present c id tag true).dcaches id) tag).0
          (fill bus present c id tag true)
          (fill-IsFilled bus mem present id tag true h live (tag_of_aligned address) absent)

    pub searched-IsStored :
        (sc : Bool) (o : Option ℕ)
        → IsLooked (c.dcaches id) tag o
        → IsStored address length value sc (elim o [
          | some i ↦
              (if (c.dcaches id).flags i == line_exclusive
                then (done 0, store_in bus present c id w i address length value)
                else finish i (upgrade bus present c id i tag))
          | none ↦ missed sc
        ])
    searched-IsStored sc _ (hit i small valid tagged) = hit-IsStored i sc small valid tagged
    searched-IsStored sc _ (miss nowhere) =
        missed-IsStored sc (miss-IsAbsent bus mem present tag (h.each id live) nowhere)

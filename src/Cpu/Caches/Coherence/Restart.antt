-- ===== src/Cpu/Caches/Coherence/Restart.antt =====
-- `XrDcacheAccess`, a store with its restart after a flush of the write buffer.
use xremu.Base.{
  ℕ, ◌≡◌, ◌≢◌, ◌<◌, ◌∙◌, sym, ap, subst, refl, arith, Bool, [], ◌==◌, if◌then◌else◌, Option, none,
  some, update, update_self,
}
use xremu.Cpu.Dcache.{Dcache, Line, wb_depth, cache_index_invalid, dc_index}
use xremu.Cpu.Caches.{LineBus, Caches, with_dcache, flush}
use xremu.Cpu.Caches.Access.{
  merge, store_with, store_access, Scan, merge_at, free_at, full, scan, start_countdown, Outcome,
  done, find_way, tag_of, offset_of,
}
use xremu.Cpu.Caches.Coherence.{IsLive, IsCoherent}
use xremu.Cpu.Caches.Coherence.Release.{counters-IsCoherent, flush-IsCoherent, counters-IsCoherent}
use xremu.Cpu.Caches.Coherence.Load.{look}
use xremu.Cpu.Caches.Coherence.Merge.{merge-IsCoherent, stored_in}
use xremu.Cpu.Caches.Coherence.Scanned.{IsScanned, waiting, vacant, no_room, scan-IsScanned}
use xremu.Cpu.Caches.Coherence.Store.{IsStored, written, searched-IsStored}
use xremu.Cpu.Dcache.{flush_write_buffer, uncached_stall}
use xremu.Cpu.Dcache.Flush.{flush_write_buffer-writes}

module _ {M : Type 0} (bus : LineBus M) (mem : ℕ → Line) (present : ℕ → Bool) where
  store_with-IsStored :
      {c : Caches M} (id w address length value : ℕ) (sc : Bool)
      → IsCoherent bus mem present c
      → IsLive present id
      → w < wb_depth
      → (c.dcaches id).wb_indices w ≡ cache_index_invalid
      → ((v : ℕ)
          → v < wb_depth
          → (c.dcaches id).wb_indices v ≢ cache_index_invalid
          → (c.dcaches id).tags ((c.dcaches id).wb_indices v) ≢ tag_of address)
      → IsStored bus mem present address length value sc
          (store_with bus present c id address length value sc w)
  unfolding store_with
  store_with-IsStored {c} id w address length value sc h live in_wb spare none_waiting =
      searched-IsStored bus mem present id w address length value
        (counters-IsCoherent bus mem present id live h (c.dcaches id).replacement_index
          (c.dcaches id).wb_write_index (c.dcaches id).wb_fill_index
          (if (c.dcaches id).wb_cycles == 0 then uncached_stall else (c.dcaches id).wb_cycles))
        live in_wb (ap (λ (d : Dcache). d.wb_indices w) there ∙ spare)
        (subst
          (λ (d : Dcache).
            (v : ℕ)
            → v < wb_depth
            → d.wb_indices v ≢ cache_index_invalid
            → d.tags (d.wb_indices v) ≢ tag_of address)
          (sym there) none_waiting)
        sc
        (find_way (update c.dcaches id (start_countdown (c.dcaches id)) id) (tag_of address) 2
          (dc_index address))
        (look (update c.dcaches id (start_countdown (c.dcaches id)) id) address)
    where
      there :
          update c.dcaches id (start_countdown (c.dcaches id)) id ≡ start_countdown (c.dcaches id)
      there = update_self c.dcaches id (start_countdown (c.dcaches id))

  module _ (id address length value : ℕ) (sc : Bool) (live : IsLive present id) where
    -- There is a result, and it is one of a store.
    abbrev IsReturned : Option (Outcome × Caches M) → Type 0
    IsReturned o =
        (r : Outcome × Caches M) × (o ≡ some r) × IsStored bus mem present address length value sc r

    returned :
        (r : Outcome × Caches M)
        → IsStored bus mem present address length value sc r
        → IsReturned (some r)
    returned r s = (r, refl, s)

    one_go :
        {c : Caches M} (again : Option (Outcome × Caches M)) (s : Scan)
        → IsCoherent bus mem present c
        → IsScanned (c.dcaches id) (tag_of address) s
        → (((v : ℕ) → v < wb_depth → (c.dcaches id).wb_indices v ≢ cache_index_invalid)
            → IsReturned again)
        → IsReturned (elim s [
          | merge_at index ↦ some (
            done 0,
            with_dcache bus present c id
                (merge (c.dcaches id) index (offset_of address) length value, []),
          )
          | free_at w ↦ some (store_with bus present c id address length value sc w)
          | full ↦ again
        ])
    one_go {c} again _ h (waiting w small used tagged) after =
        let d = c.dcaches id in
        let entry = (h.each id live).entry w small used in
        let line = (h.each id live).held (d.wb_indices w) entry.0 (ground (arith, entry)) in
        let e =
          with_dcache bus present c id
            (merge d (d.wb_indices w) (offset_of address) length value, []) in
        returned (done 0, e)
          (written e (ap bus.answers (sym tagged) ∙ line.answered) (
            subst
              (λ (t : ℕ).
                IsCoherent bus (stored_in mem t (offset_of address) length value) present e)
              tagged
              (merge-IsCoherent bus mem present id (d.wb_indices w) h live entry.0 entry.1
                (offset_of address) length value (ground (arith, entry, small)))))
    one_go {c} again _ h (vacant w small free none_waiting) after =
        returned (store_with bus present c id address length value sc w)
          (store_with-IsStored id w address length value sc h live small free none_waiting)
    one_go {c} again _ h (no_room all) after = after all

  -- A store from a coherent state has a result after at most one restart, and never calls abort: it
  -- is done, and the caches are coherent with the memory changed at the bytes of the store; or it
  -- was conditional and is refused, or the bus does not answer, and the caches are coherent with
  -- the memory as it was.
  pub store_access-IsStored :
      {c : Caches M} (id address length value : ℕ) (sc : Bool)
      → IsCoherent bus mem present c
      → IsLive present id
      → (r : Outcome × Caches M) × (store_access bus present 2 c id address length value sc
          ≡ some r)
        × IsStored bus mem present address length value sc r
  unfolding store_access
  store_access-IsStored {c} id address length value sc h live =
      one_go id address length value sc live
        (store_access bus present 1 (flush bus present c id) id address length value sc)
        (scan (c.dcaches id) (tag_of address) wb_depth 0 none) h
        (scan-IsScanned (c.dcaches id) (tag_of address))
        (λ _.
          one_go id address length value sc live none
            (scan ((flush bus present c id).dcaches id) (tag_of address) wb_depth 0 none)
            (flush-IsCoherent bus mem present id live h)
            (scan-IsScanned ((flush bus present c id).dcaches id) (tag_of address))
            (λ all. absurd (
              all 0 (omega arith) (
                ap (λ (d : Dcache). d.wb_indices 0)
                  (update_self c.dcaches id (flush_write_buffer (c.dcaches id)).0)
                ∙ (flush_write_buffer-writes (c.dcaches id)).1 0 (omega arith)))))

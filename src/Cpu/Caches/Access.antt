-- ===== src/Cpu/Caches/Access.antt =====
-- `XrDcacheAccess`, for a processor `id`. A load of 1, 2 or 4 bytes reads them with the lowest first,
-- and a store writes them so, as on the little-endian hosts that the emulator runs on. An access lies
-- in one line.
use xremu.Base.{
  ℕ, zero, suc, ◌+◌, ◌-◌, ◌*◌, ◌/◌, ◌%◌, ◌^◌, Bool, true, false, List, [], ◌==◌, ◌!=◌, ◌&&◌, ltb,
  leb, if◌then◌else◌, update, bit_and, Option, none, some, add32,
}
use xremu.Cpu.Dcache.{
  Dcache, Line, LineWrite, line_invalid, line_shared, line_exclusive, cache_index_invalid, wb_depth,
  uncached_stall, claim_entry, set_flag, dc_index, lower_line,
}
use xremu.Cpu.Caches.{
  LineBus, Caches, sc_index, set_entry, find_in_scache, with_dcache, with_scache, flush,
  downgrade_line, downgrade_all, find_or_replace,
}

-- CopyWithLengthZext, and CopyWithLength into a line
unfoldable pub read_bytes : Line → ℕ → ℕ → ℕ
read_bytes l offset zero = 0
read_bytes l offset (suc n) = l offset + 2 ^ 8 * read_bytes l (offset + 1) n

abbrev pub write_bytes : Line → ℕ → ℕ → ℕ → Line
write_bytes l offset length value o =
    if leb offset o && ltb o (offset + length) then value / 2 ^ (8 * (o - offset)) % 2 ^ 8 else l o

abbrev pub merge : Dcache → ℕ → ℕ → ℕ → ℕ → Dcache
merge d index offset length value = record d {
  lines = update d.lines index (write_bytes (d.lines index) offset length value);
}

abbrev pub tag_of : ℕ → ℕ
tag_of address = bit_and address 0xFFFFFFF0

abbrev pub offset_of : ℕ → ℕ
offset_of address = bit_and address 15

-- The search of the write buffer: the line that an entry for the tag stands for, the last free entry,
-- or neither.
pub data Scan : Type 0 where
  merge_at : ℕ → Scan
  free_at : ℕ → Scan
  full : Scan

-- `freewbindex`
abbrev pub scan_end : Option ℕ → Scan
scan_end none = full
scan_end (some w) = free_at w

unfoldable pub scan : Dcache → ℕ → ℕ → ℕ → Option ℕ → Scan
scan d tag zero w free = scan_end free
scan d tag (suc left) w free =
    let index = d.wb_indices w in
    if index == cache_index_invalid
    then scan d tag left (w + 1) (some w)
    else if d.tags index == tag
    then merge_at index
    else scan d tag left (w + 1) free

-- The search of the ways, from line `index` on.
unfoldable pub find_way : Dcache → ℕ → ℕ → ℕ → Option ℕ
find_way d tag zero index = none
find_way d tag (suc left) index =
    let rest = find_way d tag left (index + 1) in
    if d.flags index != line_invalid && d.tags index == tag then some index else rest

-- The results 1 (with what a load read), 2 and 0, and the call of `abort`.
pub data Outcome : Type 0 where
  done : ℕ → Outcome
  sc_failed bus_failed aborted : Outcome

abbrev pub start_countdown : Dcache → Dcache
start_countdown d = record d {
  wb_cycles = if d.wb_cycles == 0 then uncached_stall else d.wb_cycles;
}

-- The line that the miss replaces is emptied.
unfoldable pub evict_line : Dcache → ℕ → Dcache × List LineWrite
evict_line d index =
    if d.flags index != line_invalid then lower_line d index line_invalid else (d, [])

abbrev pub new_line : Dcache → ℕ → ℕ → ℕ → Dcache
new_line d index tag state = record d {
  flags = update d.flags index state;
  tags = update d.tags index tag;
}

-- The place of the new line, with the replacement index moved on.
abbrev pub replace_index : Dcache → ℕ → ℕ
replace_index d tag = dc_index tag + bit_and d.replacement_index 1

abbrev pub next_replacement : Dcache → Dcache
next_replacement d = record d { replacement_index = add32 d.replacement_index 1 }

module _ {M : Type 0} (bus : LineBus M) (present : ℕ → Bool) where
  -- An entry that was there already changes its state, and the other data caches give up what they
  -- have to.
  unfoldable pub settle : Caches M → ℕ → ℕ → Bool → Caches M
  settle e id tag writing =
      let s = sc_index tag in
      let f =
        if e.scache.flags s == line_exclusive
        then downgrade_line bus present e (e.scache.exclusive_ids s) tag
            (if writing then line_invalid else line_shared)
        else if writing && e.scache.flags s == line_shared
        then downgrade_all bus present (λ _. false) e tag line_invalid
        else e in
      with_scache bus present f
        (set_entry f.scache s (if writing then line_exclusive else line_shared) id)

  -- The Scache's part of a miss.
  unfoldable pub take : Caches M → ℕ → ℕ → Bool → Caches M
  take c id tag writing =
      let (created, e) =
        find_or_replace bus present c id tag (if writing then line_exclusive else line_shared) in
      if created then e else settle e id tag writing

  -- The line that a miss replaces, `index`, is made the line of `tag`, and is read in: the caches, or
  -- the caches after a bus error.
  unfoldable pub read_in : Caches M → ℕ → ℕ → ℕ → ℕ → Bool × Caches M
  read_in c id index tag newstate =
      let e = with_dcache bus present c id (evict_line (c.dcaches id) index) in
      let d = new_line (e.dcaches id) index tag newstate in
      if bus.answers tag
      then (
        true,
        with_dcache bus present e id
            (record d { lines = update d.lines index (bus.line e.memory tag) }, []),
      )
      else (
        false,
        with_scache bus present (with_dcache bus present e id (set_flag d index line_invalid, []))
            (record e.scache { flags = update e.scache.flags (sc_index tag) line_invalid }),
      )

  unfoldable pub fill : Caches M → ℕ → ℕ → Bool → Bool × Caches M
  fill c id tag writing =
      let e = take c id tag writing in
      let index = replace_index (e.dcaches id) tag in
      read_in (with_dcache bus present e id (next_replacement (e.dcaches id), [])) id index tag
        (if writing then line_exclusive else line_shared)

  -- A load.
  unfoldable pub load_access : Caches M → ℕ → ℕ → ℕ → Outcome × Caches M
  load_access c id address length =
      let tag = tag_of address in
      elim (find_way (c.dcaches id) tag 2 (dc_index address)) [
        | some index ↦
            (done (read_bytes ((c.dcaches id).lines index) (offset_of address) length), c)
        | none ↦
            let index = replace_index ((take c id tag false).dcaches id) tag in
            let (filled, e) = fill c id tag false in
            if filled
            then (done (read_bytes ((e.dcaches id).lines index) (offset_of address) length), e)
            else (bus_failed, e)
      ]

  -- The other copies of a shared line go, and the line becomes exclusive.
  unfoldable pub upgrade : Caches M → ℕ → ℕ → ℕ → Option (Caches M)
  upgrade c id index tag = elim (find_in_scache c.scache tag) [
    | none ↦ none
    | some s ↦
        let e =
          if c.scache.flags s == line_shared
          then downgrade_all bus present (λ q. q == id) c tag line_invalid
          else if c.scache.flags s == line_exclusive
          then downgrade_line bus present c (c.scache.exclusive_ids s) tag line_invalid
          else c in
        some (
          with_dcache bus present
            (with_scache bus present e (set_entry e.scache s line_exclusive id)) id
            (set_flag (e.dcaches id) index line_exclusive, []))
  ]

  -- The line is put into entry `w` of the write buffer, and the stored bytes into the line.
  abbrev pub store_in : Caches M → ℕ → ℕ → ℕ → ℕ → ℕ → ℕ → Caches M
  store_in c id w index address length value =
      with_dcache bus present c id
        (merge (claim_entry (c.dcaches id) w index) index (offset_of address) length value, [])

  -- A store with a free entry `w`.
  unfoldable pub store_with : Caches M → ℕ → ℕ → ℕ → ℕ → Bool → ℕ → Outcome × Caches M
  store_with c0 id address length value sc w =
      let tag = tag_of address in
      let c = with_dcache bus present c0 id (start_countdown (c0.dcaches id), []) in
      elim (find_way (c.dcaches id) tag 2 (dc_index address)) [
        | some index ↦
            if (c.dcaches id).flags index == line_exclusive
            then (done 0, store_in c id w index address length value)
            else elim (upgrade c id index tag) [
              | none ↦ (aborted, c)
              | some e ↦ (done 0, store_in e id w index address length value)
            ]
        | none ↦
            if sc
            then (sc_failed, c)
            else (let index = replace_index ((take c id tag true).dcaches id) tag in
                let (filled, e) = fill c id tag true in
                if filled
                then (done 0, store_in e id w index address length value)
                else (bus_failed, e))
      ]

  -- A store, with `fuel` more goes from `restart`.
  unfoldable pub store_access : ℕ → Caches M → ℕ → ℕ → ℕ → ℕ → Bool → Option (Outcome × Caches M)
  store_access zero c id address length value sc = none
  store_access (suc fuel) c id address length value sc =
      let again = store_access fuel (flush bus present c id) id address length value sc in
      elim (scan (c.dcaches id) (tag_of address) wb_depth 0 none) [
        | merge_at index ↦ some (
          done 0,
          with_dcache bus present c id
              (merge (c.dcaches id) index (offset_of address) length value, []),
        )
        | free_at w ↦ some (store_with c id address length value sc w)
        | full ↦ again
      ]

-- ===== src/Cpu/Caches/Coherence/Load.antt =====
-- `XrDcacheAccess`, a load.
use native.Mathlib.Decide.{ℕ_discrete}
use xremu.Base.{
  ℕ, zero, suc, ◌+◌, ◌/◌, ◌%◌, ◌≡◌, ◌≢◌, ◌<◌, ◌≤◌, ◌∙◌, sym, ap, refl, arith, Bool, true, false,
  ◌&&◌, ◌==◌, ◌!=◌, if◌then◌else◌, if_cases, Option, none, some,
}
use xremu.Bits.{bit_and-ones, bit_and-shifted}
use xremu.Cpu.Dcache.{Dcache, Line, line_count, line_invalid, dc_index}
use xremu.Cpu.Caches.{LineBus, Scache, Caches}
use xremu.Cpu.Caches.Access.{
  Outcome, done, bus_failed, find_way, read_bytes, tag_of, offset_of, load_access, take, fill,
  replace_index,
}
use xremu.Cpu.Caches.Coherence.{IsLive, IsConsistent, IsCoherent}
use xremu.Cpu.Caches.Coherence.Downgrade.{IsAbsent, dc_index_lem}
use xremu.Cpu.Caches.Coherence.Fill.{IsFilled, fill-IsFilled, replace_index-bounds}

pub tag_of_aligned : (address : ℕ) → tag_of address % 16 ≡ 0
tag_of_aligned address = omega (arith, bit_and-shifted 4 address 0xFFFFFFF)

pub read_bytes_ext :
    (l m : Line) (offset n : ℕ)
    → ((o : ℕ) → o < 16 → l o ≡ m o)
    → offset + n ≤ 16
    → read_bytes l offset n ≡ read_bytes m offset n
unfolding read_bytes
read_bytes_ext l m offset zero same le = refl
read_bytes_ext l m offset (suc n) same le =
    let rest = read_bytes_ext l m (offset + 1) n same (omega arith) in
    omega (arith, rest, same offset (omega arith))

-- What the search of the ways finds.
pub data IsLooked (d : Dcache) (tag : ℕ) : Option ℕ → Type 0 where
  hit : (i : ℕ) → i < line_count → d.flags i ≢ 0 → d.tags i ≡ tag → IsLooked d tag (some i)
  miss : ((j : ℕ) → j / 2 ≡ tag / 16 % 1024 → d.flags j ≢ 0 → d.tags j ≢ tag) → IsLooked d tag none

find_way-IsLooked :
    (d : Dcache) (tag left i : ℕ)
    → i + left ≡ dc_index tag + 2
    → ((j : ℕ) → dc_index tag ≤ j → j < i → d.flags j ≢ 0 → d.tags j ≢ tag)
    → IsLooked d tag (find_way d tag left i)
unfolding find_way
find_way-IsLooked d tag zero i e none_yet =
    miss (λ j set. none_yet j (omega (arith, dc_index_lem tag)) (omega (arith, dc_index_lem tag)))
find_way-IsLooked d tag (suc left) i e none_yet =
    if_cases (IsLooked d tag) (d.flags i != line_invalid && d.tags i == tag) {x = some i}
      {y = find_way d tag left (i + 1)}
      (λ here.
        hit i (omega (arith, dc_index_lem tag)) (ground (arith, here)) (ground (arith, here)))
      (λ other. find_way-IsLooked d tag left (i + 1) (omega arith) (λ j le lt valid.
        elim (ℕ_discrete j i) [
          | yes same ↦ λ tagged.
              absurd (ground (arith, other, valid, tagged, ap d.flags same, ap d.tags same))
          | no ne ↦ none_yet j le (omega arith) valid
        ]))

-- The set of an address is that of its tag.
dc_index-tag_of : (address : ℕ) → dc_index address ≡ dc_index (tag_of address)
dc_index-tag_of address = omega (
  arith,
  dc_index_lem address,
  dc_index_lem (tag_of address),
  bit_and-shifted 4 address 0xFFFFFFF,
  bit_and-ones 28 (address / 16),
)

pub look :
    (d : Dcache) (address : ℕ)
    → IsLooked d (tag_of address) (find_way d (tag_of address) 2 (dc_index address))
look d address =
    find_way-IsLooked d (tag_of address) 2 (dc_index address)
      (omega (arith, dc_index-tag_of address))
      (λ j le lt. absurd (omega (arith, dc_index-tag_of address)))

module _ {M : Type 0} (bus : LineBus M) (mem : ℕ → Line) (present : ℕ → Bool) where
  pub miss-IsAbsent :
      {sc : Scache} {p : ℕ} {d : Dcache} (tag : ℕ)
      → IsConsistent bus mem sc p d
      → ((j : ℕ) → j / 2 ≡ tag / 16 % 1024 → d.flags j ≢ 0 → d.tags j ≢ tag)
      → IsAbsent d tag
  miss-IsAbsent {sc} {p} {d} tag own nowhere j lt valid same =
      nowhere j (sym (own.held j lt valid).placed ∙ ap (λ (t : ℕ). t / 16 % 1024) same) valid same

  -- The result of a load of the memory `mem`
  abbrev pub loads : ℕ → ℕ → Outcome
  loads address length =
      if bus.answers (tag_of address)
      then done (read_bytes (mem (tag_of address)) (offset_of address) length)
      else bus_failed

  filled_contents :
      (d0 : Dcache) (id index tag state : ℕ) (r : Bool × Caches M)
      → IsFilled bus mem present d0 id index tag state r
      → IsLive present id
      → index < line_count
      → state ≢ 0
      → r.0 ≡ true
      → (o : ℕ) → o < 16
      → (r.1.dcaches id).lines index o ≡ mem tag o
  filled_contents d0 id index tag state r f live small used ok o lt =
      ((f.coherent.each id live).held index small (λ z. used (sym (f.in_state ok) ∙ z))).contents o
        lt
      ∙ ap (λ (t : ℕ). mem t o) (f.tagged ok)

  module _ {c : Caches M} (id address length : ℕ) (h : IsCoherent bus mem present c)
      (live : IsLive present id) (inside : offset_of address + length ≤ 16) where
    abbrev tag : ℕ
    tag = tag_of address

    -- The result is the memory's, and the caches are coherent.
    abbrev IsLoaded : Outcome × Caches M → Type 0
    IsLoaded r = (r.0 ≡ loads address length) × IsCoherent bus mem present r.1

    hit_result :
        (i : ℕ)
        → i < line_count
        → (c.dcaches id).flags i ≢ 0
        → (c.dcaches id).tags i ≡ tag
        → IsLoaded (done (read_bytes ((c.dcaches id).lines i) (offset_of address) length), c)
    hit_result i small valid tagged =
        let l = (h.each id live).held i small valid in
        let answers : bus.answers tag ≡ true = ap bus.answers (sym tagged) ∙ l.answered in
        (
          ap done (
                read_bytes_ext ((c.dcaches id).lines i) (mem tag) (offset_of address) length
                  (λ o lt. l.contents o lt ∙ ap (λ (t : ℕ). mem t o) tagged) inside)
              ∙ sym (
                  ap
                    (λ (b : Bool).
                      if b
                      then done (read_bytes (mem tag) (offset_of address) length)
                      else bus_failed)
                    answers),
          h,
        )

    miss_result :
        (d0 : Dcache) (index : ℕ)
        → index < line_count
        → (r : Bool × Caches M) → IsFilled bus mem present d0 id index tag 1 r
        → IsLoaded (
            if r.0
            then (done (read_bytes ((r.1.dcaches id).lines index) (offset_of address) length), r.1)
            else (bus_failed, r.1))
    miss_result d0 index small (true, e) f = (
      ap done (
            read_bytes_ext ((e.dcaches id).lines index) (mem tag) (offset_of address) length
              (filled_contents d0 id index tag 1 (true, e) f live small (omega arith) refl) inside)
          ∙ ap
              (λ (b : Bool).
                if b then done (read_bytes (mem tag) (offset_of address) length) else bus_failed)
              f.answered,
      f.coherent,
    )
    miss_result d0 index small (false, e) f = (
      ap
          (λ (b : Bool).
            if b then done (read_bytes (mem tag) (offset_of address) length) else bus_failed)
          f.answered,
      f.coherent,
    )

    abbrev place : ℕ
    place = replace_index ((take bus present c id tag false).dcaches id) tag

    by_search :
        (o : Option ℕ)
        → IsLooked (c.dcaches id) tag o
        → IsLoaded (elim o [
          | some index ↦
              (done (read_bytes ((c.dcaches id).lines index) (offset_of address) length), c)
          | none ↦
              (let (filled, e) = fill bus present c id tag false in
                if filled
                then (done (read_bytes ((e.dcaches id).lines place) (offset_of address) length), e)
                else (bus_failed, e))
        ])
    by_search _ (hit i small valid tagged) = hit_result i small valid tagged
    by_search _ (miss nowhere) =
        miss_result (c.dcaches id) place
          (replace_index-bounds bus mem present ((take bus present c id tag false).dcaches id)
            tag).0
          (fill bus present c id tag false)
          (fill-IsFilled bus mem present id tag false h live (tag_of_aligned address)
            (miss-IsAbsent tag (h.each id live) nowhere))

  -- A load from a coherent state, which does not cross the end of its line, reads what the memory
  -- holds, whether it hits or misses, or has a bus error when the bus does not answer at its line;
  -- the caches stay coherent with the same memory.
  pub load_access-IsCoherent :
      {c : Caches M} (id address length : ℕ)
      → IsCoherent bus mem present c
      → IsLive present id
      → offset_of address + length ≤ 16
      → ((load_access bus present c id address length).0 ≡ loads address length)
        × IsCoherent bus mem present (load_access bus present c id address length).1
  unfolding load_access
  load_access-IsCoherent {c} id address length h live inside =
      by_search id address length h live inside
        (find_way (c.dcaches id) (tag_of address) 2 (dc_index address))
        (look (c.dcaches id) address)

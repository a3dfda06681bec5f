-- ===== src/Cpu/Memory/Passing.antt =====
-- A store by one processor and a load by another, through `XrAccess`.
use xremu.Base.{
  ℕ, ◌*◌, ◌%◌, ◌^◌, ◌≡◌, ◌<◌, ◌∙◌, refl, arith, subst, sym, ap, Bool, true, false, bit_and, Option,
  none, some, update_self, update_same,
}
use xremu.Cpu.Dcache.{Line}
use xremu.Cpu.State.{Processor}
use xremu.Cpu.Translate.{Translation, mapped, faulted}
use xremu.Cpu.Caches.{LineBus, Caches}
use xremu.Cpu.Caches.Access.{tag_of, offset_of, read_bytes, write_bytes}
use xremu.Cpu.Caches.Coherence.{IsLive, IsCoherent}
use xremu.Cpu.Caches.Coherence.Merge.{stored_in}
use xremu.Cpu.Caches.Coherence.RoundTrip.{read_bytes-write_bytes}
use xremu.Cpu.Memory.{
  IoBus, Machine, whole, with_caches, with_proc, pte_noncached, Direction, reading, writing,
  is_writing, Access, accessed, refused, failed, locate, xr_access,
}
use xremu.Cpu.Memory.Accessed.{
  IsCached, read_from, written_to, lost, no_answer, IsAccessed, unaligned, untranslated, noncached,
  cached, xr_access-IsAccessed,
}

-- Another processor's turn
abbrev pub turn : {M : Type 0} → Processor → Machine M → Machine M
turn q m = record { proc = record q { dcache = (whole m).dcaches q.id }; caches = whole m }

-- The address is mapped to `phys`, for the caches.
pub record IsCachedAt (p : Processor) (address : ℕ) (writes : Bool) (phys : ℕ) : Type 0 where
  pub proc : Processor
  pub flags : ℕ
  pub located : locate p address writes ≡ mapped proc phys flags
  pub cached : bit_and flags pte_noncached ≡ 0

abbrev phys_of : Translation → ℕ
phys_of (mapped q phys flags) = phys
phys_of (faulted q) = 0

abbrev flags_of : Translation → ℕ
flags_of (mapped q phys flags) = flags
flags_of (faulted q) = pte_noncached

abbrev value_of : {M : Type 0} → Access M → ℕ
value_of (accessed v m) = v
value_of (refused m) = 0
value_of (failed m) = 0

abbrev is_accessed : {M : Type 0} → Access M → Bool
is_accessed (accessed v m) = true
is_accessed (refused m) = false
is_accessed (failed m) = false

abbrev machine_of : {M : Type 0} → Access M → Machine M
machine_of (accessed v m) = m
machine_of (refused m) = m
machine_of (failed m) = m

abbrev the_access : {M : Type 0} → Access M → Option (Access M) → Access M
the_access a none = a
the_access a (some b) = b

whole-turn : {M : Type 0} (q : Processor) (m : Machine M) → whole (turn q m) ≡ whole m
whole-turn q m = λ i. record (whole m) { dcaches = update_same (whole m).dcaches q.id i }

whole-with_caches : {M : Type 0} (m : Machine M) (c : Caches M) → whole (with_caches m c) ≡ c
whole-with_caches m c = λ i. record c { dcaches = update_same c.dcaches m.proc.id i }

module _ {M : Type 0} (bus : LineBus M) (io : IoBus M) (mem : ℕ → Line) (present : ℕ → Bool) where
  -- An access to cached memory goes through the caches.
  by_cache :
      {m : Machine M} {address length phys : ℕ} {direction : Direction} (x : Access M)
      → IsAccessed bus io mem present m address length direction x
      → address % length ≡ 0
      → IsCachedAt m.proc address (is_writing direction) phys
      → (q : Processor) × IsCached bus io mem present (with_proc m q) phys length direction x
  by_cache _ (unaligned odd) aligned at = absurd (odd aligned)
  by_cache _ (untranslated q aligned' e) aligned at =
      absurd (ground (arith, at.cached, ap flags_of (sym e ∙ at.located)))
  by_cache _ (noncached q phys flags aligned' e by_bus) aligned at = absurd (
      ground (
        arith,
        by_bus,
        at.cached,
        ap (λ (t : Translation). bit_and (flags_of t) pte_noncached) (sym e ∙ at.located),
      ))
  by_cache {m} {address} {length} {phys} {direction} x
        (cached q phys' flags _ aligned' e cacheable place how) aligned at =
      (
        q,
        subst (λ (t : ℕ). IsCached bus io mem present (with_proc m q) t length direction x)
            (ap phys_of (sym e ∙ at.located)) how,
      )

  -- What a finished write leaves.
  after_write :
      {m e : Machine M} {phys length value : ℕ} {sc : Bool} (x : Access M)
      → IsCached bus io mem present m phys length (writing value sc) x
      → x ≡ accessed 0 e
      → (bus.answers (tag_of phys) ≡ true)
        × IsCoherent bus
            (stored_in mem (tag_of phys) (offset_of phys) length value)
            present
            (whole e)
  after_write {m} {e} {phys} {length} {value} _ (written_to v sc f answers coherent) same = (
    answers,
    subst (IsCoherent bus (stored_in mem (tag_of phys) (offset_of phys) length value) present)
        (sym (whole-with_caches m f) ∙ ap (λ (a : Access M). whole (machine_of a)) same) coherent,
  )
  after_write _ (lost v f coherent) same = absurd (ground (arith, ap is_accessed same))
  after_write _ (no_answer d f silent coherent) same = absurd (ground (arith, ap is_accessed same))

  -- What a read of cached memory reads.
  read_value :
      {m : Machine M} {phys length : ℕ} (x : Access M)
      → IsCached bus io mem present m phys length reading x
      → bus.answers (tag_of phys) ≡ true
      → (r : Machine M) × (x ≡ accessed (read_bytes (mem (tag_of phys)) (offset_of phys) length) r)
  read_value _ (read_from f answers coherent) there = (_, refl)
  read_value _ (no_answer d f silent coherent) there = absurd (ground (arith, silent, there))

module _ {M : Type 0} (bus : LineBus M) (io : IoBus M) (mem : ℕ → Line) (present : ℕ → Bool) where
  -- When a store of 1, 2 or 4 bytes through XrAccess has succeeded, in coherent caches, a load of
  -- as many bytes at an address that is mapped to the same place, by any processor, its own or
  -- another, succeeds and reads the low bytes of the value; both addresses are aligned, mapped to
  -- cached memory, and both processors exist.
  pub xr_access_passing :
      (m e : Machine M) (q : Processor) (a b phys k value : ℕ) (sc : Bool)
      → IsCoherent bus mem present (whole m)
      → IsLive present m.proc.id
      → IsLive present q.id
      → k < 3
      → a % 2 ^ k ≡ 0
      → b % 2 ^ k ≡ 0
      → IsCachedAt m.proc a true phys
      → IsCachedAt (turn q e).proc b false phys
      → xr_access bus io present m a (writing value sc) (2 ^ k) ≡ some (accessed 0 e)
      → (r : Machine M) × (xr_access bus io present (turn q e) b reading (2 ^ k)
          ≡ some (accessed (value % 2 ^ (8 * 2 ^ k)) r))
  xr_access_passing m e q a b phys k value sc h live live' small aligned aligned' at at' stored_so =
      let (x, ends, how) =
        xr_access-IsAccessed bus io mem present m a k small (writing value sc) h live in
      let (w, wrote) = by_cache bus io mem present x how aligned at in
      let (answers, left) =
        after_write bus io mem present x wrote (ap (the_access x) (sym ends ∙ stored_so)) in
      let (y, ends', how') =
        xr_access-IsAccessed bus io after present (turn q e) b k small reading
          (subst (IsCoherent bus after present) (sym (whole-turn q e)) left) live' in
      let (v, read) = by_cache bus io after present y how' aligned' at' in
      let (r, same) = read_value bus io after present y read answers in
      (r, ends' ∙ ap some (same ∙ ap (λ (t : ℕ). accessed t r) back))
    where
      after : ℕ → Line
      after = stored_in mem (tag_of phys) (offset_of phys) (2 ^ k) value

      back : read_bytes (after (tag_of phys)) (offset_of phys) (2 ^ k) ≡ value % 2 ^ (8 * 2 ^ k)
      back =
          ap (λ (l : Line). read_bytes l (offset_of phys) (2 ^ k))
            (update_self mem (tag_of phys)
              (write_bytes (mem (tag_of phys)) (offset_of phys) (2 ^ k) value))
          ∙ read_bytes-write_bytes (mem (tag_of phys)) (offset_of phys) (2 ^ k) value

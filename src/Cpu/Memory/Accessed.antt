-- ===== src/Cpu/Memory/Accessed.antt =====
-- `XrAccess`, on every branch, in a machine with coherent caches.
use xremu.Base.{
  ℕ, zero, suc, ◌+◌, ◌-◌, ◌%◌, ◌^◌, ◌≡◌, ◌≢◌, ◌<◌, ◌≤◌, refl, arith, subst, sym, Bool, true, false,
  if◌then◌else◌, if_cases, bit_and, ◌!=◌, Option, some, update,
}
use xremu.Bits.{bit_and-ones}
use xremu.Cpu.Dcache.{Dcache, Line}
use xremu.Cpu.State.{Processor}
use xremu.Cpu.Translate.{Translation, mapped, faulted}
use xremu.Cpu.Caches.{LineBus, Caches}
use xremu.Cpu.Caches.Access.{Outcome, done, bus_failed, load_access, tag_of, offset_of, read_bytes}
use xremu.Cpu.Caches.Coherence.{IsLive, IsCoherent}
use xremu.Cpu.Caches.Coherence.Load.{loads, load_access-IsCoherent}
use xremu.Cpu.Caches.Coherence.Merge.{stored_in}
use xremu.Cpu.Caches.Coherence.Store.{IsStored, written, unanswered}
use xremu.Cpu.Caches.Coherence.Store
use xremu.Cpu.Caches.Coherence.Restart.{store_access-IsStored}
use xremu.Cpu.Memory.{
  IoBus, Machine, whole, with_caches, with_proc, fails_at, exc_bus, exc_una, pte_noncached,
  Direction, reading, writing, is_writing, Access, accessed, refused, failed, locate, after_dcache,
  after_store, noncached_access, dcache_access, xr_access,
}
use xremu.Cpu.Memory.Placed.{IsPlaced, IsLocated, locate-IsLocated}

-- An aligned access of 1, 2 or 4 bytes lies in one line.
in_line :
    (k address phys : ℕ)
    → k < 3
    → address % 2 ^ k ≡ 0
    → phys % 2 ^ 12 ≡ address % 2 ^ 12
    → offset_of phys + 2 ^ k ≤ 16
in_line zero address phys small aligned place = omega (arith, bit_and-ones 4 phys)
in_line (suc zero) address phys small aligned place = omega (arith, bit_and-ones 4 phys)
in_line (suc (suc zero)) address phys small aligned place = omega (arith, bit_and-ones 4 phys)
in_line (suc (suc (suc k))) address phys small aligned place = absurd (omega arith)

module _ {M : Type 0} (bus : LineBus M) (io : IoBus M) (mem : ℕ → Line) (present : ℕ → Bool) where
  -- How a cached access at a physical address ends, for the machine `m`.
  pub data IsCached (m : Machine M) (phys length : ℕ) : Direction → Access M → Type 0 where
    read_from :
        (e : Caches M)
        → bus.answers (tag_of phys) ≡ true
        → IsCoherent bus mem present e
        → IsCached m phys length reading
            (accessed (read_bytes (mem (tag_of phys)) (offset_of phys) length) (with_caches m e))
    written_to :
        (value : ℕ) (sc : Bool) (e : Caches M)
        → bus.answers (tag_of phys) ≡ true
        → IsCoherent bus (stored_in mem (tag_of phys) (offset_of phys) length value) present e
        → IsCached m phys length (writing value sc) (accessed 0 (with_caches m e))
    lost :
        (value : ℕ) (e : Caches M)
        → IsCoherent bus mem present e
        → IsCached m phys length (writing value true) (refused (with_caches m e))
    no_answer :
        (direction : Direction) (e : Caches M)
        → bus.answers (tag_of phys) ≡ false
        → IsCoherent bus mem present e
        → IsCached m phys length direction (failed (fails_at (with_caches m e) phys exc_bus))

  -- How an access ends.
  pub data IsAccessed (m : Machine M) (address length : ℕ) (direction : Direction)
      : Access M → Type 0 where
    unaligned :
        address % length ≢ 0
        → IsAccessed m address length direction (failed (fails_at m address exc_una))
    untranslated :
        (q : Processor)
        → address % length ≡ 0
        → locate m.proc address (is_writing direction) ≡ faulted q
        → IsAccessed m address length direction (failed (with_proc m q))
    noncached :
        (q : Processor) (phys flags : ℕ)
        → address % length ≡ 0
        → locate m.proc address (is_writing direction) ≡ mapped q phys flags
        → bit_and flags pte_noncached ≢ 0
        → IsAccessed m address length direction
            (noncached_access bus io present (with_proc m q) phys direction length)
    cached :
        (q : Processor) (phys flags : ℕ) (a : Access M)
        → address % length ≡ 0
        → locate m.proc address (is_writing direction) ≡ mapped q phys flags
        → bit_and flags pte_noncached ≡ 0
        → IsPlaced m.proc address q phys
        → IsCached (with_proc m q) phys length direction a
        → IsAccessed m address length direction a

  -- There is an end.
  abbrev pub Ends : (Access M → Type 0) → Option (Access M) → Type 0
  Ends P o = (a : Access M) × (o ≡ some a) × P a

  module _ (m : Machine M) (phys length : ℕ) (h : IsCoherent bus mem present (whole m))
      (live : IsLive present m.proc.id) (inside : offset_of phys + length ≤ 16) where
    read-Ends :
        (r : Outcome × Caches M)
        → r.0 ≡ loads bus mem present phys length
        → IsCoherent bus mem present r.1
        → Ends (IsCached m phys length reading) (after_dcache bus io present m phys r)
    read-Ends (o, c) same coherent =
        subst
          (λ (x : Outcome).
            Ends (IsCached m phys length reading) (after_dcache bus io present m phys (x, c)))
          (sym same) (by_answer (bus.answers (tag_of phys)) refl)
      where
        by_answer :
            (b : Bool)
            → bus.answers (tag_of phys) ≡ b
            → Ends (IsCached m phys length reading) (
                after_dcache bus io present m phys (
                  if b
                      then done (read_bytes (mem (tag_of phys)) (offset_of phys) length)
                      else bus_failed,
                  c,
                ))
        by_answer true answers = (
          accessed (read_bytes (mem (tag_of phys)) (offset_of phys) length) (with_caches m c),
          refl,
          read_from c answers coherent,
        )
        by_answer false silent = (
          failed (fails_at (with_caches m c) phys exc_bus),
          refl,
          no_answer reading c silent coherent,
        )

    write-Ends :
        (value : ℕ) (sc : Bool) (r : Outcome × Caches M)
        → IsStored bus mem present phys length value sc r
        → Ends (IsCached m phys length (writing value sc)) (after_dcache bus io present m phys r)
    write-Ends value sc _ (written e answers after) =
        (accessed 0 (with_caches m e), refl, written_to value sc e answers after)
    write-Ends value sc _ (Store.refused e asked after) = (
      refused (with_caches m e),
      refl,
      subst (λ (b : Bool). IsCached m phys length (writing value b) (refused (with_caches m e)))
          (sym asked) (lost value e after),
    )
    write-Ends value sc _ (unanswered e silent after) = (
      failed (fails_at (with_caches m e) phys exc_bus),
      refl,
      no_answer (writing value sc) e silent after,
    )

    pub dcache_access-Ends :
        (direction : Direction)
        → Ends
            (IsCached m phys length direction)
            (dcache_access bus io present m phys direction length)
    unfolding dcache_access
    dcache_access-Ends reading =
        let (result, coherent) =
          load_access-IsCoherent bus mem present m.proc.id phys length h live inside in
        read-Ends (load_access bus present (whole m) m.proc.id phys length) result coherent
    dcache_access-Ends (writing value sc) =
        let (r, e, s) =
          store_access-IsStored bus mem present m.proc.id phys length value sc h live in
        subst
          (λ (o : Option (Outcome × Caches M)).
            Ends (IsCached m phys length (writing value sc)) (after_store bus io present m phys o))
          (sym e) (write-Ends value sc r s)

  module _ (m : Machine M) (address k : ℕ) (small : k < 3) (direction : Direction)
      (h : IsCoherent bus mem present (whole m)) (live : IsLive present m.proc.id) where
    abbrev Result : Option (Access M) → Type 0
    Result = Ends (IsAccessed m address (2 ^ k) direction)

    cached-Ends :
        (q : Processor) (phys flags : ℕ)
        → address % 2 ^ k ≡ 0
        → locate m.proc address (is_writing direction) ≡ mapped q phys flags
        → bit_and flags pte_noncached ≡ 0
        → IsPlaced m.proc address q phys
        → Result (dcache_access bus io present (with_proc m q) phys direction (2 ^ k))
    cached-Ends q phys flags aligned e by_cache place =
        let (a, same, how) =
          dcache_access-Ends (with_proc m q) phys (2 ^ k) coherent live_q
            (in_line k address phys small aligned place.place) direction in
        (a, same, cached q phys flags a aligned e by_cache place how)
      where
        coherent : IsCoherent bus mem present (whole (with_proc m q))
        coherent =
            subst
              (λ (d : Dcache).
                IsCoherent bus mem present
                  (record m.caches { dcaches = update m.caches.dcaches q.id d }))
              (sym place.dcache)
              (subst
                (λ (n : ℕ).
                  IsCoherent bus mem present
                    (record m.caches { dcaches = update m.caches.dcaches n m.proc.dcache }))
                (sym place.id) h)

        live_q : IsLive present q.id
        live_q = subst (IsLive present) (sym place.id) live

    located-Ends :
        (t : Translation)
        → address % 2 ^ k ≡ 0
        → locate m.proc address (is_writing direction) ≡ t
        → IsLocated m.proc address t
        → Result (elim t [
          | faulted q ↦ some (failed (with_proc m q))
          | mapped q phys flags ↦
              (if bit_and flags pte_noncached != 0
                then some (noncached_access bus io present (with_proc m q) phys direction (2 ^ k))
                else dcache_access bus io present (with_proc m q) phys direction (2 ^ k))
        ])
    located-Ends (faulted q) aligned e place =
        (failed (with_proc m q), refl, untranslated q aligned e)
    located-Ends (mapped q phys flags) aligned e place =
        if_cases Result (bit_and flags pte_noncached != 0)
          {x = some (noncached_access bus io present (with_proc m q) phys direction (2 ^ k))}
          {y = dcache_access bus io present (with_proc m q) phys direction (2 ^ k)}
          (λ by_bus. (
            noncached_access bus io present (with_proc m q) phys direction (2 ^ k),
            refl,
            noncached q phys flags aligned e (ground (arith, by_bus)),
          ))
          (λ by_cache. cached-Ends q phys flags aligned e (ground (arith, by_cache)) place)

    -- An access of 1, 2 or 4 bytes through XrAccess, by a processor that exists, in coherent caches
    -- always ends, as the first of these says that applies: with the alignment exception, with the
    -- exception of the translation, with what XrNoncachedAccess gives for a page that is not
    -- cached, or through the caches. Through the caches a load reads what the memory holds, a store
    -- changes the memory at its bytes, a conditional store may be refused, and the caches are
    -- coherent with the memory that is left; or the bus does not answer, and the bus error
    -- exception for the physical address is taken from caches that are coherent with the same
    -- memory.
    pub xr_access-IsAccessed :
        (a : Access M) × (xr_access bus io present m address direction (2 ^ k) ≡ some a)
        × IsAccessed m address (2 ^ k) direction a
    unfolding xr_access
    xr_access-IsAccessed =
        if_cases Result (bit_and address (2 ^ k - 1) != 0)
          {x = some (failed (fails_at m address exc_una))}
          {y = elim (locate m.proc address (is_writing direction)) [
            | faulted q ↦ some (failed (with_proc m q))
            | mapped q phys flags ↦
                (if bit_and flags pte_noncached != 0
                  then some (noncached_access bus io present (with_proc m q) phys direction (2 ^ k))
                  else dcache_access bus io present (with_proc m q) phys direction (2 ^ k))
          ]}
          (λ odd. (
            failed (fails_at m address exc_una),
            refl,
            unaligned (ground (arith, odd, bit_and-ones k address)),
          ))
          (λ even.
            located-Ends (locate m.proc address (is_writing direction))
              (ground (arith, even, bit_and-ones k address)) refl
              (locate-IsLocated m.proc address (is_writing direction)))

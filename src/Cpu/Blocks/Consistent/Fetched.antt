-- ===== src/Cpu/Blocks/Consistent/Fetched.antt =====
-- The words of a block are read.
use xremu.Base.{
  update, ◌^◌, ℕ, zero, suc, ◌+◌, ◌-◌, ◌%◌, ◌≡◌, ◌∙◌, refl, if_cases, if◌then◌else◌, Option, none,
  some, bit_and, add32, ◌*◌, ◌>>◌,
}
use xremu.Cpu.Dcache.{Line, line_invalid}
use xremu.Cpu.Blocks.Fetch.{Front, icache_access, copy_line, fetch_lines, ic_way, after_ic_read}
use xremu.Cpu.Blocks.Consistent.Kept.{IsKept, IsKept-self, IsKept-trans, Keeps}

module _ {M : Type 0} (read_line : M → ℕ → Option Line × M) where
  after_ic_read-Keeps :
      (f : Front M) (address k : ℕ) (r : Option Line × M)
      → Keeps f (after_ic_read read_line f address k r).0 (after_ic_read read_line f address k r).1
  after_ic_read-Keeps f address k (none, s) = (
    refl,
    (
      record f.proc {
        ic_flags = update f.proc.ic_flags k line_invalid;
        ic_replacement_index = (f.proc.ic_replacement_index + 1) % 2 ^ 32;
      },
      address,
      record { pc = refl; reg = refl; cr = refl },
      refl,
    ),
  )
  after_ic_read-Keeps f address k (some l, s) = (refl, record { pc = refl; reg = refl; cr = refl })

  icache_access-Keeps :
      (f : Front M) (address : ℕ)
      → Keeps f (icache_access read_line f address).0 (icache_access read_line f address).1
  unfolding icache_access
  icache_access-Keeps f address =
      if_cases (λ (r : Option ℕ × Front M). Keeps f r.0 r.1) (ic_way read_line f.proc tag index)
        {x = (some index, f)}
        {y = if ic_way read_line f.proc tag (index + 1) then (some (index + 1), f) else missed}
        (λ first. (refl, IsKept-self f.proc))
        (λ other.
          if_cases (λ (r : Option ℕ × Front M). Keeps f r.0 r.1)
            (ic_way read_line f.proc tag (index + 1)) {x = (some (index + 1), f)} {y = missed}
            (λ second. (refl, IsKept-self f.proc))
            (λ miss.
              after_ic_read-Keeps f address (index + bit_and f.proc.ic_replacement_index 1)
                (read_line f.memory tag)))
    where
      tag : ℕ
      tag = address - address % 16

      index : ℕ
      index = bit_and (address >> 4) 1023 * 2

      missed : Option ℕ × Front M
      missed =
          after_ic_read read_line f address (index + bit_and f.proc.ic_replacement_index 1)
            (read_line f.memory tag)

  abbrev pub KeepsAll : Front M → Option (ℕ → ℕ) × Front M → Type 0
  KeepsAll f r = Keeps f r.0 r.1

  pub Keeps-trans :
      (f g : Front M) (r : Option (ℕ → ℕ) × Front M)
      → g.cache ≡ f.cache
      → IsKept f.proc g.proc
      → KeepsAll g r
      → KeepsAll f r
  Keeps-trans f g (none, k) same kept (same', (r, address, kept', fails)) =
      (same' ∙ same, (r, address, IsKept-trans kept kept', fails))
  Keeps-trans f g (some w, k) same kept (same', kept') = (same' ∙ same, IsKept-trans kept kept')

  pub fetch_lines-Keeps :
      (n : ℕ) (f : Front M) (ir : ℕ → ℕ) (offset fetchpc : ℕ)
      → KeepsAll f (fetch_lines read_line n f ir offset fetchpc)
  unfolding fetch_lines
  fetch_lines-Keeps zero f ir offset fetchpc = (refl, IsKept-self f.proc)
  fetch_lines-Keeps (suc n) f ir offset fetchpc =
      by_line (icache_access read_line f fetchpc).0 (icache_access read_line f fetchpc).1
        (icache_access-Keeps f fetchpc)
        (λ g w. fetch_lines-Keeps n g w (offset + 4) (add32 fetchpc 16))
    where
      by_line :
          (line : Option ℕ) (g : Front M)
          → Keeps f line g
          → ((g' : Front M) (w : ℕ → ℕ)
              → KeepsAll g' (fetch_lines read_line n g' w (offset + 4) (add32 fetchpc 16)))
          → KeepsAll f (elim line [
            | none ↦ (none, g)
            | some k ↦
                fetch_lines read_line n g
                  (copy_line ir offset (g.ic_lines k))
                  (offset + 4)
                  (add32 fetchpc 16)
          ])
      by_line none g failed rest = failed
      by_line (some k) g (same, kept) rest =
          Keeps-trans f g
            (fetch_lines read_line n g (copy_line ir offset (g.ic_lines k)) (offset + 4)
              (add32 fetchpc 16))
            same kept (rest g (copy_line ir offset (g.ic_lines k)))

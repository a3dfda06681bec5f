-- ===== src/Cpu/Caches/Coherence.antt =====
-- When the caches, the Scache and the memory together hold the memory `mem` that the programs see:
-- `mem t o` is the byte at offset `o` of the line with tag `t`.
pub mod Release
pub mod Lower
pub mod Entry
pub mod Downgrade
pub mod Clear
pub mod Take
pub mod Miss
pub mod Place
pub mod Fill
pub mod Load
pub mod Merge
pub mod Upgrade
pub mod Scanned
pub mod Store
pub mod Restart
pub mod Drain
pub mod Serial
pub mod Copies
pub mod RoundTrip
use xremu.Base.{ℕ, zero, suc, ◌+◌, ◌*◌, ◌/◌, ◌%◌, ◌^◌, ◌≡◌, ◌≢◌, ◌<◌, ◌≤◌, ◌⊎◌, Bool, true, ltb}
use xremu.Cpu.Dcache.{Dcache, Line, line_count, wb_depth, wb_index_invalid, cache_index_invalid}
use xremu.Cpu.Caches.{LineBus, Scache, Caches, sc_index}
use xremu.Lsic.{proc_max}

pub record IsLive (present : ℕ → Bool) (p : ℕ) : Type 0 where
  pub small : p < proc_max
  pub there : present p ≡ true

-- Line `i` waits in the write buffer with tag `t`.
pub record Waits (d : Dcache) (t : ℕ) : Type 0 where
  pub index : ℕ
  pub small : index < line_count
  pub tagged : d.tags index ≡ t
  pub buffered : d.index_to_wb_index index ≢ wb_index_invalid

module _ {M : Type 0} (bus : LineBus M) (mem : ℕ → Line) where
  -- Line `i` of processor `p`, when it is valid: it stands in the set of its tag, the Scache has an
  -- entry for it in the same state, which names the processor if the line is exclusive, and it holds
  -- what the memory holds.
  pub record IsHeld (sc : Scache) (p i tag flag : ℕ) (line : Line) : Type 0 where
    pub placed : tag / 16 % 1024 ≡ i / 2
    pub aligned : tag % 16 ≡ 0
    pub answered : bus.answers tag ≡ true
    pub state : sc.flags (sc_index tag) ≡ flag
    pub known : sc.tags (sc_index tag) ≡ tag
    pub owned : flag ≡ 2 → sc.exclusive_ids (sc_index tag) ≡ p
    pub contents : (o : ℕ) → o < 16 → line o ≡ mem tag o

  -- A data cache: its valid lines, and a write buffer whose entries are exclusive lines.
  pub record IsConsistent (sc : Scache) (p : ℕ) (d : Dcache) : Type 0 where
    pub held :
        (i : ℕ) → i < line_count → d.flags i ≢ 0 → IsHeld sc p i (d.tags i) (d.flags i) (d.lines i)
    pub unique :
        (i j : ℕ)
        → i < line_count
        → j < line_count
        → d.flags i ≢ 0
        → d.flags j ≢ 0
        → d.tags i ≡ d.tags j
        → i ≡ j
    pub entry :
        (w : ℕ)
        → w < wb_depth
        → d.wb_indices w ≢ cache_index_invalid
        → (d.wb_indices w < line_count)
          × (d.flags (d.wb_indices w) ≡ 2)
          × (d.index_to_wb_index (d.wb_indices w) ≡ w)
    pub back :
        (i : ℕ)
        → i < line_count
        → d.index_to_wb_index i ≢ wb_index_invalid
        → (d.index_to_wb_index i < wb_depth) × (d.wb_indices (d.index_to_wb_index i) ≡ i)

  module _ (present : ℕ → Bool) where
    -- What the memory holds at `t` is behind the bus, or waits in a write buffer.
    pub data IsKept (c : Caches M) (t : ℕ) : Type 0 where
      waits : (p : ℕ) → IsLive present p → Waits (c.dcaches p) t → IsKept c t
      stored : ((o : ℕ) → o < 16 → bus.line c.memory t o ≡ mem t o) → IsKept c t

    pub record IsEntry (sc : Scache) (s : ℕ) : Type 0 where
      pub small : sc.flags s ≤ 2
      pub live : sc.flags s ≡ 2 → IsLive present (sc.exclusive_ids s)

    pub record IsCoherent (c : Caches M) : Type 0 where
      pub each : (p : ℕ) → IsLive present p → IsConsistent c.scache p (c.dcaches p)
      pub kept : (t : ℕ) → t % 16 ≡ 0 → bus.answers t ≡ true → IsKept c t
      pub entries : (s : ℕ) → c.scache.flags s ≢ 0 → IsEntry c.scache s

-- ===== src/Cpu/Blocks/Consistent/Initial.antt =====
-- The blocks of a new processor.
use xremu.Base.{ℕ, zero, suc, ◌≡◌, ◌≤◌, refl, arith, true, false, Option}
use xremu.Cpu.Blocks.{Slot, path, entry, Link, Iblock, has}
use xremu.Cpu.Blocks.Start.{iblock_count, push_all, initialize_blocks}
use xremu.Cpu.Blocks.Consistent.{IsOpen, IsConsistent, distinct}
use xremu.Cpu.Blocks.Consistent.Stocked.{IsStocked}

has-push_all : (n b : ℕ) → n ≤ b → has (push_all n) b ≡ false
unfolding push_all
has-push_all zero b h = refl
has-push_all (suc n) b h = ground (arith, h, has-push_all n b)

pub distinct-push_all : (n : ℕ) → distinct (push_all n) ≡ true
unfolding push_all
distinct-push_all zero = refl
distinct-push_all (suc n) = ground (arith, has-push_all n n, distinct-push_all n)

module _ (blocks : ℕ → Iblock) (cached_by : ℕ → ℕ → Option Slot) (links : Slot → Link)
    (table_pcs : ℕ → ℕ → ℕ) (vpns references : ℕ → ℕ) where
  -- The blocks of a new processor have right pointers, whatever the allocated memory held, and
  -- there are a free page and a free block.
  pub initialize_blocks-IsConsistent :
      IsConsistent (initialize_blocks blocks cached_by links table_pcs vpns references)
      × IsStocked (initialize_blocks blocks cached_by links table_pcs vpns references)
  unfolding push_all
  initialize_blocks-IsConsistent = (
    record {
      linked = λ s b o e. absurd (ground (arith, nothing_open s o));
      apart = λ b f. refl;
      free = distinct-push_all iblock_count;
      used = refl;
      hashed = λ n b there. absurd (ground (arith, there));
      defined = refl;
      tabled = λ b active e. absurd (ground (arith, active));
    },
    record { page = (2047, ground arith); blocks = λ empty. absurd (ground (arith, empty)) },
  )
    where
      nothing_open :
          (s : Slot)
          → IsOpen (initialize_blocks blocks cached_by links table_pcs vpns references) s
          → true ≡ false
      nothing_open (path b i) (active, lt) = ground (arith, active)
      nothing_open (entry t k) (b, active, e, lt) = ground (arith, active)

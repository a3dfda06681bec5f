-- ===== src/Cpu/Translate/Miss.antt =====
-- A TB miss, and the return from its handler.
use xremu.Base.{
  ℕ, ◌+◌, ◌*◌, ◌/◌, ◌%◌, ◌^◌, ◌<◌, ◌≡◌, ◌≢◌, refl, arith, bit_and, bit_or, ◌==◌, true, false, Bool,
  if◌then◌else◌, ◌<<◌, ◌>>◌, all_below, Option, some, none, subst, if_cases, all_below_sound, ==→eq,
}
use xremu.Bits.{bit_or-zero}
use xremu.Bits.Fields.{bit_or-split}
use xremu.Cpu.State.{Processor, itbtag, dtbtag, tb_size, rs, eb, tbpc, tbmissaddr}
use xremu.Cpu.Exception.{pushed, entry_mode, push_mode, vector_exception}
use xremu.Cpu.Exception.Words.{pushed_lem, entry_mode_lem, new_mode}
use xremu.Cpu.Result.{trivial_exit}
use xremu.Cpu.System.{execute_rfe}
use xremu.Cpu.System.Return.{rfe-state, miss_bit}
use xremu.Cpu.Translate.{
  save_miss, itb_miss, dtb_miss, entry_for, lookup_itb, lookup_dtb, Lookup, found, hit, missed,
  find_entry, matching,
}

with_bit_table : all_below 16 (λ m. bit_or m 8 == m / 16 * 16 + m % 8 + 8) ≡ true
unfolding all_below
with_bit_table = refl

with_bit : (x : ℕ) → bit_or x 8 ≡ x / 16 * 16 + x % 8 + 8
with_bit x = ground (
  arith,
  bit_or-split 4 x 8,
  bit_or-zero (x / 2 ^ 4),
  ==→eq _ _ (all_below_sound 16 _ (x % 16) with_bit_table (omega arith)),
)

-- the status register of a miss, in the handler
abbrev in_miss : ℕ → ℕ
in_miss old = bit_or (pushed old) 8

abbrev missed_rs : ℕ → ℕ
missed_rs old = bit_or (bit_and (in_miss old) 0xFFFFFF00) (entry_mode (in_miss old))

missed_rs_lem :
    (x : ℕ)
    → x < 2 ^ 32
    → (missed_rs x / 2 ^ 28 ≡ x / 2 ^ 28)
      × (missed_rs x / 2 ^ 8 % 2 ^ 16 ≡ x % 2 ^ 16)
      × (missed_rs x % 4 ≡ 0)
      × (missed_rs x / 8 % 2 ≡ 1)
      × (missed_rs x < 2 ^ 32)
missed_rs_lem x h = omega (
  arith,
  pushed_lem x h,
  with_bit (pushed x),
  entry_mode_lem (in_miss x),
  new_mode (in_miss x) (entry_mode (in_miss x)) (omega (arith, pushed_lem x h, with_bit (pushed x)))
      (entry_mode_lem (in_miss x)).0,
)

vector-state :
    (q : Processor)
    → (exc : ℕ) → q.cr eb ≢ 0
    → ((vector_exception q exc).pc ≡ bit_or (q.cr eb) (exc << 8))
      × ((vector_exception q exc).cr rs
          ≡ bit_or (bit_and (q.cr rs) 0xFFFFFF00) (entry_mode (q.cr rs)))
      × ((vector_exception q exc).cr tbpc ≡ q.cr tbpc)
      × ((vector_exception q exc).cr tbmissaddr ≡ q.cr tbmissaddr)
unfolding vector_exception
vector-state q exc ne = ground arith

saved-state :
    (p : Processor)
    → (virtual : ℕ) → p.cr rs / 8 % 2 ≡ 0
    → ((save_miss p virtual).cr rs ≡ in_miss (p.cr rs))
      × ((save_miss p virtual).cr tbpc ≡ p.pc)
      × ((save_miss p virtual).cr tbmissaddr ≡ virtual)
      × ((save_miss p virtual).cr eb ≡ p.cr eb)
unfolding save_miss push_mode
saved-state p virtual clear = ground (arith, miss_bit (p.cr rs))

-- A miss outside the handling of one, by its effect on the registers that the handler reads.
data IsMissed (p : Processor) (exc : ℕ) (virtual : ℕ) (q : Processor) : Type 0 where
  is_missed :
      q.pc ≡ bit_or (p.cr eb) (exc << 8)
      → q.cr rs ≡ missed_rs (p.cr rs)
      → q.cr tbpc ≡ p.pc
      → q.cr tbmissaddr ≡ virtual
      → IsMissed p exc virtual q

vectored-IsMissed :
    (p : Processor)
    → (exc virtual : ℕ) → p.cr eb ≢ 0
    → p.cr rs / 8 % 2 ≡ 0
    → IsMissed p exc virtual (vector_exception (save_miss p virtual) exc)
vectored-IsMissed p exc virtual ne clear =
    let at = saved-state p virtual clear in
    let entry = vector-state (save_miss p virtual) exc (ground (arith, at)) in
    is_missed (ground (arith, at, entry)) (ground (arith, at, entry)) (ground (arith, at, entry))
      (ground (arith, at, entry))

-- in the handler, and back by RFE to where the miss was
abbrev pub IsHandled : Processor → ℕ → ℕ → Processor → Type 0
IsHandled p exc virtual q =
    (q.pc ≡ bit_or (p.cr eb) (exc << 8))
    × (q.cr tbmissaddr ≡ virtual)
    × (q.cr rs % 4 ≡ 0)
    × (q.cr rs / 8 % 2 ≡ 1)
    × ((execute_rfe q).proc.pc ≡ p.pc)
    × ((execute_rfe q).proc.cr rs ≡ p.cr rs / 2 ^ 28 * 2 ^ 28 + p.cr rs % 2 ^ 16)
    × ((execute_rfe q).exit ≡ trivial_exit)

handled :
    (p q : Processor)
    → (exc virtual : ℕ) → p.cr rs < 2 ^ 32
    → IsMissed p exc virtual q
    → IsHandled p exc virtual q
handled p q exc virtual h (is_missed at mode back address) =
    ground (arith, at, mode, back, address, missed_rs_lem (p.cr rs) h, rfe-state q)

itb_miss-IsHandled :
    (p : Processor) (virtual : ℕ)
    → p.cr eb ≢ 0
    → p.cr rs < 2 ^ 32
    → p.cr rs / 8 % 2 ≡ 0
    → IsHandled p 14 virtual (itb_miss p virtual)
unfolding itb_miss
itb_miss-IsHandled p virtual ne h clear =
    handled _ _ 14 virtual h (vectored-IsMissed _ 14 virtual ne clear)

dtb_miss-IsHandled :
    (p : Processor) (virtual : ℕ) (writing : Bool)
    → p.cr eb ≢ 0
    → p.cr rs < 2 ^ 32
    → p.cr rs / 8 % 2 ≡ 0
    → IsHandled p 15 virtual (dtb_miss p virtual writing)
unfolding dtb_miss
dtb_miss-IsHandled p virtual writing ne h clear =
    handled _ _ 15 virtual h (vectored-IsMissed _ 15 virtual ne clear)

data IfMissed (p : Processor) (exc virtual : ℕ) : Lookup → Type 0 where
  if_hit : (entry : ℕ) → IfMissed p exc virtual (hit entry)
  if_missed : (q : Processor) → IsHandled p exc virtual q → IfMissed p exc virtual (missed q)

found-IfMissed :
    (p q : Processor) (exc virtual : ℕ) (e : Option ℕ)
    → IsHandled p exc virtual q
    → IfMissed p exc virtual (found e q)
found-IfMissed p q exc virtual (some entry) h = if_hit entry
found-IfMissed p q exc virtual none h = if_missed q h

module _ (p : Processor) (virtual : ℕ) (ne : p.cr eb ≢ 0) (h : p.cr rs < 2 ^ 32)
    (clear : p.cr rs / 8 % 2 ≡ 0) where
  lookup_itb-IfMissed : IfMissed p 14 virtual (lookup_itb p virtual)
  unfolding lookup_itb
  lookup_itb-IfMissed =
      found-IfMissed p _ 14 virtual
        (find_entry p.itb (matching (p.cr itbtag) (virtual >> 12)) tb_size 0)
        (itb_miss-IsHandled p virtual ne h clear)

  lookup_dtb-IfMissed : (writing : Bool) → IfMissed p 15 virtual (lookup_dtb p virtual writing)
  unfolding lookup_dtb
  lookup_dtb-IfMissed writing =
      found-IfMissed p _ 15 virtual
        (find_entry p.dtb (matching (p.cr dtbtag) (virtual >> 12)) tb_size 0)
        (dtb_miss-IsHandled p virtual writing ne h clear)

  entry_for-IfMissed :
      (writing ifetch : Bool)
      → IfMissed p (if ifetch then 14 else 15) virtual (entry_for p virtual writing ifetch)
  unfolding entry_for
  entry_for-IfMissed writing true =
      if_cases (IfMissed p 14 virtual) (p.itb_last_vpn == virtual >> 12)
        (λ _. if_hit p.itb_last_result) (λ _. lookup_itb-IfMissed)
  entry_for-IfMissed writing false =
      if_cases (IfMissed p 15 virtual) (p.dtb_last_vpn == virtual >> 12)
        (λ _. if_hit p.dtb_last_result) (λ _. lookup_dtb-IfMissed writing)

from_missed :
    (p q : Processor) (exc virtual : ℕ)
    → IfMissed p exc virtual (missed q)
    → IsHandled p exc virtual q
from_missed p q exc virtual (if_missed _ h) = h

-- When the lookups of XrTranslate find no entry, outside the handling of another TB miss, with an
-- exception block set up and a 32-bit status register, the processor is in the handler of the ITB
-- or DTB miss, in kernel mode with interrupts off, with the missed address saved and the miss
-- marked; RFE then takes it back to the instruction that missed, with the mode stack it had.
pub entry_for-IsHandled :
    (p : Processor) (virtual : ℕ) (writing ifetch : Bool)
    → (q : Processor) → p.cr eb ≢ 0
    → p.cr rs < 2 ^ 32
    → p.cr rs / 8 % 2 ≡ 0
    → entry_for p virtual writing ifetch ≡ missed q
    → IsHandled p (if ifetch then 14 else 15) virtual q
entry_for-IsHandled p virtual writing ifetch q ne h clear eq = from_missed p q _ virtual (
    subst (IfMissed p (if ifetch then 14 else 15) virtual) eq
      (entry_for-IfMissed p virtual ne h clear writing ifetch))

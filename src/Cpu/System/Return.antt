-- ===== src/Cpu/System/Return.antt =====
-- Exception entry, and the return by RFE.
use xremu.Base.{ℕ, ◌+◌, ◌*◌, ◌/◌, ◌%◌, ◌^◌, ◌<◌, ◌≡◌, ◌≢◌, arith, bit_and, bit_or, ◌<<◌}
use xremu.Bits.{bit_and-ones, bit_and-shifted, bit_or-fields}
use xremu.Cpu.State.{Processor, rs, eb, epc, tbpc}
use xremu.Cpu.Exception.{
  pushed, with_ecause, entry_mode, push_mode, set_ecause, vector_exception, basic_exception,
}
use xremu.Cpu.Exception.Words.{pushed_lem, with_ecause_lem, entry_mode_lem, new_mode}
use xremu.Cpu.Result.{trivial_exit}
use xremu.Cpu.System.{popped, execute_rfe}

popped_lem : (x : ℕ) → x < 2 ^ 32 → popped x ≡ x / 2 ^ 28 * 2 ^ 28 + x / 2 ^ 8 % 2 ^ 16
popped_lem x h = ground (
  arith,
  bit_and-shifted 28 x 15,
  bit_and-ones 4 (x / 2 ^ 28),
  bit_and-ones 16 (x / 2 ^ 8),
  bit_or-fields 16 (x / 2 ^ 28 * 2 ^ 12) (x / 2 ^ 8 % 2 ^ 16),
)

-- the status register as the handler of exception `exc` finds it
abbrev entered : ℕ → ℕ → ℕ
entered old exc =
    bit_or (bit_and (with_ecause (pushed old) exc) 0xFFFFFF00)
      (entry_mode (with_ecause (pushed old) exc))

pub entered_lem :
    (x exc : ℕ)
    → x < 2 ^ 32
    → exc < 16
    → (entered x exc / 2 ^ 28 ≡ exc)
      × (entered x exc / 2 ^ 8 % 2 ^ 16 ≡ x % 2 ^ 16)
      × (entered x exc % 4 ≡ 0)
      × (entered x exc / 8 % 2 ≡ x / 8 % 2)
      × (entered x exc < 2 ^ 32)
entered_lem x exc h small = omega (
  arith,
  pushed_lem x h,
  with_ecause_lem (pushed x) exc (omega (arith, pushed_lem x h)) small,
  entry_mode_lem (with_ecause (pushed x) exc),
  new_mode (with_ecause (pushed x) exc) (entry_mode (with_ecause (pushed x) exc))
      (omega (arith, with_ecause_lem (pushed x) exc (omega (arith, pushed_lem x h)) small))
      (entry_mode_lem (with_ecause (pushed x) exc)).0,
)

-- where the handler of an exception starts
entry-state :
    (p : Processor)
    → (exc pc : ℕ) → p.cr eb ≢ 0
    → ((basic_exception p exc pc).cr rs ≡ entered (p.cr rs) exc)
      × ((basic_exception p exc pc).pc ≡ bit_or (p.cr eb) (exc << 8))
      × ((basic_exception p exc pc).cr epc ≡ pc)
unfolding basic_exception vector_exception set_ecause push_mode
entry-state p exc pc ne = ground arith

-- An exception of a code below 16, with an exception block set up and a 32-bit status register,
-- enters its handler in kernel mode with interrupts off, with the program counter saved and the
-- code in the status register.
pub basic_exception-IsEntered :
    (p : Processor)
    → (exc pc : ℕ) → p.cr eb ≢ 0
    → p.cr rs < 2 ^ 32
    → exc < 16
    → ((basic_exception p exc pc).pc ≡ bit_or (p.cr eb) (exc << 8))
      × ((basic_exception p exc pc).cr epc ≡ pc)
      × ((basic_exception p exc pc).cr rs % 4 ≡ 0)
      × ((basic_exception p exc pc).cr rs / 2 ^ 28 ≡ exc)
basic_exception-IsEntered p exc pc ne h small =
    ground (arith, entry-state p exc pc ne, entered_lem (p.cr rs) exc h small)

pub mode_bit : (x : ℕ) → bit_and x 1 ≡ x % 2
mode_bit x = omega (arith, bit_and-ones 1 x)

pub miss_bit : (x : ℕ) → bit_and x 8 ≡ x / 8 % 2 * 8
miss_bit x = omega (arith, bit_and-shifted 3 x 1, bit_and-ones 1 (x / 8))

-- RFE in kernel mode, after an exception and after a TB miss
pub rfe-state :
    (q : Processor)
    → q.cr rs < 2 ^ 32
    → q.cr rs % 2 ≡ 0
    → ((execute_rfe q).exit ≡ trivial_exit)
      × ((execute_rfe q).proc.cr rs ≡ q.cr rs / 2 ^ 28 * 2 ^ 28 + q.cr rs / 2 ^ 8 % 2 ^ 16)
      × (q.cr rs / 8 % 2 ≡ 0 → (execute_rfe q).proc.pc ≡ q.cr epc)
      × (q.cr rs / 8 % 2 ≡ 1 → (execute_rfe q).proc.pc ≡ q.cr tbpc)
unfolding execute_rfe
rfe-state q h kernel =
    ground (arith, mode_bit (q.cr rs), miss_bit (q.cr rs), popped_lem (q.cr rs) h)

-- RFE undoes the entry into an exception of a code below 16: with an exception block set up, a
-- 32-bit status register and no TB miss being handled, it resumes at the saved program counter with
-- the saved mode stack, and the exception's code stays in the status register.
pub execute_rfe-basic_exception :
    (p : Processor)
    → (exc pc : ℕ) → p.cr eb ≢ 0
    → p.cr rs < 2 ^ 32
    → p.cr rs / 8 % 2 ≡ 0
    → exc < 16
    → ((execute_rfe (basic_exception p exc pc)).proc.pc ≡ pc)
      × ((execute_rfe (basic_exception p exc pc)).proc.cr rs ≡ exc * 2 ^ 28 + p.cr rs % 2 ^ 16)
      × ((execute_rfe (basic_exception p exc pc)).exit ≡ trivial_exit)
execute_rfe-basic_exception p exc pc ne h clear small = ground (
  arith,
  entry-state p exc pc ne,
  entered_lem (p.cr rs) exc h small,
  rfe-state (basic_exception p exc pc),
)

-- ===== src/Lsic/Tests.antt =====
-- Runs of the controller on concrete registers.
use xremu.Bits.{test_bit}
use xremu.Base.{ℕ, ◌⊎◌, max, ◌≤◌, none, some, ◌≡◌, ◌≢◌, ◌↔◌, refl, arith, true, Bool, ltb}
use xremu.Lsic.{
  Lsic, initial, write_one, interrupt_targeted, claim, claim_from, write_register, write_pending,
  set_ipl, refresh, lsic_write, lsic_interrupt,
}
use xremu.Lsic.Inv.{IsValid, initial-IsValid, flag-iff-claim, ClaimsLowest, claim-ClaimsLowest}
use xremu.Lsic.Write.{write_one-IsValid, interrupt_targeted-IsValid}
use xremu.Lsic.Pending.{pending_digit, pending_digit-write_pending}
use xremu.Lsic.Table.{lsic_write-AllValid, AllValid, lsic_interrupt_cases, IsSent}

-- level 63, then interrupts 40 and 3
abbrev open_level : Lsic
open_level = (write_one initial 5 63).1

abbrev raised : Lsic
raised = interrupt_targeted (interrupt_targeted open_level 40) 3

open_level-IsValid : IsValid open_level
open_level-IsValid = write_one-IsValid 5 63 initial-IsValid (omega arith)

raised-IsValid : IsValid raised
raised-IsValid =
    interrupt_targeted-IsValid 3
      (interrupt_targeted-IsValid 40 open_level-IsValid (omega arith) (omega arith)) (omega arith)
      (omega arith)

raised_claims : claim raised ≡ 3
unfolding claim claim_from interrupt_targeted refresh write_one write_register set_ipl
raised_claims = refl

-- Interrupt 32 cannot be raised by a write to the second pending register.
second_word_loses_32 : (write_one open_level 3 1).1.registers 3 ≡ 0
unfolding write_one write_register write_pending refresh set_ipl
second_word_loses_32 = refl

flag-iff-claim_example : (raised.interrupt_pending ≡ true) ↔ (claim raised ≢ 0)
flag-iff-claim_example = flag-iff-claim raised-IsValid

claim-ClaimsLowest_example : ClaimsLowest raised (claim raised)
claim-ClaimsLowest_example = claim-ClaimsLowest raised-IsValid

-- two processors, all controllers in reset
abbrev two_cpus : ℕ → Bool
two_cpus id = ltb id 2

abbrev reset_table : ℕ → Lsic
reset_table _ = initial

reset_table-AllValid : AllValid reset_table
reset_table-AllValid id = initial-IsValid

lsic_write-AllValid_example : AllValid (lsic_write two_cpus reset_table 13 63).1
lsic_write-AllValid_example =
    lsic_write-AllValid two_cpus reset_table 13 63 reset_table-AllValid (omega arith)

-- a device's interrupt number
abbrev timer : ℕ
timer = 40

lsic_interrupt_cases_example :
    ((lsic_interrupt two_cpus reset_table timer ≡ none) × ((timer ≡ 0) ⊎ (64 ≤ timer)))
    ⊎ ((t : ℕ → Lsic) × (lsic_interrupt two_cpus reset_table timer ≡ some t)
        × IsSent two_cpus reset_table timer t)
lsic_interrupt_cases_example = lsic_interrupt_cases two_cpus reset_table timer

pending_digit-write_pending_example :
    pending_digit (write_pending raised 2 6) 2 ≡ max (pending_digit raised 2) (test_bit 6 2)
pending_digit-write_pending_example =
    pending_digit-write_pending raised 0 6 2 (omega arith) (omega arith) (omega arith)

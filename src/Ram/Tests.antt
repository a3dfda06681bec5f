-- ===== src/Ram/Tests.antt =====
-- Runs of the memory boards: slot 0 has 4 MB and slot 4, which the second branch reaches, has 64 bytes.
use xremu.Base.{ℕ, ◌+◌, ◌*◌, ◌%◌, ◌^◌, ◌≡◌, refl, arith, if◌then◌else◌, ◌==◌}
use xremu.Bus.{bus_error}
use xremu.Ram.{Boards, Slots, ebus_write, ebus_read}
use xremu.Ram.Line.{ebus_read-ebus_write, ebus_write-bus_error}

abbrev two_slots : ℕ → ℕ
two_slots slot = if slot == 0 then 2 ^ 22 else if slot == 4 then 64 else 0

abbrev pattern : Slots
pattern slot o = (slot * 100 + o) % 256

-- Nothing else is behind the bus.
abbrev no_boards : Boards
no_boards = record {
  write = λ branch m address src length. (bus_error, m);
  read = λ branch m address dest length. (bus_error, dest);
}

ebus_read-ebus_write_example :
    (ebus_read two_slots no_boards
        (ebus_write two_slots no_boards pattern 0x8000010 (λ o. o) 16).1
        0x8000010
        (λ _. 0)
        16).1
      5
    ≡ (if 0x8000010 == 0x8000010
        then 5
        else (ebus_read two_slots no_boards pattern 0x8000010 (λ _. 0) 16).1 5)
ebus_read-ebus_write_example =
    ebus_read-ebus_write two_slots no_boards pattern 0x8000010 (λ o. o) (λ _. 0) 0x8000010 refl refl
      refl refl 5 (omega arith)

ebus_write-bus_error_example :
    ((ebus_write two_slots no_boards pattern 0x8000040 (λ o. o) 16).0 ≡ bus_error)
    × ((ebus_read two_slots no_boards pattern 0x8000040 (λ _. 0) 16).0 ≡ bus_error)
    × ((ebus_write two_slots no_boards pattern 0x8000040 (λ o. o) 16).1 4 3 ≡ pattern 4 3)
    × ((ebus_read two_slots no_boards pattern 0x8000040 (λ _. 0) 16).1 3 ≡ 0)
ebus_write-bus_error_example =
    ebus_write-bus_error two_slots no_boards pattern 0x8000040 (λ o. o) (λ _. 0) 4 3 (omega arith)
      refl

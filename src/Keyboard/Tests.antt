-- ===== src/Keyboard/Tests.antt =====
-- Runs of the keyboard.
use xremu.Base.{ℕ, ◌≡◌, ◌≤◌, refl, arith, false, suc}
use xremu.Keyboard.{Keyboard, pop_from, keyboard_action, keyboard_pressed, keyboard_released}
use xremu.Keyboard.Reported.{IsReported, pops, keyboard_action-IsReported}

abbrev idle : Keyboard
idle = record {
  port_a = 0xFFFF;
  interrupt_number = 49;
  outstanding_pressed = λ i. false;
  outstanding_released = λ i. false;
  pressed = λ i. false;
}

-- Key 6 goes down, and key 3 up.
abbrev busy : Keyboard
busy = (keyboard_released (keyboard_pressed idle 6).0 3).0

second_report : (keyboard_action (keyboard_action busy 1).0 1).0.port_a ≡ 5
unfolding keyboard_action pop_from keyboard_pressed keyboard_released
second_report = refl

keyboard_action-IsReported_example : (n : ℕ) × (n ≤ 5) × IsReported (pops (suc n) busy) 5
unfolding keyboard_pressed keyboard_released
keyboard_action-IsReported_example = keyboard_action-IsReported busy 5 (omega arith) refl

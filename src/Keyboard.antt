-- ===== src/Keyboard.antt =====
-- src/keybd.c: the keyboard, a device behind the Amtsu controller (`struct AmtsuDevice`, src/amtsu.h).

mod Tests
pub mod Reported
use xremu.Base.{
  ℕ, zero, suc, ◌+◌, ◌-◌, Bool, true, false, ◌==◌, leb, if◌then◌else◌, update, bit_or, Option, none,
  some,
}

-- KEYBDMAXCODE
abbrev pub keybd_max_code : ℕ
keybd_max_code = 85

-- `PortAValue` and `InterruptNumber` of the device, and the keys.
pub record Keyboard : Type 0 where
  pub port_a : ℕ
  pub interrupt_number : ℕ
  pub outstanding_pressed : ℕ → Bool
  pub outstanding_released : ℕ → Bool
  pub pressed : ℕ → Bool

-- `KeyboardReset`
unfoldable pub keyboard_reset : Keyboard → Keyboard
keyboard_reset k = record k {
  port_a = 0xFFFF;
  outstanding_pressed = λ i. false;
  outstanding_released = λ i. false;
  pressed = λ i. false;
}

abbrev pub report_released : Keyboard → ℕ → Keyboard
report_released k i = record k {
  port_a = bit_or i 0x8000;
  outstanding_released = update k.outstanding_released i false;
  outstanding_pressed = update k.outstanding_pressed i false;
}

abbrev pub report_pressed : Keyboard → ℕ → Keyboard
report_pressed k i = record k {
  port_a = i;
  outstanding_pressed = update k.outstanding_pressed i false;
}

-- The loop of case 1 over `n` codes from `i` on; with no code there is nothing.
unfoldable pub pop_from : Keyboard → ℕ → ℕ → Option Keyboard
pop_from k zero i = none
pop_from k (suc n) i =
    let rest = pop_from k n (i + 1) in
    if k.outstanding_released i
    then some (report_released k i)
    else if k.outstanding_pressed i
    then some (report_pressed k i)
    else rest

-- Nothing was found; `true` says that XrDecrementProgress is called.
abbrev pub popped_or_empty : Keyboard → Option Keyboard → Keyboard × Bool
popped_or_empty k none = (record k { port_a = 0xFFFF }, true)
popped_or_empty k (some l) = (l, false)

abbrev pub check_key : Keyboard → Keyboard × Bool
check_key k =
    if leb k.port_a keybd_max_code
    then if k.pressed k.port_a
      then (record k { port_a = 1 }, false)
      else (record k { port_a = 0 }, true)
    else (record k { port_a = 0 }, false)

-- `KeyboardAction`
unfoldable pub keyboard_action : Keyboard → ℕ → Keyboard × Bool
keyboard_action k value =
    if value == 1
    then popped_or_empty k (pop_from k (keybd_max_code + 1) 0)
    else if value == 2
    then (keyboard_reset k, false)
    else if value == 3
    then check_key k
    else (k, false)

-- The interrupt to raise, if the device has one.
abbrev pub raised : Keyboard → Option ℕ
raised k = if k.interrupt_number == 0 then none else some k.interrupt_number

-- `KeyboardPressed` and `KeyboardReleased`, of a key with the code `KeyMap[sdlscancode].code`
unfoldable pub keyboard_pressed : Keyboard → ℕ → Keyboard × Option ℕ
keyboard_pressed k code = if code == 0 then (k, none) else (
  record k {
    outstanding_pressed = update k.outstanding_pressed (code - 1) true;
    pressed = update k.pressed (code - 1) true;
  },
  raised k,
)

unfoldable pub keyboard_released : Keyboard → ℕ → Keyboard × Option ℕ
keyboard_released k code = if code == 0 then (k, none) else (
  record k {
    outstanding_released = update k.outstanding_released (code - 1) true;
    pressed = update k.pressed (code - 1) false;
  },
  raised k,
)

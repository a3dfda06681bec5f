-- ===== src/Mouse.antt =====
-- src/mouse.c: the mouse, a device behind the Amtsu controller (`struct AmtsuDevice`, src/amtsu.h).
use xremu.Base.{
  ℕ, ◌+◌, ◌%◌, ◌^◌, ◌≡◌, ◌≢◌, arith, Bool, true, false, ◌&&◌, ◌==◌, ◌!=◌, leb, if◌then◌else◌,
  bit_and, bit_or, ◌<<◌, Option, none, some,
}

-- The ports and `InterruptNumber` of the device, and what has happened. A difference is a 32-bit word.
pub record Mouse : Type 0 where
  pub port_a : ℕ
  pub port_b : ℕ
  pub interrupt_number : ℕ
  pub pressed_button : ℕ
  pub released_button : ℕ
  pub moved : ℕ
  pub dx : ℕ
  pub dy : ℕ

-- `MouseReset`, which leaves `MouseMovedV` alone.
unfoldable pub mouse_reset : Mouse → Mouse
mouse_reset m = record m {
  port_a = 0;
  port_b = 0;
  pressed_button = 0;
  released_button = 0;
  dx = 0;
  dy = 0;
}

-- Case 1 of the action; `true` says that XrDecrementProgress is called.
unfoldable pub read_info : Mouse → Mouse × Bool
read_info m =
    if m.pressed_button != 0
    then (record m { port_a = 1; port_b = m.pressed_button; pressed_button = 0 }, false)
    else if m.released_button != 0
    then (record m { port_a = 2; port_b = m.released_button; released_button = 0 }, false)
    else if m.moved != 0
    then (record m { port_a = 3; port_b = m.moved; dx = 0; dy = 0; moved = 0 }, false)
    else (record m { port_a = 0 }, true)

-- `MouseAction`
unfoldable pub mouse_action : Mouse → ℕ → Mouse × Bool
mouse_action m value =
    if value == 1 then read_info m else if value == 2 then (mouse_reset m, false) else (m, false)

-- The interrupt to raise, if the device has one.
abbrev raises : Mouse → Option ℕ
raises m = if m.interrupt_number == 0 then none else some m.interrupt_number

-- The host's buttons 2 and 3 change places.
abbrev button_number : ℕ → ℕ
button_number button = if button == 3 then 2 else if button == 2 then 3 else button

-- `MousePressed` and `MouseReleased`
unfoldable pub mouse_pressed : Mouse → ℕ → Mouse × Option ℕ
mouse_pressed m button =
    if leb 1 button && leb button 3
    then (record m { pressed_button = button_number button }, raises m)
    else (m, none)

unfoldable pub mouse_released : Mouse → ℕ → Mouse × Option ℕ
mouse_released m button =
    if leb 1 button && leb button 3
    then (record m { released_button = button_number button }, raises m)
    else (m, none)

-- `MouseMoved`
unfoldable pub mouse_moved : Mouse → ℕ → ℕ → Mouse × Option ℕ
mouse_moved m dx dy =
    let x = (m.dx + dx) % 2 ^ 32 in
    let y = (m.dy + dy) % 2 ^ 32 in
    (
      record m { dx = x; dy = y; moved = bit_or (bit_and x 0xFFFF << 16) (bit_and y 0xFFFF) },
      raises m,
    )

-- A move from before a reset is reported after it.
pub reset_keeps_move :
    (m : Mouse) → m.moved ≢ 0 → (mouse_action (mouse_reset m) 1).0.port_b ≡ m.moved
unfolding mouse_action read_info mouse_reset
reset_keeps_move m moved = ground (arith, moved)

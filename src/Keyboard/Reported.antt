-- ===== src/Keyboard/Reported.antt =====
-- Every key that was pressed or released is reported.
use xremu.Base.{
  ℕ, zero, suc, ◌+◌, ◌≡◌, ◌≢◌, ◌<◌, ◌≤◌, refl, arith, Bool, true, false, ◌||◌, if◌then◌else◌,
  if_cases, Option, none, some, ap, sym, subst, bit_or, ◌∙◌, ◌⊎◌, inl, inr,
}
use native.Mathlib.Decide.{ℕ_discrete}
use xremu.Keyboard.{
  Keyboard, keybd_max_code, report_released, report_pressed, pop_from, popped_or_empty,
  keyboard_action,
}

ℕ_le_total : (m n : ℕ) → (m ≤ n) ⊎ (n < m)
ℕ_le_total m n = omega arith

abbrev pub outstanding : Keyboard → ℕ → Bool
outstanding k i = k.outstanding_released i || k.outstanding_pressed i

-- The code and the keyboard after its report
pub data IsPopped (k : Keyboard) (from : ℕ) : Option Keyboard → Type 0 where
  nothing :
      ((j : ℕ) → from ≤ j → j ≤ keybd_max_code → outstanding k j ≡ false) → IsPopped k from none
  released :
      (i : ℕ)
      → i ≤ keybd_max_code
      → k.outstanding_released i ≡ true
      → ((j : ℕ) → from ≤ j → j < i → outstanding k j ≡ false)
      → IsPopped k from (some (report_released k i))
  pressed :
      (i : ℕ)
      → i ≤ keybd_max_code
      → k.outstanding_released i ≡ false
      → k.outstanding_pressed i ≡ true
      → ((j : ℕ) → from ≤ j → j < i → outstanding k j ≡ false)
      → IsPopped k from (some (report_pressed k i))

pop_from-IsPopped :
    (k : Keyboard) (n i : ℕ) → i + n ≡ keybd_max_code + 1 → IsPopped k i (pop_from k n i)
unfolding pop_from
pop_from-IsPopped k zero i e = nothing (λ j le le'. absurd (ground (arith, e, le, le')))
pop_from-IsPopped k (suc n) i e =
    if_cases (IsPopped k i) (k.outstanding_released i) {x = some (report_released k i)}
      {y = if k.outstanding_pressed i then some (report_pressed k i) else rest}
      (λ up. released i (omega (arith, e)) up (λ j le lt. absurd (omega (arith, le, lt))))
      (λ not_up.
        if_cases (IsPopped k i) (k.outstanding_pressed i) {x = some (report_pressed k i)} {y = rest}
          (λ down.
            pressed i (omega (arith, e)) not_up down (λ j le lt. absurd (omega (arith, le, lt))))
          (λ not_down.
            later (ground (arith, not_up, not_down)) rest
              (pop_from-IsPopped k n (i + 1) (omega (arith, e)))))
  where
    rest : Option Keyboard
    rest = pop_from k n (i + 1)

    also :
        outstanding k i ≡ false
        → (j : ℕ) → i ≤ j
        → (i + 1 ≤ j → outstanding k j ≡ false)
        → outstanding k j ≡ false
    also quiet j le after = elim (ℕ_discrete j i) [
      | yes same ↦ ap (outstanding k) same ∙ quiet
      | no ne ↦ after (omega (arith, le, ne))
    ]

    later : outstanding k i ≡ false → (o : Option Keyboard) → IsPopped k (i + 1) o → IsPopped k i o
    later quiet _ (nothing none_after) =
        nothing (λ j le le'. also quiet j le (λ more. none_after j more le'))
    later quiet _ (released c le up before) =
        released c le up (λ j le' lt. also quiet j le' (λ more. before j more lt))
    later quiet _ (pressed c le not_up down before) =
        pressed c le not_up down (λ j le' lt. also quiet j le' (λ more. before j more lt))

-- Case 1 of the action
abbrev pub pop : Keyboard → Keyboard
pop k = (keyboard_action k 1).0

abbrev pub pops : ℕ → Keyboard → Keyboard
pops zero k = k
pops (suc n) k = pops n (pop k)

-- Port A holds the code, with the highest of the 16 bits set for a release.
abbrev pub IsReported : Keyboard → ℕ → Type 0
IsReported k i = (k.port_a ≡ i) ⊎ (k.port_a ≡ bit_or i 0x8000)

-- The next report of an outstanding code: the code itself, or a lower one, of which nothing is left.
data IsNearer (k : Keyboard) (i : ℕ) (l : Keyboard) : Type 0 where
  here : IsReported l i → IsNearer k i l
  lower :
      (c : ℕ)
      → c < i
      → outstanding k c ≡ true
      → outstanding l i ≡ true
      → ((j : ℕ) → j ≤ c → outstanding l j ≡ false)
      → IsNearer k i l

-- What a report leaves
report_released_other :
    (k : Keyboard) (c j : ℕ) → j ≢ c → outstanding (report_released k c) j ≡ outstanding k j
report_released_other k c j ne = ground (arith, ne)

report_released_self : (k : Keyboard) (c : ℕ) → outstanding (report_released k c) c ≡ false
report_released_self k c = ground arith

report_pressed_other :
    (k : Keyboard) (c j : ℕ) → j ≢ c → outstanding (report_pressed k c) j ≡ outstanding k j
report_pressed_other k c j ne = ground (arith, ne)

report_pressed_self :
    (k : Keyboard) (c : ℕ)
    → k.outstanding_released c ≡ false
    → outstanding (report_pressed k c) c ≡ false
report_pressed_self k c not_up = ground (arith, not_up)

module _ (k : Keyboard) (i : ℕ) (small : i ≤ keybd_max_code) (there : outstanding k i ≡ true) where
  not_above : (c : ℕ) → ((j : ℕ) → 0 ≤ j → j < c → outstanding k j ≡ false) → c ≤ i
  not_above c before = elim (ℕ_le_total c i) [
    | inl le ↦ le
    | inr lt ↦ absurd (ground (arith, there, before i (omega arith) lt))
  ]

  nearer :
      (c : ℕ) (l : Keyboard)
      → outstanding k c ≡ true
      → ((j : ℕ) → 0 ≤ j → j < c → outstanding k j ≡ false)
      → IsReported l c
      → ((j : ℕ) → j ≢ c → outstanding l j ≡ outstanding k j)
      → outstanding l c ≡ false
      → IsNearer k i l
  nearer c l is before reported others quiet = elim (ℕ_discrete c i) [
    | yes same ↦ here (subst (IsReported l) same reported)
    | no ne ↦
        lower c (omega (arith, not_above c before, ne)) is (others i (λ e. ne (sym e)) ∙ there)
          (λ j le. elim (ℕ_discrete j c) [
            | yes e ↦ ap (outstanding l) e ∙ quiet
            | no ne' ↦ others j ne' ∙ before j (omega arith) (omega (arith, le, ne'))
          ])
  ]

  popped-IsNearer : (o : Option Keyboard) → IsPopped k 0 o → IsNearer k i (popped_or_empty k o).0
  popped-IsNearer _ (nothing none_there) =
      absurd (ground (arith, there, none_there i (omega arith) small))
  popped-IsNearer _ (released c le up before) =
      nearer c (report_released k c) (ground (arith, up)) before (inr refl)
        (report_released_other k c) (report_released_self k c)
  popped-IsNearer _ (pressed c le not_up down before) =
      nearer c (report_pressed k c) (ground (arith, down)) before (inl refl)
        (report_pressed_other k c) (report_pressed_self k c not_up)

  pop-IsNearer : IsNearer k i (pop k)
  unfolding keyboard_action
  pop-IsNearer =
      popped-IsNearer (pop_from k (keybd_max_code + 1) 0)
        (pop_from-IsPopped k (keybd_max_code + 1) 0 refl)

within :
    (m : ℕ) (k : Keyboard) (i : ℕ)
    → i ≤ keybd_max_code
    → outstanding k i ≡ true
    → ((j : ℕ) → j + m < i → outstanding k j ≡ false)
    → (n : ℕ) × (n ≤ m) × IsReported (pops (suc n) k) i
within zero k i small there none_below = by_next (pop k) (pop-IsNearer k i small there)
  where
    by_next : (l : Keyboard) → IsNearer k i l → (n : ℕ) × (n ≤ 0) × IsReported (pops n l) i
    by_next l (here reported) = (0, omega arith, reported)
    by_next l (lower c lt is still quiet) =
        absurd (ground (arith, is, none_below c (omega (arith, lt))))
within (suc m) k i small there none_below =
    by_next (pop k) (pop-IsNearer k i small there) (λ l. within m l i small)
  where
    by_next :
        (l : Keyboard)
        → IsNearer k i l
        → ((l' : Keyboard)
            → outstanding l' i ≡ true
            → ((j : ℕ) → j + m < i → outstanding l' j ≡ false)
            → (n : ℕ) × (n ≤ m) × IsReported (pops (suc n) l') i)
        → (n : ℕ) × (n ≤ suc m) × IsReported (pops n l) i
    by_next l (here reported) rest = (0, omega arith, reported)
    by_next l (lower c lt is still quiet) rest =
        let (n, le, reported) = rest l still (λ j far. quiet j (close c is j far)) in
        (suc n, omega (arith, le), reported)
      where
        close : (c' : ℕ) → outstanding k c' ≡ true → (j : ℕ) → j + m < i → j ≤ c'
        close c' is' j far = elim (ℕ_le_total j c') [
          | inl le ↦ le
          | inr lt' ↦ absurd (ground (arith, is', none_below c' (omega (arith, far, lt'))))
        ]

-- Every key whose press or release has not been reported is: when its code is at most KEYBDMAXCODE,
-- it is the one that port A holds after some read of a scancode, of which at most as many come
-- before as there are lower codes, whatever other keys wait.
pub keyboard_action-IsReported :
    (k : Keyboard) (i : ℕ)
    → i ≤ keybd_max_code
    → outstanding k i ≡ true
    → (n : ℕ) × (n ≤ i) × IsReported (pops (suc n) k) i
keyboard_action-IsReported k i small there =
    within i k i small there (λ j lt. absurd (omega (arith, lt)))

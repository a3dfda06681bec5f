-- ===== src/Ram/Line.antt =====
-- The memory boards as the caches use them: the lines of the interface `LineBus`.
use xremu.Base.{
  if_cases, refl, ℕ, ◌+◌, ◌-◌, ◌/◌, ◌%◌, ◌^◌, ◌≡◌, ◌≢◌, ◌<◌, ◌∙◌, sym, ap, arith, Bool, true, false,
  ◌&&◌, ltb, leb, if◌then◌else◌, bit_and, ◌==◌,
}
use xremu.Bits.{bit_and-ones}
use xremu.Bus.{bus_error}
use xremu.Cpu.Dcache.{Line}
use xremu.Cpu.Caches.{LineBus}
use xremu.Ram.{
  Boards, Slots, ram_write, ram_read, ram_write_ext, ram_read_ext, ebus_write, ebus_read,
}

-- The offset in a slot, in a branch, and in a slot of a branch.
masks :
    (address : ℕ)
    → (bit_and address 0x1FFFFFF ≡ address % 2 ^ 25)
      × (bit_and address 0x7FFFFFF ≡ address % 2 ^ 27)
      × (bit_and (address % 2 ^ 27) 0x1FFFFFF ≡ address % 2 ^ 27 % 2 ^ 25)
      × (bit_and ((address % 2 ^ 27 + 2 ^ 27) % 2 ^ 32) 0x1FFFFFF
          ≡ (address % 2 ^ 27 + 2 ^ 27) % 2 ^ 32 % 2 ^ 25)
masks address = (
  bit_and-ones 25 address,
  bit_and-ones 27 address,
  bit_and-ones 25 (address % 2 ^ 27),
  bit_and-ones 25 ((address % 2 ^ 27 + 2 ^ 27) % 2 ^ 32),
)

module _ (sizes : ℕ → ℕ) where
  -- The 16 bytes at an address are there.
  abbrev pub has_line : ℕ → Bool
  has_line address = ltb address (2 ^ 28) && leb (address % 2 ^ 25 + 16) (sizes (address / 2 ^ 25))

module _ (sizes : ℕ → ℕ) (others : Boards) where
  pub ebus_write_self :
      (m : Slots) (address : ℕ) (l : Line) (o : ℕ)
      → has_line sizes address ≡ true
      → o < 16
      → (ebus_write sizes others m address l 16).1 (address / 2 ^ 25) (address % 2 ^ 25 + o) ≡ l o
  unfolding ebus_write ram_write ram_write_ext
  ebus_write_self m address l o there lt =
      ground (arith, there, lt, ap l (same_byte (address % 2 ^ 25) o), masks address)
    where
      same_byte : (a o : ℕ) → a + o - a ≡ o
      same_byte a o = omega arith

  pub ebus_write_other :
      (m : Slots) (address : ℕ) (l : Line) (t o : ℕ)
      → address % 16 ≡ 0
      → t % 16 ≡ 0
      → has_line sizes address ≡ true
      → o < 16
      → t ≢ address
      → (ebus_write sizes others m address l 16).1 (t / 2 ^ 25) (t % 2 ^ 25 + o)
        ≡ m (t / 2 ^ 25) (t % 2 ^ 25 + o)
  unfolding ebus_write ram_write ram_write_ext
  ebus_write_other m address l t o aligned aligned' there lt ne =
      ground (arith, aligned, aligned', ne, there, lt, masks address)

  pub ebus_read_lem :
      (m : Slots) (address : ℕ) (dest : Line) (o : ℕ)
      → has_line sizes address ≡ true
      → o < 16
      → (ebus_read sizes others m address dest 16).1 o ≡ m (address / 2 ^ 25) (address % 2 ^ 25 + o)
  unfolding ebus_read ram_read ram_read_ext
  ebus_read_lem m address dest o there lt = ground (arith, there, lt, masks address)

  -- The boards are a memory of lines; only lines that are there are used.
  abbrev pub line_of : Slots → ℕ → Line
  line_of m t o = if has_line sizes t then (ebus_read sizes others m t (λ _. 0) 16).1 o else 0

  abbrev pub put_line : Slots → ℕ → Line → Slots
  put_line m t l = if has_line sizes t then (ebus_write sizes others m t l 16).1 else m

  pub line_of-put_line :
      (m : Slots) (t : ℕ) (l : Line) (o : ℕ)
      → has_line sizes t ≡ true
      → o < 16
      → line_of (put_line m t l) t o ≡ l o
  line_of-put_line m t l o there lt =
      ap
        (λ (b : Bool).
          if b
          then (ebus_read sizes others (if b then (ebus_write sizes others m t l 16).1 else m) t
                (λ _. 0) 16).1
              o
          else 0)
        there
      ∙ ebus_read_lem (ebus_write sizes others m t l 16).1 t (λ _. 0) o there lt
      ∙ ebus_write_self m t l o there lt

  pub line_of-put_line_ne :
      (m : Slots) (t : ℕ) (l : Line) (u o : ℕ)
      → t % 16 ≡ 0
      → u % 16 ≡ 0
      → u ≢ t
      → o < 16
      → line_of (put_line m t l) u o ≡ line_of m u o
  line_of-put_line_ne m t l u o aligned aligned' ne lt =
      if_cases (λ (n : Slots). line_of n u o ≡ line_of m u o) (has_line sizes t)
        {x = (ebus_write sizes others m t l 16).1} {y = m}
        (λ there. read_same there (has_line sizes u) refl) (λ gone. refl)
    where
      read_same :
          has_line sizes t ≡ true
          → (v : Bool) → has_line sizes u ≡ v
          → (if v
              then (ebus_read sizes others (ebus_write sizes others m t l 16).1 u (λ _. 0) 16).1 o
              else 0)
            ≡ (if v then (ebus_read sizes others m u (λ _. 0) 16).1 o else 0)
      read_same there true there' =
          ebus_read_lem (ebus_write sizes others m t l 16).1 u (λ _. 0) o there' lt
          ∙ ebus_write_other m t l u o aligned aligned' there lt ne
          ∙ sym (ebus_read_lem m u (λ _. 0) o there' lt)
      read_same there false gone = refl

  abbrev pub ram_bus : LineBus Slots
  ram_bus = record {
    answers = has_line sizes;
    line = line_of;
    put = put_line;
    line-put = λ m t l o aligned there lt. line_of-put_line m t l o there lt;
    line-put_ne =
        λ m t l u o aligned aligned' ne lt. line_of-put_line_ne m t l u o aligned aligned' ne lt;
  }

  -- After a bus write of a line to the memory boards, a bus read of a line gives what was written
  -- at the line that was written, and what was there before at any other, when both lines are there
  -- and start at a multiple of 16, whatever the sizes of the slots.
  pub ebus_read-ebus_write :
      (m : Slots) (address : ℕ) (l dest : Line) (t : ℕ)
      → address % 16 ≡ 0
      → t % 16 ≡ 0
      → has_line sizes address ≡ true
      → has_line sizes t ≡ true
      → (o : ℕ) → o < 16
      → (ebus_read sizes others (ebus_write sizes others m address l 16).1 t dest 16).1 o
        ≡ (if t == address then l o else (ebus_read sizes others m t dest 16).1 o)
  ebus_read-ebus_write m address l dest t aligned aligned' there there' o lt = ground (
    arith,
    there,
    there',
    lt,
    ebus_read_lem (ebus_write sizes others m address l 16).1 t dest o there' lt,
    ebus_read_lem m t dest o there' lt,
    ebus_write_self m address l o there lt,
    ebus_write_other m address l t o aligned aligned' there lt,
    ap (λ (u : ℕ). (ebus_write sizes others m address l 16).1 (u / 2 ^ 25) (u % 2 ^ 25 + o)),
  )

  -- A bus access to a line below 2^28, in the two branches of the memory boards, that is not all
  -- inside its slot is answered with a bus error; a write changes nothing, and a read leaves its
  -- destination as it was.
  pub ebus_write-bus_error :
      (m : Slots) (address : ℕ) (l dest : Line) (slot o : ℕ)
      → address < 2 ^ 28
      → has_line sizes address ≡ false
      → ((ebus_write sizes others m address l 16).0 ≡ bus_error)
        × ((ebus_read sizes others m address dest 16).0 ≡ bus_error)
        × ((ebus_write sizes others m address l 16).1 slot o ≡ m slot o)
        × ((ebus_read sizes others m address dest 16).1 o ≡ dest o)
  unfolding ebus_write ram_write ram_write_ext ebus_read ram_read ram_read_ext
  ebus_write-bus_error m address l dest slot o inside gone = (
    ground (arith, inside, gone, masks address),
    ground (arith, inside, gone, masks address),
    ground (arith, inside, gone, masks address),
    ground (arith, inside, gone, masks address),
  )

-- ===== src/Cpu/Blocks/Consistent/Slots.antt =====
-- What clearing and setting pointers does to them.
use xremu.Base.{
  ℕ, zero, suc, ◌≡◌, ◌≢◌, ◌<◌, ◌∙◌, refl, ap, sym, arith, subst, Bool, true, false, if◌then◌else◌,
  if_cases, List, [], ◌∷◌, Option, none, some, ◌⊎◌, inl, inr,
}
use native.Mathlib.Decide.{ℕ_discrete}
use xremu.Cpu.Blocks.{
  Slot, path, entry, Link, null, to_block, to_table, same_slot, points_to, put, has, remove_entry,
  clear_slot, clear_slots,
}

pub same_slot_self : (s : Slot) → same_slot s s ≡ true
same_slot_self (path b i) = ground arith
same_slot_self (entry t i) = ground arith

pub same_slot-true : (s t : Slot) → same_slot s t ≡ true → s ≡ t
same_slot-true (path b i) (path c j) h =
    let first : b ≡ c = ground (arith, h) in
    let second : i ≡ j = ground (arith, h) in λ k. path (first k) (second k)
same_slot-true (path b i) (entry t j) h = absurd (ground (arith, h))
same_slot-true (entry t i) (path c j) h = absurd (ground (arith, h))
same_slot-true (entry t i) (entry u j) h =
    let first : t ≡ u = ground (arith, h) in
    let second : i ≡ j = ground (arith, h) in λ k. entry (first k) (second k)

abbrev is_null : Link → Bool
is_null null = true
is_null (to_block b) = false
is_null (to_table t) = false

pub block-null : {b : ℕ} → to_block b ≢ null
block-null h = ground (arith, ap is_null h)

pub table-null : {t : ℕ} → to_table t ≢ null
table-null h = ground (arith, ap is_null h)

abbrev block_number : Link → ℕ
block_number null = 0
block_number (to_block b) = b
block_number (to_table t) = 0

pub same_block : {b c : ℕ} → to_block b ≡ to_block c → b ≡ c
same_block h = ap block_number h

abbrev is_block : Link → Bool
is_block null = false
is_block (to_block b) = true
is_block (to_table t) = false

pub block-table : {b t : ℕ} → to_block b ≢ to_table t
block-table h = ground (arith, ap is_block h)

abbrev slot_of : Slot → Option Slot → Slot
slot_of s none = s
slot_of s (some t) = t

pub same_some : {s t : Slot} → some s ≡ some t → s ≡ t
same_some {s} h = ap (slot_of s) h

abbrev is_some : Option Slot → Bool
is_some none = false
is_some (some t) = true

pub none-some : {s : Slot} → none ≢ some s
none-some {s} h = ground (arith, ap is_some h)

-- What is read after a pointer has been set.
pub put_cases :
    (links : Slot → Link) (s : Slot) (l : Link) (t : Slot) (m : Link)
    → put links s l t ≡ m
    → ((t ≡ s) × (l ≡ m)) ⊎ ((same_slot t s ≡ false) × (links t ≡ m))
put_cases links s l t m = by_test (same_slot t s) refl
  where
    by_test :
        (b : Bool)
        → same_slot t s ≡ b
        → (if b then l else links t) ≡ m
        → ((t ≡ s) × (l ≡ m)) ⊎ ((same_slot t s ≡ false) × (links t ≡ m))
    by_test true same e = inl (same_slot-true t s same, e)
    by_test false differ e = inr (differ, e)

pub put_self : (links : Slot → Link) (s : Slot) (l : Link) → put links s l s ≡ l
put_self links s l = ap (λ (b : Bool). if b then l else links s) (same_slot_self s)

pub put-null :
    (links : Slot → Link) (s t : Slot) (m : Link) → m ≢ null → put links s null t ≡ m → links t ≡ m
put-null links s t m some_link e = elim (put_cases links s null t m e) [
  | inl (same, n) ↦ absurd (some_link (sym n))
  | inr (differ, kept) ↦ kept
]

pub clear_slot_keeps :
    (o : Option Slot) (b : ℕ) (links : Slot → Link) (t : Slot) (m : Link)
    → m ≢ null
    → clear_slot o b links t ≡ m
    → links t ≡ m
clear_slot_keeps none b links t m some_link e = e
clear_slot_keeps (some s) b links t m some_link e =
    if_cases (λ (l : Slot → Link). l t ≡ m → links t ≡ m) (points_to (links s) b)
      {x = put links s null} {y = links} (λ pointed kept. put-null links s t m some_link kept)
      (λ away kept. kept) e

pub clear_slot_cleared :
    (t : Slot) (b : ℕ) (links : Slot → Link) → clear_slot (some t) b links t ≢ to_block b
clear_slot_cleared t b links =
    if_cases (λ (l : Slot → Link). l t ≢ to_block b) (points_to (links t) b) {x = put links t null}
      {y = links} (λ pointed e. block-null (sym e ∙ put_self links t null))
      (λ away e. ground (arith, away, ap (λ (l : Link). points_to l b) e))

pub clear_slots_keeps :
    (n : ℕ) (by : ℕ → Option Slot) (b : ℕ) (links : Slot → Link) (t : Slot) (m : Link)
    → m ≢ null
    → clear_slots n by b links t ≡ m
    → links t ≡ m
clear_slots_keeps zero by b links t m some_link e = e
clear_slots_keeps (suc n) by b links t m some_link e =
    clear_slots_keeps n by b links t m some_link
      (clear_slot_keeps (by n) b (clear_slots n by b links) t m some_link e)

pub clear_slots_cleared :
    (n : ℕ) (by : ℕ → Option Slot) (b : ℕ) (links : Slot → Link) (t : Slot) (i : ℕ)
    → i < n
    → by i ≡ some t
    → clear_slots n by b links t ≢ to_block b
clear_slots_cleared zero by b links t i lt e = absurd (ground (arith, lt))
clear_slots_cleared (suc n) by b links t i lt e = elim (ℕ_discrete i n) [
  | yes same ↦
      subst (λ (o : Option Slot). clear_slot o b (clear_slots n by b links) t ≢ to_block b)
        (sym e ∙ ap by same) (clear_slot_cleared t b (clear_slots n by b links))
  | no ne ↦ λ kept.
      clear_slots_cleared n by b links t i (ground (arith, lt, ne)) e
        (clear_slot_keeps (by n) b (clear_slots n by b links) t (to_block b) block-null kept)
]

pub has-remove_entry_self : (b : ℕ) (xs : List ℕ) → has (remove_entry b xs) b ≡ false
has-remove_entry_self b [] = refl
has-remove_entry_self b (x ∷ xs) = ground (arith, has-remove_entry_self b xs)

pub has-remove_entry : (b c : ℕ) (xs : List ℕ) → has (remove_entry b xs) c ≡ true → has xs c ≡ true
has-remove_entry b c [] h = h
has-remove_entry b c (x ∷ xs) h = ground (arith, h, has-remove_entry b c xs)

pub has-remove_entry_ne :
    (b c : ℕ) (xs : List ℕ) → has xs c ≡ true → c ≢ b → has (remove_entry b xs) c ≡ true
has-remove_entry_ne b c [] h ne = h
has-remove_entry_ne b c (x ∷ xs) h ne = ground (arith, h, ne, has-remove_entry_ne b c xs)

pub clear_slot_table :
    (o : Option Slot) (b : ℕ) (links : Slot → Link) (s : Slot) (t : ℕ)
    → links s ≡ to_table t
    → clear_slot o b links s ≡ to_table t
clear_slot_table none b links s t e = e
clear_slot_table (some u) b links s t e =
    if_cases (λ (l : Slot → Link). l s ≡ to_table t) (points_to (links u) b) {x = put links u null}
      {y = links}
      (λ pointed.
        if_cases (λ (l : Link). l ≡ to_table t) (same_slot s u) {x = null} {y = links s}
          (λ same. absurd (
            ground (
              arith,
              pointed,
              ap (λ (l : Link). points_to l b) (ap links (sym (same_slot-true s u same)) ∙ e),
            )))
          (λ differ. e))
      (λ away. e)

pub clear_slots_table :
    (n : ℕ) (by : ℕ → Option Slot) (b : ℕ) (links : Slot → Link) (s : Slot) (t : ℕ)
    → links s ≡ to_table t
    → clear_slots n by b links s ≡ to_table t
clear_slots_table zero by b links s t e = e
clear_slots_table (suc n) by b links s t e =
    clear_slot_table (by n) b (clear_slots n by b links) s t (clear_slots_table n by b links s t e)

abbrev slot_is_entry : Slot → Bool
slot_is_entry (path b i) = false
slot_is_entry (entry t k) = true

pub path-entry : {b i t k : ℕ} → path b i ≢ entry t k
path-entry e = ground (arith, ap slot_is_entry e)

abbrev slot_number : Slot → ℕ
slot_number (path b i) = b
slot_number (entry t i) = t

pub path_block : {b i c j : ℕ} → path b i ≡ path c j → b ≡ c
path_block e = ap slot_number e

abbrev slot_index : Slot → ℕ
slot_index (path b i) = i
slot_index (entry t i) = i

pub path_index : {b i c j : ℕ} → path b i ≡ path c j → i ≡ j
path_index e = ap slot_index e

-- ===== src/Cpu/Blocks/Consistent/Fresh.antt =====
-- A block that is given out.
use xremu.Base.{
  ℕ, zero, suc, ◌≡◌, ◌≢◌, ◌<◌, ◌∙◌, refl, ap, sym, arith, Bool, true, false, ◌==◌, if_cases, List,
  ◌∷◌, Option, none, update_self, update-ne, ◌%◌, ◌^◌,
}
use native.Mathlib.Decide.{ℕ_discrete}
use xremu.Cpu.Blocks.{
  Slot, path, entry, Link, null, to_block, to_table, put, Iblock, BlockCache, has, iblock_hash,
}
use xremu.Cpu.Blocks.Fetch.{fresh}
use xremu.Cpu.Blocks.Consistent.{IsActive, IsOpen, IsLinked, IsConsistent, distinct, aim, leads}
use xremu.Cpu.Blocks.Consistent.Slots.{block-null, table-null, put-null, put_self}

module _ (e : BlockCache) (b : ℕ) (rest : List ℕ) (pc asid flags : ℕ)
    (popped : e.iblock_free_list ≡ b ∷ rest) (h : IsConsistent e) where
  abbrev d : BlockCache
  d = fresh (record e { iblock_free_list = rest }) b pc asid flags

  abbrev new_block : Iblock
  new_block = record (e.blocks b) {
    pc = pc;
    asid = asid;
    cycles = 0;
    cached_by_fifo_index = 0;
    pte_flags = flags % 2 ^ 8;
    has_ptable = false;
  }

  was_free : has e.iblock_lru_list b ≡ false
  was_free = h.apart b (ap (λ (l : List ℕ). has l b) popped ∙ ground arith)

  others : (a : ℕ) → IsActive e a → a ≢ b
  others a active same = ground (arith, active, was_free, ap (has e.iblock_lru_list) same)

  abbrev first : Slot → Link
  first = put e.links (path b 0) null

  old_link : (t : Slot) (m : Link) → m ≢ null → d.links t ≡ m → e.links t ≡ m
  old_link t m some_link l =
      put-null e.links (path b 0) t m some_link (put-null first (path b 1) t m some_link l)

  pub new_null : (i : ℕ) → i < 2 → d.links (path b i) ≡ null
  new_null zero lt = ground (arith, put_self e.links (path b 0) null)
  new_null (suc zero) lt = put_self first (path b 1) null
  new_null (suc (suc i)) lt = absurd (omega arith)

  old-IsActive :
      (x i : ℕ) (m : Link)
      → m ≢ null
      → i < 2
      → d.links (path x i) ≡ m
      → IsActive d x
      → IsActive e x × (x ≢ b)
  old-IsActive x i m some_link lt l active =
      if_cases (λ (t : Bool). t ≡ true → IsActive e x × (x ≢ b)) (x == b) {x = true}
        {y = has e.iblock_lru_list x}
        (λ same u. absurd (
          some_link
            (sym l ∙ ap (λ (n : ℕ). d.links (path n i)) (ground (arith, same)) ∙ new_null i lt)))
        (λ other u. (u, ground (arith, other))) active

  old-IsOpen : (t : Slot) (a : ℕ) → IsOpen d t → d.links t ≡ to_block a → IsOpen e t
  old-IsOpen (path x i) a (active, lt) l =
      ((old-IsActive x i (to_block a) block-null lt l active).0, lt)
  old-IsOpen (entry t k) a (x, active, l, lt) l' = (
    x,
    (old-IsActive x 0 (to_table t) table-null (omega arith) l active).0,
    old_link (path x 0) (to_table t) table-null l,
    lt,
  )

  aim-old : (t : Slot) (a : ℕ) → IsOpen d t → d.links t ≡ to_block a → aim d t ≡ aim e t
  aim-old (path x i) a (active, lt) l =
      ap (λ (k : Iblock). leads k i)
        (update-ne e.blocks b x new_block
          ((old-IsActive x i (to_block a) block-null lt l active).1))
  aim-old (entry t k) a o l = refl

  fresh_linked : (t : Slot) (a : ℕ) → IsOpen d t → d.links t ≡ to_block a → IsLinked d t a
  fresh_linked t a o l =
      let k = h.linked t a (old-IsOpen t a o l) (old_link t (to_block a) block-null l) in
      let (i, lt, r) = k.recorded in
      let ne = others a k.active in
      record {
        active = ground (arith, k.active, ne);
        recorded = (
          i,
          lt,
          ap (λ (f : ℕ → Option Slot). f i) (update-ne e.cached_by b a (λ j. none) ne) ∙ r,
        );
        aimed =
            ap (λ (n : Iblock). n.pc) (update-ne e.blocks b a new_block ne)
            ∙ k.aimed
            ∙ sym (aim-old t a o l);
      }

  fresh_hashed : (n a : ℕ) → has (d.iblock_hash_buckets n) a ≡ true → IsActive d a
  fresh_hashed n a there =
      if_cases (λ (l : List ℕ). has l a ≡ true → IsActive d a) (n == iblock_hash pc)
        {x = b ∷ e.iblock_hash_buckets (iblock_hash pc)} {y = e.iblock_hash_buckets n}
        (λ same found. by_member (iblock_hash pc) found)
        (λ other found. ground (arith, h.hashed n a found)) there
    where
      by_member : (m : ℕ) → has (b ∷ e.iblock_hash_buckets m) a ≡ true → IsActive d a
      by_member m found = ground (arith, found, h.hashed m a)

  fresh_tabled :
      (a : ℕ)
      → IsActive d a
      → (d.blocks a).has_ptable ≡ true
      → (t : ℕ) × (d.links (path a 0) ≡ to_table t)
  fresh_tabled a active has_one = elim (ℕ_discrete a b) [
    | yes same ↦ absurd (
        ground (
          arith,
          sym has_one
              ∙ ap (λ (n : ℕ). (d.blocks n).has_ptable) same
              ∙ ap (λ (k : Iblock). k.has_ptable) (update_self e.blocks b new_block),
        ))
    | no ne ↦
        let (t, l) = h.tabled a (ground (arith, active, ne)) (
          ap (λ (k : Iblock). k.has_ptable) (sym (update-ne e.blocks b a new_block ne))
          ∙ has_one) in
        (t, kept_link a ne ∙ l)
  ]
    where
      kept_link : (x : ℕ) → x ≢ b → d.links (path x 0) ≡ e.links (path x 0)
      kept_link x ne = ground (arith, ne)

  pub fresh-IsConsistent : IsConsistent d
  fresh-IsConsistent = record {
    linked = fresh_linked;
    apart = λ a f. ground (
      arith,
      f,
      h.apart a (ap (λ (l : List ℕ). has l a) popped ∙ ground (arith, f)),
      ap distinct (sym popped) ∙ h.free,
    );
    free = ground (arith, ap distinct (sym popped) ∙ h.free);
    used = ground (arith, was_free, h.used);
    hashed = fresh_hashed;
    defined = h.defined;
    tabled = fresh_tabled;
  }

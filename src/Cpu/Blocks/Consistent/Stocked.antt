-- ===== src/Cpu/Blocks/Consistent/Stocked.antt =====
-- There is always a block to give out.
use xremu.Base.{
  ℕ, ◌≡◌, ◌≢◌, ◌∙◌, refl, ap, sym, arith, Bool, true, false, if_cases, List, [], ◌∷◌, Option, none,
  some,
}
use xremu.Cpu.Blocks.{BlockCache, has, iblock_reclaim}
use xremu.Cpu.Blocks.Reclaim.{
  runs_out, reverse_onto, take_first, is_hazard, populate_iblock_list, is_empty, with_free_iblocks,
}
use xremu.Cpu.Blocks.Consistent.{IsActive, IsConsistent, distinct}
use xremu.Cpu.Blocks.Consistent.Freed.{IsLeft, IsLeft-self}
use xremu.Cpu.Blocks.Consistent.Reclaiming.{
  IsReclaimed, populate_iblock_list-IsReclaimed, distinct-reverse_onto,
}

two_of :
    (xs ys : List ℕ) (a b : ℕ)
    → (p q : ℕ) × (r : List ℕ) × (reverse_onto xs (a ∷ b ∷ ys) ≡ p ∷ q ∷ r)
two_of [] ys a b = (a, b, ys, refl)
two_of (x ∷ xs) ys a b = two_of xs (b ∷ ys) x a

-- There is a free page, and where no block is free at least 32 are in use.
pub record IsStocked (c : BlockCache) : Type 0 where
  pub page : (v : ℕ) × (has c.vpage_free_list v ≡ true)
  pub blocks :
      is_empty c.iblock_free_list ≡ true → runs_out iblock_reclaim c.iblock_lru_list ≡ false

two_at_least :
    (xs : List ℕ)
    → runs_out iblock_reclaim xs ≡ false
    → (x y : ℕ) × (zs : List ℕ) × (xs ≡ x ∷ y ∷ zs)
two_at_least [] full = absurd (ground (arith, full))
two_at_least (x ∷ []) full = absurd (ground (arith, full))
two_at_least (x ∷ y ∷ zs) full = (x, y, zs, refl)

-- The cache with free blocks.
pub record IsReady (c : BlockCache) (hazard : Option ℕ) (d : BlockCache) : Type 0 where
  pub consistent : IsConsistent d
  pub left : IsLeft c d
  pub kept : (x : ℕ) → is_hazard hazard x ≡ true → IsActive c x → IsActive d x
  pub stocked : is_empty d.iblock_free_list ≡ false

has-is_empty : (xs : List ℕ) (x : ℕ) → has xs x ≡ true → is_empty xs ≡ false
has-is_empty [] x there = absurd (ground (arith, there))
has-is_empty (y ∷ ys) x there = refl

hazard_unique :
    (hazard : Option ℕ) (p q : ℕ) → p ≢ q → is_hazard hazard p ≡ true → is_hazard hazard q ≡ false
hazard_unique none p q ne h = refl
hazard_unique (some x) p q ne h = ground (arith, ne, h)

module _ (c : BlockCache) (hazard : Option ℕ) (h : IsConsistent c) where
  r :
      runs_out iblock_reclaim c.iblock_lru_list ≡ false
      → IsReclaimed c hazard
          (take_first iblock_reclaim (reverse_onto c.iblock_lru_list []))
          (populate_iblock_list c hazard)
  r full = populate_iblock_list-IsReclaimed c hazard h full

  -- One of the last two blocks is not the hazard.
  populated :
      (p q : ℕ) (rest : List ℕ)
      → runs_out iblock_reclaim c.iblock_lru_list ≡ false
      → reverse_onto c.iblock_lru_list [] ≡ p ∷ q ∷ rest
      → distinct (p ∷ q ∷ rest) ≡ true
      → is_empty (populate_iblock_list c hazard).iblock_free_list ≡ false
  populated p q rest full e once = by_hazard (is_hazard hazard p) refl
    where
      there :
          (x : ℕ)
          → has (p ∷ q ∷ take_first 30 rest) x ≡ true
          → has (take_first iblock_reclaim (reverse_onto c.iblock_lru_list [])) x ≡ true
      there x h' = ap (λ (l : List ℕ). has (take_first iblock_reclaim l) x) e ∙ h'

      by_hazard :
          (b : Bool)
          → is_hazard hazard p ≡ b
          → is_empty (populate_iblock_list c hazard).iblock_free_list ≡ false
      by_hazard false not =
          has-is_empty (populate_iblock_list c hazard).iblock_free_list p
            ((r full).freed p (there p (ground arith)) not)
      by_hazard true is = has-is_empty (populate_iblock_list c hazard).iblock_free_list q (
          (r full).freed q (there q (ground arith))
            (hazard_unique hazard p q (ground (arith, once)) is))

  pub with_free_iblocks-IsReady : IsStocked c → IsReady c hazard (with_free_iblocks c hazard)
  with_free_iblocks-IsReady s =
      if_cases (IsReady c hazard) (is_empty c.iblock_free_list) {x = populate_iblock_list c hazard}
        {y = c}
        (λ empty. record {
          consistent = (r (s.blocks empty)).consistent;
          left = (r (s.blocks empty)).left;
          kept = (r (s.blocks empty)).kept;
          stocked =
              let (x, y, zs, e) = two_at_least c.iblock_lru_list (s.blocks empty) in
              let (p, q, rest, e') = two_of zs [] y x in
              let same : reverse_onto c.iblock_lru_list [] ≡ p ∷ q ∷ rest =
                ap (λ (l : List ℕ). reverse_onto l []) e ∙ e' in
              populated p q rest (s.blocks empty) same (
                ap distinct (sym same)
                ∙ distinct-reverse_onto c.iblock_lru_list [] h.used refl (λ x' there. refl));
        })
        (λ more. record {
          consistent = h;
          left = IsLeft-self c;
          kept = λ x is active. active;
          stocked = more;
        })

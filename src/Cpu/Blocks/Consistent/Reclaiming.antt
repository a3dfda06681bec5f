-- ===== src/Cpu/Blocks/Consistent/Reclaiming.antt =====
-- Blocks that are thrown away.
use xremu.Base.{
  ℕ, zero, suc, ◌≡◌, ◌≢◌, ◌∙◌, refl, ap, arith, Bool, true, false, ◌==◌, if_cases, List, [], ◌∷◌,
  Option, ◌||◌,
}
use xremu.Cpu.Blocks.{BlockCache, has, invalidate_iblock_pointers, free_iblock, iblock_reclaim}
use xremu.Cpu.Blocks.Reclaim.{
  runs_out, reverse_onto, take_first, is_hazard, discard_all, populate_iblock_list,
}
use xremu.Cpu.Blocks.Consistent.{IsActive, IsConsistent, distinct}
use xremu.Cpu.Blocks.Consistent.Slots.{has-remove_entry_ne}
use xremu.Cpu.Blocks.Consistent.Freed.{IsLeft, IsLeft-self, IsLeft-trans, IsFreed, discard-IsFreed}

-- What is left when the blocks of a list have been thrown away.
pub record IsReclaimed (c : BlockCache) (hazard : Option ℕ) (bs : List ℕ) (d : BlockCache)
    : Type 0 where
  pub consistent : IsConsistent d
  pub left : IsLeft c d
  pub kept : (x : ℕ) → is_hazard hazard x ≡ true → IsActive c x → IsActive d x
  pub freed :
      (x : ℕ) → has bs x ≡ true → is_hazard hazard x ≡ false → has d.iblock_free_list x ≡ true
  pub still_free : (x : ℕ) → has c.iblock_free_list x ≡ true → has d.iblock_free_list x ≡ true

pub discard_all-IsReclaimed :
    (hazard : Option ℕ) (bs : List ℕ) (c : BlockCache)
    → IsConsistent c
    → distinct bs ≡ true
    → ((x : ℕ) → has bs x ≡ true → IsActive c x)
    → IsReclaimed c hazard bs (discard_all hazard bs c)
unfolding discard_all
discard_all-IsReclaimed hazard [] c h once all = record {
  consistent = h;
  left = IsLeft-self c;
  kept = λ x is active. active;
  freed = λ x wrong not. ground (arith, wrong);
  still_free = λ x free. free;
}
discard_all-IsReclaimed hazard (b ∷ bs) c h once all =
    if_cases (λ (d : BlockCache). IsReclaimed c hazard (b ∷ bs) (discard_all hazard bs d))
      (is_hazard hazard b) {x = c} {y = free_iblock (invalidate_iblock_pointers c b) b}
      (λ spared. spare spared (
        discard_all-IsReclaimed hazard bs c h distinct_rest
          (λ x there. all x (ground (arith, there)))))
      (λ goes.
        drop goes (discard-IsFreed c b h (all b (ground arith)))
          (λ e. discard_all-IsReclaimed hazard bs e))
  where
    distinct_rest : distinct bs ≡ true
    distinct_rest = ground (arith, once)

    fresh : has bs b ≡ false
    fresh = ground (arith, once)

    at_odds : is_hazard hazard b ≡ true → (x : ℕ) → is_hazard hazard x ≡ false → x ≢ b
    at_odds spared x not same = ground (arith, spared, not, ap (is_hazard hazard) same)

    spare :
        is_hazard hazard b ≡ true
        → IsReclaimed c hazard bs (discard_all hazard bs c)
        → IsReclaimed c hazard (b ∷ bs) (discard_all hazard bs c)
    spare spared r = record {
      consistent = r.consistent;
      left = r.left;
      kept = r.kept;
      freed = λ x there not.
          r.freed x
            (if_cases (λ (t : Bool). t ≡ true → has bs x ≡ true) (x == b) {x = true} {y = has bs x}
              (λ same wrong. absurd (at_odds spared x not (ground (arith, same))))
              (λ other yes_there. yes_there) there)
            not;
      still_free = r.still_free;
    }

    drop :
        is_hazard hazard b ≡ false
        → IsFreed c b (free_iblock (invalidate_iblock_pointers c b) b)
        → ((e : BlockCache)
            → IsConsistent e
            → distinct bs ≡ true
            → ((x : ℕ) → has bs x ≡ true → IsActive e x)
            → IsReclaimed e hazard bs (discard_all hazard bs e))
        → IsReclaimed c hazard
            (b ∷ bs)
            (discard_all hazard bs (free_iblock (invalidate_iblock_pointers c b) b))
    drop goes f ih = record {
      consistent = r.consistent;
      left = IsLeft-trans f.left r.left;
      kept = λ x is active.
          r.kept x is
            (stays x active (λ same. ground (arith, goes, is, ap (is_hazard hazard) same)));
      freed = λ x there not.
          if_cases
            (λ (t : Bool). t ≡ true → has (discard_all hazard bs d).iblock_free_list x ≡ true)
            (x == b) {x = true} {y = has bs x}
            (λ same u.
              r.still_free x (ap (λ (l : List ℕ). has l x) f.free_list ∙ ground (arith, same)))
            (λ other u. r.freed x u not) there;
      still_free = λ x free.
          r.still_free x (ap (λ (l : List ℕ). has l x) f.free_list ∙ ground (arith, free));
    }
      where
        d : BlockCache
        d = free_iblock (invalidate_iblock_pointers c b) b

        stays : (x : ℕ) → IsActive c x → x ≢ b → IsActive d x
        stays x active ne =
            ap (λ (l : List ℕ). has l x) f.lru ∙ has-remove_entry_ne b x c.iblock_lru_list active ne

        r : IsReclaimed d hazard bs (discard_all hazard bs d)
        r = ih d f.consistent distinct_rest (λ x there.
            stays x (all x (ground (arith, there)))
              (λ same. ground (arith, there, fresh, ap (has bs) same)))

has-take_first : (n : ℕ) (xs : List ℕ) (x : ℕ) → has (take_first n xs) x ≡ true → has xs x ≡ true
has-take_first zero xs x h = ground (arith, h)
has-take_first (suc n) [] x h = h
has-take_first (suc n) (y ∷ ys) x h = ground (arith, h, has-take_first n ys x)

distinct-take_first : (n : ℕ) (xs : List ℕ) → distinct xs ≡ true → distinct (take_first n xs) ≡ true
distinct-take_first zero xs h = refl
distinct-take_first (suc n) [] h = refl
distinct-take_first (suc n) (y ∷ ys) h =
    ground (arith, h, distinct-take_first n ys, has-take_first n ys y)

has-reverse_onto : (xs ys : List ℕ) (x : ℕ) → has (reverse_onto xs ys) x ≡ (has xs x || has ys x)
has-reverse_onto [] ys x = refl
has-reverse_onto (y ∷ xs) ys x = ground (arith, has-reverse_onto xs (y ∷ ys) x)

pub distinct-reverse_onto :
    (xs ys : List ℕ)
    → distinct xs ≡ true
    → distinct ys ≡ true
    → ((x : ℕ) → has xs x ≡ true → has ys x ≡ false)
    → distinct (reverse_onto xs ys) ≡ true
distinct-reverse_onto [] ys h k apart = k
distinct-reverse_onto (y ∷ xs) ys h k apart =
    distinct-reverse_onto xs (y ∷ ys) (ground (arith, h)) (ground (arith, k, apart y))
      (λ x there. ground (arith, there, h, apart x))

-- XrPopulateIblockList, when at least 32 blocks are in use and their pointers are right, does
-- nothing that C leaves undefined and keeps the pointers right; of the last 32 blocks of the list
-- every one but the hazard is free afterwards, the hazard stays in use, and no block's contents and
-- no table of a block change.
pub populate_iblock_list-IsReclaimed :
    (c : BlockCache) (hazard : Option ℕ)
    → IsConsistent c
    → runs_out iblock_reclaim c.iblock_lru_list ≡ false
    → IsReclaimed c hazard
        (take_first iblock_reclaim (reverse_onto c.iblock_lru_list []))
        (populate_iblock_list c hazard)
unfolding populate_iblock_list
populate_iblock_list-IsReclaimed c hazard h full =
    if_cases (IsReclaimed c hazard (take_first iblock_reclaim (reverse_onto c.iblock_lru_list [])))
      (runs_out iblock_reclaim c.iblock_lru_list) {x = record c { undefined = true }}
      {y = discard_all hazard (take_first iblock_reclaim (reverse_onto c.iblock_lru_list [])) c}
      (λ short. absurd (ground (arith, short, full)))
      (λ enough.
        discard_all-IsReclaimed hazard
          (take_first iblock_reclaim (reverse_onto c.iblock_lru_list [])) c h
          (distinct-take_first iblock_reclaim (reverse_onto c.iblock_lru_list [])
            (distinct-reverse_onto c.iblock_lru_list [] h.used refl (λ x there. refl)))
          (λ x there. ground (
            arith,
            has-take_first iblock_reclaim (reverse_onto c.iblock_lru_list []) x there,
            has-reverse_onto c.iblock_lru_list [] x,
          )))

-- ===== src/Cpu/Blocks/Consistent.antt =====
-- When the pointers among the blocks of src/xr17032fast.c can be trusted.
pub mod Slots
pub mod Pointing
pub mod Freeing
pub mod Freed
pub mod Reclaiming
pub mod Stocked
pub mod Fresh
pub mod Decoding
pub mod Kept
pub mod Fetched
pub mod Made
pub mod Decoded
pub mod Outcome
pub mod Emptied
pub mod Initial
use xremu.Base.{
  ℕ, ◌+◌, ◌*◌, ◌≡◌, ◌<◌, ◌∙◌, ap, sym, Bool, true, false, ◌&&◌, ◌==◌, if◌then◌else◌, List, [], ◌∷◌,
  Option, none, some, add32, update, update_self, update-ne,
}
use native.Mathlib.Decide.{ℕ_discrete}
use xremu.Cpu.Decode.{Func, CachedInst, special_linkage}
use xremu.Cpu.Blocks.{
  Slot, path, entry, Link, to_block, to_table, Iblock, BlockCache, has, cachedby_max, table_entries,
}

abbrev pub is_linkage : Func → Bool
is_linkage f = elim f [ special_linkage ↦ true | _ ↦ false ]

-- Where the last instruction of a list leads when it is taken, or where the block ends.
abbrev pub target : List CachedInst → ℕ → ℕ
target [] behind = behind
target (i ∷ []) behind = if is_linkage i.func then behind else i.imm32_1
target (i ∷ j ∷ is) behind = target (j ∷ is) behind

-- The address behind a block
abbrev pub behind : Iblock → ℕ
behind k = add32 k.pc (4 * k.cycles)

abbrev pub leads : Iblock → ℕ → ℕ
leads k i = if i == 0 then target k.insts (behind k) else behind k

-- The address that a place stands for
abbrev pub aim : BlockCache → Slot → ℕ
aim c (path b i) = leads (c.blocks b) i
aim c (entry t k) = c.table_pcs t k

-- The block is in use.
abbrev pub IsActive : BlockCache → ℕ → Type 0
IsActive c b = has c.iblock_lru_list b ≡ true

-- The place belongs to a block in use.
abbrev pub IsOpen : BlockCache → Slot → Type 0
IsOpen c (path b i) = IsActive c b × (i < 2)
IsOpen c (entry t k) =
    (b : ℕ) × IsActive c b × (c.links (path b 0) ≡ to_table t) × (k < table_entries)

-- A pointer from `s` to `b` is right, and can be taken back.
pub record IsLinked (c : BlockCache) (s : Slot) (b : ℕ) : Type 0 where
  pub active : IsActive c b
  pub recorded : (i : ℕ) × (i < cachedby_max) × (c.cached_by b i ≡ some s)
  pub aimed : (c.blocks b).pc ≡ aim c s

abbrev pub distinct : List ℕ → Bool
distinct [] = true
distinct (x ∷ xs) = if has xs x then false else distinct xs

-- Pointers from blocks in use are right, the lists of blocks are in order, nothing undefined has
-- happened, and a block in use that is said to have a table has one.
pub record IsConsistent (c : BlockCache) : Type 0 where
  pub linked : (s : Slot) (b : ℕ) → IsOpen c s → c.links s ≡ to_block b → IsLinked c s b
  pub apart : (b : ℕ) → has c.iblock_free_list b ≡ true → has c.iblock_lru_list b ≡ false
  pub free : distinct c.iblock_free_list ≡ true
  pub used : distinct c.iblock_lru_list ≡ true
  pub hashed : (n b : ℕ) → has (c.iblock_hash_buckets n) b ≡ true → IsActive c b
  pub defined : c.undefined ≡ false
  pub tabled :
      (b : ℕ)
      → IsActive c b
      → (c.blocks b).has_ptable ≡ true
      → (t : ℕ) × (c.links (path b 0) ≡ to_table t)

-- Two caches that differ in nothing that matters here.
pub record IsSimilar (c d : BlockCache) : Type 0 where
  pub links : c.links ≡ d.links
  pub cached_by : c.cached_by ≡ d.cached_by
  pub lru : c.iblock_lru_list ≡ d.iblock_lru_list
  pub free_list : c.iblock_free_list ≡ d.iblock_free_list
  pub pcs : (b : ℕ) → (c.blocks b).pc ≡ (d.blocks b).pc
  pub targets : (b i : ℕ) → leads (c.blocks b) i ≡ leads (d.blocks b) i
  pub table_pcs : c.table_pcs ≡ d.table_pcs
  pub buckets : c.iblock_hash_buckets ≡ d.iblock_hash_buckets
  pub ptables : (b : ℕ) → (c.blocks b).has_ptable ≡ (d.blocks b).has_ptable
  pub defined : c.undefined ≡ d.undefined

-- What an update keeps of an element.
pub update_keeps {ℓ} :
    {A B : Type ℓ} (f : A → B) (a : ℕ → A) (i : ℕ) (v : A)
    → f v ≡ f (a i)
    → (j : ℕ) → f (update a i v j) ≡ f (a j)
update_keeps f a i v same j = elim (ℕ_discrete j i) [
  | yes e ↦
      ap (λ (k : ℕ). f (update a i v k)) e
      ∙ ap f (update_self a i v)
      ∙ same
      ∙ ap (λ (k : ℕ). f (a k)) (sym e)
  | no ne ↦ ap f (update-ne a i j v ne)
]

module _ {c d : BlockCache} (s : IsSimilar c d) where
  pub similar-IsActive : (b : ℕ) → IsActive d b → IsActive c b
  similar-IsActive b a = ap (λ (l : List ℕ). has l b) s.lru ∙ a

  pub similar-IsActive_back : (b : ℕ) → IsActive c b → IsActive d b
  similar-IsActive_back b a = ap (λ (l : List ℕ). has l b) (sym s.lru) ∙ a

  pub aim-similar : (t : Slot) → aim c t ≡ aim d t
  aim-similar (path b i) = s.targets b i
  aim-similar (entry t k) = ap (λ (pcs : ℕ → ℕ → ℕ). pcs t k) s.table_pcs

  pub similar-IsOpen : (t : Slot) → IsOpen d t → IsOpen c t
  similar-IsOpen (path b i) (a, lt) = (similar-IsActive b a, lt)
  similar-IsOpen (entry t k) (b, a, e, lt) =
      (b, similar-IsActive b a, ap (λ (l : Slot → Link). l (path b 0)) s.links ∙ e, lt)

  pub similar-IsConsistent : IsConsistent c → IsConsistent d
  similar-IsConsistent h = record {
    linked = λ t b o e.
        let k = h.linked t b (similar-IsOpen t o) (ap (λ (l : Slot → Link). l t) s.links ∙ e) in
        let (i, lt, r) = k.recorded in
        record {
          active = similar-IsActive_back b k.active;
          recorded = (i, lt, ap (λ (l : ℕ → ℕ → Option Slot). l b i) (sym s.cached_by) ∙ r);
          aimed = sym (s.pcs b) ∙ k.aimed ∙ aim-similar t;
        };
    apart = λ b f.
        ap (λ (l : List ℕ). has l b) (sym s.lru)
        ∙ h.apart b (ap (λ (l : List ℕ). has l b) s.free_list ∙ f);
    free = ap distinct (sym s.free_list) ∙ h.free;
    used = ap distinct (sym s.lru) ∙ h.used;
    hashed = λ n b there.
        similar-IsActive_back b
          (h.hashed n b (ap (λ (l : ℕ → List ℕ). has (l n) b) s.buckets ∙ there));
    defined = sym s.defined ∙ h.defined;
    tabled = λ b a e.
        let (t, l) = h.tabled b (similar-IsActive b a) (s.ptables b ∙ e) in
        (t, ap (λ (m : Slot → Link). m (path b 0)) (sym s.links) ∙ l);
  }

-- ===== src/Cpu/Caches.antt =====
-- src/xraccess.inc.c: the data caches of all processors and the Scache that keeps track of them, in
-- front of a bus. An access is one step; the locks are left out.
pub mod Access
pub mod Coherence
mod Tests
use xremu.Base.{
  ℕ, zero, suc, ◌+◌, ◌*◌, ◌/◌, ◌%◌, ◌^◌, ◌≡◌, ◌≢◌, ◌<◌, Bool, true, false, not, ◌||◌, List, [], ◌∷◌,
  ◌==◌, ◌!=◌, ◌&&◌, ltb, if◌then◌else◌, update, bit_and, ◌>>◌, add32, ◌<<◌, Option, none, some,
}
use xremu.Cpu.Dcache.{
  Dcache, Line, LineWrite, line_invalid, line_shared, line_exclusive, downgrade, flush_write_buffer,
  write_wb_entry,
}
use xremu.Lsic.{proc_max}

-- What the caches use of the bus, for whole lines: whether it answers at a tag, which does not
-- change, and what it holds there. A write reaches its own line only, and is lost where the bus does
-- not answer.
pub record LineBus (M : Type 0) : Type 0 where
  pub answers : ℕ → Bool
  pub line : M → ℕ → Line
  pub put : M → ℕ → Line → M
  pub line-put :
      (m : M) (tag : ℕ) (l : Line) (o : ℕ)
      → tag % 16 ≡ 0
      → answers tag ≡ true
      → o < 16
      → line (put m tag l) tag o ≡ l o
  pub line-put_ne :
      (m : M) (tag : ℕ) (l : Line) (t o : ℕ)
      → tag % 16 ≡ 0
      → t % 16 ≡ 0
      → t ≢ tag
      → o < 16
      → line (put m tag l) t o ≡ line m t o

-- `XrScacheTags`, `XrScacheFlags`, `XrScacheExclusiveIds` and `XrScacheReplacementIndex`
pub record Scache : Type 0 where
  pub tags : ℕ → ℕ
  pub flags : ℕ → ℕ
  pub exclusive_ids : ℕ → ℕ
  pub replacement_index : ℕ

pub record Caches (M : Type 0) : Type 0 where
  pub dcaches : ℕ → Dcache
  pub scache : Scache
  pub memory : M

-- XR_SC_SET_NUMBER; a set has one way.
abbrev pub sc_index : ℕ → ℕ
sc_index tag = bit_and (tag >> 4) 8191

-- The entry at `s` of the Scache is given a state and an owner.
abbrev pub set_entry : Scache → ℕ → ℕ → ℕ → Scache
set_entry sc s state id = record sc {
  flags = update sc.flags s state;
  exclusive_ids = update sc.exclusive_ids s id;
}

abbrev pub new_entry : Scache → ℕ → ℕ → ℕ → ℕ → Scache
new_entry sc s tag state id = record sc {
  flags = update sc.flags s state;
  tags = update sc.tags s tag;
  exclusive_ids = update sc.exclusive_ids s id;
  replacement_index = add32 sc.replacement_index 1;
}

-- `XrFindInScache`
unfoldable pub find_in_scache : Scache → ℕ → Option ℕ
find_in_scache sc tag =
    let s = sc_index tag in if sc.flags s != line_invalid && sc.tags s == tag then some s else none

-- `present id` is `XrProcessorTable[id] != 0`.
module _ {M : Type 0} (bus : LineBus M) (present : ℕ → Bool) where
  pub put_all : M → List LineWrite → M
  put_all m [] = m
  put_all m (w ∷ ws) = put_all (bus.put m w.tag w.contents) ws

  -- The data cache of processor `id` after one of its own operations, with its writes done.
  abbrev pub with_dcache : Caches M → ℕ → Dcache × List LineWrite → Caches M
  with_dcache c id (d, written) = record c {
    dcaches = update c.dcaches id d;
    memory = put_all c.memory written;
  }

  abbrev pub with_scache : Caches M → Scache → Caches M
  with_scache c sc = record c { scache = sc }

  -- `XrFlushWriteBuffer`, `XrWriteWbEntry` and `XrDowngradeLine` of processor `id`
  abbrev pub flush : Caches M → ℕ → Caches M
  flush c id = with_dcache c id (flush_write_buffer (c.dcaches id))

  abbrev pub drain : Caches M → ℕ → Caches M
  drain c id = with_dcache c id (write_wb_entry (c.dcaches id))

  abbrev pub downgrade_line : Caches M → ℕ → ℕ → ℕ → Caches M
  downgrade_line c id tag newstate = with_dcache c id (downgrade (c.dcaches id) tag newstate)

  -- The loop of `XrDowngradeAll` over the first `n` processors; `keep` is `thisproc`.
  unfoldable pub downgrade_first : ℕ → (ℕ → Bool) → Caches M → ℕ → ℕ → Caches M
  downgrade_first zero keep c tag newstate = c
  downgrade_first (suc n) keep c tag newstate =
      let c' = downgrade_first n keep c tag newstate in
      if not (present n) || keep n then c' else downgrade_line c' n tag newstate

  abbrev pub downgrade_all : (ℕ → Bool) → Caches M → ℕ → ℕ → Caches M
  downgrade_all keep c tag newstate = downgrade_first proc_max keep c tag newstate

  -- The entry at `s` is taken from the line that has it.
  unfoldable pub evict_entry : Caches M → ℕ → Caches M
  evict_entry c s =
      let oldtag = c.scache.tags s in
      if c.scache.flags s == line_shared
      then downgrade_all (λ _. false) c oldtag line_invalid
      else if c.scache.flags s == line_exclusive
      then downgrade_line c (c.scache.exclusive_ids s) oldtag line_invalid
      else c

  -- `XrFindOrReplaceInScache`: whether the entry is new, and the caches. The entry is the one at
  -- `sc_index tag`.
  unfoldable pub find_or_replace : Caches M → ℕ → ℕ → ℕ → Bool × Caches M
  find_or_replace c id tag newstate =
      let s = sc_index tag in
      if c.scache.flags s != line_invalid && c.scache.tags s == tag
      then (false, c)
      else (let e = evict_entry c s in (true, with_scache e (new_entry e.scache s tag newstate id)))

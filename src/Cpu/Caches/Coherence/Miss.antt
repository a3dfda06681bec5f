-- ===== src/Cpu/Caches/Coherence/Miss.antt =====
-- The Scache takes the tag of a miss for the processor.
use xremu.Base.{
  ℕ, ◌≤◌, arith, Bool, true, false, ◌&&◌, ◌==◌, ◌!=◌, if◌then◌else◌, if_cases, update_self,
}
use xremu.Cpu.Dcache.{Line, line_shared, line_exclusive, line_invalid}
use xremu.Cpu.Caches.{
  LineBus, Caches, sc_index, new_entry, with_scache, evict_entry, find_or_replace,
}
use xremu.Cpu.Caches.Access.{take, settle}
use xremu.Cpu.Caches.Coherence.{IsLive, IsCoherent}
use xremu.Cpu.Caches.Coherence.Entry.{new_entry-IsCoherent}
use xremu.Cpu.Caches.Coherence.Clear.{IsEvicted, evict_entry-IsEvicted}
use xremu.Cpu.Caches.Coherence.Take.{IsTaken, settle-IsTaken}

module _ {M : Type 0} (bus : LineBus M) (mem : ℕ → Line) (present : ℕ → Bool) where
  module _ {c : Caches M} (id tag : ℕ) (h : IsCoherent bus mem present c)
      (live : IsLive present id) where
    created-IsTaken :
        (state : ℕ)
        → state ≤ 2
        → (e : Caches M) → IsEvicted bus mem present c e (sc_index tag)
        → IsTaken bus mem present c
            (with_scache bus present e (new_entry e.scache (sc_index tag) tag state id))
            id
            tag
            state
    created-IsTaken state small e evicted = record {
      coherent =
          new_entry-IsCoherent bus mem present tag state id evicted.reduced.coherent small live
            evicted.vacant;
      shrunk = evicted.reduced.shrunk;
      in_state = update_self e.scache.flags (sc_index tag) state;
      tagged = update_self e.scache.tags (sc_index tag) tag;
      named = update_self e.scache.exclusive_ids (sc_index tag) id;
    }

    pub take-IsTaken :
        (writing : Bool)
        → IsTaken bus mem present c
            (take bus present c id tag writing)
            id
            tag
            (if writing then 2 else 1)
    unfolding take find_or_replace
    take-IsTaken writing =
        if_cases
          (λ (r : Bool × Caches M).
            IsTaken bus mem present c (if r.0 then r.1 else settle bus present r.1 id tag writing)
              id tag (if writing then 2 else 1))
          (c.scache.flags (sc_index tag) != line_invalid && c.scache.tags (sc_index tag) == tag)
          {x = (false, c)}
          {y = (
            true,
            with_scache bus present (evict_entry bus present c (sc_index tag)) (
                new_entry (evict_entry bus present c (sc_index tag)).scache (sc_index tag) tag
                  (if writing then line_exclusive else line_shared) id),
          )}
          (λ found.
            settle-IsTaken bus mem present id tag h live (ground (arith, found)) writing
              (ground (arith, found)))
          (λ _.
            created-IsTaken (if writing then 2 else 1) (grind arith)
              (evict_entry bus present c (sc_index tag))
              (evict_entry-IsEvicted bus mem present (sc_index tag) h))

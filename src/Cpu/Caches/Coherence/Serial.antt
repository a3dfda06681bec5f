-- ===== src/Cpu/Caches/Coherence/Serial.antt =====
-- A run of accesses by all processors, one after the other, against one flat memory.
use xremu.Base.{
  ℕ, ◌+◌, ◌≡◌, ◌≤◌, ◌∙◌, sym, ap, subst, refl, Bool, true, false, List, [], ◌∷◌, Option, none, some,
}
use xremu.Cpu.Dcache.{Line}
use xremu.Cpu.Caches.{LineBus, Caches, flush, drain}
use xremu.Cpu.Caches.Access.{
  load_access, store_access, sc_failed, Outcome, done, bus_failed, tag_of, offset_of, load_access,
}
use xremu.Cpu.Caches.Coherence.{IsLive, IsCoherent}
use xremu.Cpu.Caches.Coherence.Release.{flush-IsCoherent}
use xremu.Cpu.Caches.Coherence.Merge.{stored_in}
use xremu.Cpu.Caches.Coherence.Store.{IsStored, written, refused, unanswered}
use xremu.Cpu.Caches.Coherence.Load.{loads, load_access-IsCoherent}
use xremu.Cpu.Caches.Coherence.Restart.{store_access-IsStored}
use xremu.Cpu.Caches.Coherence.Drain.{drain-IsCoherent}

-- An operation of processor `id`.
pub data Request : Type 0 where
  load : (id address length : ℕ) → Request
  store : (id address length value : ℕ) (sc : Bool) → Request
  flush_buffer write_entry : (id : ℕ) → Request

-- The processor is there, and an access stays in its line.
unfoldable pub IsRequest : (ℕ → Bool) → Request → Type 0
IsRequest present (load id address length) = IsLive present id × (offset_of address + length ≤ 16)
IsRequest present (store id address length value sc) =
    IsLive present id × (offset_of address + length ≤ 16)
IsRequest present (flush_buffer id) = IsLive present id
IsRequest present (write_entry id) = IsLive present id

pub data AreRequests (present : ℕ → Bool) : List Request → Type 0 where
  no_more : AreRequests present []
  and_more :
      {r : Request} {rs : List Request}
      → IsRequest present r
      → AreRequests present rs
      → AreRequests present (r ∷ rs)

module _ {M : Type 0} (bus : LineBus M) (present : ℕ → Bool) where
  -- The caches serve a request.
  unfoldable pub serve : Caches M → Request → Option (Outcome × Caches M)
  serve c (load id address length) = some (load_access bus present c id address length)
  serve c (store id address length value sc) =
      store_access bus present 2 c id address length value sc
  serve c (flush_buffer id) = some (done 0, flush bus present c id)
  serve c (write_entry id) = some (done 0, drain bus present c id)

  unfoldable pub serve_all : Caches M → List Request → Option (List Outcome × Caches M)
  serve_all c [] = some ([], c)
  serve_all c (r ∷ rs) = elim (serve c r) [
    | none ↦ none
    | some x ↦ elim (serve_all x.1 rs) [ none ↦ none | some y ↦ some (x.0 ∷ y.0, y.1) ]
  ]

  -- What a flat memory does with a request: a load reads it; a store changes it, or is refused if it is
  -- conditional, or has no answer; nothing else is to be seen.
  pub data IsServed (mem : ℕ → Line) : Request → Outcome → (ℕ → Line) → Type 0 where
    reads :
        (id address length : ℕ)
        → IsServed mem (load id address length) (loads bus mem present address length) mem
    writes :
        (id address length value : ℕ) (sc : Bool)
        → bus.answers (tag_of address) ≡ true
        → IsServed mem
            (store id address length value sc)
            (done 0)
            (stored_in mem (tag_of address) (offset_of address) length value)
    refuses :
        (id address length value : ℕ)
        → IsServed mem (store id address length value true) sc_failed mem
    fails :
        (id address length value : ℕ) (sc : Bool)
        → bus.answers (tag_of address) ≡ false
        → IsServed mem (store id address length value sc) bus_failed mem
    flushes : (id : ℕ) → IsServed mem (flush_buffer id) (done 0) mem
    drains : (id : ℕ) → IsServed mem (write_entry id) (done 0) mem

  pub data AreServed : (ℕ → Line) → List Request → List Outcome → (ℕ → Line) → Type 0 where
    served_none : {mem : ℕ → Line} → AreServed mem [] [] mem
    served_then :
        {mem : ℕ → Line} {r : Request} {rs : List Request} {o : Outcome} {os : List Outcome}
        (mid : ℕ → Line) {last : ℕ → Line}
        → IsServed mem r o mid
        → AreServed mid rs os last
        → AreServed mem (r ∷ rs) (o ∷ os) last

  -- The caches hold the memory that is left.
  abbrev IsDone : (ℕ → Line) → Request → Option (Outcome × Caches M) → Type 0
  IsDone mem r o =
      (x : Outcome × Caches M) × (after : ℕ → Line) × (o ≡ some x)
      × IsServed mem r x.0 after
      × IsCoherent bus after present x.1

  store-IsDone :
      {mem : ℕ → Line} (id address length value : ℕ) (sc : Bool) (o : Option (Outcome × Caches M))
      (x : Outcome × Caches M)
      → o ≡ some x
      → IsStored bus mem present address length value sc x
      → IsDone mem (store id address length value sc) o
  store-IsDone {mem} id address length value sc o _ e (written c answers h) = (
    (done 0, c),
    stored_in mem (tag_of address) (offset_of address) length value,
    e,
    writes id address length value sc answers,
    h,
  )
  store-IsDone {mem} id address length value sc o _ e (refused c asked h) = (
    (sc_failed, c),
    mem,
    e,
    subst (λ (b : Bool). IsServed mem (store id address length value b) sc_failed mem) (sym asked)
        (refuses id address length value),
    h,
  )
  store-IsDone {mem} id address length value sc o _ e (unanswered c silent h) =
      ((bus_failed, c), mem, e, fails id address length value sc silent, h)

  serve-IsDone :
      {c : Caches M} {mem : ℕ → Line} (r : Request)
      → IsCoherent bus mem present c
      → IsRequest present r
      → IsDone mem r (serve c r)
  unfolding serve IsRequest
  serve-IsDone {c} {mem} (load id address length) h (live, inside) =
      let (result, coherent) =
        load_access-IsCoherent bus mem present id address length h live inside in
      (
        load_access bus present c id address length,
        mem,
        refl,
        subst (λ (o : Outcome). IsServed mem (load id address length) o mem) (sym result)
            (reads id address length),
        coherent,
      )
  serve-IsDone {c} {mem} (store id address length value sc) h (live, inside) =
      let (x, e, s) = store_access-IsStored bus mem present id address length value sc h live in
      store-IsDone id address length value sc
        (store_access bus present 2 c id address length value sc) x e s
  serve-IsDone {c} {mem} (flush_buffer id) h live = (
    (done 0, flush bus present c id),
    mem,
    refl,
    flushes id,
    flush-IsCoherent bus mem present id live h,
  )
  serve-IsDone {c} {mem} (write_entry id) h live = (
    (done 0, drain bus present c id),
    mem,
    refl,
    drains id,
    drain-IsCoherent bus mem present id live h,
  )

  -- Loads, stores, flushes of the write buffer and timed writes of a buffer entry, in any order by
  -- any of the processors, all come to an end, and what they answer is what one flat memory answers
  -- to them in this order: a load reads it, a store changes it at its bytes, a conditional store
  -- may be refused, an access that the bus does not answer fails, and nothing else is to be seen;
  -- the caches end coherent with the memory that is left. This holds from every coherent state,
  -- when the processors exist and no access crosses the end of its line.
  pub serve_all-AreServed :
      (rs : List Request) (c : Caches M) (mem : ℕ → Line)
      → IsCoherent bus mem present c
      → AreRequests present rs
      → (y : List Outcome × Caches M) × (last : ℕ → Line) × (serve_all c rs ≡ some y)
        × AreServed mem rs y.0 last
        × IsCoherent bus last present y.1
  unfolding serve_all
  serve_all-AreServed [] c mem h asked = (([], c), mem, refl, served_none, h)
  serve_all-AreServed (r ∷ rs) c mem h (and_more one more) =
      let (x, mid, first, does, coherent) = serve-IsDone {c = c} r h one in
      let (y, last, rest, do_all, at_end) = serve_all-AreServed rs x.1 mid coherent more in
      (
        (x.0 ∷ y.0, y.1),
        last,
        ap
              (λ (o : Option (Outcome × Caches M)). elim o [
                | none ↦ none
                | some z ↦ elim (serve_all z.1 rs) [ none ↦ none | some u ↦ some (z.0 ∷ u.0, u.1) ]
              ])
              first
            ∙ ap
                (λ (o : Option (List Outcome × Caches M)). elim o [
                  | none ↦ none
                  | some u ↦ some (x.0 ∷ u.0, u.1)
                ])
                rest,
        served_then mid does do_all,
        at_end,
      )

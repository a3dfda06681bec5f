-- ===== src/Cpu/Caches/Tests.antt =====
-- Runs of the data caches on a small machine: two processors in front of a plain memory.
use xremu.Base.{
  ℕ, ◌+◌, ◌*◌, ◌%◌, ◌^◌, ◌≡◌, ◌<◌, ◌∙◌, sym, refl, ap, arith, Bool, true, false, List, [], ◌∷◌, ltb,
  update, update_self, update-ne, some, none, Option,
}
use xremu.Cpu.Dcache.{Dcache, Line, cache_index_invalid, wb_index_invalid}
use xremu.Cpu.Caches.{LineBus, Caches, flush, drain, find_or_replace, evict_entry, put_all}
use xremu.Cpu.Caches.Access.{
  Outcome, done, load_access, store_access, scan, store_with, find_way, fill, read_in, read_bytes,
  take, evict_line, upgrade, settle,
}
use xremu.Cpu.Caches.Coherence.{IsLive, IsCoherent}
use xremu.Cpu.Caches.Coherence.Release.{flush-IsCoherent}
use xremu.Cpu.Caches.Coherence.Drain.{drain-IsCoherent}
use xremu.Cpu.Caches.Coherence.Load.{loads, load_access-IsCoherent}
use xremu.Cpu.Caches.Coherence.Store.{IsStored}
use xremu.Cpu.Caches.Coherence.Restart.{store_access-IsStored}
use xremu.Cpu.Caches.Coherence.RoundTrip.{load_access-store_access}
use xremu.Cpu.Caches.Coherence.Copies.{reset-IsCoherent, serve_all_copies}
use xremu.Cpu.Caches.Coherence.Upgrade.{IsUpgraded, upgrade-IsUpgraded}
use xremu.Cpu.Caches.Coherence.Serial.{
  Request, load, store, flush_buffer, write_entry, IsRequest, no_more, and_more, serve, serve_all,
  AreServed, serve_all-AreServed,
}

-- The bus answers below 2^20.
abbrev plain_bus : LineBus (ℕ → Line)
plain_bus = record {
  answers = λ t. ltb t (2 ^ 20);
  line = λ m t. m t;
  put = λ m t l. update m t l;
  line-put = λ m t l o aligned answers lt. ap (λ (x : Line). x o) (update_self m t l);
  line-put_ne = λ m t l u o aligned aligned' ne lt. ap (λ (x : Line). x o) (update-ne m t u l ne);
}

abbrev two_there : ℕ → Bool
two_there p = ltb p 2

abbrev empty_dcache : Dcache
empty_dcache = record {
  tags = λ _. 0;
  flags = λ _. 0;
  lines = λ _ _. 0;
  index_to_wb_index = λ _. wb_index_invalid;
  wb_indices = λ _. cache_index_invalid;
  replacement_index = 0;
  wb_write_index = 0;
  wb_fill_index = 0;
  wb_cycles = 0;
}

-- The byte at offset `o` of the line with tag `t` is `(t + o) % 256`.
abbrev start : Caches (ℕ → Line)
start = record {
  dcaches = λ _. empty_dcache;
  scache = record { tags = λ _. 0; flags = λ _. 0; exclusive_ids = λ _. 0; replacement_index = 0 };
  memory = λ t o. (t + o) % 256;
}

start-IsCoherent : IsCoherent plain_bus (λ t o. (t + o) % 256) two_there start
start-IsCoherent =
    reset-IsCoherent plain_bus two_there (λ p i. refl) (λ p w lt. refl) (λ p i lt. refl) (λ s. refl)

first : IsLive two_there 0
first = record { small = omega arith; there = refl }

second : IsLive two_there 1
second = record { small = omega arith; there = refl }

abbrev or_start : Option (Outcome × Caches (ℕ → Line)) → Caches (ℕ → Line)
or_start none = start
or_start (some r) = r.1

-- Processor 0 has stored two bytes.
abbrev stored : Caches (ℕ → Line)
stored = or_start (store_access plain_bus two_there 2 start 0 0x1002 2 0xABCD false)

first_byte : (load_access plain_bus two_there start 0 0x1003 1).0 ≡ done 3
unfolding load_access find_way fill read_in read_bytes take find_or_replace evict_entry put_all
    evict_line
first_byte = refl

load_access-IsCoherent_example :
    ((load_access plain_bus two_there start 1 0x1002 4).0
      ≡ loads plain_bus (λ t o. (t + o) % 256) two_there 0x1002 4)
    × IsCoherent plain_bus
        (λ t o. (t + o) % 256)
        two_there
        (load_access plain_bus two_there start 1 0x1002 4).1
load_access-IsCoherent_example =
    load_access-IsCoherent plain_bus (λ t o. (t + o) % 256) two_there 1 0x1002 4 start-IsCoherent
      second (omega arith)

store_access-IsStored_example :
    (r : Outcome × Caches (ℕ → Line)) × (store_access plain_bus two_there 2 start 0 0x1002 2 0xABCD
        false
      ≡ some r)
    × IsStored plain_bus (λ t o. (t + o) % 256) two_there 0x1002 2 0xABCD false r
store_access-IsStored_example =
    store_access-IsStored plain_bus (λ t o. (t + o) % 256) two_there 0 0x1002 2 0xABCD false
      start-IsCoherent first

store_is_done :
    store_access plain_bus two_there 2 start 0 0x1002 2 0xABCD false ≡ some (done 0, stored)
unfolding store_access scan store_with find_way fill read_in
store_is_done = refl

load_access-store_access_example :
    (load_access plain_bus two_there stored 1 0x1002 2).0 ≡ done (0xABCD % 2 ^ (8 * 2))
load_access-store_access_example =
    load_access-store_access plain_bus (λ t o. (t + o) % 256) two_there 0 1 0x1002 2 0xABCD false
      start-IsCoherent first second (omega arith) store_is_done

-- Both processors store and load at one place, and the write buffers are written.
abbrev requests : List Request
requests =
    store 0 0x1000 4 7 false
    ∷ load 1 0x1000 4
    ∷ store 1 0x1000 4 9 true
    ∷ write_entry 1
    ∷ flush_buffer 0
    ∷ load 0 0x1000 4
    ∷ []

serve_all-AreServed_example :
    (y : List Outcome × Caches (ℕ → Line)) × (last : ℕ → Line) × (serve_all plain_bus two_there
        start requests
      ≡ some y)
    × AreServed plain_bus two_there (λ t o. (t + o) % 256) requests y.0 last
    × IsCoherent plain_bus last two_there y.1
unfolding IsRequest
serve_all-AreServed_example =
    serve_all-AreServed plain_bus two_there requests start (λ t o. (t + o) % 256) start-IsCoherent
      (and_more (first, omega arith)
        (and_more (second, omega arith)
          (and_more (second, omega arith)
            (and_more second (and_more first (and_more (first, omega arith) no_more))))))

flush-IsCoherent_example :
    IsCoherent plain_bus (λ t o. (t + o) % 256) two_there (flush plain_bus two_there start 0)
flush-IsCoherent_example =
    flush-IsCoherent plain_bus (λ t o. (t + o) % 256) two_there 0 first start-IsCoherent

drain-IsCoherent_example :
    IsCoherent plain_bus (λ t o. (t + o) % 256) two_there (drain plain_bus two_there start 1)
drain-IsCoherent_example =
    drain-IsCoherent plain_bus (λ t o. (t + o) % 256) two_there 1 second start-IsCoherent

-- The data caches after a load of processor 0, and after one more of processor 1.
abbrev once : Caches (ℕ → Line)
once = (load_access plain_bus two_there start 0 0x1002 1).1

abbrev twice : Caches (ℕ → Line)
twice = (load_access plain_bus two_there once 1 0x1003 1).1

once-IsCoherent : IsCoherent plain_bus (λ t o. (t + o) % 256) two_there once
once-IsCoherent =
    (load_access-IsCoherent plain_bus (λ t o. (t + o) % 256) two_there 0 0x1002 1 start-IsCoherent
      first (omega arith)).1

shared_by_one : (once.dcaches 0).flags 512 ≡ 1
unfolding load_access find_way fill read_in take find_or_replace evict_entry
shared_by_one = refl

shared_by_two :
    ((twice.dcaches 0).flags 512 ≡ 1)
    × ((twice.dcaches 1).flags 512 ≡ 1)
    × ((twice.dcaches 0).tags 512 ≡ 0x1000)
    × ((twice.dcaches 1).tags 512 ≡ 0x1000)
unfolding load_access find_way fill read_in take find_or_replace settle put_all evict_line
    evict_entry
shared_by_two = (refl, refl, refl, refl)

upgrade-IsUpgraded_example :
    IsUpgraded plain_bus
      (λ t o. (t + o) % 256)
      two_there
      once
      0
      512
      (upgrade plain_bus two_there once 0 512 ((once.dcaches 0).tags 512))
upgrade-IsUpgraded_example =
    upgrade-IsUpgraded plain_bus (λ t o. (t + o) % 256) two_there 0 512 once-IsCoherent first
      (omega arith) shared_by_one

abbrev two_loads : List Request
two_loads = load 0 0x1002 1 ∷ load 1 0x1003 1 ∷ []

abbrev two_loads_answer : List Outcome × Caches (ℕ → Line)
two_loads_answer = (
  (load_access plain_bus two_there start 0 0x1002 1).0
      ∷ (load_access plain_bus two_there once 1 0x1003 1).0
      ∷ [],
  twice,
)

two_loads_run : serve_all plain_bus two_there start two_loads ≡ some two_loads_answer
unfolding serve_all serve
two_loads_run = refl

serve_all_copies_example :
    ((twice.dcaches 0).flags 512 ≡ 1)
    × ((twice.dcaches 1).flags 512 ≡ 1)
    × ((o : ℕ) → o < 16 → (twice.dcaches 0).lines 512 o ≡ (twice.dcaches 1).lines 512 o)
unfolding IsRequest
serve_all_copies_example =
    serve_all_copies plain_bus (λ t o. (t + o) % 256) two_there two_loads start two_loads_answer
      start-IsCoherent (and_more (first, omega arith) (and_more (second, omega arith) no_more))
      two_loads_run 0 1 512 512 first second (omega arith) (omega arith) (omega arith)
      (omega (arith, shared_by_two.0)) (omega (arith, shared_by_two.1))
      (shared_by_two.2 ∙ sym shared_by_two.3)

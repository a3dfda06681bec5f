-- ===== src/Cpu/Memory/Tests.antt =====
-- Runs of `XrAccess` on a small machine: two processors in front of a plain memory, without the MMU.
use xremu.Base.{
  ℕ, ◌+◌, ◌*◌, ◌%◌, ◌^◌, ◌≡◌, refl, ap, arith, Bool, true, false, ltb, update, update_self,
  update_same, subst, sym, update-ne, some, none, Option,
}
use xremu.Cpu.Dcache.{Dcache, Line, cache_index_invalid, wb_index_invalid}
use xremu.Cpu.State.{Processor}
use xremu.Cpu.Caches.{LineBus, Caches}
use xremu.Cpu.Caches.Access.{scan, store_access, store_with, find_way, fill, read_in}
use xremu.Cpu.Caches.Coherence.{IsLive, IsCoherent}
use xremu.Cpu.Caches.Coherence.Copies.{reset-IsCoherent}
use xremu.Cpu.Memory.{
  IoBus, Machine, whole, reading, writing, Access, accessed, refused, failed, locate, dcache_access,
  xr_access,
}
use xremu.Cpu.Memory.Accessed.{IsAccessed, xr_access-IsAccessed}
use xremu.Cpu.Memory.Passing.{turn, xr_access_passing}

-- The bus answers below 2^20.
abbrev plain_bus : LineBus (ℕ → Line)
plain_bus = record {
  answers = λ t. ltb t (2 ^ 20);
  line = λ m t. m t;
  put = λ m t l. update m t l;
  line-put = λ m t l o aligned answers lt. ap (λ (x : Line). x o) (update_self m t l);
  line-put_ne = λ m t l u o aligned aligned' ne lt. ap (λ (x : Line). x o) (update-ne m t u l ne);
}

abbrev two_there : ℕ → Bool
two_there p = ltb p 2

abbrev empty_dcache : Dcache
empty_dcache = record {
  tags = λ _. 0;
  flags = λ _. 0;
  lines = λ _ _. 0;
  index_to_wb_index = λ _. wb_index_invalid;
  wb_indices = λ _. cache_index_invalid;
  replacement_index = 0;
  wb_write_index = 0;
  wb_fill_index = 0;
  wb_cycles = 0;
}

-- The byte at offset `o` of the line with tag `t` is `(t + o) % 256`.
abbrev start : Caches (ℕ → Line)
start = record {
  dcaches = λ _. empty_dcache;
  scache = record { tags = λ _. 0; flags = λ _. 0; exclusive_ids = λ _. 0; replacement_index = 0 };
  memory = λ t o. (t + o) % 256;
}

start-IsCoherent : IsCoherent plain_bus (λ t o. (t + o) % 256) two_there start
start-IsCoherent =
    reset-IsCoherent plain_bus two_there (λ p i. refl) (λ p w lt. refl) (λ p i lt. refl) (λ s. refl)

first : IsLive two_there 0
first = record { small = omega arith; there = refl }

second : IsLive two_there 1
second = record { small = omega arith; there = refl }

-- Device registers read as zero.
abbrev plain_io : IoBus (ℕ → Line)
plain_io = record { read = λ m a n. (some 0, m); write = λ m a v n. (true, m) }

abbrev processor : ℕ → Processor
processor n = record {
  id = n;
  pc = 0x1000;
  reg = λ k. 0;
  cr = λ k. 0;
  itb = λ k. 0;
  dtb = λ k. 0;
  itb_last_vpn = 0;
  itb_last_result = 0;
  dtb_last_vpn = 0;
  dtb_last_result = 0;
  ic_tags = λ k. 0;
  ic_flags = λ k. 0;
  ic_replacement_index = 0;
  dcache = empty_dcache;
  pause_calls = 0;
  nmi_mask_counter = 0;
  progress = 0;
  dispatches = 0;
  locked = false;
  last_tb_miss_was_write = false;
  user_break = false;
  halted = false;
  running = true;
}

abbrev at_first : Machine (ℕ → Line)
at_first = record { proc = processor 0; caches = start }

at_first-IsCoherent : IsCoherent plain_bus (λ t o. (t + o) % 256) two_there (whole at_first)
at_first-IsCoherent =
    subst (IsCoherent plain_bus (λ t o. (t + o) % 256) two_there) (sym same) start-IsCoherent
  where
    same : whole at_first ≡ start
    same = λ i. record start { dcaches = update_same start.dcaches 0 i }

xr_access-IsAccessed_example :
    (a : Access (ℕ → Line)) × (xr_access plain_bus plain_io two_there at_first 0x1002
        (writing 0xABCD false)
        2
      ≡ some a)
    × IsAccessed plain_bus plain_io
        (λ t o. (t + o) % 256)
        two_there
        at_first
        0x1002
        2
        (writing 0xABCD false)
        a
xr_access-IsAccessed_example =
    xr_access-IsAccessed plain_bus plain_io (λ t o. (t + o) % 256) two_there at_first 0x1002 1
      (omega arith) (writing 0xABCD false) at_first-IsCoherent first

abbrev machine_after : Option (Access (ℕ → Line)) → Machine (ℕ → Line)
machine_after none = at_first
machine_after (some (accessed v m)) = m
machine_after (some (refused m)) = m
machine_after (some (failed m)) = m

abbrev written_machine : Machine (ℕ → Line)
written_machine =
    machine_after (xr_access plain_bus plain_io two_there at_first 0x1002 (writing 0xABCD false) 2)

write_is_done :
    xr_access plain_bus plain_io two_there at_first 0x1002 (writing 0xABCD false) 2
    ≡ some (accessed 0 written_machine)
unfolding xr_access locate dcache_access store_access scan store_with find_way fill read_in
write_is_done = refl

xr_access_passing_example :
    (r : Machine (ℕ → Line)) × (xr_access plain_bus plain_io two_there
        (turn (processor 1) written_machine)
        0x1002
        reading
        2
      ≡ some (accessed (0xABCD % 2 ^ (8 * 2)) r))
unfolding locate
xr_access_passing_example =
    xr_access_passing plain_bus plain_io (λ t o. (t + o) % 256) two_there at_first written_machine
      (processor 1) 0x1002 0x1002 0x1002 1 0xABCD false at_first-IsCoherent first second
      (omega arith) refl refl
      (record { proc = processor 0; flags = 0; located = refl; cached = refl })
      (record {
        proc = (turn (processor 1) written_machine).proc;
        flags = 0;
        located = refl;
        cached = refl;
      })
      write_is_done

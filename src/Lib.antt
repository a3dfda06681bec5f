-- ===== src/Lib.antt =====
-- XR/EMU, an emulator of the XR/station: a model of its processor, its caches, its memory
-- boards, its interrupt controller, its clock, its keyboard and its mouse.
--
-- The program. Every XR/17032 processor (src/xr17032fast.c, src/xraccess.inc.c) runs a time slice
-- on the scheduler's threads. It decodes guest instructions into blocks of cached instructions, runs
-- the handlers of a block one after the other, translates addresses through two TBs with a lookup
-- hint each, and goes through simulated caches to the bus (src/ebus.h), which dispatches by address
-- to the boards. The devices raise interrupts in the controller (src/lsic.c), one per processor,
-- whose flag the processors poll.
--
-- The model. State is a record, an operation is a function from state to state, an error is an
-- answer, and a C operation without a defined result is `none`. An array is a function of its index.
-- Words are natural numbers, with the wrap-around of `uint32_t` written out (Base/Word).
--   Base, Bits   Boolean tests, arrays, 32-bit words; binary digits, masks and fields of a word.
--   Bus          The answers of a bus operation (src/ebus.h).
--   Lsic         src/lsic.c and src/lsic.h: the controller of one processor and the table of all. Which
--                processors exist (`XrProcessorTable`) is the parameter `present`. `broadcast` is the
--                loop of `LsicInterrupt` and `claim_from` that of `LsicRead`; both count down the
--                rounds that are left. A register number and an interrupt number are not negative. An
--                operation is one step, as the lock makes it.
--   Cpu/State    `struct _XrProcessor` (src/xr.h) and `XrReset`.
--   Cpu/Exception   `XrPushMode` to `XrBasicException`.
--   Cpu/Result   What an instruction hands over: the processor, how it leaves the block, what is to be
--                thrown out of the block cache, and the lines written to the bus.
--   Cpu/Dcache   The data cache of one processor with its write buffer, and the functions of
--                src/xraccess.inc.c that work on these alone: `XrFlushWriteBuffer`, `XrWriteWbEntry` and
--                `XrDowngradeLine`. A write to the bus is an entry of a list.
--   Cpu/Caches   The data caches of all processors, the Scache, and the memory behind the bus, which is
--                the interface `LineBus`: lines that can be read and written. `XrDowngradeAll`,
--                `XrFindInScache` and `XrFindOrReplaceInScache`.
--   Cpu/Caches/Access   `XrDcacheAccess`: `load_access` for a load, `store_access` for a store, where
--                `take` is the Scache's part of a miss, `fill` a whole miss and `upgrade` the store into
--                a shared line. An access is one step and lies in one line; the locks, and what could come
--                between them, are left out. The bus error of a miss is an answer; the exception that follows it is in
--                Cpu/Exception.
--   Cpu/Caches/Coherence   What it is for the caches to hold one memory, and the lemmas on each
--                operation: lines given up (Release to Clear), a miss (Entry, Take to Fill), a
--                load, a store (Merge to Restart), and runs of accesses by all processors (Serial).
--   Cpu/Memory   `XrAccess` and `XrNoncachedAccess` (src/xraccess.inc.c) for the processor that runs, with
--                the caches of all; the bus for accesses that are not cached is the interface `IoBus`.
--                There is no result after a call of `abort`. Cpu/Memory/Handlers has the loads and stores
--                of src/xr17032fast.c, with LL and SC.
--   Cpu/Blocks   The cache of decoded blocks (src/xr17032fast.c). Blocks, prediction tables and pages are
--                numbers, and a doubly linked list is the list of its entries, from which
--                `RemoveEntryList` takes an entry. A place that can hold a pointer to a block is a `Slot`,
--                and `CachedBy` holds slots. There is no result where a lookup, an allocation or a branch
--                would follow a null pointer or take a table for a block; what frees blocks has a result
--                there too, with the model's own flag `undefined` set. The flag is also set where
--                `XrPopulateIblockList` would walk past the head of a list of fewer than 32 blocks.
--                Cpu/Blocks/Reclaim has what gives out, looks up and throws away blocks, Cpu/Blocks/Fetch `XrIcacheAccess` (src/xraccess.inc.c) and
--                `XrDecodeInstructions`, where the reads of lines from the bus are a parameter, and
--                Cpu/Blocks/Start the lists that `XrInitializeProcessor` makes.
--   Cpu/Blocks/Consistent   What it is for the pointers to be right, and the lemmas on each operation.
--   Cpu/Branch   The branches and jumps, with the pointers through which they reach the next block.
--   Cpu/System   The control instructions; Cpu/System/Control has the cases of `XrExecuteMtcr`.
--   Cpu/Translate   `XrLookupItb`, `XrLookupDtb` and `XrTranslate`. The search over the 32 entries
--                counts down the entries that are left.
--   Cpu/Decode   The `XrDecode...` functions and their tables. A decoder gives the list of one or two
--                instructions that it writes, and whether it ends the block.
--   Cpu/Execute  The computing instructions, the table from a handler's name to the handler, and the
--                run of a list of cached instructions.
--   Cpu/Isa      The register instructions as the instruction set describes them, and the proof that
--                decoding and running a word agrees with it.
--   Ram          src/ram256.c: reads and writes of the memory boards, and `EBusRead` and `EBusWrite`
--                (src/ebus.h). The sizes of the slots are the parameter `sizes`, and the handlers of all
--                branches but the boards' two are the parameter `others`. Ram/Line gives the boards to the caches as a `LineBus`.
--   Rtc          src/rtc.c: the real-time clock, with the four bytes of NVRAM (src/pboard.h) that keep
--                its offset. The host's time is an argument of `update_real_time`. `get_rtc_offset` takes
--                a last byte of 128 or more, whose shift C leaves open, as compilers do.
--   Keyboard, Mouse   src/keybd.c and src/mouse.c: the two devices behind the Amtsu controller. A key comes
--                as its code of `KeyMap`; the interrupt to raise is an answer, and so is whether the
--                processor is charged for polling (`XrDecrementProgress`).
--   Cpu/Tests, Cpu/Caches/Tests, Cpu/Memory/Tests, Cpu/Branch/Tests, Keyboard/Tests, Lsic/Tests,
--   Ram/Tests, Rtc/Tests   Runs on concrete states.
--
-- Bounds. `store_access` runs on fuel, the number of times it goes through the label `restart`; 2 is
-- enough, since the flush before the second leaves the write buffer free. Every other loop of the
-- modelled code has a bound that is known when it starts.
--
-- Not modelled. The stall and profiling counts; the cycle counts of a dispatch (`CyclesDone`); the
-- set-up of the memory boards and the other boards behind the bus; the execution loop and the scheduler; the other
-- devices; the build without simulated caches; and host I/O. The locks and threads are left out.
pub mod Base
pub mod Bits
pub mod Bus
pub mod Lsic
pub mod Cpu
pub mod Ram
pub mod Rtc
pub mod Keyboard
pub mod Mouse

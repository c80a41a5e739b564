-- ===== src/Lib.antt =====
-- Verification of the kernel JavaScript of windows-10-js (jsOS), an NT-like system whose kernel is
-- written in JavaScript over a few hardware primitives `os.*`. The kernel is cooperative: one
-- processor runs one piece of code to its end, and a wait is a loop that polls an object and pumps
-- the timers, the DPCs and the work items between two polls.
--
-- What is modelled, and where:
--   Hal.Memory     hal/qjs/primitives_memory.c and system32/win32/guest-memory.js: physical memory
--                  as bytes, with little-endian accesses of 8 to 64 bits. Hal/Memory/Cells and
--                  Hal/Memory/Fields have the laws of reads after writes.
--   NtAbi          system32/win32/nt-abi.js: the offsets of the structures in guest memory.
--   Ke.Machine     the state that the kernel modules share: memory, IRQL, the queues of dpc.js,
--                  timer.js and work-items.js, and the thread that runs.
--   Ke.Irql        system32/ntos/ke/irql.js.
--   Ke.Dpc         system32/ntos/ke/dpc.js: the queue of deferred procedure calls and its drain.
--   Ke.Timer       system32/ntos/ke/timer.js: the timer queue and its sweep.
--   Ke.Dispatcher  system32/ntos/ke/dispatcher.js: events, mutexes, and the waits on them.
--   Ke.FastMutex   system32/ntos/ke/fast-mutex.js.
--   Io.WorkItems   system32/ntos/io/work-items.js.
--   Io.Controller  system32/ntos/io/controller.js: controllers shared by devices.
--   Io.StartIo     system32/ntos/io/start-io.js: the queue of a device's packets.
--   Ex.Resource    system32/ntos/ex/resource.js: the reader/writer lock ERESOURCE.
--   Ex.Lookaside   system32/ntos/ex/lookaside.js: lookaside lists over the guest heap.
--   Mm.Pfn         system32/ntos/mm/pfn.js: the physical page frames and their bitmap.
--   Mm.VirtualMemory  system32/ntos/mm/virtual-memory.js: ranges of virtual pages, over frames and
--                  page tables that are an interface.
--   Po             system32/ntos/po/power-manager.js: power states and waiting power IRPs.
--   Ps.Process     system32/ntos/ps/process.js: EPROCESS, KTHREAD and the active processes.
--   Ps.Scheduler   system32/ntos/ps/scheduler.js: the round-robin scheduler of generators.
--   Ob             system32/ntos/ob/object-manager.js: the named objects and their handles.
--   Fs.MemoryFileSystem  system32/ntos/fs/memory-file-system.js: files in memory.
--   Nano.MessageChannels  system32/nano/message-channels.js: named queues of messages.
--   Cm.Keys, Cm.Registry  system32/ntos/cm/registry.js: the tree of keys and the handles.
--   Win32          system32/win32/guest-memory.js: the allocator of guest memory.
--   Win32.GuestStrings  system32/win32/guest-strings.js: C texts and counted texts.
--   Win32.Rtl      handlers of system32/win32/ntoskrnl/rtl.js: memory blocks, interlocked
--                  operations and lists, times, versions, bitmaps, C texts, counted
--                  texts, numbers as texts, and printf.
--   Win32.Ex       handlers of system32/win32/ntoskrnl/ex.js: rundown protection, lists of entries.
--   Drivers        system32/drivers/video/vga.js, and system32/drivers/input/keyboard.js with the
--                  scancode ring of system32/nano/interrupts.js.
-- A function keeps the name of its JavaScript function in snake case; a module variable is a field
-- of the state, which an operation takes and returns. An operation that may halt the processor by a
-- BUGCHECK, or loop, is an `Action`: it ends `ok`, `halted`, or `out_of_fuel`.
--
-- Interaction: a wait (Ke.Dispatcher) calls `pump_kernel`, which sweeps the timers, drains the
-- DPCs and runs the work items; a due timer queues its DPC and sets its own signal state; the fast
-- mutex and ERESOURCE wait on events that they embed; DPCs raise and lower the IRQL.
--
-- Conventions and bounds:
--   * A 32-bit field wraps: `write32` stores its value modulo 2 ^ 32. Addresses are not truncated:
--     os.readPhysical32 truncates them to 32 bits, which changes none below 4 GB.
--   * A text is the list of its code units. A reader that meets no end within its guard halts the
--     processor: `none`.
--   * Times are exact numbers of 100 ns since 1601, where the code has doubles in milliseconds, or in
--     units of 100 ns, which are rounded above 2 ^ 53.
--   * Loops take fuel: `fuel` the rounds of a loop, `rounds` those of each wait in it, `drain` the
--     entries that one pump may take from a queue. How much is enough is part of the results
--     below.
--   * Parameters: native routines (os.execMsAbi), routines registered by JavaScript, and the clock
--     are the record `Native`, with what a theorem needs of them as its hypotheses. Io.Controller
--     has a native routine that also answers a value, `run`; toLowerCase and toUpperCase, which
--     the interpreter provides, are `lower` and `upper`. Ob takes what the mounted file systems
--     hold during an operation, and how an object reads as a text; Mm.VirtualMemory the frames and
--     page tables; Io.StartIo the driver's routine, `exec`.
--
-- Not modelled: the boot code and the hardware layer in assembly and C, the interpreter and the
-- mathematics library, which are copies of other projects, the buses, PnP, the I/O manager, the
-- loader of drivers, page tables, NTFS, and the shell.
-- Of rtl.js the handlers on the registry, random numbers, exceptions and features are left out, of
-- ex.js EX_TIMER, ExUuidCreate and the handlers that only call other modules.
pub mod Prelude
pub mod Hal
pub mod NtAbi
pub mod Ke
pub mod Io
pub mod Ex
pub mod Cm
pub mod Drivers
pub mod Fs
pub mod Mm
pub mod Nano
pub mod Ob
pub mod Po
pub mod Ps
pub mod Win32
pub mod Tests

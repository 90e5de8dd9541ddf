-- ===== src/Lib.antt =====
-- The kernel of chick: a verification library of its core.
--
-- chick is a capability-based microkernel for x86-64. User code names kernel objects by
-- capabilities, which lie in the slots of capability nodes; the slots are linked into a chain, the
-- MDB, by which capabilities are revoked. A thread passes messages through endpoints, each with a
-- queue of waiting threads, and a core runs the ready thread with the earliest deadline. Frames of
-- memory are mapped into address spaces, which are trees of page tables.
--
-- The parts, by file of the repository (all under src/kernel/src):
--   Objects, Objects/CapRights   objects/mod.rs, objects/traits.rs: raw capabilities, types, rights
--   Error                        error.rs
--   Frame                        objects/frame.rs: capabilities of frames, as bit fields
--   Paging, Paging/Entry         vspace.rs, arch/x86_64/vspace/entry.rs and level.rs: page table
--                                entries as 64-bit words
--   VSpace, VSpace/Map, /Unmap   objects/vspace.rs, vspace.rs: walk, map_4k, map_2m, map_1g,
--                                map_frame, unmap and install_table, each under its own name
--   Thread, Thread/Queue         objects/tcb.rs, arch/x86_64/trapframe.rs: threads and their queues;
--                                Queue/Fifo is what a queue promises
--   Scheduler                    scheduler/executor.rs: the executor of one core
--   Endpoint, /Ipc, /Cancel      objects/endpoint.rs: send_ipc, receive_ipc, cancel_ipc,
--                                cancel_all_ipc, cancel_badged_sends
--   Cnode, Cnode/Mdb             objects/cnode.rs, objects/nullcap.rs: nodes, slots and the MDB
--   Cnode/Spec                   the `spec` functions of these files, as predicates; Spec/Edits is what
--                                the operations of the MDB promise of them
--   Cspace                       cspace.rs: lookup of an address through the nodes
--   Untyped                      objects/untyped.rs: retyping of memory into objects
--   Paging/Trait, VSpace/Table   arch/x86_64/vspace/entry.rs and level.rs, vspace.rs: the traits of
--                                entries and levels, and the methods of a table
--   Identify                     identify of the types in objects/, and CapRef of objects/mod.rs
--   Sync, Percore                scheduler/sync.rs, percore.rs and mod.rs: the cell that is written
--                                once, the data of each core, and the set-up of the executors
--   Syscall, Syscall/Stub        syscall.rs, arch/x86_64/syscall.rs: numbers, handler and entry
--   Device/Apic, /Pic, /Pit      arch/x86_64/apic.rs, pic.rs and pit.rs: the drivers, on a record of
--                                the accesses to ports and registers
--   Tick, Tick/Float             arch/x86_64/tick.rs: ticks and the calibration, with its f32 numbers
--   Tlb                          arch/x86_64/vspace/tlb.rs: flushes and barriers by instruction
--   Segment                      arch/x86_64/interrupts/gdt.rs and idt.rs, arch/x86_64/syscall.rs: the
--                                descriptor tables, and the registers for system calls
--   Interrupts                   arch/x86_64/interrupts/idt.rs and main.rs: the handler of the timer
--                                with its locks, and the start of the kernel
-- Common holds what they share: Boolean tests, 64-bit words and their bit fields (Bits), stores
-- (Store), doubly linked lists in a store (Chain), outcomes of code that may fail or panic (Outcome)
-- and sums that may overflow (Checked). A module's theorems stand in child modules named for what
-- they prove. Examples holds runs on concrete values, and each theorem of the list below applied to
-- them.
--
-- How the code is represented:
--   * A pointer is an address, and the objects of a type are a function from addresses to values,
--     passed from step to step. That a pointer is valid is what the callers of the unsafe code
--     promise. A `CapRef` is the raw capability in the slot that it points to.
--   * usize and u64 are natural numbers with the wrap-around of a release build written out. Where
--     a debug build panics and the theorems speak of it, the build is an argument (`Profile`).
--   * A call that may fail gives an `Outcome`: a value, an error or a panic. A function that
--     diverges says in `Exit` whether it goes into a thread or into the halt loop.
--   * The operations on endpoints run on one core. A call of its executor panics, or reads memory that
--     is not initialised, where the set-up does not cover the core; the latter is an error, `Fault`.
--   * `contains` on a set of flags is `includes`, the source's own specification of it.
--   * `PhysAddr::new` panics from 2 ^ 52 on: so do `retype` and `map_frame`, and the masks of the
--     entries keep their addresses below.
--   * Address spaces record a flush of a page; Tlb says what it removes. Tables are told apart by
--     their virtual address: they are aligned to 4 KiB, so that no two overlap.
--   * What a device or CPUID answers is an argument; the accesses of the code are recorded.
--   * `VirtAddr::new` of the crate x86_64 is a parameter where the start of the kernel calls it, and
--     a lock of the crate spin that is held makes the core wait for ever.
--   * An f32 is a natural number, rounded to 24 significant bits; no value of the code is another.
--   * `GlobalDescriptorTable` of the crate x86_64 is a parameter, `GdtOps`, and `IsGdt` states what is
--     relied on of it; Segment/Sample meets it.
--   * `BinaryHeap` of the crate heapless is a parameter, `HeapOps`, and `IsHeap` states what the
--     executor relies on; Scheduler/Heap/Sample is a list that meets it.
--
-- Loops: the copy of message registers, the initialisation of a node, the sum of the samples and a
-- run of timer interrupts are recursion on a count, and the loop of `retype` is recursion on the list
-- of slots. `revoke`, `cancel_all_ipc` and `cancel_badged_sends` take a bound on the rounds, and as
-- many rounds as there are nodes behind the slot, or threads in the queue, are enough. The lookup
-- takes a round for each bit of the address and one more: a debug build asserts that every round
-- takes a bit. A release build does not, and there a node without bits can be visited for ever. The
-- last place of an f32 is found in 40 rounds, which is enough for a u64.
--
-- Threads: `OnceLock` is a relation between states, a step for each access of one thread to the
-- cell; the steps of any number of threads interleave freely, as if memory were sequentially
-- consistent. The function given to `get_or_init` may use the cell itself, and may abort. The other
-- parts run on one core at a time.
--
-- Not modelled: the console, which adapts a file of another project, and the callbacks for ACPI,
-- which nothing calls; the handlers of faults, which log or panic; and the assembly that restores a
-- thread. `main` is modelled without the console and the descriptor tables.
pub mod Cnode
pub mod Common
pub mod Cspace
pub mod Device
pub mod Endpoint
pub mod Error
pub mod Examples
pub mod Frame
pub mod Identify
pub mod Interrupts
pub mod Objects
pub mod Paging
pub mod Percore
pub mod Scheduler
pub mod Segment
pub mod Sync
pub mod Syscall
pub mod Thread
pub mod Tick
pub mod Tlb
pub mod Untyped
pub mod VSpace

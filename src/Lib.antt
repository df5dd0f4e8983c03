-- ===== src/Lib.antt =====
-- Verification of core parts of the Roanix kernel: the allocators of address ranges and of physical
-- frames, byte paths, partition tables, pipes, timer descriptors, signals, the line discipline of
-- terminals, clocks, the description of devices, and a lock.
--
-- The parts and how they interact. `Vmem` (kernel/src/mem/vmem.rs) hands out ranges of addresses
-- and keeps a boundary tag for each in an ordered index (kernel/src/mem/index.rs). The frames
-- behind them come from lists and the caches of CPUs (kernel/src/mem/phys.rs). Paths
-- (kernel/src/fs/path.rs) are parsed before the file systems resolve them. Partition discovery
-- (kernel/src/fs/partition.rs) reads the tables of a block device and maps the requests of a
-- partition to its disk. Pipes (kernel/src/proc/pipe.rs) and timers (kernel/src/proc/timerfd.rs)
-- stand behind the descriptors of processes. A terminal (kernel/src/dev/tty.rs) turns bytes into
-- lines and sends signals, which wait in a process (kernel/src/proc/signal.rs) until a thread
-- returns to user space or waits for them. The callouts of a CPU (kernel/src/sys/clock.rs) wake
-- sleeping threads.
--
-- Prelude holds what the files share: Boolean tests and lists over native numbers, 64-bit
-- arithmetic, `Result`, and `Outcome`, which also tells a failed assertion from an error.
-- Mem.Index is `Index` over a tree that is a parameter: the red-black tree is third-party, and its
-- documented behaviour is the record `OrderedTree`, which Mem.Index.ListTree shows can be met.
-- Mem.Phys is kernel/src/mem/phys.rs, with Mem.PhysSeg for kernel/src/mem/physseg.rs and
-- Mem.Reserve for kernel/src/mem/reserve.rs: PageEntry is a frame's entry, Queues with
-- Queues.Giving the free lists and the caches of CPUs, Search and Contiguous are alloc_contiguous;
-- Totals, Counting, Taking, Putting, Draining, Frames, Allocating, Releasing, Zeroing and Steps
-- hold the proofs. A frame is its number, a cache's array a stack, and whether a frame's memory
-- holds zeros is a function of the frame. A call is one step, so that what other CPUs do between
-- its locks is left out; the segments and lists are those that the setup at boot leaves. The search
-- has fuel for one turn more than there are frames, which is enough, since each turn starts at a
-- later frame.
-- Mem.Vmem.Arena, Take, Fit, Alloc and Release are `Vmem`'s methods under their own names; Tiles,
-- Pieces, Taking, Allocates, Placing, Fixed, Merging, Freeing and RoundTrip are about what they do
-- to the map from addresses to their status. A size class's intrusive list is the list of its tags'
-- bases and the bitmap a list of bits. Whether the pool has a node for a tag is an argument.
-- Fs.FilePath is path.rs, with `Components::new` and `next` as `new` and `next`; Names, Parse and
-- Parent hold its proofs.
-- Fs.Partition and Fs.Partition.Table are partition.rs; Ranges, Links and Discovery hold its
-- proofs. The disk below is an argument: its sizes, its reads, and whether there is memory for a
-- buffer.
-- Proc.Pipe is pipe.rs. A call holds the pipe's mutex, so each round of its loop is one step, which
-- returns or waits; runs are sequences of such steps in any order. What a call reads from or writes
-- to user memory is an argument (`Source`, `Sink`).
-- Proc.TimerFd is timerfd.rs in the same way, with the clock's readings as arguments.
-- Dev.Tty is kernel/src/dev/tty.rs: Queue and Echo are the queues of a terminal and the editing of
-- its line, Input is process_input_byte with its callers, Read a round of read_canonical, and
-- Settings the settings and their form in memory. What runs under the lock is a function of the
-- state; the signals, flushes and wakes that follow are in the result.
-- Proc.Signal is kernel/src/proc/signal.rs: every operation on the signals of a process under the
-- lock of its state, and Deliver the loop of deliver_pending, where a thread that parks goes on
-- with a state that the others have left, one of a list that is a parameter. Writes to user memory
-- are parameters that say whether they succeed. The frame addresses are those of x86_64.
-- Sys.Clock is kernel/src/sys/clock.rs: the scale of a clock source, where a failed assertion is
-- none, and the deadlines that a CPU's timer is armed for.
-- Sys.Calendar is the tournament of the calendar queue of the same file, over the first keys of the
-- 256 buckets; the loop of update runs on fuel 8, the levels between a leaf and the root.
-- Sys.Calendar.Queue is insertion, removal and expiry, over any trees that the buckets may be, with
-- a timer's target left out.
-- Driver.Resource and Driver.Property are kernel/src/driver/core/resource.rs and property.rs: the
-- ranges and the named values that describe a device. A builder is its list of entries; Names,
-- Sorted, Search and Edits hold the proofs about it.
-- Sys.RwLock is kernel/src/sys/sync/rwlock.rs: each atomic access of a reader or a writer is a
-- step, and the writer mutex is the gate, with what its holder does next.
--
-- Bounds and fuel. A word is a native number below `2 ^ 64`; checked and saturating operations are
-- written out. The loop of `parse` runs on one more round of fuel than the path has bytes, which is
-- enough, since every component has a byte; the copy loop of a pipe's write has a round for each
-- byte, and each round that goes on copies one at least. The chain of extended boot records has the
-- bound of the code, 128 links. The loop of deliver_pending needs a turn for each signal that pends
-- at the start or in a state that a woken thread finds, and one more for the start and for each
-- such state, since a turn that goes on has taken a signal. The binary search has fuel for each
-- entry. The search for a clock's shift is recursion on the shift.
--
-- Not modelled: hardware, unsafe pointer code, the setup of the frame database at boot, the
-- scheduler, registration and logging, the raw reads and the output of terminals, signal
-- descriptors, sleeping threads, and the parts of the kernel that only pass requests on. `VmemFit`
-- keeps both of its variants.
pub mod Prelude
pub mod Fs
pub mod Mem
pub mod Proc
pub mod Driver
pub mod Sys
pub mod Dev

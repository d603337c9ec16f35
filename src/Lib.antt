-- ===== src/Lib.antt =====
-- A verification library for the kernel of the repository: a small teaching kernel with threads,
-- priorities, semaphores, monitors, messages, alarms and devices.
--
-- The files, with the code that each models:
-- - Base: the names and lemmas that the others share.
-- - Errors: lib/errno.h and kernel/errno.h, the error numbers and EXIT.
-- - Clock: lib/types.h, time_t with time_add, time_sub and time_cmp.
-- - Bits: lib/bits_generic.h and lib/bits.h, msb_index and rand.
-- - Threads: kernel/thread.c, descriptors, queues, the ready lists and their masks. Its children
--   Masks, Links, Moves, Ready, Unready, Waiting, Fields and Initial prove the invariant IsLinked of
--   the queues.
-- - Scheduler: kthreads_schedule of kernel/thread.c and the hooks of kernel/sched.c. Laws states
--   the contract IsLawful of a secondary scheduler; Highest, Retire, Select and Schedule prove what
--   a switch does, Blocking and Handing how a system call blocks and releases threads by it, and
--   Priority what kthread_set_prio does.
-- - Semaphores: kernel/semaphore.c; Spec is the counting semaphore that Refine shows it to be, and
--   Lifetime is about the calls that make and destroy.
-- - Monitors: kernel/monitor.c; Spec is the monitor that Refine and Conditions show lock, unlock and
--   wait to keep; Going, Release and Broadcast treat the loop of signal and broadcast, and Lifetime the
--   calls that make and destroy.
-- - Chains: lib/list.c, the doubly linked lists over a store of headers; Segments says which elements
--   a list has, Append puts one at either end, and Erase and Remove take one out.
-- - Strings: lib/string.c without itoa. Blocks is about the copies of blocks, Ends about strlen and
--   strchr, Copies about strcpy and strcat, Compare about memcmp and strcmp, Search about strstr.
-- - Numerals: itoa of lib/string.c; Digits and Reverse are about its loops, and RoundTrip reads back
--   what it prints.
-- - Identifiers: the identifiers of kernel/memory.c; Words is about bits, Marks about the mask of the
--   identifiers in use, and Fresh about the calls.
-- - Messages: kernel/messages.c, with sys__msg_post in Send and sys__msg_recv in Receive. Spec is the
--   mailbox that Refine and Calls show a global queue to be, and Lifetime is about making one.
-- - Devices: kernel/devices.c, its system calls in Calls. Spec is the lock that Refine shows a device
--   to have, and Open is about opening and closing.
-- - Alarms: kernel/time.c, its calls in Calls. Sorted is about the order of the list, Due and Loop about
--   the alarms that are due.
-- - RoundRobin: kernel/sched_rr.c; Slices is about the time slices.
-- - FirstFit: lib/mm/ff_simple.c; Blocks is about the blocks that ffs_alloc gives.
-- - Edf: kernel/sched_edf.c; Earliest is about the choice of a thread, Preempt and Swap about the old
--   active one, Schedule about k_edf_schedule, and Laws about the contract of a scheduler. Calls has
--   the parameters of a thread and the functions of its alarms, and Timers is about them.
-- - Lifetimes: the making, the end and the collecting of threads in kernel/thread.c, its system calls
--   in Calls. Released and Exit are about the end of a thread, Collect about its status, Twice about
--   cancelling, Start has kthreads_init and First what it leaves.
-- - Policies: the system calls of kernel/sched.c on policies and parameters; Settled is about setting
--   them for a thread.
-- - MemoryMap: the segments and the programs of kernel/memory.c. Segments is about the addresses of a
--   process, Heap about the layout, and Sysinfo has sys__sysinfo.
-- - Tests: a machine of three threads, on which the theorems' conditions hold.
--
-- How the state is modelled. The static variables of a C file are the fields of a record (Kernel,
-- Sems, Msgs, Devs, Alarms, Edf, Procs), which a function takes and returns. A descriptor or another
-- object is known by its address, a number, and NULL is 0. A list_t in a thread queue is the list of the
-- descriptors in it, since the code uses it by the operations of lib/list.c alone. A halt of the
-- kernel (a failed ASSERT in the debug build, which Makefile.kernel selects) and a read out of
-- bounds are none. System calls run with interrupts disabled, so each is one step. The constants
-- are those of the Makefile: PRIO_LEVELS is 64; the masks hold sizeof (word_t) = 4 levels in a
-- word, as the code has it.
--
-- Loops are structural, or take a number of rounds at most: the length of the queue and one more
-- for kthreadq_release_all and for the loop of k_monitor_release, which their theorems show to be
-- enough; an argument of the searches through a list or a pool, of the loops to the end of a string
-- and of the loop over the alarms, for which the theorems say how much is enough; 32 for the loops
-- of itoa, of which ten and six would do; MAX_RESOURCES for k_new_unique_id; the number of halvings
-- for msb_index_generic.
--
-- Theorems about the schedule take the schedulers of the table as lawful (IsLawful). That excludes
-- a round robin thread with some remainder that has been made ready before it is deactivated, since
-- rr_thread_deactivate puts it into its ready queue again.
--
-- What is not modelled: contexts and stacks, the address translation in system calls (an argument
-- is taken as translated), allocation (kmalloc's result is an argument), the overflow of int in
-- times and semaphore values, addresses that wrap around, the making of a thread (an argument of
-- the calls that send a signal or carry out the action of an alarm), the start of a program, the
-- changes of EDF's own state by hooks that run within calls on alarms, the processor's instruction
-- behind arch_msb_index (the hypothesis MsbIndex, which msb_index_32 meets), the drivers, the boot
-- code, and the user programs.
pub mod Base
pub mod Errors
pub mod Clock
pub mod Bits
pub mod Threads
pub mod Scheduler
pub mod Semaphores
pub mod Monitors
pub mod Chains
pub mod Strings
pub mod Numerals
pub mod Identifiers
pub mod Messages
pub mod Devices
pub mod Alarms
pub mod RoundRobin
pub mod FirstFit
pub mod Edf
pub mod Lifetimes
pub mod Policies
pub mod MemoryMap
pub mod Tests

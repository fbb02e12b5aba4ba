-- ===== src/Lib.antt =====
-- Verification of TinKer, a small real-time kernel in C.
--
-- The program: the inner kernel (src/tk.c, src/tk_switch.c) keeps a pool of threads and a schedule, one
-- row of threads for each priority; a thread runs until it yields. Over it stand components that a
-- build may include: heaps of blocks (src/tk_mem.c), semaphores and queues (src/tk_itc.c), which
-- block threads in rings of their own, POSIX threads over both, and a file system.
--
-- The files:
--   Base                the names that all parts share: numbers, Booleans, lists, the signed `int`
--   Kernel.State        the types of src/implement_tk.h and the globals of src/tk.c
--   Kernel.Family       _tk_detach_children, _tk_try_detach_parent, tk_detach
--   Kernel.Threads      tk_create_thread in its two halves, tk_delete_thread
--   Kernel.Wait         tk_join, tk_msleep, tk_change_prio
--   Kernel.Dispatch     _tk_next_runable_thread, tk_yield, tk_yield_event, the wakeup and the reaping
--   Kernel.Boot         tk_create_kernel, tk_delete_kernel, _tk_destructor
--   Kernel.Rows         when the rows and the control blocks agree, and how a row shrinks and grows
--   Kernel.Keep, Kernel.Scan, Kernel.Choice, Kernel.Rotation, Kernel.Flaws
--                       the theorems on each call of the kernel
--   Kernel.Life         the calls of the kernel in any order, as steps from its start on
--   Memory              src/tk_mem.c: Heap has the code, Count, Alloc and Create the theorems
--   Itc                 src/tk_itc.c and src/tk_itcshared.c: State, Shared, Stages, Semaphore and Queue
--                       have the code; Ring, Removal, Exchange, Idle and Messages the theorems; Direct and
--                       DirectCalls are src/tk_itcny.c, Posix is src/semaphore.c
--   Pthread             Mutex: src/pthread_sync.c and src/pthread_mutex.c; Cond: src/pthread_cond.c; Rwlock:
--                       src/pthread_rwlock.c; Sched: src/pthread_sched.c; Handover, Broadcast, Crowd, Counted,
--                       Exclusive, Once and Params the theorems
--   Mqueue              src/mqueue.c: State, Sort, Transfer and Open have the code; Prio, Places, Sorted,
--                       Enqueue, Send, Receive, Opened, Created and Reopened the theorems
--   Search              Binary and Sort: the binary search and the quicksort of src/tk_ansi_search.c;
--                       Found, Shuffle, Scans, Partition and Sorted: the theorems
--   Filesys             Inode: src/filesys/inode.c; Mount: mknod, mount and umount2 of src/filesys/filesys.c;
--                       Chain, Parts and Found the theorems; Open and Calls: fs_open, fs_read and
--                       fs_write of src/filesys/fs_main.c; Opening and Session: the theorems on them;
--                       Regular: src/filesys/fs_ifreg.c, with Growth, Spans, Writing, Reading, Fresh,
--                       Trip, Append and Overwrite for the theorems
--   Time                timespec2fmttime_np of src/time.c
--   Tests, in each part the runs and applications of the theorems at small states
--
-- How the model corresponds to the code: a global array is a function of its index, a pointer to a
-- control block or an object is its number, and a call takes the state and returns it. A call ends
-- with `done`, with `exited` and the code of tk_exit, or with `hangs` if it never returns or reads
-- through a null pointer. A switch of threads is the new value of `active`. A call that waits in
-- tk_yield is two functions, before and after the wait, since other threads run between. The debug
-- assertions are on. Unsigned counters of a row wrap at 2^16 as in the code; other counters do not
-- come near the size of their type, and the clock does not wrap. An element that qsort moves has at
-- most 255 bytes, and what it would read below the place before its array is not followed. The bytes
-- behind the name of a node, which has no 0 of its own, are the argument `behind`.
--
-- Fuel: the search for a free place of the pool has max_threads rounds, that for a free block of a
-- heap has maxnum and that for a free header has as many as there are headers; one round suffices if
-- there is something to find. The loop that closes a gap in a ring has one round more than the ring
-- has places, and the theorem on it shows that it ends; so have the binary search and the sort one more
-- than the array has elements. A search among the nodes of the file system has one round more than there
-- are nodes. The loops over the sectors of a file have one round more than there are sectors, and the one
-- that adds sectors as many as there are sectors and bytes.
--
-- Not modelled: registers and stacks (src/arch, src/context.h), interrupts, the boards (bsp), printing,
-- what `malloc` and `stalloc` do (their results are arguments), and the components that no file
-- above names.
pub mod Base
pub mod Filesys
pub mod Kernel
pub mod Memory
pub mod Itc
pub mod Pthread
pub mod Mqueue
pub mod Search
pub mod Time

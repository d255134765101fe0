-- ===== src/Lib.antt =====
-- OS/161, the ECE344 kernel: a verification library. It covers the kernel's own data structures,
-- the thread system with its scheduler and process ids, its semaphores and locks, the copies
-- between kernel and user memory, and the system calls on top of them.
--
-- The parts, and how they go together:
--   Base       shared names, lists, the slices of a block of cells, the error codes of
--              kern/include/kern/errno.h, and the outcome of a run (Base.Outcome): a value, a
--              panic or failed assert, undefined behaviour, or a loop that has not ended.
--   Array      kern/lib/array.c. `struct array` is the record Array, and array_add is Array.add,
--              and so on. Its abstract view is the list of the pointers in use (Array.Inv.elems).
--   Queue      kern/lib/queue.c. `struct queue` is the record Queue, and q_addtail is
--              Queue.addtail. Its abstract view is the list of the contents, oldest first.
--   Scheduler  kern/thread/scheduler.c, over one Queue.
--   Pid        kern/userprog/pid_system.c: the list of process ids, by its entries.
--   Copy       kern/lib/copyinout.c: copycheck, copyin, copyout, copyinstr and copyoutstr. The
--              fault handler of the pcb is a flag, and setjmp/longjmp a value of Copy.Jump.
--   Thread     kern/thread/thread.c: Thread.Kernel is the state that its functions share, that is
--              the three tables, curthread, the spl and the pids. mi_switch is cut at md_switch in
--              switch_out and switch_in. Thread.Calls holds the functions that threads call.
--   Synch      kern/thread/synch.c over Thread.Kernel. P and V are proberen and verhogen. A call that
--              sleeps is cut at md_switch: proberen up to there, proberen_again from there on, and
--              so for lock_acquire and cv_wait. Synch.Mutex is the relation of all interleavings of
--              turns of lock_acquire and lock_release for one lock with what else the kernel does.
--   Bitmap     kern/lib/bitmap.c. A byte is the function from a bit's place to the bit.
--   Syscalls   kern/userprog/system_calls_PI.c: write, read, __time, getpid and waitpid, over Copy, Pid,
--              Thread and Synch. sys_waitpid is cut at md_switch like P.
--   Uio        kern/userprog/uio.c over Copy. A block is moved by Uio.move_block, and the fields are
--              brought on by Uio.advance.
--   Kheap      kern/lib/kheap.c, the memory behind kmalloc and kfree. A pageref is its index in the
--              table, memory is the function from an address to the pointer that stands there, and
--              what alloc_kpages gives is an argument. Kheap.Invariant tells the blocks in use.
--   Sfs        kern/fs/sfs/sfs_vnode.c and sfs_io.c, the blocks of a file over Bitmap: sfs_balloc,
--              sfs_bfree, sfs_bused, sfs_bmap, sfs_truncate and the retries of sfs_rwblock. What the device
--              answers is a list. Sfs.Mapped.mapped is the map of a file, by its places.
--   Malloc     lib/libc/malloc.c, malloc and free of user programs. The heap is the map of its headers; its
--              abstract view is the list of blocks (Malloc.Blocks.Chain), with first fit on it.
--   Vm         kern/arch/mips/mips/dumbvm.c and ram.c: physical pages, the two regions and the stack of
--              an address space, the TLB and vm_fault. Vm.Fault.translate is the map of a space.
--   Libc       lib/libc/atoi.c, strchr.c and the numbers of __printf.c: __pf_printnum and the padding of a
--              field by __pf_printstuff; strtok_r.c, and the words of a command in cmd_dispatch of
--              kern/main/menu.c. A string is the list of its bytes. Libc.Words.words are its words.
--
-- Memory: kmalloc is a parameter, `mem`, that tells for which sizes it returns a block during a
-- call; the kernel heap itself is Kheap. A struct thread is known by a number, under which a table
-- gives it. A 32-bit size keeps its wrap-around (Array.bytes), and a signed counter that leaves its
-- range is undefined behaviour.
--
-- Loops: a loop that is bounded by a count is recursion on it. The doubling loops of
-- array_preallocate and q_grow get `n + 1` rounds for the size n that is asked for, since each
-- round adds at least one; the loop of q_grow that moves the contents gets a round for every cell;
-- q_addtail and q_grow call each other to depth 2, since the queue that q_grow fills has room; the
-- loop of thread_wakeup gets a round for each sleeper and one to stop, and that of uiomove a round
-- for each byte and one to stop. The loops of the kernel heap are recursion on the lists of pages,
-- on the words and bits of the table, on the sizes, and on the number of blocks of a page.
-- sfs_rwblock gets eleven rounds, since it gives up at the eleventh EIO; the loops of sfs_truncate
-- are over counts. The search of malloc gets a round for each byte of the heap and one to stop, and
-- every block has eight bytes. The loop over the TLB is over its 64 entries. The loop of
-- __pf_printnum has a round for each of the 11 bytes of its buffer in front of the NUL; when they are
-- used up, the next one is undefined behaviour.
--
-- Not modelled: the machine-dependent assembly, the trap handler, the devices, the files and
-- directories of SFS over their blocks, the VFS, the commands of the menu, the rest of the C library
-- and the user programs.
pub mod Base
pub mod Array
pub mod Queue
pub mod Scheduler
pub mod Pid
pub mod Copy
pub mod Thread
pub mod Synch
pub mod Bitmap
pub mod Syscalls
pub mod Uio
pub mod Kheap
pub mod Sfs
pub mod Malloc
pub mod Vm
pub mod Libc

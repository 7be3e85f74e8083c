-- ===== src/Lib.antt =====
-- MangoOS: a small kernel for the 32-bit x86, as functions on explicit states.
--
-- The parts and the files that model them:
--   Queue    source/lib/queue.c, source/lib/list.c and their headers. Lists are links in memory; a
--            node and a list are addresses. Queue/Ring relates them to sequences.
--   Kernel   the state that source/kernel/task.c, sched.c and ipc.c share: links, task fields, globals.
--   Sched    source/kernel/sched.c: pick_next_task, schedule and the parts of a switch.
--   Ipc      source/kernel/ipc.c: sem_wait, sem_notify, mutex_lock, mutex_unlock. Ipc/Guarded is the
--            pattern lock, section, unlock that the other parts use.
--   Task     source/kernel/task.c: descriptors, sleeping, the timer's tick, yielding.
--   Bitmap   source/mm/bitmap.c: the bitmap of physical pages; C's index -1 is `none`.
--   Page     source/mm/page.c: pages behind a mutex, page tables in physical memory, and trans_vtop of
--            source/kernel/task.c. Page/Directory makes and destroys the directory of a process.
--   UserCopy source/kernel/task.c: copy_from_user and copy_to_user, over a memory of bytes; the fuel of
--            their loops is the number of bytes and one. Reads and Writes follow one round each.
--   Arch     source/kernel/arch.c and the interrupt controllers of source/kernel/irq.c: descriptor
--            tables, gates and masks; init_8253 of source/kernel/time.c.
--   Heap     source/mm/memory.c: kmalloc and kfree over the headers of blocks; the page allocator is a
--            parameter.
--   Log      source/lib/log.c: numbers and kprintf on a screen.
--   Time     source/kernel/time.c: date, timestamp and tick.
--   File     source/fs/file.c: the table of open files.
--   Device   source/device/dev.c: the table of devices; the driver's open and close are parameters.
--   Buffer   source/fs/buffer.c: the buffers of blocks, in buckets behind a mutex.
--   Ext2     source/fs/ext2.c on one volume, over the buffers; the driver of the disk is a parameter.
--            Ext2/Bits has the bitmaps, Names the names in a path, Inodes the inodes in memory, Dirs the
--            directories and paths, Blocks the numbers of a file's blocks, Content reading and writing,
--            Sync writing back, Unlink removing, Mount mounting over the calls on devices
--            and the heap. Ext2/Invariants says what a run keeps.
--   Disk     source/device/disk.c: commands, sectors and partitions; the controller behind the ports is a
--            parameter. Disk/Setup has its set-up, opening and closing.
--   Fs       source/fs/fs.c: mounting and the calls on files; the operations of a file system are a
--            parameter, as fs_op_t is in the code.
--   Process  source/kernel/task.c and source/include/elf.h: task_init, fork, program loading and execve.
--            Process/Space copies and drops the memory of a task, Start makes a task, Fork passes memory
--            and files on, Load reads a program, Exec replaces the running one; Switch is __switch_to of
--            source/kernel/sched.c with the registers on the stack. The calls on files that
--            loading makes are a parameter; in the code they are those of source/fs/fs.c.
--   Libc     source/libc: the user's functions on strings, and the registers of the system calls.
--   Syscall  source/kernel/syscall.c: the table of system calls and the handler of their interrupt.
--   Strings  source/lib/string.c: functions on bytes in memory.
--   Base     lists, updates, 32-bit arithmetic and bits.
--   Tests    concrete states.
--
-- How they interact: Ipc and Task change the lists of Queue inside the state of Kernel and end with
-- Sched.schedule; Page and File run their sections under a mutex of Ipc; Page allocates from
-- Bitmap. Fs calls File, the descriptors of Task and a file system's operations, each under its mutex; Ext2 gets its blocks
-- from Buffer and keeps the list of dirty blocks in the links of Kernel. Process uses Page for
-- directories and mapped pages, Heap for the task's own pages, UserCopy for what goes onto the user's
-- stack, File for the files that are passed on, and puts the new task into the lists of
-- Kernel. Syscall calls Task, Process, UserCopy and Log for the registers that Libc leaves.
-- Functions keep the names of the code, less a prefix that names the module (bitmap_alloc_bits is
-- Bitmap.alloc_bits, queue_remove is Queue.remove).
--
-- Interrupts are off inside the calls of Ipc, Task and Sched, so each call is one step, and an
-- interleaving is a sequence of calls with any change of the current task in between. A call that has
-- to wait ends in the outcome `blocked` of Ipc/Guarded or with another task current.
--
-- A C int or uint is its 32-bit pattern, a native number, and arithmetic on it wraps. Loops that
-- end by a count recurse on it. The loop over the sleeping tasks takes fuel; one more than the
-- number of sleepers is enough. Loops over texts and over the free blocks of the heap take fuel;
-- one more than the length is enough to search. The loop of kprintf takes fuel.
--
-- The walk over the entries of a directory, the blocks of a directory, the names of a path and the
-- list of dirty blocks take fuel, as does a read: the number of entries, blocks, names or nodes and
-- one more is enough. The wait for the disk's status takes fuel. A run of Ext2, Fs or Disk that is
-- `stuck` is out of fuel or at a null pointer.
--
-- Process keeps memory in bytes, which Page sees as aligned words; the pages of tables and the kernel's
-- data are mapped to themselves. The loop over the program headers takes fuel; 2^16 is enough, since
-- their number is a half-word. A mount takes sixteen rounds for a bitmap, whose size is a half-word of
-- bytes; memory for the inodes of a group is taken to be given.
--
-- A position in a file and the number of a block are below 2^31. A buffer's bytes behind its block
-- stand for what lies there. Memory for buffers is taken to be given.
--
-- Not modelled: the rest of the assembler, most port I/O, the handlers of exceptions, which halt, fs_init
-- (source/fs/fs.c), the switch to user mode, and kernel start-up. They run once, or only halt.
pub mod Base
pub mod Queue
pub mod Kernel
pub mod Sched
pub mod Ipc
pub mod Bitmap
pub mod Time
pub mod File
pub mod Device
pub mod Task
pub mod Strings
pub mod Page
pub mod Ext2
pub mod Fs
pub mod Disk
pub mod Process
pub mod Libc
pub mod Syscall
pub mod Buffer
pub mod UserCopy
pub mod Log
pub mod Heap
pub mod Arch
mod Tests

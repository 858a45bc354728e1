-- ===== src/Lib.antt =====
-- Verification of the kernel: its buffer cache, its redo log, its file system, its open files and
-- pipes, its process table, its page allocator, its page tables, its spin locks, its console, the
-- arguments of system calls, its calls on file descriptors, its string functions; of the library
-- of user programs, the parser of the shell, and the matcher of grep.
--
-- The program is a small Unix-like kernel for x86 multiprocessors. System calls change files
-- through the inode layer (fs.c), which brackets each call between begin_op and end_op and writes
-- blocks with log_write (log.c); the log keeps them in the buffer cache (bio.c) until it commits
-- them. Pipes (pipe.c) and the calls of proc.c put processes to sleep on channels and wake them.
--
-- Files:
--   Prelude       names of the library, and lemmas on lists; Prelude/Tests the Boolean tests,
--                 Prelude/Bytes arrays of bytes and their words, Prelude/Outcome `panic`.
--   Store         bio.c as log.c sees it: the current content of each block, the
--                 dirty buffers, the disk, and the disks before each write so far.
--   Bio           bio.c over the disk of memide.c. Children: Lookup (the loops of bget), Current
--                 (the content of each block), Get (bget), Read (bread), Write (bwrite, brelse).
--   Log           log.c, one definition per function, under the function's name; `leave` is
--                 end_op up to its first release. Children: Head (the header block), Area (the
--                 log's place on the disk), Install (install_trans), Recover, Commit and Durable
--                 (commit and the disks a crash can leave), Write (log_write), Reserve (begin_op,
--                 log_write and end_op of concurrent calls; Reserve/Full is about the log that
--                 mkfs makes).
--   Fs            fs.c up to the bitmap, over Log and Store. Children: Room (log_write while the log
--                 has room), Bitmap (balloc, bfree).
--   Inode         the inodes of fs.c. Children: Cache (iget, idup, iput), Layout (iupdate, ilock),
--                 Lock (ilock, iunlock).
--   Content       bmap, readi and writei of fs.c. Children: Map, Read, Locked, Write.
--   Dir           directories and path names of fs.c. Children: Lookup (dirlookup), Elem
--                 (skipelem).
--   Pipe          pipe.c; a turn is what a call does from where it starts or wakes until it
--                 returns or sleeps. Children: Queue (the pipe as a queue), Turns (what each turn
--                 does), System (any number of readers and writers), System/Wakeups.
--   File          file.c, over Pipe, Inode and Content. Children: Table (filealloc, filedup,
--                 fileclose), Transfer (fileread).
--   Proc          proc.c; a step is what a call does while it holds ptable.lock, but that fork, which
--                 takes the lock twice, is one step. Children: Wake
--                 (wakeup1), Follows (what it does to one process), Exit, Wait, Kill, and Zombies
--                 (all calls together, from any sound table).
--   Kalloc        kalloc.c. Children: Pages (the free list), Machine (the allocator and a kernel
--                 that takes, writes and frees pages).
--   Vm            vm.c, in the memory that Kalloc hands out. Children: User (the memory of a process:
--                 copyuvm, uva2ka, copyout, loaduvm), Words, Tables (a page directory as a map), Grow
--                 (a new page table), Space (one page), Range (many), Lookup (uva2ka).
--   Console       console.c. Children: Ring (the ring as two lists), Editor (what the keys do to a
--                 line), Store and Edit (consoleintr), Read (consoleread), Line (both), Print (cprintf), Screen
--                 (cgaputc).
--   Spin          spinlock.c. Children: Nesting (pushcli, popcli), Machine (CPUs and one lock), Mutex
--                 (its invariant), Progress (what it means for acquire and release).
--   Args          syscall.c: how the kernel fetches the arguments of a call. Child: Bounds.
--   Sysfile       sysfile.c: dup, read, write, close and fstat. Children: Pipes (sys_pipe and
--                 pipealloc), Counts (the counts of references against the descriptors), Pair (sys_pipe).
--   Sysproc       sysproc.c: sbrk, kill and sleep, with growproc of proc.c.
--   Grep          the matcher of grep.c. Child: Language (what an expression describes).
--   Ulib          ulib.c and printf.c. Child: Numbers (atoi, printint).
--   Sh            the parser of sh.c. Children: Words (gettoken, peek), Total (it ends), Command
--                 (parsecmd).
--   Str           string.c. Children: Move (memmove, memset), Compare, Copy.
--
-- The state. A block or a page is a function from offsets to bytes, a table one from slots to
-- entries. A 32-bit integer is its bit pattern; where the source adds or subtracts, the result is
-- taken modulo 2^32, but for counts, which are taken to stay below that: of the entries of the log
-- and the calls in progress, of references, and of nested pushcli. A pointer is the index of what
-- it points to. What `kalloc` and `copyuvm` return is an argument of `fork`; the calls of other
-- parts of the kernel are listed, in order, in the result.
--
-- Loops over an array are recursions on the rounds left: NPROC rounds for the process table, the
-- number of entries for the log, the bytes to copy for a pipe, a block or a file. strlen and the
-- walk along a path have fuel, since nothing bounds their loops: as many rounds as the string has
-- bytes suffice. filewrite has one round for each piece of 13 blocks and one for what is left, and
-- freerange one for each page below its end; the loops of vm.c have one for each page, or two, for
-- processes below KERNBASE; each loop of the shell's parser one for each byte left, and one more;
-- printint has 32, one for each bit of its number. The loops of begin_op, wait, ilock, pipewrite
-- and piperead that sleep and try again are one pass each here; what wakes those of pipes and
-- processes is a step of the system.
--
-- A crash of the machine keeps the disk as it is before or after one of the writes of a block; a
-- block is written whole. An interleaving of processes is a sequence of such passes, since each
-- holds its lock from start to end; Spin is about that lock.
--
-- Not modelled: the hardware, interrupts and assembly; the calls of sysfile.c on paths, exec.c, the
-- registers of the processor that vm.c sets, and the other programs of user space.
pub mod Prelude
pub mod Store
pub mod Bio
pub mod Log
pub mod Pipe
pub mod Proc
pub mod Str
pub mod Fs
pub mod Inode
pub mod Content
pub mod Dir
pub mod Kalloc
pub mod Args
pub mod File
pub mod Spin
pub mod Ulib
pub mod Grep
pub mod Vm
pub mod Console
pub mod Sh
pub mod Sysfile
pub mod Sysproc

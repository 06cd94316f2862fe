-- ===== src/Lib.antt =====
-- cOSiris, a small operating system for the i386 in C: a model of its kernel's core and of parts of
-- its C library.
--
-- The kernel runs tasks from one queue (task.c). A task sleeps on an address and is woken by
-- `wakeup` of that address; pipes (pipe.c), the disk buffers (hd_queue.c) and the network stack (net.c,
-- arp.c, route.c, sock.c, udp.c, ip.c, icmp.c, dns.c) are clients of the scheduler. Bitmaps (bmap.c) hand out
-- the ports of sockets, and the ring (ring_buf.c) carries terminal bytes, which ansi.c scans
-- for escape sequences.
--
-- Files, with the sources they model:
--   RingBuf   ring_buf.c: the ring and its counters
--   Bmap      bmap.c: bitmaps that hand out numbers
--   Ansi      ansi.c: the machine for escape sequences
--   Task      task.c: the queue, sleeping, waking and switching
--   Process   task.c and signal.c: fork_int, task_exit, task_wait, kill and signal
--   Pipe      pipe.c: both ends of a pipe
--   HdQueue   hd_queue.c: the buffers of disk blocks, with what hd_rw of hd.c does to them
--   Cofs      cofs.c over the disk that HdQueue has: Cofs/Alloc the bitmap, Cofs/Inode the inodes,
--             Cofs/Cache the nodes in memory, Cofs/Map block_map and cofs_truncate, Cofs/File
--             cofs_read and cofs_write, Cofs/State the operations on nodes of the cache, Cofs/Dir the
--             directories; Cofs/Sample is a small file system for the tests
--   LinkedList list.c: doubly linked lists of nodes in a heap
--   Net       Net/Queue net.c, Net/Arp arp.c, Net/Route route.c, Net/Sock sock.c, Net/Udp udp.c,
--             Net/Ip ip.c, Net/Icmp icmp.c, Net/Dns dns.c
--   Memory    lib/memset.c, memcpy.c, memmove.c, memcmp.c
--   Malloc    lib/malloc.c: malloc and free of a program's heap
--   Fd        sysfile.c: the descriptors of a process and the files that they share
--   Canonize  canonize.c: the cleaning of paths, over one array
--   Format    lib/vsnprintf.c: the conversions, and Format/Machine the loop over the format
--   CString   lib/str*.c, lib/is*.c, lib/atoi.c
--   Word      lib/swap16.c, swap32.c, htons.c and its kin, types.c
--   Bname     bname.c
-- Base holds what they share: lists as arrays, bits, words and Boolean tests. Each component is a record
-- for its state and a function for each operation, with the state passed in and out; its child
-- modules are named for what they prove, and Tests holds runs and the theorems at concrete inputs.
--
-- Integers are natural numbers; an unsigned operation that can wrap around in the source is written
-- with its remainder (`add32`, `sub32`). An index or a size that is an `int` and never negative is a
-- natural number. An address is a number (`id`); a list in the source is a sequence, for which
-- LinkedList has the reason. A section under a lock, or with interrupts off, is one step; the two
-- sections of `get_hd_buf` are run one behind the other, with no other task between. A panic, a
-- NULL and a negative result are values of an Option, a Boolean or a data type. Memory that `malloc`
-- returns is a parameter where its contents can be seen; that it returns none is not modelled.
--
-- Loops are recursions over what they run over, or count their rounds, but for those with fuel. For
-- `fold` in Net/Ip, two rounds bring every 32-bit sum below 2 ^ 16, as its lemma proves. A round of
-- `strstr` in CString leaves a shorter string, so its length and one more are rounds enough.
--
-- The loops of Cofs/File and Cofs/Dir have the bytes left, or the size of the directory, for fuel: a
-- round takes one byte at least. The last block of a heap in Malloc grows by a page in each round, so
-- the size that is asked for, and one more, is fuel enough where the sizes do not wrap around.
-- A disk block is bytes by their offset, and the buffers of HdQueue between are left out: each is
-- given back before the next operation, with what was written to it.
-- The lock of a node is taken by a test, since a second lock by the same task waits for ever.
--
-- The machine of `vsnprintf` has six rounds for each character of the format and six more: a round
-- takes a character or goes on to the next state, in order. `dns2host_name` has its rounds as an
-- argument, since a message can send it in a circle. `clean_path` has as many rounds as its array has
-- characters, NUL included: each moves on by one at least.
--
-- Not modelled: the virtual file system (vfs.c) and the calls of sysfile.c on paths, dhcp.c, paging and
-- program loading, the drivers, interrupt entry and assembler, the debugger, and the user programs.
pub mod Base
pub mod RingBuf
pub mod Bmap
pub mod Ansi
pub mod Task
pub mod Process
pub mod Net
pub mod Pipe
pub mod HdQueue
pub mod Cofs
pub mod LinkedList
pub mod Memory
pub mod Malloc
pub mod CString
pub mod Canonize
pub mod Fd
pub mod Format
pub mod Word
pub mod Bname

-- ===== src/Lib.antt =====
-- whiteOS, a 32-bit kernel in C: models of its heap, event queue, keyboard, interrupt gates
-- and controllers, page tables, terminal, disk, FAT16 driver, path parser and file
-- descriptors, and of the program that scrolls through the memory, and what is proved of them.
--
-- The parts and how they interact. The kernel's heap (src/memory/heap) hands out blocks of
-- 4096 bytes; kzalloc clears them with memset. idt_init sets a gate for each interrupt; the
-- handlers push events into a ring that programs poll, keyboard_scan_key until a key comes. A
-- program opens a file by a path: pparser_parse splits it, disk_get finds the disk, the disk's
-- file system driver, which reads the disk through a streamer, opens it, and a descriptor in a
-- table of 512 pointers stands for it until fclose. ramscroller reads keys, prints to the
-- terminal and allocates from the kernel's heap.
--
-- - Base: shared names, lists over native numbers, arrays with faults (Base/Store), how a call
--   ends (Base/Runs), signed integers (Base/Int), bits of bytes (Base/Bits) and rings of 100
--   slots (Base/Ring).
-- - Status: src/status.h, the codes as negative integers.
-- - Memory: src/memory/memory.c, memset, memcmp and memcpy on byte arrays.
-- - Heap: src/memory/heap/heap.c, all functions. Heap/Segs says what a table stands for,
--   Heap/Scan is about the search for free blocks, Heap/Marks and Heap/Tables about the
--   marking loops, Heap/Split and Heap/Bounds about runs of blocks and 32-bit arithmetic,
--   Heap/Malloc, Heap/Overrun and Heap/Create about the calls.
-- - Kheap: src/memory/heap/kheap.c, kheap_init, kmalloc, kzalloc and kfree. Kheap/Front is
--   about calls in a row.
-- - Events: src/whitelib/system/system.c, the event queue.
-- - Keyboard: src/keyboard/keyboard.c, the wait for a key over the event queue.
-- - Paging: src/memory/paging/paging.c, page tables as lists of entries, and the indexes of a
--   page. Paging/Translate says which entry an address has, Paging/Identity and
--   Paging/Allocation are about paging_new_4gb, the second on the kernel's heap.
-- - Idt: src/idt/idt.c. Idt/Gates is about the gates that idt_init sets, Idt/Exceptions about
--   the ring of exceptions.
-- - Io: src/io, the port transfers as a parameter, and iowait. Pic: src/pic/pic.c over it.
-- - Terminal: src/terminal/terminal.c, the cursor and the 2000 cells of the screen.
-- - Disk: src/disk/streamer.c over a parameter that gives the bytes of a sector.
--   Disk/Transfer: the transfers of src/disk/disk.c over the ports; Disk/Ata says what a disk
--   behind the ports does, its child modules what the transfers do with it.
-- - Strings: src/whitelib/string/string.c, lengths, tests, comparisons, decimal and
--   hexadecimal numbers and copying.
-- - Path: src/fs/pparser.c, the path parser.
-- - Fat16: src/fs/fat/fat16.c. Fat16/Layout has the structures on the disk, Fat16/Names the
--   names of items, Fat16/Table the allocation table and the reading of clusters,
--   Fat16/Directory the directories, Fat16/Files the calls of the driver and Fat16/Driver the
--   table of them that src/fs/file.c uses; their child modules have the proofs.
-- - Vfs: src/fs/file.c, the descriptor table (Vfs), the calls (Vfs/Calls), fs_init (Vfs/Start)
--   and readdir (Vfs/Listing) over a driver that is a parameter, and disk_get and
--   disk_search_and_init of src/disk/disk.c.
-- - Programs: src/whitelib/programs. Programs/Ramscroller is ramscroller.c, its child modules
--   are about calls that draw (Draws), the picture (Screen), a number that is typed in (Input,
--   Overrun), the keys that ask for one (Typing) and the whole run (Moves).
--
-- How the code is modelled. A pointer to bytes is the list of the bytes from it on, and an
-- access outside a list is the result none (where calls end in more than one way: fault).
-- State is passed and returned as records. size_t, uint32_t and pointers have 32 bits, with
-- the wrap-around written out; int counters and indices are natural numbers, for sizes below
-- 2^31. Keys are the list of what keyboard_scan_key returns. Loops recur on the rounds left or
-- on the list they walk; the while loop of pparser_parse takes fuel, one round for each name
-- of the path being enough; so do the recursion of diskstreamer_read, one round for each
-- sector, the inner loop of keyboard_scan_key, 101 rounds, the wait for the disk, a round for
-- each poll that it needs, and the loop of ramscroller, a round for each key. Memory that the
-- code does not set is an argument: the `next` of the last part of a path is what its block
-- held before. A disk behind the ports takes a command only while it is not busy, and moves
-- data only while its status says so. kfree of a null pointer is a fault.
--
-- Not modelled: terminal output that the functions of the parts below the programs print, the
-- allocations that pparser_parse makes (taken to succeed, its list nodes being a list here),
-- pparser_free, toStringFloat of string.c, the messages of src/fs/fat/fat16.c, its allocations
-- (taken to succeed), diskstreamer_close, the allocation of diskstreamer_new (taken to
-- succeed), paging_switch, loading the interrupt table, the acknowledgements of interrupts by
-- the handlers, print_clock and scan_keys of ramscroller.c, src/kernel.c,
-- src/whitelib/programs/fileexplorer.c, and all assembly.
pub mod Base
pub mod Status
pub mod Memory
pub mod Heap
pub mod Kheap
pub mod Paging
pub mod Events
pub mod Keyboard
pub mod Strings
pub mod Terminal
pub mod Path
pub mod Io
pub mod Disk
pub mod Vfs
pub mod Idt
pub mod Pic
pub mod Fat16
pub mod Programs

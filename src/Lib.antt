-- ===== src/Lib.antt =====
-- Thuban is a small 64-bit kernel. This library models the parts of its C code that keep state and
-- make decisions, and proves what they promise. A C function is a function of the same name on a
-- record of the file's static variables; what the code reaches through a pointer is a store from
-- addresses to records, and NULL is the address 0. An unsigned integer is a natural number with its
-- wrap-around written out, and `negsuc n` is the negative result -(n + 1).
--
-- Base: the Boolean tests on numbers, lists, integers, stores, and the bits of a word.
-- Lock: kernel/lock/spinlock.c. `Guard` is a lock with the CPU's RFLAGS. Every other part that locks
--   keeps a `Guard` and calls `spin_lock` and `spin_unlock` where the code does. Lock.Nesting has
--   whole critical sections, one inside another.
-- CString: lib/string.c, on a memory of bytes. Its `same_text` is the test that the other parts make
--   with `strcmp(a, b) == 0`.
-- Pmm: mm/pmm.c, the allocator of physical pages. Pmm.Bitmap and Pmm.Scan have the bitmap and the
--   searches, Pmm.Invariant the count of pages in use, Pmm.Alloc, Pmm.Release and Pmm.Init the
--   functions of the interface.
-- Keyboard: drivers/input/keyboard/ps2.c. Keyboard.Queue is the abstract queue, Keyboard.Ring the
--   ring that implements it, Keyboard.Handler what a scancode types, Keyboard.Modifiers the flags.
-- Blkdev: kernel/disk/blkdev.c. Blkdev.Registry has the list of devices, Blkdev.Request the checks
--   before a driver is called.
-- Vfs: fs/vfs.c, in part. Vfs.Descriptors has the table of open files, Vfs.Transfer reading, writing
--   and seeking, Vfs.Permission who may open a node, Vfs.Filesystems the list of file systems.
-- Irq: kernel/hardware/interrupts.c. Irq.Dispatch has the handlers of the 16 lines.
-- Modules: kernel/module/module.c. Modules.Registry has finding and
--   holding a module, Modules.Held unloading while a reference is held.
-- Vga: drivers/video/vga.c. Vga.Screen has the screen after clearing and scrolling.
-- Terminal: lib/stdio.c from `terminal_reset` to `puts`, over Vga. Terminal.Cursor has the position and
--   what a character shows.
-- LineEdit: `gets` and `fgets` of lib/stdio.c. LineEdit.Edits is the abstract editor of a line,
--   LineEdit.Refine that `fgets` implements it, LineEdit.Keys what the keys of a user make of a line.
-- Printf: the formatted output of lib/stdio.c. Printf.Number prints numbers and strings, Printf.Spec
--   reads a conversion from the format, Printf.Convert has `vprintf` and `vprintf_internal`, and
--   Printf.Buffer `vsprintf` and `vsnprintf`. Printf.Convert.Pieces describes simple formats by their
--   pieces; the fuel is for the pieces and the longest string.
-- Heap: mm/heap.c. Heap.Cells is the abstract heap, a list of blocks, with Heap.Cells.Space for the
--   bytes of the blocks, Heap.Cells.Undo for releasing what was taken, and Heap.Cells.Grow for new
--   blocks; Heap.Chain has the headers in memory, and Heap.Contract the functions.
-- Vmm: mm/vmm.c, over Pmm; the page that an entry leads to holds a table. Vmm.Tree has the tables as a
--   tree, Vmm.Walk the invariant `IsTree` and what making a table keeps, Vmm.Pages the map from pages
--   to entries that the tables stand for, Vmm.Map and Vmm.Translate one page, Vmm.Alloc and Vmm.Free
--   whole ranges, Vmm.Paging the functions of mm/paging.c. In `IsTree` each table is a page in use, and
--   no two entries lead to one table. The entries that arch/x86_64/boot.s makes with the index 0 at
--   level 4, and with 0 and 510 at level 3, may be any: they share tables and lead to pages of 2 MB. So
--   the invariant can hold from the start, in the tables of Vmm.Walk.Start, and the theorems are about
--   the addresses that are `Unshared`, which use none of these indices; those of the heap are.
--   Heap.Contract.Paged joins Vmm and Heap.
-- Syscall: kernel/user/syscall.c. Syscall.Dispatch has the table of calls, Syscall.Line reading from
--   the keyboard, Syscall.Entry the moves of arch/x86_64/syscall.s around the C function. The console
--   and the file system are an interface, the record `Os`.
-- Descriptors: kernel/hardware/gdt.c and kernel/hardware/idt.c. Descriptors.Fields has what the
--   processor reads out of the entries.
-- Fat32: the table of clusters of fs/fat32/fat32.c. Fat32.Table has the entries on a device that works,
--   Fat32.Clusters taking a cluster and freeing a chain.
--
-- Fuel: the loops of lib/string.c that run to a terminator take fuel, and more fuel than the string
-- has bytes is enough; the walk to the root in fs/vfs.c takes fuel, and a step for each node on the
-- way and one more is enough. The walks along the list of blocks in mm/heap.c take fuel, and one more
-- than the blocks and the new one is enough; `malloc` calls itself at most once. `fat32_free_chain`
-- takes fuel, and the clusters and three more are enough. The loops of lib/stdio.c over a format and
-- over a string take fuel; for a format without conversions its length and one more are enough. A
-- number of 64 bits has at most 64 digits. The theorems prove the result under these bounds. The other
-- loops recur on the number of their rounds: 80 columns, 25 rows, 256 descriptors, the pages, the list.
--
-- A driver's operations, an interrupt handler and a module's functions are parameters: functions on
-- a type `W`, the state that only they know. So are `vmm_alloc` for the heap, which
-- Heap.Contract.Paged puts in, and the reads and writes of a sector for FAT32, with what is relied on as
-- hypotheses. The messages that the kernel prints are
-- left out.
-- The kernel runs on one CPU; a handler and the code that it interrupts are not interleaved.
--
-- Not modelled: mounting and the walk along a path in fs/vfs.c with the operations that start from
-- a path (vfs_open, vfs_stat, vfs_mkdir, vfs_rmdir, vfs_unlink), `vfs_readdir` and the current
-- directory; the names, directories, files and mounting of fs/fat32/fat32.c; `getchar` and `getc` of
-- lib/stdio.c, which wait for an interrupt; the registers that `syscall_init` sets up;
-- drivers/storage/ata_pio.c, mm/multiboot.c, kernel/user/usermode.c, kernel/err/panic.c,
-- kernel/interface/shell.c, kernel/kernel.c, and the assembly under arch but for the moves of
-- `syscall_entry` and the tables of boot.s.
pub mod Base
pub mod Lock
pub mod CString
pub mod Pmm
pub mod Vmm
pub mod Syscall
pub mod Descriptors
pub mod Heap
pub mod Blkdev
pub mod Keyboard
pub mod Vga
pub mod Terminal
pub mod LineEdit
pub mod Printf
pub mod Vfs
pub mod Fat32
pub mod Irq
pub mod Modules

-- ===== src/Lib.antt =====
-- maerOS is a 32-bit teaching kernel: a boot loader, a kernel in C (src/) and a small C
-- library with programs (programs/). This library models the kernel's own logic part by part
-- and proves what makes each part correct. Paths are from the repository's root; a definition
-- has the name of the C function that it translates, and its comment says where the two
-- differ.
--
-- How the parts interact: the kernel heap gives memory to every other part
-- (src/memory/heap/kheap.c over heap.c); page directories are built in that memory
-- (src/memory/paging/paging.c) and belong to tasks; the scheduler goes round the list of tasks
-- (src/task/task.c); a file is opened by parsing its path (src/fs/pparser.c), which uses the C
-- strings (src/string/string.c), and by taking a descriptor (src/fs/file.c) over a file
-- system, which reads the disk as a stream of bytes (src/disk); the keyboard interrupt pushes
-- characters into the buffer of the current process (src/keyboard), and the terminal shows
-- text (src/kernel.c).
--
-- The files:
-- - Common and its children: arrays as lists with native indices, C's tests, 32-bit words, the
--   status codes of src/status.h, and the laws of bitwise and/or.
-- - Heap: src/memory/heap/heap.c and heap.h. An access outside the table, behind which the
--   code goes on with whatever memory lies there, is none, a negative block an integer.
--   Heap/Search, Heap/Table and Heap/Blocks are about the search, the entries and the marks;
--   Heap/Alloc, Heap/Free and Heap/Create about the calls.
-- - Memory: src/memory/memory.c over a memory of bytes. Kheap: src/memory/heap/kheap.c, the
--   kernel's heap and the memory that kzalloc clears.
-- - Paging: src/memory/paging/paging.c over a memory of 32-bit words; Paging/Slots,
--   Paging/Laws and Paging/Ranges go from entries to pages to ranges; Paging/Identity is about a
--   new directory.
-- - Disk: src/disk/disk.c and streamer.c over a device that gives the bytes of a sector or
--   never gets ready.
-- - Terminal: the screen of src/kernel.c. Keyboard: src/keyboard/keyboard.c, and
--   Keyboard/Classic for classic.c. Gdt: src/gdt/gdt.c.
-- - Strings: src/string/string.c, with a pointer as the bytes from it on. PathParser:
--   src/fs/pparser.c, whose allocations succeed.
-- - Task: the list of tasks of src/task/task.c, with tasks as addresses and links that outlive
--   a freed task. File: src/fs/file.c over an interface of the functions of struct filesystem;
--   File/Registry: its array of file systems. Fat: src/fs/fat/fat16.c over the device of Disk;
--   Fat/Clusters for the chain of clusters, Fat/Naming for names, Fat/Directory for directories
--   and paths, Fat/Calls for the calls on an open file. Elf: src/loader/formats/elf.h and
--   elfloader.c over a memory of bytes. Process: src/task/process.c, with task_free and
--   paging_free_4gb; Process/Table for the table of processes, Process/Mapping for the address
--   space. Stdlib: itoa of programs/stdlib/src/stdlib.c; Stdlib/Commands: strtok of string.c
--   beside it, and the commands and lines of peachos.c. Loader: elf_load of
--   src/loader/formats/elfloader.c over the files and the heap; Loader/Program: the loading of a
--   program and the end of a process in src/task/process.c; Loader/NewTasks: the allocation of a
--   task and task_init in src/task/task.c; Loader/Volume: fat16_fs of src/fs/fat/fat16.c, the
--   driver as the file system that programs are loaded from. UserMemory: what the kernel reads
--   of a task through its page directory, in src/task/task.c. Isr80h: the commands of
--   src/isr80h; Isr80h/Programs: the one that loads a program, the exit, and the exception and
--   clock handlers of src/idt/idt.c; Isr80h/Invoke: the one that loads a program with arguments.
--   Idt: src/idt/idt.c and the saved registers of src/task/task.c, with callbacks as addresses.
--
-- Numbers are natural numbers with the wrap-around of their C type written out; a position on
-- the disk is an int, so a read that passes 2 ^ 31 has no result. Seven loops run on fuel.
-- diskstreamer_read takes one round for each sector that it touches, so fuel for (position in
-- the sector + total) / 512 + 1 rounds is enough. parse_parts takes one round for each part
-- and one for the end; pathparser_parse gives it one more than the bytes of the path, which is
-- at least that. fat16_read_internal takes one round for each cluster that it touches, and its
-- callers give it one more than the bytes they ask for. The count of the items of a directory
-- takes a round for each item up to the first null name; how many is a parameter, and one more
-- than the items is enough. arguments_loop takes one round for each word and one for the end,
-- and has one more than a command has bytes. arguments_at takes one round for each argument of
-- a chain that ends and one for the end. itoa takes one round for each digit, and an int has
-- at most ten. Every other loop is structural recursion on the number of rounds that the C
-- loop has.
--
-- Not modelled: assembly and port access (src/boot, src/kernel.asm, the .asm files beside the
-- C files); what the FAT16 driver frees; the rest of the C library and the programs under
-- programs/; and kernel_main, which calls the parts in order.
pub mod Common
pub mod Heap
pub mod Memory
pub mod Kheap
pub mod Paging
pub mod Disk
pub mod Terminal
pub mod Keyboard
pub mod Gdt
pub mod Strings
pub mod PathParser
pub mod Task
pub mod File
pub mod Idt
pub mod Fat
pub mod Elf
pub mod Process
pub mod Stdlib
pub mod UserMemory
pub mod Isr80h
pub mod Loader

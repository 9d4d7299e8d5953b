-- ===== src/Lib.antt =====
-- A verification of parts of AtomOS, the kernel in kernel/ and kernel_include/ of this repository.
--
-- The kernel keeps physical memory in a list of regions (kernel/memory/pmm.c), gives out smaller
-- blocks from heap regions (kernel/memory/heap.c), and builds its lists, queues and text on these.
--
-- Pmm: kernel/memory/pmm.c. `Pmm.Region` has the region struct and the firmware types,
-- `Pmm.Maintain` `pmm_maintain`, `Pmm.Alloc` `pmm_alloc`, `Pmm.Free` `pmm_free`, `Pmm.Init` the
-- reading of the firmware's memory map and the reservations of `pmm_init`. A status of an address
-- is counted: how many usable regions hold it, and how many others. The loop of `pmm_free` runs on
-- fuel, one round for each other region and one more, which is enough since each round but the last
-- takes one region in.
--
-- Heap: kernel/memory/heap.c. `Heap.Node` has the node and the memory that holds the nodes,
-- `Heap.Region` `initRegion`, `alloc_region` and `free_region` over them, `Heap.Blocks` the blocks
-- that a region stands for, with first fit and the merging release as functions of a list. The
-- loops over the nodes run on as much fuel as the region has bytes; a node takes up 16 of them, so
-- that the fuel is never used up. `Heap.Calls` has `heap_init`,
-- `heap_alloc`, `heap_free` and `heap_register_region` over the list of regions, and
-- `Heap.Calls.Chart` what such a list stands for. `heap_realloc`, `heap_calloc` and
-- `heap_aligned_alloc` are not modelled.
--
-- Strings: kernel/util/string.c. A string is a list of its bytes up to the terminator, and NULL is
-- `none`; the loops that move a pointer are recursions on the list, and a pointer into a string is
-- answered as an index. `int` results are integers.
--
-- Vfs: kernel/filesystem/VFS.c. `Vfs.State` has the static variables, `Vfs.Path` `vfs_normalize_path`,
-- `Vfs.Cache` the cache of paths, `Vfs.Resolve` `vfs_select_mount`, `vfs_walk` and `VFS_Resolve`,
-- `Vfs.Mounts` registration, mounting and unmounting, `Vfs.Entries` `VFS_Create` and `VFS_Remove`,
-- `Vfs.Handles` the operations on open files, `Vfs.Listing` queries. The drivers' `probe`, `mount` and `lookup`
-- are functions that the model takes as parameters; that these may change what they answer in time
-- is left out, but for the `lookup` of `VFS_Create` and `VFS_Remove`, which answers from a state that the
-- drivers' `create` and `remove` change. The parents of the nodes are part of the state, since a mount resets one. The loops
-- over a path run on fuel, one round for each byte and one more, which is enough because each
-- round takes up at least one byte; the listing of a directory runs on fuel that its caller gives,
-- since a driver may list entries for ever.
--
-- Disk: kernel/storage/BlockDevice.c in `Disk`, kernel/stream/DiskStream.c in `Disk.Stream` and `Disk.Words`.
-- The operations of a driver are functions on a state that the driver keeps; `Disk.Model` says what a
-- client relies on, that the driver reads and writes whole blocks of a sequence of bytes, and a disk in
-- memory shows that this can be. The loops of a stream run on fuel, one round for each byte and one more,
-- which is enough since each round moves a byte at least. `Disk.Volumes` has kernel/storage/VolumeManager.c,
-- without the names of volumes; `Disk.Volumes.Layout` says how a boot sector and a GPT are written.
--
-- Convert: kernel/util/convert.c, integers as text. The division shifts 64 times; the loop that writes the
-- digits runs on 65 rounds, which is enough since each round at least halves a value of 64 bits. `dtoa`,
-- on floating point numbers, is left out.
--
-- Tasks: kernel/task/PeriodicTask.c in `Tasks`, kernel/event/event.c in `Tasks.Events`. What the functions
-- that tasks and events call do is a parameter, a step on a state of their own; that they may change the
-- lists of tasks and callbacks while these run is left out.
--
-- LinkedList: kernel/list.c. The nodes stand in a memory that says at each address whether a node is
-- allocated there; a read of any other address ends the run without a result. The loops over the nodes run
-- on fuel, a round for each node that is counted and one more. `IsList` relates the pointers to the sequence
-- of items, which the other parts use as their model of a list.
--
-- Not modelled: the drivers of disks, buses, interrupts and input devices, the file
-- systems themselves, boot, paging, graphics and log output.
--
-- Machine words are those of the x86_64 build: `size_t` has 64 bits, and sums and differences wrap
-- as in C. Memory that `malloc` hands out to the region list itself is an argument of the model, a
-- list of which calls succeed; the heap's call of `pmm_alloc` when it is exhausted is an
-- argument of `heap_alloc` in turn, a step on the heap. Log output is left out.
pub mod Prelude
pub mod Pmm
pub mod Heap
pub mod Strings
pub mod Vfs
pub mod Disk
pub mod Convert
pub mod Tasks
pub mod LinkedList

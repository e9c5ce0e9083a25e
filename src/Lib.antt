-- ===== src/Lib.antt =====
-- Verification of the kernel of RTC-driver, a small kernel for IA-32 with a driver for the CMOS real
-- time clock. All paths below start at src/kernel.
--
-- Parts and files:
--   Base      names and lemmas that all parts share. Base/Run is the type of a run of C code: it
--             returns (`ok`), does what C gives no meaning (`fault`), is still in a loop when its fuel
--             is used up (`hang`), or ends in kernel_panic (`panic`). Base/Int is the signed results.
--   Cpu       inb, outb, hw_cli and hw_sti (io.asm, hw.asm), a parameter of the drivers: any type of
--             machine with these operations. What a driver relies on of its device is a record of
--             laws: Rtc/Cmos for the clock chip, Pic/Chips for the interrupt controllers,
--             Serial/Setup for a UART, Serial/Write for its transmitter, Interrupts/Safety for the
--             interrupt flag.
--   Rtc       drivers/rtc.c: get_RTC_register, set_RTC_register, rtc_read and rtc_write, which move
--             the six registers of the table that rtc_init fills.
--   Time      time.c: time_load, time_get, time_set, get_seconds and time_sleep over Rtc.
--             Time/Bcd, Time/Load, Time/RoundTrip, Time/Hours and Time/Sleep prove what they do.
--   Errors    errors.c: set_errno, perror, the panic level and kernel_panic.
--   KList     list.c: the linked list, its nodes in an explicit heap, with kalloc's answer as an
--             argument. KList/Chain says what list a heap holds; Add, Find and Del prove the rest.
--   Lock      lock and unlock of interrupts.c.
--   Frames    the physical allocator of drivers/mem.c: the bitmap of two bits for each frame,
--             mem_allocate_frames and mem_release_frames.
--   Pic       drivers/pic.c: pic_remap, pic_init, pic_mask_dev, pic_unmask_dev, pic_send_eoi.
--   Fb        drivers/fb.c: colors, positions, the cursor, fb_write and fb_clear.
--   Strings   string.c: lengths, comparison, copies, searches, strtok and itoa.
--   Kb        drivers/kb.c: the interrupt handler, which queues scan codes in a ring, and
--             kb_scan_code, which takes them out. It calls pic_send_eoi of Pic. Kb/Init is kb_init,
--             over Interrupts.
--   Gdt       gdt.c: the packing of segment descriptors and the table that gdt_alloc takes entries of.
--   Kalloc    the kernel heap of drivers/mem.c: kalloc and kfree over a list of blocks, each behind a
--             struct mem_entry; kalloc takes frames from Frames when no block is large enough.
--             Kalloc/Blocks says what list of blocks an address space holds, Kalloc/Fit and
--             Kalloc/Release have kalloc and kfree as functions on that list, Kalloc/Grow is what
--             the heap relies on of the frames, and Kalloc/Promise is what its users rely on.
--   Interrupts
--             interrupts.c: the table of handlers, the dispatcher, itr_set_up; and drivers/pit.c.
--   Devices   devices.c: the lists of block and character devices, over KList, the registration of
--             a character device with its node in /dev, and dev_set_char_operations.
--   Files     the structures of include/vfs.h and fs/memfs.c and the state that the file systems share:
--             structures at their addresses, the table of entries, kalloc's answers, the error number.
--   Memfs     fs/memfs.c: Memfs has its nodes and directory entries and the operations on directories,
--             Memfs/Data the operations on open files, Memfs/Sb those on superblocks and
--             memfs_create. The other files prove what they do.
--   Vfs       vfs.c: Vfs has vfs_init and the cache of directory entries, Vfs/Node the nodes in use,
--             Vfs/Walk vfs_lookup, Vfs/Create vfs_create_node, vfs_mkdir, vfs_mknod and vfs_stat,
--             Vfs/Open the open files, Vfs/Types and Vfs/Mount the file system types, superblocks and
--             mounts. It calls Memfs through the addresses of Files/Fn; a function at another address
--             and dev_set_char_operations are parameters. The other files prove what they do.
--   Mounts    fs/rootfs.c, dev_init of devices.c and the mounts of kernel.c: the file systems that the
--             kernel starts with.
--   Proc      proc.c: processes. Proc/Exec is proc_exec, over Vfs, Frames and Gdt; the header of the
--             file is read to an address, and the switch to user mode is a parameter. Proc/Release
--             and Proc/Refused prove what is given back.
--   Serial    drivers/serial.c: Serial has the device table, the configuration and the interrupt
--             handler, Serial/File the operations on an open file, Serial/Probe serial_init. The
--             other files prove what they do, part by part.
--
-- Numbers are natural numbers with the wrap-around of their C types written out; a `char` is its byte,
-- and where code compares or widens a `char`, its sign is taken into account. Loops over a count recur
-- on the rounds that are left. A loop that waits for a device or walks to the end of a list or a string
-- runs on fuel, and the theorems say how much is enough: one round for a clock at rest, one more than
-- the nodes, characters, halts or polls there are. The loop of itoa has 33 rounds, one more than a u32 has digits.
--
-- In Files, a name is the list of its characters, and only whether its memory is in use is part of the
-- state; the sizes that kalloc is asked for are not, but for the five bytes that memfs asks for the name
-- of a directory entry, which a longer name overruns. A list is the list of its values, as the theorems
-- of KList allow. The fuel of Memfs bounds the loops that free a list; more than its length is enough.
--
-- Not modelled: system calls, rtc_init past its table, mem_setup, which builds the frame bitmap, and
-- formatted printing; the boot code and assembly; the tools that write the boot image; the user
-- programs.
pub mod Base
pub mod Cpu
pub mod Rtc
pub mod Time
pub mod Errors
pub mod KList
pub mod Lock
pub mod Frames
pub mod Pic
pub mod Fb
pub mod Strings
pub mod Kb
pub mod Gdt
pub mod Kalloc
pub mod Interrupts
pub mod Devices
pub mod Files
pub mod Memfs
pub mod Vfs
pub mod Mounts
pub mod Proc
pub mod Serial

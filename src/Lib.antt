-- ===== src/Lib.antt =====
-- Models and proofs for AJ, a hobby operating system in C for i386 and x86-64. Each module models
-- one part of the kernel; a C function is a function of the state it changes and returns the new
-- state. Numbers are natural numbers, and a word's wrap-around is written out (`u32`, `u64`).
--
-- Common is shared: the tests of C as Booleans, arrays as lists, searches through an array (the
-- loop that returns the first index), an array's search after an update, words, bits and memory.
--
-- Pmm64 is src/pmm64.c, the allocator of 4 KB frames of the x86-64 kernel: `pmm64_init`,
-- `pmm64_alloc_frame` and `pmm64_free_frame` on the bitmap's bytes, the counter and the hint.
-- Pmm64.Owners follows runs of them with the list of the frames that are out.
--
-- Pmm is kernel/mm/pmm.c, the buddy allocator of the i386 kernel: `pmm_init`, `pmm_alloc_page`, `pmm_free_page` and
-- `pmm_get_order`. The loop over the largest blocks runs on fuel, the number of them that fit below the end of memory.
--
-- Heap64 is the part of src/vm64.c from `struct kblock` on: `heap64_init`, `kmalloc64` and `kfree64` on the list
-- of the blocks in the order of their links. The links themselves are not modelled, since the code only walks
-- and splices them. Heap64.Run follows its callers and what they hold. A release of a pointer that is no block's
-- is undefined in C; here it has no result.
--
-- Vm64 is the part of src/vm64.c before it: `next_level`, `vm64_map` and `vm64_map_user` on tables in physical memory,
-- whose entries are words; `entry` sets the flags in two steps, the low ones and PTE_NX. Vm64.Walk is the walk of the
-- processor, with its large pages and the rights that each level leaves, Vm64.Tree and Vm64.Descent the tables as a
-- tree, Vm64.Leaf and Vm64.Map the mapping, Vm64.Frames the frames for the tables. The examples start from the tables of
-- asm/boot64.asm, whose first slot has four pages of 1 GB: the code never maps there, and would take such an entry
-- for a table. It uses Pmm64 for the tables.
--
-- Proc64 is src/proc64.c: State (the table and the kernel's variables), Table (slots and pids), Window (user
-- memory, frames, images), Wait (waitpid and sleep), Schedule (`pick_next`, the dispatch loop, the timer),
-- Syscalls (`syscall_handler`), Jobs (kill, reaping, spawn), Shell (`proc64_spawn`, `proc64_shell_wait`,
-- `proc64_shell_poll` and the start-up tests `proc64_boot_test` and `proc64_m17_test`), System (all steps). It
-- uses Pmm64 for the frames, and Vm64 for the tables of the window, which may take frames too. Physical memory
-- is a function from addresses to bytes, and the tables are words apart from it. What follows the return of
-- `proc_save_kernel` to a caller of the dispatch loop is a step of its own. A function that does not return
-- (`proc64_iret_user`, `proc64_return_kernel`) yields where control goes. The dispatch loop halts until an
-- interrupt while processes sleep: the ticks that wake it are a list, the argument `wakes`, one for each round,
-- so the loop is structural in it; when the list ends the state is one that the loop still waits in. The image
-- `child64` and the file reader `fat64_read_file` are arguments. Serial output and keyboard polling are not
-- modelled.
--
-- Fat is src/fatent_ops.c: the operations on FAT12 entries, three nibbles each in an array of
-- bytes, and on FAT16 entries in an array of 16-bit words.
--
-- Arp is src/arp.c: the cache with its eviction, the lookup, and `arp_input`. The gateway, the timer and the
-- network cards are arguments. `arp_query` and its wait loop are not modelled.
--
-- Webreg is src/webreg.c and include/webreg.h, the registry of installed applications. The byte that
-- ends a text is modelled where it falls behind the buffer, since it then changes the next slot.
--
-- Dhcpd is src/dhcpd.c and include/dhcpd.h: Dhcpd (configuration, leases, replies and `dhcpd_handle_packet`),
-- Dhcpd.Leases and Dhcpd.Pool (who has which address), Dhcpd.Options (the option parser). The parser runs on fuel, the
-- number of bytes of the options, of which each round takes at least one. A byte past the end of a packet,
-- which the code reads, is a byte of the function that stands for memory.
--
-- Auth is src/auth.c, the sessions of the firewall: who has logged in, and when each was last seen. Auth.Firewall
-- follows any sequence of its calls since the start; Auth.LogIn is one log-in, Auth.Table the other calls.
--
-- Net is the network stack below the sockets. Net.Pbuf is src/pbuf.c: a packet buffer is 2048 bytes with the
-- index where the payload begins; bytes outside it, which the code does not test for, are bytes of the function
-- that stands for memory. Net.Checksum is `net_checksum`, whose folding loop runs twice at most. Net.Ip4 is
-- src/ip4.c with the filter (Net.Ip4.Filter says whom it lets through), `ip4_input`, the routing and
-- `ip4_output_ttl`; Net.Icmp, Net.Udp and Net.Eth are src/icmp.c, src/udp.c and src/eth.c. A handler that passes
-- a packet on returns a value that says to whom, and Net.Stack composes them where the code calls back into
-- `ip4_input` for a packet to the machine itself; it follows these calls to any depth, since they need not end.
-- It uses Arp for the addresses and Auth for the sessions. The release of buffers, the request that a failed
-- look-up of a hardware address sends, and TCP are not modelled.
--
-- Ramfs is src/ramfs.c and include/ramfs.h, the file system in memory: Ramfs (its operations), Ramfs.Files (the table
-- as a function from names to bytes), Ramfs.View, Ramfs.Steps and Ramfs.Delete (each call), Ramfs.Run (sequences of
-- calls). What `kmalloc` returns is an argument of each call.
--
-- Mouse is src/mouse.c and include/mouse.h: Mouse (ring, decoder, poll), Mouse.Queue (the ring under interrupts and
-- polls) and Mouse.Cursor. A round of the poll is one step, since an interrupt writes only where the round does not
-- read; 63 rounds are enough for what a ring holds. A screen has at least one pixel in each direction, as the code's
-- defaults give.
--
-- Datetime is src/datetime.c and include/datetime.h: the conversion of the clock's registers, and the FAT stamps.
--
-- Not modelled: interrupts, the other drivers and protocols, the file systems on disks above the
-- entry operations, the shells, the applications, cryptography, and the code copied from OpenSSH.
pub mod Common
pub mod Fat
pub mod Pmm64
pub mod Heap64
pub mod Proc64
pub mod Arp
pub mod Webreg
pub mod Dhcpd
pub mod Pmm
pub mod Auth
pub mod Net
pub mod Ramfs
pub mod Mouse
pub mod Datetime
pub mod Vm64

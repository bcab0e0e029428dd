-- ===== src/Lib.antt =====
-- The core of the goofyos kernel: its C library, its lists and hash map, its scheduler, its memory
-- allocators and page tables, its file systems, its command line and its text console.
--
-- The parts and the files that model them:
-- - Libk models kernel/src/libk. Libk/Memory has memcpy, memmove and memset of string.c over a memory
--   that maps addresses to bytes; Libk/Strings has strlen, strcmp, strncmp, memcmp, strcpy and strdup
--   over that memory; Libk/Printk has reverse, itoa and ltoa of printk.c, Libk/Printk/Width has
--   parse_width and Libk/Printk/Format has _vsprintf. Libk/Bytes says when bytes or a string stand in
--   memory.
-- - Dsa models kernel/src/dsa/list.c: Dsa/Links is the heap of nodes with a next and a prev pointer,
--   named by their addresses, and Dsa/ListHead has the functions on list_head and single_list_head.
--   Dsa/Links/Chain says which nodes a list holds. Dsa/Dlist has the dlist functions over the same heap,
--   and Dsa/Hashmap the hash map of kernel/src/dsa/hashmap.c, over buckets of entries.
-- - Smp models kernel/src/smp/sched.c: Smp/Sched has the run queue (sched_task and pop_task, over the
--   links of Dsa/Links), the context switch (save_task, go_to_task and schedule), the preemption
--   counter and timer_handler of kernel/src/arch/x86-64/interrupt-handlers/generic-handler.c.
--   Smp/Spinlock has acquire and release of kernel/src/arch/x86-64/spinlock.c and spinlock.asm as a
--   step relation over any number of cores, with the count and the interrupt flag of each.
-- - Mm models kernel/src/mm/buddy.c: Mm/Buddy has free_pages_nolock, alloc_pages_nolock and buddy_init,
--   and calls the functions of Dsa/ListHead the way the code does. Mm/Vmalloc models the list of
--   address ranges of kernel/src/mm/vmalloc.c, and Mm/Bump the early allocator of
--   kernel/src/mm/bump_alloc.c. Mm/Mapper has the page tables of kernel/src/mm/mapper.c: map_page,
--   unmap_page, is_mapped, virt_to_pfn and new_page_table over a store of tables, with the pages that
--   the allocator will give and the lock. Mm/Slab has the caches of kernel/src/mm/slab.c: their three
--   lists of slabs over Dsa/ListHead, the free chunks of each slab, kmalloc and kfree; the slabs come
--   from a pool of Mm/Mempool, which models kernel/src/mm/mempool.c, and Mm/Pages has the addresses of
--   pages in the direct map. Mm/Slab/View says when a cache is well formed.
-- - Drivers models kernel/src/drivers/fbconsole.c: Drivers/Console has the cell buffer, the queue of
--   glyphs and console_write, and Drivers/Glyph has put_glyph and console_init over the words of the
--   framebuffer.
-- - Fs models kernel/src/fs: Fs/Tmpfs has the operations of tmpfs.c over its inodes, whose numbers it
--   keeps in a map of Dsa/Hashmap. Fs/Vfs has vfs_parse_path, vfs_find_vnode and vfs_find_child of
--   vfs.c over a table of vnode operations, which tmpfs fills, and Fs/Vfs/Calls has vfs_find_dentry,
--   the calls on paths and open files, and vfs_init. Fs/Vfs/Walk says when a state is well formed.
--   Fs/Initrd has oct2bin, ustar_next and unpack_ustar of initrd.c over those calls, and
--   Fs/Exec the loader of fs/exec.
-- - Boot models kernel/src/boot/cmdline.c: Boot/Cmdline has build_args and find_cmdline.
-- - Base passes on the names that all share, and Tests runs the theorems at concrete inputs.
--
-- Numbers are natural numbers, with the wrap-round of a counter or an address written out where the
-- code can reach it; an `int` result that can be negative is an integer. Outside Smp/Spinlock a function
-- that runs under a lock is one step, so the interleavings are those of whole critical sections. There
-- are fewer than 2 ^ 31 slabs.
-- The lengths of strings and the offsets in them stay below 2 ^ 31. The negation of the least `int` in
-- itoa has no result, and the other sums and products of an `int` that the input can make overflow, in
-- parse_width and ustar_next, wrap round.
--
-- Fuel: a recursion of the page allocator takes one unit for each order, and 16 are enough for the 16
-- orders; a loop over a string or a number takes one unit for each byte or for each unit of the
-- number; buddy_init takes one for each page of a zone. dlist_kfree_values takes one for each node and
-- one for the end. The walks of the page tables recurse on the level, which starts at 3. unpack_ustar
-- takes one unit for each header, of which there is at most one in every 512 bytes of the archive.
-- mempool_alloc_nolock recurses on the pages that are left.
--
-- Not modelled: interrupt handlers that take locks, the response of the boot loader, the backing of
-- address ranges with pages, and the code that talks to devices. Nor is dentry_resolve, which reads
-- a name as a dentry and follows the pointer found there: tmpfs_mount, which calls it, and vfs_init
-- take as a parameter whether it comes back without harm, and the states of Fs/Vfs start from one
-- where it does. Allocations of the lists, the hash map and the file systems succeed, and what they
-- leak is not part of a state. kmalloc, which strdup calls, and the bytes of vmalloc's memory are
-- parameters. The glyphs that console_write draws and the switch of the CPU to a saved context are
-- values that the functions return. The font is a parameter.
pub mod Base
pub mod Libk
pub mod Dsa
pub mod Smp
pub mod Mm
pub mod Drivers
pub mod Fs
pub mod Boot
pub mod Tests

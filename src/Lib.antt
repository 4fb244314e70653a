-- ===== src/Lib.antt =====
-- The library hcore, a C library of data structures, text readers and printers and memory pools for
-- servers, modelled part by part. Of the parts below, the readers of addresses and ports call the
-- readers of numbers, arrays grow in the memory of a pool, and packs keep their elements in a list and
-- their values in arrays.
--
-- What models what:
-- - Base and the files below it: Booleans, lists, options and integers that the parts share.
-- - Str: src/hcore_string.c. Str.Number has hcore_atosz, hcore_atoi, hcore_hextoi and
--   hcore_parse_size; Str.Print has hcore_sprintf_num and hcore_hex_dump; Str.Version has
--   hcore_parse_version, Str.Token hcore_strtok, hcore_strtokz and hcore_strcpyd.
-- - Bitmap: src/hcore_map.c, the map of bits. Map is hcore_map_t, and a function of the same name
--   without the prefix hcore_ stands for each function.
-- - Inet: src/hcore_inet.c and the search of a byte in include/hcore_string.h. Inet.Addr has
--   hcore_inet_addr, hcore_swap32 and hcore_endian32, Inet.Port the port ranges, Inet.Mask the masks,
--   Inet.Mac the hardware addresses, Inet.Url hcore_parse_url and hcore_parse_listen.
-- - ArrayList: src/hcore_list.c, the array of pointers. Plist is hcore_list_s.
-- - Time: src/hcore_time.c, hcore_gmtime and, in Time.Parse, hcore_parse_time. Tm is the part of
--   `struct tm` that gmtime sets.
-- - Mutex: src/hcore_shmtx.c, the mutex in shared memory. Its atomic accesses are the steps of a
--   relation on the shared word and the places of all processes, each of which may make any call.
-- - Queue: include/hcore_queue.h, the operations that start a queue, put elements in at its ends and
--   take them out, on a heap of links. Heap has the links of every address. Queue.Sort has
--   hcore_queue_sort of src/hcore_queue.c, Queue.Parts what joins and splits queues, Queue.Middle
--   hcore_queue_middle.
-- - Crc32: include/hcore_crc32.h and the tables of src/hcore_crc32.c. Crc32.Bitwise has the definition of
--   the CRC bit by bit.
-- - Pool: src/hcore_pool.c, memory given out from blocks. Block is hcore_pool_data_t with the address
--   of its block, Pool is hcore_pool_t, and Pool.Life has hcore_prealloc, the clean-up handlers and
--   hcore_destroy_pool. A block's own hcore_pool_data_t is a field of Block and not bytes of its
--   memory, so what is written over it where the two overlap does not reach the model.
-- - Array: src/hcore_array.c, arrays in a pool. Array is hcore_array_t.
-- - Htb: src/hcore_htb.c, the hash table. Table is hcore_htb_table_t, Slot hcore_htb_elem_t.
-- - Pack: src/hcore_pack.c, named values. Pack.Write has hcore_pack_write and the functions that add and
--   get values, Pack.Read the machine of hcore_pack_read, one clause for each of its phases.
-- - Chain: src/hcore_buf.c, over Pool. An address of a chain is a number, its memory a function, and
--   what the `free` of a chain does is a parameter.
-- - Rbtree: src/hcore_rbtree.c. The record Rbtree is hcore_rbtree_t with the memory of its nodes, Node is
--   hcore_rbtree_node_t. The code writes mirrored branches out; `rotate`, `fix_red` and their helpers
--   take the side as an argument, and each stands for both branches.
--
-- How state and errors are modelled: a structure is a record that a function takes and returns; a
-- text with its length is the list of its bytes, or a function from addresses to bytes where the code
-- reads beyond the text; HCORE_ERROR is `none`, `error` or `false`, and an access through NULL is
-- `fault`. Unsigned numbers keep their wrap-around where the code can reach it, and an `int` that
-- overflows in the search of hcore_list_insert is a fault.
--
-- Loops are recursion on the list, on the count of rounds, or on fuel. The search of
-- hcore_list_insert gets one round more than the list has slots, since each round narrows its bounds;
-- hcore_parse_mac and hcore_parse_time get one more than the text has bytes, since each round takes a
-- byte; and the digits of hcore_sprintf_num get the 20 bytes of its array, since 2^64 has 20 digits.
-- hcore_pack_read gets twice the bytes and two more, since of two rounds one takes a byte.
-- The loops of the red-black tree get one round more than the tree has nodes; for hcore_rbtree_min twice
-- the binary logarithm is shown to be enough.
-- The loops of hcore_queue_sort get as many rounds as the queue has elements, that of
-- hcore_queue_middle half as many.
-- hcore_parse_version and hcore_htb_find_pos take any fuel, since the code itself may not end.
--
-- Parameters are the functions of other libraries: `htonl` and `htons`, `qsort` and `bsearch`, what
-- malloc and posix_memalign give or whether an allocation succeeds, and the procedures that a caller
-- of the hash table hands over. The bytes of allocated memory are modelled only where a part keeps
-- data in them: not for pools and arrays, whose addresses are modelled.
--
-- Not modelled are the files for connections, logs, files, events and processes, which are calls of
-- the system, pools of the caller's own functions, the shared memory functions of the hash table's file,
-- and so far hcore_rbtree_delete, the shared memory pool, shared strings and the hash key.
pub mod Base
pub mod Array
pub mod ArrayList
pub mod Bitmap
pub mod Chain
pub mod Crc32
pub mod Htb
pub mod Inet
pub mod Mutex
pub mod Pack
pub mod Pool
pub mod Queue
pub mod Rbtree
pub mod Str
pub mod Time

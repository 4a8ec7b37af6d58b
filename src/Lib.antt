-- ===== src/Lib.antt =====
-- A model of the C sources of this repository: the container library under myos-lib/src, which
-- needs no other library, and the server under c-server that is built on it.
--
-- How the parts work together. The memory manager (myos-lib/src/mm.c) hands out blocks to the
-- containers: the vector (vector.c), the hash map (hash.c) and the object pool (object_pool.c) keep
-- their records, arrays and copies in such blocks. The serializer (serializer.c) writes containers
-- and byte strings as frames that end in a CRC (crc32.c) and checks such frames. The growing string
-- (string.c) is built on the memory manager alone. The server keeps
-- its keys and values in an array of items (c-server/src/storage.c). The files of c-server/include
-- are copies of those of myos-lib/src, which are the ones modelled.
--
-- Which file models which part:
--   Prelude, Bits   lists, slices and tests on numbers; the bitwise operators of C.
--   Memory          my_memcpy and my_memmove, and size_t arithmetic (modulo 2^64).
--   MemoryManager   myos-lib/src/mm.c: the headers in memory as a function of the address, the free
--                   list by their next pointers, mm_init, mm_alloc, mm_free; MemoryManager/Inspect has
--                   the walks of mm_get_stats and mm_validate. MemoryManager/Layout has the invariant:
--                   the blocks lie one behind the other, and the free ones are linked in that order;
--                   Fitting, Alloc and FirstFit have mm_alloc against it, Place, Merge, Join and Free
--                   mm_free, Start mm_init. Frame has what mm_alloc leaves as it was, Touch the blocks
--                   that mm_free does not merge; LostBytes has a case in which bytes are lost.
--   Status, Heap    the int results; mm_alloc and mm_free as the containers see them: a request is
--                   granted or refused as the environment decides, a new block holds any bytes, a
--                   block is named by the number of its request, and the list of blocks in use shows
--                   leaks.
--   Vector          myos-lib/src/vector.c: the record with its byte buffer; vector_push is push,
--                   vector_set is set_elem, and so on. Vector/Valid has the invariant and the sequence
--                   of elements that a vector stands for; Vector/Contents, Insert, Remove and Buffer
--                   have the operations against it.
--   HashMap         myos-lib/src/hash.c: entries with three marks, the linear probe, growth, set, get,
--                   delete, resize; HashMap/Whole has clear, free and validation,
--                   HashMap/Builtin the hash and comparison functions that come with it. The hash and the
--                   comparison function are KeyOps. Search, Write, Lookup, Growth, Delete, Stale
--                   follow a key through these operations.
--   ObjectPool      myos-lib/src/object_pool.c: pool_new, pool_allocate, pool_get, pool_release.
--   Crc32           myos-lib/src/crc32.c: the table entry computed on demand, update, finalize and
--                   calculate; Crc32/Linear splits eight shifts into a table entry and a byte shift.
--   Serializer      myos-lib/src/serializer.c: words, header, the encoders of bytes, strings and hash
--                   maps, validation, the header parser. Serializer/Words and Frame have the writes as
--                   extensions of a prefix.
--   Strings         myos-lib/src/string.c: the record with its buffer, growth, insertion, removal,
--                   trimming and letter case; Strings/Search compares and finds, Strings/Convert has
--                   the numbers, Strings/Split the two splits, Strings/Rework substrings, joins,
--                   replacement, reversal, repetition and padding. Strings/Valid has the invariant and
--                   the text that a string stands for; Insert, Remove, Trim, New, Search/Find,
--                   Split/Tally and Laws, Convert/RoundTrip, Rework/Substring and Rework/Reverse have
--                   the operations against it, and Strings/Endless the loops that do not end.
--   Storage         c-server/src/storage.c: set, get, delete on the array of items.
--   Tests           runs on concrete inputs, a module for each part.
--
-- Conventions and bounds. Numbers are natural numbers; size_t and uint32_t arithmetic that can
-- wrap is written modulo 2^64 or 2^32. An index that the source returns as an int is narrowed to
-- 32 bits, and one that comes out negative counts as not found. A buffer is the list of its bytes;
-- a read behind its end yields 0 and a write there changes nothing; the hypotheses of the theorems
-- are about buffers large enough. A pointer that may be NULL is an Option. Loops are recursion on
-- the number of rounds or on the list. The probe of the hash map runs in C until it meets a slot
-- that ends it; here it has as many rounds as the table has slots, and the result spinning says
-- that these were used up, which is the case of a table in which the C loop would not end. The
-- server's strings are lists of characters that are not 0; malloc and the clock are arguments.
--
-- The doubling of a string's capacity has 65 rounds, after which it is 0 in size_t and stays so; the
-- searches of the memory manager have as many rounds as blocks fit the heap, and one. The
-- loops of string_reverse and string_replace take their number of rounds as an argument, since on
-- some inputs they do not end. A comparison of C strings yields the sign of what C returns.
--
-- Not modelled: the linked list, the tables and the SQL parser, executor and manager, snapshots,
-- the key-value file, the cryptographic functions, and the server's sockets, routes and sessions.
-- The encoders of vectors and lists, the iteration over vectors, the conversions of double, and
-- the functions that only print are left out of the parts that are modelled.
pub mod Prelude
pub mod Memory
pub mod MemoryManager
pub mod Status
pub mod Heap
pub mod ObjectPool
pub mod Bits
pub mod Crc32
pub mod Serializer
pub mod Strings
pub mod Storage
pub mod Vector
pub mod HashMap
mod Tests

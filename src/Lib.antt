-- ===== src/Lib.antt =====
-- Verification of the kernel in aos_pintos/src: threads, synchronization, the page
-- allocator, the file system and the library beneath them; and of the shell in aos_wish_shell. C code is translated into functions on explicit states.
-- A failed ASSERT and a PANIC are the value `panic` of `Result`.
--
-- Base: the names that all modules share, Boolean tests, lists, `Result`, and the digits of machine
-- words (Base/Bits).
--
-- Threads: threads/thread.c and threads/synch.c with threads/thread.h and threads/synch.h, and the
-- part of `intr_handler` in threads/interrupt.c that a timer interrupt runs. Threads/State has the
-- kernel's state: the thread structures by address, the run queue, the semaphores, locks and
-- condition variables, and for each thread its `Cont`, the place in the code where it goes on.
-- Threads/Sched and Threads/Synch have the operations, named as in C. An operation runs up to the
-- next place where another thread may get the processor, and `resume` goes on from there;
-- Threads/Step is the transition system. Threads/Queues, Threads/Conts and Threads/Locks have the
-- invariants: which thread stands on which queue, which place goes with which thread, and who has
-- the semaphore of a lock. Threads/Safe is about the steps and the first two, Threads/Locks about the
-- third. Threads/Exclusion and Threads/Progress have what follows, Threads/Tests has runs.
--
-- What the model of the threads leaves out: the names and stack frames of `struct thread`, printing,
-- the stubs of the multi-level feedback queue, and user processes (USERPROG is off). `tid_t` and the
-- tick statistics are not bounded; `thread_ticks` and the value of a semaphore wrap at 2 ^ 32.
-- `thread_init` is the state that the function leaves. Locks start initialized, and are not
-- initialized again. `sema_init` is called only on a semaphore that no thread waits for. The timer
-- interrupt comes only while interrupts are on; other devices are not modelled. Interrupts are enabled and disabled
-- by steps of their own, so that `thread_start` is a sequence of steps.
--
-- Bitmap: lib/kernel/bitmap.c. Bitmap/State has the operations on 32-bit words, Bitmap/Words what
-- they do to one bit, Bitmap/Ranges to a range, and Bitmap/Scan the search for a group. A pointer
-- to the words is a function from the index, so that a write behind the array would show. Each loop
-- is recursion on the number of rounds that are left. `bitmap_read` and
-- `bitmap_write` are in Files; `bitmap_create` and `bitmap_destroy` wrap malloc and are not modelled.
--
-- Strings: lib/string.c. Memory is a function from addresses to bytes; blocks do not wrap around the
-- end of the address space. A loop that looks for a null byte has a limit on its rounds, and one more
-- than the length of the string is enough. Strings/State has the functions up to `strlcat`, and
-- Strings/Spans those that look for members of a set, `strstr` and `strtok_r`.
--
-- Pages: threads/palloc.c over Bitmap and Strings. Pages/Groups says which pages are in use, and
-- Pages/Owners, Pages/Frees and Pages/Init what the operations do to them. The lock of a pool is left
-- out: each operation is one step. The pages in which the bitmaps lie are not part of the memory.
--
-- Chains: lib/kernel/list.c. Chains/State has the `next` and `prev` pointers of all elements as two
-- functions from addresses, and the operations as stores on them. Chains/Segments says which sequence
-- they stand for (`IsList`); Chains/Insert, Chains/Remove and Chains/Traverse show what the operations
-- do to it. The threads use such sequences as lists directly. A loop has a limit on its rounds, and
-- one more than the number of elements is enough. Chains/Reorder has the
-- operations that move many elements, up to `list_sort` and `get_sorted_index`; the passes and the
-- rounds of `list_sort` share one limit. Chains/Turns and Chains/Reverse are about `list_reverse`.
--
-- Table: lib/kernel/hash.c. Table/State has the operations but the iterator, which is in
-- Table/Iterator. The array of buckets is a function from the index, and a bucket is the sequence
-- of its elements. The hash function and the order are an interface, `Keys`, with the laws that the
-- table needs. Table/Powers is about the loop that looks for a number of buckets, 32 rounds of which are
-- enough, Table/Contents about sums over the elements, and Table/Valid about the invariant. Table/Resize is
-- about `rehash`, Table/Changes, Table/Entries and Table/Methods about the operations on one element,
-- Table/Walk and Table/Visits about walks over all elements, Table/Bags about the contents without
-- their order, a quotient, Table/Clear about `hash_clear` and Table/Digest about the hash of
-- bytes and strings, over the memory of Strings. Whether malloc() has memory is an argument.
--
-- Files: filesys/inode.c, filesys/file.c and filesys/free-map.c, with block_read() and block_write() of
-- devices/block.c, over Bitmap. Files/Disk has the device, a function from sectors and offsets to bytes, and
-- the inode on it with its bytes; Files/Sectors the loops of inode_read_at() and inode_write_at(), a round
-- of which copies at least one byte, so that `size` rounds are enough; Files/State the open inodes by
-- address, and Files/Handles and Files/FreeMap the files and the free map. A buffer is a function from the offset to
-- the byte, and whether malloc() has memory is an argument. `off_t` values are not negative, and the
-- counters of an inode do not wrap. Files/Reads, Files/Writes, Files/Totals and Files/RoundTrips are
-- about the data of an inode, Files/Allocs and Files/Releases about the map, Files/Creates and Files/Fresh about
-- new inodes. Files/Opens says what the counters count; Files/Denials, Files/Shares, Files/Closes, Files/Openers,
-- Files/Elsewhere and Files/Maps are about the calls, Files/Calls has the sequences of calls, in which one who has an inode open without
-- a file, such as a directory, counts as a file, and Files/Histories is about these. A device has
-- a type, which the ASSERT of block_write() looks at. The statistics of a device, and drivers that fail, are not modelled.
--
-- Dirs: filesys/directory.c and filesys/filesys.c, over Files. Dirs/State has the operations on a directory, and
-- Dirs/Paths the operations on files by name. A name is a list of characters, and an entry the twenty bytes of its
-- structure. A loop over the entries has a limit on its rounds, and one more than the number of entries is
-- enough. Dirs/Names is about names in entries, Dirs/Search about the loops, Dirs/Knows about the sector
-- that a directory holds for a name, and Dirs/Filled and Dirs/Adds about `dir_add`.
--
-- Sorts: lib/stdlib.c, the heap sort and the binary search. Sorts/State has them over the bytes of an array; `compare`
-- with its auxiliary data is a parameter, and `IsOrder` says that its result is that of comparing keys. heapify() has a
-- limit on its rounds, and one more than the number of elements is enough, since the index grows; the same
-- limit is enough for binary_search(). The size of the array in bytes does not wrap. Sorts/Swaps is about the exchange of two
-- elements byte by byte, Sorts/Heaps and Sorts/Keys about heapify(), Sorts/Counts about what exchanges keep,
-- Sorts/Phases about sort() and Sorts/Searches about binary_search(). The `atoi` of the same file is in Strings/Numbers;
-- where a number does not fit in an `int`, it wraps, as with -fwrapv.
--
-- Random: lib/random.c. Random/State has the generator, whose static variables are a state, and Random/Tables is
-- about its table. A seed is a number of 32 bits, of which the bytes count.
--
-- Wish: aos_wish_shell/wish.c, the shell. A C string is the list of its characters. Wish/State has the
-- tokens and `parse_input`, Wish/Commands what is done with a command, a line and the lines; `access`,
-- `chdir` and `fork` are a parameter, and the children are recorded and not run. `exit (1)` after a failed `fork`
-- and a store behind the arguments are outcomes (`Run`) that keep the state; a last line without a newline ends the
-- loop over the lines, as `feof` does in C. Wish/Words is
-- about the limit on the rounds of `parse_input`, twice the length of the line, Wish/Plain about a
-- command without redirection, and Wish/Runs about what the shell does and starts. Not modelled:
-- `param_check`, failures of `calloc`, and the choice between terminal and batch file in `main`.
pub mod Base
pub mod Threads
pub mod Bitmap
pub mod Strings
pub mod Pages
pub mod Chains
pub mod Wish
pub mod Table
pub mod Files
pub mod Dirs
pub mod Sorts
pub mod Random

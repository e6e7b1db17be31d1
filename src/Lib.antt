-- ===== src/Lib.antt =====
-- Course work in C: an in-memory file system (homework-03), a sort of files by coroutines
-- (homework-01), a thread pool (homework-04) and a tracker of heap allocations (utils/heap_help).
-- homework-01/solution.c runs on homework-01/libcoro.c; the other parts do not call one another, but each
-- test program may be linked with the tracker.
--
-- Userfs (homework-03/userfs.c, homework-03/userfs.h). The static variables are the record `Ufs`;
-- every call takes the state and returns its result with the next one, and a fault where C would
-- leave memory that it owns or fail an assertion. A file is an entry of `file_list` under its
-- address, its chain of blocks the list of them in order, and a pointer into the chain an index.
-- A byte that was never written is `none`.
--   Userfs.Block      struct block, malloc and calloc of a block, memcpy
--   Userfs.State      the error codes and flags, struct file, struct filedesc, the static variables,
--                     the search for a file, the check of a descriptor
--   Userfs.Open       ufs_open          Userfs.Write      ufs_write
--   Userfs.Read       ufs_read          Userfs.Resize     ufs_resize
--   Userfs.Close      ufs_close, ufs_delete, ufs_destroy
--   Userfs.Invariant  what holds between calls: blocks, counts of references, unique names
--   Userfs.Safe.*     each call keeps it without a fault; Userfs.Session chains calls
--   Userfs.Names.*    the names that ufs_open and ufs_delete find, and a set of names to compare with
--   Userfs.Content, Reading, Appending, Stretch, Contract.*   the bytes of a file, and what calls do to them
-- The address that `malloc` gives a new file is a function of the live files, of which the lemmas
-- ask only that no live file has it; malloc never fails, since the code does not check it. A buffer
-- has less than 2 ^ 63 bytes, like every object of C. The loops of the calls are recursion on the
-- list of blocks, or on fuel: the length of the buffer in `write_loop`, since each round writes a byte
-- at least. The bound of 2 GiB of blocks in a session keeps `(int)offset` from being negative, which
-- is all that the code asks of it; the flags, `2 ^ 64` of `size_t` and `2 ^ 31` of `int` are written
-- out where the code could reach them. `int file_descriptor_capacity` is not bounded: it would
-- overflow past 2 ^ 30 open descriptors.
--
-- Solution (homework-01/solution.c). An array is a list of integers, a clock a function from the number
-- of a reading to its time, so that it holds whatever other coroutines do during a yield. Fuel of the
-- inner loop of `heap_sort` is the bound of the heap plus one, since the index grows in each round; its
-- `int` indices overflow, with a fault, from 2 ^ 30 entries on.
--   Solution.Timer     yield_if_necessary_record_work_time
--   Solution.HeapSort  heap_sort; Order, Sift and Sorted below it hold its proof
--   Solution.Arguments, Solution.ArgumentLaws   the options of main; strcmp and strtol are parameters
--   Solution.Merge, Solution.Merged   the merge of the arrays, on fuel for one round more than there
--                      are numbers; the blanks that it prints are left out
--   Solution.Ascending   the merge of sorted arrays
--   Solution.Stream    the loops of coroutine_func_f that count and read the numbers of a file, over
--                      parameters for fopen, feof, fscanf and rewind. The count needs no fuel: it ends in
--                      a fault when `int numbers_count` overflows, which is how it goes on over a token
--                      that is no number. An entry that fscanf does not store is a fault as well
--   Solution.Whole     a round of coroutine_func_f, from the open file to its sorted numbers
--   Solution.Faults    the files whose numbers it does not read
--   Solution.Yields    how often the sort of a file calls coro_yield, at most
--   Solution.Program   coroutine_func_f, struct coro_context and main, from the arguments to the output:
--                      coroutines that pick files by the shared index, under the scheduler of Coro. The
--                      numbers of a file are sorted when it is picked and stored after the last yield of
--                      the sort, since nobody else touches them between. Fuel is two rounds for each
--                      coroutine and one for each turn of a file, counted in Solution.Yields. Files,
--                      Goals, Holding, Sorting, Picking and Law are about one turn, Ends and Output about
--                      the coroutines and main as a whole
--
-- Coro (homework-01/libcoro.c). The doubly linked list of coroutines is the list of them in order, each
-- under its address. A round of coro_sched_wait either returns or yields.
--   Coro           struct coro, the list, the targets of coro_yield, coro_sched_wait
--   Coro.Links     next and prev of the structs and coro_list: coro_list_add and coro_list_delete by
--                  their writes through pointers, where the freed struct of coro_delete is none
--   Coro.Switch    coro_this_ptr, is_sched_waiting and the saved contexts in coro_yield_to, coro_body,
--                  coro_new and coro_sched_wait. sigsetjmp, siglongjmp and the signal on the new stack
--                  do what is documented of them: a jump to a context that has not been saved, or
--                  whose frame has gone on, is a fault, and so is the exit of coro_body
--   Coro.Waiting   what a round of coro_sched_wait chooses
--   Coro.Turns, Coro.Joined   the turns of the coroutines and the loop of solution.c that waits for them
--                  all; a coroutine is the number of its yields and the value that it returns. The fuel
--                  is the sum of these numbers with two rounds for each coroutine.
--   Coro.Running, Coro.Rounds, Coro.Joining   the same turns for coroutines that do something to a
--                  state that all share, a contract for one turn, and the loop that waits under it, on
--                  fuel for what the coroutines have left to do
--
-- ThreadPool (homework-04/thread_pool.c, homework-04/thread_pool.h). A stretch of code between two
-- operations on a mutex is a function on the pool or on a task, and `System.Step` puts them together in
-- every order that the mutexes, waits and joins allow. A wait may end at any time, as POSIX lets
-- pthread_cond_wait, so a wake-up that is lost is outside of the model. One thread calls the pool. The
-- function of a task is the value that it returns; the time of a timed join is what its wake-ups say.
--   ThreadPool.Task       struct thread_task and its calls
--   ThreadPool.Pool       struct thread_pool, thread_pool_new, the parts of thread_pool_push_task,
--                         of thread_pool_delete and of _thread_worker
--   ThreadPool.System     the workers, the calling thread, the steps
--   ThreadPool.Invariant  the counts of the pool; ThreadPool.TaskLaws the life of a task
--
-- HeapHelp (utils/heap_help/heap_help.c). The static variables, thread-local ones included, are the
-- record `Tracker`; one thread is modelled, with its locks as it finds and leaves them. The list of live
-- allocations and the pool are lists of objects, each numbered in the order in which the batches hand
-- them out. What the C library's functions return, the stack traces, the buffer of mmap and the symbols
-- of dladdr are arguments; an assertion that fails is a fault, and a lock that the thread already holds
-- is spun on for ever.
--   HeapHelp.State, Track, Static, Symbols   the variables and locks; alloc_trace_new and alloc_free; the
--                         static allocator; trace_resolve and what counts as internal
--   HeapHelp.Bodies, Init, Calls   malloc, calloc, realloc, strdup, free, getline, getaddrinfo and
--                         freeaddrinfo; heaph_init and heaph_touch; heaph_get_alloc_count
--   HeapHelp.Report       heaph_atexit, without its blank lines
--   HeapHelp.Invariant, HeapHelp.Tracking.*   what holds of the lists, and that tracking keeps it
--   HeapHelp.Spec, HeapHelp.Refinement.*   the set of live blocks that the tracker implements
--   HeapHelp.Reporting.*  the report against a description of it
--   HeapHelp.Startup, HeapHelp.Aside   the first call, and calls that are left aside
-- mmap succeeds here, since its failure ends the program, and the registration with atexit is left out.
--
-- Base, Int and IntArray hold the run of a fallible call, list lemmas over the native numbers,
-- integers, and arrays of `int`.
--
-- Not modelled: the signal masks and alternate stacks that coro_new of homework-01/libcoro.c sets and
-- restores, what the C library's fopen, feof, fscanf and rewind do (the lemmas ask that rewind leads back
-- to the start of a file and that fscanf and feof give the numbers of a file of numbers), the time limit
-- that thread_task_timed_join computes from its timeout, what is printed to the terminal, the test
-- programs and the scripts.
pub mod Base
pub mod Int
pub mod Userfs
pub mod IntArray
pub mod Solution
pub mod ThreadPool
pub mod Coro
pub mod HeapHelp

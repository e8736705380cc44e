-- ===== src/Lib.antt =====
-- Verification of the multicore programming library: a small server framework with its locks, thread
-- pools, concurrent sets, buffers and HTTP services. Paths below are from the root of the repository.
--
-- Parts and files
--   * Buffer (buffer.hpp, buffer.cpp): a streaming buffer of chunks of 4096 bytes, which connections
--     read from sockets into and write to sockets from. Buffer.antt holds the state (chunks_, sizes_,
--     wpos_, rpos_) and create, write, reserve, advance, consume, byteCount and their helpers;
--     Buffer/Join has maybeRemoveLastChunk, appendFrom and copyFrom, Buffer/Iterator the iterator. The
--     other files below Buffer/ are proofs: Bytes and Valid define the unread bytes of a buffer and
--     its invariant, and each of the rest is about the operation in its name. Buffer/ReadPointer and
--     Buffer/Overcount are about the read pointer after copyFrom and appendFrom.
--   * CircularBuffer (circular_buffer.hpp, circular_buffer.cpp): the ring of integers;
--     CircularBuffer/Spec is the bounded overwriting queue that it implements.
--   * ListBasedSet (list_set.hpp, list_set.cpp): ListSet.antt holds the nodes in memory and insert,
--     remove, lookup, clear and checkIntegrity; ListSet/Chain says what a chain of nodes is.
--   * HazardPointers (hazard_pointers.hpp): the pointers that protect nodes of a lock-free list, the
--     retired lists, retireNode and maybeFreeNodes.
--   * ThreadPoolFast (thread_pool_fast.hpp, thread_pool_fast.cpp): free workers, the queue of tasks,
--     and the steps addTask, queueWorker, taking a task and finishing it.
--   * ThreadPoolNormal (thread_pool_normal.hpp, thread_pool_normal.cpp): workers that share a queue.
--   * FileCache (file_cache.hpp, file_cache.cpp): pin, in two steps, unpin, the eviction of files that
--     are not pinned, and loadFileToBuffer, which uses the operations of Buffer.
--   * LockFreeHashTable (lock_free_hash_table.cpp): HashTable.antt holds the reversal of bits, the keys
--     of the nodes of values and of buckets, and GET_PARENT.
--   * MarkablePointer (markable_pointer.hpp) and LockFreeList (lock_free_list.hpp): the sorted list whose
--     next pointers carry the mark of a removed node. LockFreeList.antt holds the nodes in memory and the
--     searches, insertions and removals of any number of threads, one load or compare-and-swap a step.
--     A thread keeps its hazard pointers and retired nodes; no retired node is freed in this model.
--   * HttpParser (http_parser.hpp, http_parser.cpp, http_request.hpp, http_response.hpp): the parsing of
--     requests and responses from the unread bytes of a Buffer, to the end of the last whole message.
--     HttpParser/Spells says which bytes a message is, apart from the parser.
--   * Connection (connection.hpp, connection.cpp): the reference count, the connection to a host, the
--     reads into in_ and the writes from out_. IoManager (io_manager.hpp, io_manager.cpp): descriptors
--     with their upcalls, timers, the rounds of the poller and the stop. A connection hands its
--     upcalls to a descriptor of the manager, and the manager queues them to the workers.
--   * HttpClient (http_connection.hpp, http_connection.cpp): the client side of an HTTP connection, with
--     the queue of callbacks that wait for responses.
--   * KvServer (kv_connection.hpp, kv_connection.cpp): the server side of a key-value
--     connection: requests that are read and answered. What the hash table finds is an argument,
--     and so is what the uninitialised word of the key holds.
--   * Spinlock (spinlock.hpp) and Barrier (thread_barrier.hpp): steps of threads in any order.
--   Common.antt and its children hold the shared names, tests and list lemmas. The Tests files run
--   the definitions at concrete inputs and apply the theorems there.
--
-- How the code is read
--   * A C++ `int` that is only stored and compared is an integer of Common/Int. A size_t is a natural
--     number with the wrap-around of its additions and subtractions written out where they can occur.
--   * An object is a record, an operation a function to the new record. A pointer is an index or an
--     address; where NULL or a missing node would be used, or a FATAL message ends the process, an
--     operation returns `none`.
--   * A call that holds a mutex all along is one step. Threads that share words without a mutex
--     (Spinlock, Barrier, the workers of the pool) are step functions run by an explicit schedule.
--   * What a socket, a poll or a clock answers is an argument: a list of answers for a loop of calls.
--     A callback is a number, and an operation that runs or queues it says so in its result.
--
-- Bounds and fuel
--   The loops of Buffer::write, Buffer::consume and the iterator get their fuel from the calls: two
--   more than the bytes to write (a round writes at least one or opens a chunk), one more than the
--   chunks, one more than the unread bytes. The loops over the nodes of a ListBasedSet take it as an
--   argument, and more than the number of nodes is asked for. The eviction of FileCache gets one more
--   than the number of cached files (a round takes one out), the loop that loads a file one more than
--   its bytes, GET_PARENT the 64 bits of a bucket number, the HTTP parser more than the unread bytes.
--   Spinlock, Barrier, the lock-free list and the thread pools need none: a schedule is finite. Memory
--   is unbounded.
--
-- Not modelled
--   The reuse of the memory of nodes that were retired from the lock-free list. The memory model below
--   sequential consistency, failing allocations, and the destructors, which
--   free memory only. What is not covered yet: the overloads of the lock-free list that begin at a given
--   node and the operations of the hash table that use them, the queue lock, RequestStats, ParamMap,
--   OpGenerator, RWMutex and Notification, the server side of an HTTP connection, the client
--   side of a key-value connection, and the services.
--   Glue around system calls (sockets, polling, signals, processes, threads, logging), generated
--   callback classes, clients, benchmarks and tests are left out.
pub mod Common
pub mod CircularBuffer
pub mod Buffer
pub mod ListSet
pub mod HazardPointers
pub mod ThreadPoolFast
pub mod Spinlock
pub mod Barrier
pub mod FileCache
pub mod HashTable
pub mod ThreadPoolNormal
pub mod HttpParser
pub mod IoManager
pub mod Connection
pub mod HttpClient
pub mod KvServer
pub mod MarkablePointer
pub mod LockFreeList

-- ===== src/Lib.antt =====
-- libsvr2: a C and C++ library for servers, modelled and verified component by component.
--
-- The parts and their files:
--   LoopCache: src/loop_cache.c, the byte ring between the network code and its users. The struct is
--     the record `LoopCache`; pointers are addresses, and the copying calls take and return one flat
--     memory, an array of bytes by address (Common/Memory). The calls that only move a pointer leave
--     the memory alone. `create_loop_cache` takes the address of the bytes; the struct's own
--     allocation and `destroy_loop_cache` are not modelled.
--   Utility/Search: `memmem_s` and `split_mem_to_segments` of src/utility.cpp, used by the HTTP
--     parser of src/websocket.c. A pointer is the list of the bytes from it to the end of its block.
--     Where a needle is, by itself, is defined in Utility/Search/Places.
--   Sha1: src/sha_1.c, which hashes the web socket handshake. The model is that of a little-endian
--     machine; `sha1_step` swaps the bytes of each word by reading the highest byte first.
--   Json: the escapes of src/json.c and its scan of a string. The tables of `_escape_to` and
--     `_escape_to_json_append` are two definitions, as in the source. The tree, numbers and the parser
--     are not modelled.
--   AvlTree: src/avl_tree.c, the ordered map. A node's children are subtrees of the data type `Node`,
--     the way to the parent is the way back up the recursion, and the links between neighbours are
--     the list `chain` of addresses. The allocator is the address of the new node, an argument.
--     A call that erases a node has the entry of that node, whose key leads to it (AvlTree/Erase).
--     The getters and setters of one field, and the copies of the calls that take a memory unit, are
--     left out.
--   RbTree: src/rb_tree.c, the other ordered map. The node at work is a subtree with the list of its
--     parents up to the root, each without that subtree. A null pointer that the code would follow
--     makes the result `none`. A call that erases a node has the entry of that
--     node, whose key leads to it. The links between neighbours are left out.
--   Keys: the comparisons of src/lib_svr_common_def.c, which a tree with user keys is given, and the
--     hashed strings (Keys/Strings), with `BKDRHash` of src/utility.cpp.
--   Timer: the timing wheels of src/timer.c. All lists of a manager are one list of timers with the
--     place of each, a slot of a wheel or `work_list`. The clock is a parameter that gives its
--     readings in order. The callback is a parameter that gives the calls it makes of the manager,
--     by all that it was called with up to then; a call that names a timer which was released has no
--     effect. The calendar functions of the file are left out.
--   Utility/Utf8: `is_valid_utf8` of src/utility.cpp. A pointer is the list of the bytes from it to the
--     end.
--   WebSocket: src/websocket.c, once the handshake is done: the calls that send and close, the parser of
--     packets and the handlers of both sides (WebSocket/Receive). The struct is the record `WsSocket`; what
--     a function calls is a list of events, and what the user does in a callback comes after it. An
--     allocation of no bytes gives memory. A handler is `none` where its packet is shorter than the
--     header. `_unmask_data_overflow` goes up to four bytes further than its text: what it reads there
--     is the event `read_behind`; what it writes there stays in the packet, in the array of the frame
--     or, for a message of fewer than 2 ^ 32 - 4 bytes, in `mask_buffer`, and is left out. The size of a
--     fragment wraps at 2 ^ 32; a copy behind the block that was made too small is the event
--     `write_behind`. zlib, the random numbers and whether `net_tcp_send` has room are the parameters
--     `Libraries`.
--   MemoryPool: the memory unit of src/memory_pool.c, as its own thread takes and gives back nodes, and as
--     other threads give nodes back, one call after the other. The two lists of free nodes are lists of
--     addresses; `malloc` is the address of a new block, an argument, and does not fail. What other
--     threads take, and the pools and managers that choose among units, are not modelled.
--   LockFree: src/include/lock_free_queue.hpp, the queue for many producers and many consumers. Each
--     atomic access of `push` and `pop` is one step of a thread, and the steps of all threads
--     interleave in any order, with one order of all accesses; the weaker memory orders are not
--     modelled. The capacity is a power of two, so that the mask is a remainder. The states reached
--     are those of a queue in which fewer than 2 ^ 64 less the capacity values were pushed.
--
-- Machine integers are native numbers with their wrap written out: `size_t`, `unsigned long long`
-- and addresses modulo 2 ^ 64, `unsigned int` modulo 2 ^ 32, `unsigned char` modulo 256.
--
-- Loops on fuel: `memmem_loop` has one round more than the block has bytes, and takes two bytes at
-- least in a round; `split_loop` likewise, and takes the separator in a round; `sha1_loop_from` has a
-- round for each byte, and takes a byte at least; `run_work` has a round for each timer, and takes
-- one off `work_list` in a round; `update_loop` has a round for each tick up to the reading of the
-- clock and two more; `utf8_loop` has a round for each byte, and takes a byte at least. Each bound is
-- proved to be enough.
--
-- Not modelled: base64, the handshake of a web socket and its URI, the encoding of
-- messages, the socket engines, the logger, the database clients, the code generators under tools, and
-- what only calls the operating system or OpenSSL.
pub mod AvlTree
pub mod Common
pub mod Json
pub mod Keys
pub mod LockFree
pub mod LoopCache
pub mod MemoryPool
pub mod RbTree
pub mod Sha1
pub mod Timer
pub mod Utility
pub mod WebSocket

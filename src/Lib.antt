-- ===== src/Lib.antt =====
-- Jiufeng: a base library in C (jiutai/), its memory library (jiukun/), an encoding library (encode/)
-- and services on top of them, of which the message dispatcher (dispatcher/) is one. The containers
-- and the memory library do not know each other's state: a container gets its memory by
-- jf_jiukun_allocMemory and returns the code of that call when it fails. The dispatcher keeps the
-- messages of a service in a priority queue, which stands on jiutai/jf_queue.c.
--
-- Files and the code that they model:
--   Prelude           names and lemmas that the parts share: Boolean tests on numbers, lists indexed by
--                     numbers, integers, tables, counts of list entries, 32-bit counters (`u32`, which
--                     wrap at 2^32)
--   Jiutai/Err        jiutai/jf_err.h: the codes; a function that leaves out-parameters gives a Result
--   Jiutai/Date       jiutai/jf_date.c: leap years, days from 1970 and back, days of the week
--   Jiutai/Queue      jiutai/jf_queue.c: the queue as its list of elements, oldest first
--   Jiutai/Array      jiutai/jf_array.c: the counter and the elements in list order; the loops walk the
--                     list as the code walks its nodes
--   Jiutai/Hsm        jiutai/jf_hsm.c: tables of transitions, callbacks and the calls that a run makes;
--                     Setup has the functions that add tables and callbacks
--   Jiutai/Hashtable  jiutai/jf_hashtable.c: chains as lists, a link as a bucket and the nodes before it,
--                     resizing by moving each node; creation, the iterator and the statistics
--   Jiutai/Rwlock     jiutai/jf_rwlock.c as WINDOWS builds have it: counters, events and the steps of
--                     threads that acquire and release the lock
--   Jiutai/Listhead   jiutai/jf_listhead.h: circular lists by the two links of each entry in memory
--   Jiukun/Buddy      jiukun/buddy.c, one zone: free lists by order, counters, flags of the pages
--                     (_rmqueue, _splitPageList, _freeOnePage, _createBuddyZone)
--   Jiukun/Pages      jiukun/buddy.c, the array of zones: _allocPages, initJiukunBuddy,
--                     putJiukunPage, jiukunPageToAddr, addrToJiukunPage
--   Jiukun/Slab       jiukun/slab.c: a cache with its three lists of slabs, the chain of free objects of
--                     a slab (_allocObj, _freeObj, _growSlabCache, _shrinkSlabCache, reapJiukunSlab);
--                     Sizes has _slabCacheEstimate, _createSlabCache and _findGeneralSlabCache
--   Encode/Base64     encode/base64.c: jf_encode_encodeBase64 and jf_encode_decodeBase64 with the sizes
--                     of their buffers
--   Dispatcher/PrioQueue  dispatcher/common/prioqueue.c: the queue of messages with a counter for each
--                     priority, by the functions of Jiutai/Queue
-- A child module proves properties of its parent; a module Tests has runs on concrete inputs.
--
-- How C is represented:
--   - A struct is a record, a pointer to an element is a number, a linked list is the list of what its
--     nodes hold. The model follows which node the code reads and writes, not the links themselves,
--     but in Jiutai/Listhead, where the links are the state.
--   - Memory from outside is an argument: the code that an allocation returns, for pages also the
--     address that it gives. A call with JF_ERR_NO_ERROR as that code is one whose allocation worked.
--   - A function of the user is a function (a guard, a comparison) or a name in the list of calls that
--     a run makes (an action, a callback of a state); it does not change the caller's state.
--   - A function that holds a mutex from its first to its last access is one step.
--   - `none` stands for a fault or an abort where a comment says so, and for a loop that has not ended.
--
-- Bounds and fuel: take_years has one year of fuel for each day, split_page_list and first_area have
-- the rounds that their orders leave. The products of Base64 that leave the range of an olsize_t are
-- faults in the model, as are its assertions. Dates go up to a year whose day numbers fit an olint_t. A
-- zone has the 15 areas of bz_faFreeArea, so that its maximum order is at most 15.
--
-- The callbacks of a hash table are the fields of the record Keys; theorems ask of them that comparing
-- equal is an equivalence and that equal keys have equal hash values. Blocks of a zone that are in use
-- are known to its users only: the proofs about _freeOnePage carry them as a list for each order, and
-- Jiukun/Buddy/Runs has the calls of a zone in any order as an inductive relation.
--
-- A cache of the slab allocator gets what the buddy allocator and the cache of its slab_t return as a
-- Supply, one for each round of _allocObj, and finds the page of an address by a function; theorems ask
-- that new pages are those of no slab of the cache. The slab_t of a slab may come from a general cache,
-- so that one call of jf_jiukun_allocMemory may change two of them; that function is not modelled. The
-- estimate has a round of fuel for each byte; the loop that chooses the order of a cache is on fuel, and
-- for some sizes of objects no fuel is enough.
--
-- Not modelled: the loop of getJiukunPage, in which slabs are reaped; functions that only free memory,
-- log or print; the reference count of messages; the general caches that the start creates, the
-- destruction of caches; other lists, trees, timers, string parsers, sockets, files, HTTP, XML, the
-- daemons and their configuration; locks that the operating system provides. The events of the
-- read-write lock are taken as the documentation of the system has them: a wait that ends by an event
-- resets it, a set event stays set until then or until it is reset.
pub mod Prelude
pub mod Jiutai
pub mod Jiukun
pub mod Encode
pub mod Dispatcher

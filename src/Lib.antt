-- ===== src/Lib.antt =====
-- A model of the core of MulleObjC, the Objective-C runtime library of mulle-objc: its autorelease
-- pools, calls of methods with arguments of C types, allocation, what threads share without locks
-- (atomic integers and instance variables, handing over of objects, shared instances), objects that
-- lock themselves, the life of threads, method signatures, condition locks, ranges, and the names
-- of enum values and flags. The paths below are paths of the repository. What is modelled is the
-- release build, without assertions and without the checks that only a DEBUG build has.
--
-- Pool: src/class/NSAutoreleasePool.m. A thread has one configuration (`Config` for
--   `struct _mulle_objc_poolconfiguration`) with a stack of pools, innermost first, and a map that
--   counts how often an object is in them. A pool (`Pool`) has a chain of arrays of objects.
--   Pool/Ops.antt has pushing a pool and adding to it: `autorelease_object` for
--   _autoreleaseObject, `autorelease_objects` for _autoreleaseObjects, `add_object` for addObject,
--   `add_objects` for addObjects, `push` for pushAutoreleasePool. Pool/Drain.antt has emptying and
--   removing pools: `release_and_free` for _mulle_autoreleasepointerarray_release_and_free,
--   `release_all` for releaseAllObjectsInPool, `pop` for popAutoreleasePool. Pool/Early.antt has
--   +mulleReleasePoolObjects:count: (Pool/Early/Emptied.antt says which slots it empties), Pool/Query.antt the class's queries, and Pool/Teardown.antt
--   -dealloc and the end of a configuration. Objects are numbers, and nil is 0. What the rest of
--   the runtime does is a parameter (Pool/Runtime.antt): which objects are constant, the map, the
--   contents of fresh memory, and what an object's -dealloc autoreleases, which may depend on all
--   that happened before. A -dealloc that pushes or pops pools is not modelled. The
--   configuration carries a history of the events that cannot be seen in it: releases, additions,
--   arrays that were allocated and freed. Proofs about what is in the pools stand in Pool/Ledger,
--   about termination in Pool/Total.antt and Pool/Pop.antt, about all sequences of calls in
--   Pool/Reach.antt, which is a step relation on configurations. Pool/Api.antt has the functions
--   that programs and compilers call, of src/class/NSAutoreleasePool.h and
--   MulleObjCAutoreleasePool.h: `push_autorelease_pool` for NSPushAutoreleasePool,
--   `pop_autorelease_pool` for NSPopAutoreleasePool, `ns_autorelease_object` for
--   NSAutoreleaseObject.
-- Array: src/mulle-objc-autoreleasepointerarray-private.h, the chain of arrays of a pool, which
--   Pool uses. An array's `objects` is a function of the index; `used` and `count` wrap round as the
--   machine's do. Array/Walk.antt has the walk and the dump of the objects, with the callback and
--   the printing as parameters.
-- Call: src/function/MulleObjCFunctions.h. A method takes one parameter by the runtime's calling
--   convention, a word or the address of a block of words (Call/Abi.antt). Call/Small.antt has the
--   accessors for types that fit a pointer on every machine, Call/Large.antt those that choose
--   between a word and a block by size, Call/Imp.antt and Call/ImpReturning.antt calls of an
--   implementation, Call/Perform.antt of a selector, Call/ImpArray.antt of several implementations
--   (`call_each` goes through the array), and Call/Lookup.antt what is asked of an object or a class.
--   The machine has 64-bit pointers and an LP64 compiler, and a value of a C type is its bit pattern.
-- Allocation: src/function/MulleObjCAllocation.h, with `embedded` for MULLE_OBJC_EMBEDDED_ALLOCATOR.
--   Allocation/Memory.antt has memory for instances and classes, Allocation/Object.antt making and
--   freeing objects, Allocation/Copy.antt the copying of objects to an array.
-- Atomic: the atomic integers of src/MulleObjCIntegralType.h. Any number of threads take steps in
--   any order; a step has one access to the pointer (`attempt` for the loop of the functions). The
--   compare and swap of mulle-thread is a parameter with two laws, as in Ownership and Transfer.
-- Ownership: atomic instance variables, src/mulle-objc-atomicid.h and .m (`atomic_id_update` for
--   _mulle_atomic_id_update), lazy loading (`atomic_id_get_lazy` for _MulleObjCAtomicIdGetLazy of
--   src/function/MulleObjCIvar.m), and the functions of MulleObjCIvar.h that call them. The shared
--   state lists what was retained or copied, autoreleased and released.
-- Transfer: handing objects from thread to thread, src/function/MulleObjCProperty.h
--   (`acquire_object_atomically` for _MulleObjCAcquireObjectAtomically, `recycle_object_atomically`
--   for _MulleObjCRecycleObjectAtomically).
-- Enum: src/mulle-objc-enum.m, the tables of names of enum values (`enum_text`, `enum_parse`) and
--   of flags (`options_parse`). Texts are lists of bytes without the terminating zero. The value of
--   a line is what the machine reads in the table at `offset`, by little endian. When a strict
--   parser fails, what it has written through its result pointer by then is left out.
-- Range: src/struct/NSRange.h and NSRange.c, the checks of a range against a length of
--   src/protocol/MulleObjCException.h (Range/Validate.antt), and the hashing of the last bytes of a
--   buffer, src/function/MulleObjCHashFunctions.h (Range/Hash.antt). The functions mulle_range_... of
--   mulle-c are parameters (Range/Library.antt), and theorems that need mulle_range_get_max to be
--   the sum of location and length take that as a hypothesis.
-- Singleton: MulleObjCSingletonCreate of src/protocol/MulleObjCSingleton.m, for a class that is
--   marked as a singleton, with MULLE_OBJC_EPHEMERAL_SINGLETON off. Any number of threads take
--   steps in any order (`Step`); a step has at most one access to what they share. The runtime's
--   compare and swap is a parameter with two laws.
-- Condition: src/class/NSConditionLock.m and NSCondition.m (`lock_when_condition` for
--   -lockWhenCondition:, `begin_wait` and `end_wait` for the halves of -wait). Any number of threads
--   make calls in any order, and only a thread that has the lock unlocks it. A step goes up to the
--   next point at which other threads matter. A wait may end at any time, as the condition
--   variables of mulle-thread allow, so signals have no effect on what is proved.
-- Threads: src/class/NSThread.m. What a function of a thread's life does is a list of actions, one
--   for each statement that counts (Threads/Programs.antt: `bouncy_bounce` for bouncyBounce,
--   `threadinfo_destructor`, `mulle_start` for -mulleStart, `become_universethread` and so on, put
--   together as the functions call each other). An action works on what all threads share (`World`)
--   and on the NSThread (`ThreadObject`). Any number of callers and threads act in any order, and
--   threads come at any time, started by -start or -mulleStart or by another library
--   (Threads/System.antt). The system gives a new thread an identifier that no thread has which has
--   not ended. The reference counts of the runtime and the map of mulle-container are parameters
--   with laws. Threads/Check.antt has what the rest of a list of actions still gives back, and a
--   test of each point of a function, which the other modules use. Threads/Current.antt: the functions
--   of NSThread.h on the current thread and its values by key.
-- Signature: src/class/NSMethodSignature.m (`method_signature_create` for NSMethodSignatureCreate,
--   `frame_length` for -frameLength and so on). A string of types is a list of bytes without its 0.
--   The memory behind the struct is counted in bytes, with the place of the copied string in it.
--   What mulle-objc-runtime finds in a string of types is a parameter.
-- Bytes: src/function/NSByteOrder.h, the byte order functions, over those of mulle-c11.
-- Universe: src/mulle-objc-universefoundationinfo.m and -private.h: root objects and thread objects
--   behind the universe's lock (`add_rootobject` for _mulle_objc_universe_add_rootobject,
--   `lockedcall1` for the function that calls another with the lock held, and so on). The set and
--   the map of mulle-container are parameters with laws; `none` stands for the end of the process.
-- Lock: src/class/NSLock.m, NSLock-Private.h and NSRecursiveLock-Private.h, over the mutexes of
--   mulle-thread. `lock_before_time_interval` reads the clock once in each round and lets other
--   threads change the mutex before its attempt; its fuel counts the rounds, and one more than the
--   readings before the time is enough.
-- Locking: src/class/MulleObject.m. `locking_forward` and `locking_super_forward` for
--   -__lockingForward: and -__lockingSuperForward:, `call_method` for a call through the cache that
--   _MulleObjectRefreshMethodNofail fills, `share_recursive_lock` for -shareRecursiveLock:. What a
--   method does is a tree (`Body`) of calls and of sharing; what other threads do is left out, since
--   they cannot change the depth to which this one has locked. The recursive mutex of mulle-thread
--   is a parameter, and so is what the search of a class finds, in each call of the tree.
--
-- Fuel: emptying a pool goes on for as long as the objects' -dealloc methods autorelease others,
-- which nothing in the code bounds. `release_all` takes fuel for its rounds; the theorems that say
-- that it ends ask for a rank on objects that goes down from an object to what its -dealloc
-- autoreleases, and for more fuel than the ranks in the pool. A pop takes one round for each pool
-- that there is and one more. The parser of flags takes fuel for its rounds, one more than the text
-- has bytes. A loop over a range takes one more than the range has locations. The call for a shared
-- instance by a thread alone takes five steps.
--
-- Not modelled: trace and debug output, the CSV dump of the pools, the printing of flags and
-- ranges, the clearing of properties, and the
-- standard implementations of methods. NSInvocation, the proxies,
-- NSObject, NSValue, the class clusters, and the runtime's configuration and start are
-- other components of the library, which have no model here.
pub mod Allocation
pub mod Array
pub mod Atomic
pub mod Base
pub mod Bytes
pub mod Call
pub mod Condition
pub mod Enum
pub mod Lock
pub mod Locking
pub mod Ownership
pub mod Pool
pub mod Range
pub mod Signature
pub mod Singleton
pub mod Threads
pub mod Transfer
pub mod Universe

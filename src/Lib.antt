-- ===== src/Lib.antt =====
-- The C extension of memory-profiler, ext/memory/profiler: the part of the profiler that hears of
-- every object that Ruby allocates or frees, counts them by class and remembers the live ones.
--
-- The parts and the files that model them:
--
-- * Table models table.c and table.h, the map from object addresses to entries: an array with open
--   addressing, linear probing and tombstones. Table/Layout holds the records and the hash,
--   Table/Probing `find_entry` and `find_insert_slot`, Table/Operations the insertion, lookup,
--   deletion and resize, Table/Gc the marking and the compaction. The other modules below Table hold
--   proofs, each named for what it proves.
-- * Queue models queue.h, a growing array. Queue/Grow and Queue/Push hold proofs.
-- * Events models events.c and events.h: two queues, one that the hooks fill while the other is
--   processed. Events/Collect models what the garbage collector does to them. Events/System is the
--   same code as a step relation: a step is what runs between two points at which other code can run,
--   and hooks, the postponed job, `process_all` and the handlers interleave in any order. It carries
--   two lists that the code does not have, of all events accepted and of all handled. Events/Runs
--   connects it to `process_queue`. The other modules below Events hold proofs.
-- * Allocations models allocations.c and allocations.h, the counts of one class.
-- * Capture models capture.c: its state (Capture/State), the processing of one event
--   (Capture/Process: `process_newobj`, `process_freeobj`, `process_event`), the event hook
--   (Capture/Hook), the methods of the class (Capture/Methods), the filter of `each_object`
--   and, as a reference, the pairs of a block that changes nothing (Capture/Each), `each_object` with any block, with the collector's switch and
--   all its ways out (Capture/EachObject), and the callbacks of the garbage collector (Capture/Gc).
--   The processing uses the table, the allocation records and the tracked classes, and is the handler
--   that Events runs; `stop` and `each_object` flush the event queue. Capture/Implements is the
--   abstract view of a capture whose `track_all` is off: a map from live objects to classes with its
--   size and two counts. The other modules
--   below Capture hold proofs, but Capture/Readers, which has the methods that only read and the
--   release of the memory, and Capture/Names, which has the names of event flags and types.
-- * Program is events.c and capture.c at work together: a move is a hook of any capture that enqueues
--   what `event_callback` gives, the postponed job, a flush, an interrupted job, one round of the loop
--   with the capture's `process_event` as the handler, or the end of the loop. Program/Moving maps the
--   moves to the steps of Events/System. Program/Heap computes from the events alone which objects live
--   as far as a hook has heard, and Program/Settings says what calls of `track` and `untrack` a
--   capture has had. Program/Setup is about how a capture is made and started.
--   The other modules below Program hold proofs; Program/Iterating and Program/Stopping are about
--   `each_object` and `stop` as a caller sees them, Program/Settling is about how the extension comes
--   to rest.
-- * Address models `address_of` of profiler.c.
-- * Base holds shared names and lemmas; Ruby holds what is asked of the interpreter.
--
-- Conventions. A machine is LP64: `size_t` and `VALUE` are natural numbers below `2 ^ 64`, with the
-- wrap written out. A pointer into an array is an index, a pointer to an object is its address. `Qnil`
-- is a parameter that is not 0. What the extension calls is a parameter with its documented
-- behaviour as a hypothesis: `calloc` and `malloc` as tests whether memory is granted, `realloc` as a
-- function on blocks, `rb_gc_location` as a function on addresses, `st_table` as an interface, the
-- Ruby callbacks as functions on the state. An exception is a value.
--
-- The loops of the table recurse on the probes that `MAX_PROBE_LENGTH` leaves, or on the array. The
-- doubling loop of a queue has 65 rounds, which are enough since a word is doubled at most 64 times. The loop over the
-- queued events has one round for each event, since the processed queue does not grow.
--
-- The loop of `each_object` recurses on a number of rounds, since its block may let the table grow;
-- more rounds than slots are enough where the block leaves the table as it is. `hex_digits` has 16
-- digits, which are enough for 64 bits.
--
-- The test for a load above one half is exact for counts below `2 ^ 53`, as floating point is.
--
-- In Program a handler with its callbacks is one move; what hooks enqueue while it runs are moves
-- before it. The moves do not include the methods that change a capture; those are taken from a state
-- that the moves reach. An address at which an object lives is neither 0 nor that of `nil`. At most
-- 10000 events are considered in a run, the number of probes: with more slots in use than that, an
-- insertion may overwrite an entry.
--
-- Not modelled: `each_object` without a block, which makes an enumerator; the registration of classes
-- and methods in the Init functions and the type descriptors for the interpreter; messages on the
-- standard error stream; the Ruby code under lib.
pub mod Base
pub mod Ruby
pub mod Table
pub mod Queue
pub mod Events
pub mod Allocations
pub mod Capture
pub mod Program
pub mod Address

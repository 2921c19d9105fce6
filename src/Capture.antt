-- ===== src/Capture.antt =====
-- ext/memory/profiler/capture.h and capture.c: a capture counts the objects of the tracked classes
-- and calls their callbacks.
pub mod State
pub mod Process
pub mod Hook
pub mod Methods
pub mod Pausing
pub mod Others
pub mod Readers
pub mod Names
pub mod Calls
pub mod Stores
pub mod Counting
pub mod Newobj
pub mod Freeobj
pub mod Counts
pub mod Objects
pub mod Each
pub mod Gc
pub mod Marking
pub mod Survival
pub mod Clearing
pub mod Classes
pub mod Stopping
pub mod EachObject
pub mod Lifetime
pub mod Hooked
pub mod Implements
pub mod Handling
pub mod Refinement
pub mod Iteration
pub mod Restoring
pub mod Tests
pub mod MethodTests
pub mod ObjectTests

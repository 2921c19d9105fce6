-- ===== src/Program/Restarting.antt =====
-- capture.c: the life of a capture goes round: `stop`, `clear`, `track` and `untrack`, and `start` again.
use mathlib.Core.Option
use memory_profiler.Ruby.{Ruby}
use memory_profiler.Events.{Events}
use memory_profiler.Table.Layout.{Table}
use memory_profiler.Capture.State.{Capture}
use memory_profiler.Capture.Implements.{Implements}
use memory_profiler.Program.{Program}

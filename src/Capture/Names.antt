-- ===== src/Capture/Names.antt =====
-- capture.c and events.c: the names of the event flags and of the types of queued events.
use Prim.Native.String.{String}
use memory_profiler.Events.{EventType}

-- `rb_event_flag_t`, with the flags that have a name.
pub data RubyEvent : Type 0 where
  call c_call b_call return c_return b_return newobj freeobj gc_start gc_end_mark gc_end_sweep line
        other :
      RubyEvent

unfoldable pub event_flag_name : RubyEvent → String
event_flag_name RubyEvent.call = "call"
event_flag_name RubyEvent.c_call = "c-call"
event_flag_name RubyEvent.b_call = "b-call"
event_flag_name RubyEvent.return = "return"
event_flag_name RubyEvent.c_return = "c-return"
event_flag_name RubyEvent.b_return = "b-return"
event_flag_name RubyEvent.newobj = "newobj"
event_flag_name RubyEvent.freeobj = "freeobj"
event_flag_name RubyEvent.gc_start = "gc-start"
event_flag_name RubyEvent.gc_end_mark = "gc-end-mark"
event_flag_name RubyEvent.gc_end_sweep = "gc-end-sweep"
event_flag_name RubyEvent.line = "line"
event_flag_name RubyEvent.other = "unknown"

unfoldable pub event_type_name : EventType → String
event_type_name EventType.newobj = "NEWOBJ"
event_type_name EventType.freeobj = "FREEOBJ"
event_type_name EventType.none = "NONE"

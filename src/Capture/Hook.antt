-- ===== src/Capture/Hook.antt =====
-- capture.c: `trackable_p` and the event hook, which Ruby calls for every new and every freed object.
use memory_profiler.Base.{ℕ, Bool, true, false, not, Option, none, some, ◌==◌, if◌then◌else◌}
use memory_profiler.Ruby.{Ruby, StTable}
use memory_profiler.Events.{Event, EventType}
use memory_profiler.Capture.State.{World}

-- `enum ruby_value_type`, with all internal types as `internal`.
pub data ValueType : Type 0 where
  t_object t_class t_module t_string t_array t_hash t_struct t_bignum t_float t_file t_data t_match
        t_complex t_rational t_regexp internal :
      ValueType

-- `rb_event_flag_t`, as far as the hook tells the events apart.
pub data EventFlag : Type 0 where
  flag_newobj flag_freeobj flag_other : EventFlag

-- What the hook asks Ruby about an object.
pub record Objects : Type 0 where
  pub rb_type : ℕ → ValueType
  pub rb_obj_class : ℕ → ℕ

unfoldable pub trackable_type : ValueType → Bool
trackable_type ValueType.t_object = true
trackable_type ValueType.t_class = true
trackable_type ValueType.t_module = true
trackable_type ValueType.t_string = true
trackable_type ValueType.t_array = true
trackable_type ValueType.t_hash = true
trackable_type ValueType.t_struct = true
trackable_type ValueType.t_bignum = true
trackable_type ValueType.t_float = true
trackable_type ValueType.t_file = true
trackable_type ValueType.t_data = true
trackable_type ValueType.t_match = true
trackable_type ValueType.t_complex = true
trackable_type ValueType.t_rational = true
trackable_type ValueType.t_regexp = true
trackable_type ValueType.internal = false

abbrev pub is_class : ValueType → Bool
is_class ValueType.t_class = true
is_class _ = false

unfoldable pub trackable_p : Objects → ℕ → Bool
unfolding trackable_type
trackable_p objects object = trackable_type (objects.rb_type object)

module _ ⦃rb : Ruby⦄ (st : StTable) (objects : Objects) where
  -- The event that the hook enqueues, if any.
  unfoldable pub event_callback : World st → ℕ → EventFlag → ℕ → Option Event
  event_callback w self EventFlag.flag_newobj object =
      let klass = objects.rb_obj_class object in
      if not (trackable_p objects object)
      then none
      else if not ((w.captures self).paused == 0)
      then none
      else if not (is_class (objects.rb_type klass))
      then none
      else some (record { kind = EventType.newobj; capture = self; klass = klass; object = object })
  event_callback w self EventFlag.flag_freeobj object =
      some (record { kind = EventType.freeobj; capture = self; klass = rb.q_nil; object = object })
  event_callback w self EventFlag.flag_other object = none

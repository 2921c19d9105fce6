-- ===== src/Capture/Hooked.antt =====
-- capture.c: the life of an object from the event hook on.
use memory_profiler.Base.{ℕ, ◌≡◌, refl, ap, ◌∙◌, true, some, ◌==◌, arith}
use memory_profiler.Ruby.{Ruby, StTable}
use memory_profiler.Events.{Event, EventType}
use memory_profiler.Table.Layout.{Table}
use memory_profiler.Table.Holds.{IsLive}
use memory_profiler.Capture.State.{World, Surroundings, finished}
use memory_profiler.Capture.Hook.{
  Objects, flag_newobj, flag_freeobj, trackable_p, is_class, event_callback,
}
use memory_profiler.Capture.Process.{process_event}
use memory_profiler.Capture.Calls.{Leaves}
use memory_profiler.Capture.Newobj.{Ready}
use memory_profiler.Capture.Lifetime.{Returns, Lived, process_newobj-Lived}

module _ ⦃rb : Ruby⦄ (st : StTable) (env : Surroundings st) (objects : Objects) (self : ℕ) where
  -- What the hook asks of a new object.
  pub record Hears (w : World st) (klass object : ℕ) : Type 0 where
    pub trackable : trackable_p objects object ≡ true
    pub class_of : objects.rb_obj_class object ≡ klass
    pub proper : is_class (objects.rb_type klass) ≡ true
    pub unpaused : (w.captures self).paused ≡ 0

  abbrev pub newobj_event : ℕ → ℕ → Event
  newobj_event klass object = record {
    kind = EventType.newobj;
    capture = self;
    klass = klass;
    object = object;
  }

  event_callback-newobj :
      (w : World st) (klass object : ℕ)
      → Hears w klass object
      → event_callback st objects w self flag_newobj object ≡ some (newobj_event klass object)
  unfolding event_callback
  event_callback-newobj w klass object h =
      let free : ((w.captures self).paused == 0) ≡ true = ground (arith, h.unpaused) in
      let class : is_class (objects.rb_type (objects.rb_obj_class object)) ≡ true =
        ap (λ k. is_class (objects.rb_type k)) h.class_of ∙ h.proper in
      rw (h.trackable, free, class) (ap (λ k. some (newobj_event k object)) h.class_of)

  -- For an object of a type that is tracked, whose class is a proper and tracked class, a capture that
  -- is not paused and whose table can take one more object, a live address, and callbacks that return
  -- and leave the capture as it is: the hook gives an event when the object is allocated and one when
  -- it is freed, and processing the first and then the second finishes, adds one to the capture's
  -- counts of new and of freed objects, leaves the capture not paused, and leaves a table that reads
  -- as before for every live address but the object's, which has no entry.
  pub event_callback-Lived :
      (leaves : (callback klass symbol argument : ℕ) (w : World st)
        → Leaves st self (w.captures self) (env.call callback klass symbol argument w))
      (returns : (callback klass symbol argument : ℕ) (w : World st)
        → Returns st env (env.call callback klass symbol argument w))
      (w : World st) (klass object a : ℕ) (t : Table)
      → Hears w klass object
      → st.lookup (w.captures self).tracked klass ≡ some a
      → (w.captures self).states ≡ some t
      → Ready st env t
      → IsLive object
      → (new_ free_ : Event) × (w1 w2 : World st) × (event_callback st objects w self flag_newobj
            object
          ≡ some new_)
        × (process_event st env w new_ ≡ finished w1)
        × (event_callback st objects w1 self flag_freeobj object ≡ some free_)
        × (process_event st env w1 free_ ≡ finished w2)
        × Lived st env (w.captures self) t object (w2.captures self)
  unfolding event_callback process_event
  event_callback-Lived leaves returns w klass object a t hears known there ready ok =
      let (w1, w2, first, second, lived) =
        process_newobj-Lived st env self leaves returns w klass object a t known there
          (omega (arith, hears.unpaused)) ready ok in
      (
        newobj_event klass object,
        record { kind = EventType.freeobj; capture = self; klass = rb.q_nil; object = object },
        w1,
        w2,
        event_callback-newobj w klass object hears,
        first,
        refl,
        second,
        lived,
      )

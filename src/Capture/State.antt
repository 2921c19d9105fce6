-- ===== src/Capture/State.antt =====
-- capture.c: the state of the captures, and what the code asks of its surroundings.
use memory_profiler.Base.{ℕ, ◌+◌, ◌-◌, ◌%◌, ◌^◌, Bool, List, Option, ◌==◌, if◌then◌else◌}
use memory_profiler.Ruby.{StTable}
use memory_profiler.Allocations.{Allocations}
use memory_profiler.Events.{Event}
use memory_profiler.Table.Layout.{Table}

-- A map from addresses, changed at one address.
abbrev pub update {ℓ} : {A : Type ℓ} → (ℕ → A) → ℕ → A → ℕ → A
update f at value q = if q == at then value else f q

-- `int paused`, as a 32-bit word.
abbrev pub inc_int : ℕ → ℕ
inc_int n = (n + 1) % 2 ^ 32

abbrev pub dec_int : ℕ → ℕ
dec_int n = (n + (2 ^ 32 - 1)) % 2 ^ 32

module _ (st : StTable) where
  -- `struct Memory_Profiler_Capture`. `states` is NULL where its allocation failed in `clear`.
  pub record Capture : Type 0 where
    pub running : Bool
    pub paused : ℕ
    pub track_all : Bool
    pub tracked : st.Table
    pub states : Option Table
    pub new_count : ℕ
    pub free_count : ℕ

  -- All captures and all allocation records by their addresses, the captures whose event hook is
  -- installed, and the events that hooks have posted while Ruby code ran.
  pub record World : Type 0 where
    pub captures : ℕ → Capture
    pub records : ℕ → Allocations
    pub hooked : ℕ → Bool
    pub posted : List Event

  -- The end of a call into Ruby.
  pub data Called : Type 0 where
    returned : ℕ → World → Called
    threw : World → Called

  -- The end of a handler: it returns, an exception passes through it, or it follows NULL.
  pub data Run : Type 0 where
    finished : World → Run
    raised : World → Run
    fault : Run

  -- The surroundings: the C allocator, the address of a new wrapper object, and `rb_funcall` of a
  -- callback, which may change the world at will.
  pub record Surroundings : Type 0 where
    pub calloc : ℕ → ℕ → Bool
    pub wrap : World → ℕ
    pub call : ℕ → ℕ → ℕ → ℕ → World → Called
    pub sym_newobj : ℕ
    pub sym_freeobj : ℕ

  abbrev pub put_capture : World → ℕ → Capture → World
  put_capture w self capture = record w { captures = update w.captures self capture }

  abbrev pub put_record : World → ℕ → Allocations → World
  put_record w at record_ = record w { records = update w.records at record_ }

  abbrev pub pause : World → ℕ → World
  pause w self =
      let c = w.captures self in put_capture w self (record c { paused = inc_int c.paused })

  abbrev pub resume : World → ℕ → World
  resume w self =
      let c = w.captures self in put_capture w self (record c { paused = dec_int c.paused })

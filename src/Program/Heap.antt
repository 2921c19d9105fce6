-- ===== src/Program/Heap.antt =====
-- The objects that a capture's hook has heard of, computed from its events alone, and the abstract view
-- of the capture against them.
use memory_profiler.Base.{
  ℕ, suc, ◌+◌, ◌≤◌, ◌<◌, ◌≡◌, refl, sym, ap, ◌∙◌, Bool, true, List, [], ◌∷◌, ◌++◌, Option, none,
  some, ◌==◌, if◌then◌else◌, arith, Bool-cases, Option-cases, inl, inr, subst,
}
use memory_profiler.Events.{Event, EventType}
use memory_profiler.Table.Layout.{max_probe_length}
use native.Mathlib.Decide.{ℕ_discrete}
use memory_profiler.Events.Collect.{kind_cases}
use memory_profiler.Program.Taking.{own, own-append}
use memory_profiler.Capture.Implements.{Model, added, next_newobj, free_at, next_event}

-- What lives where, as far as heard.
abbrev pub Heard : Type 0
Heard = ℕ → Option ℕ

abbrev pub put_heard : Heard → ℕ → Option ℕ → Heard
put_heard live object klass q = if q == object then klass else live q

unfoldable pub next_heard : Heard → Event → Heard
next_heard live e = elim e.kind [
  | EventType.newobj ↦ put_heard live e.object (some e.klass)
  | EventType.freeobj ↦ put_heard live e.object none
  | EventType.none ↦ live
]

unfoldable pub all_heard : Heard → List Event → Heard
all_heard live [] = live
all_heard live (e ∷ es) = all_heard (next_heard live e) es

abbrev pub nothing_heard : Heard
nothing_heard q = none

-- The abstract view of a capture that has heard of nothing.
abbrev pub empty_model : Model
empty_model = record { classes = λ q. none; size = 0; new_count = 0; free_count = 0 }

-- What the events of one capture among these tell of the objects.
abbrev pub heard_of : ℕ → List Event → Heard
heard_of self es = all_heard nothing_heard (own self es)

-- A new object is not where another one lives.
abbrev pub IsProper : Heard → Event → Type 0
IsProper live e = e.kind ≡ EventType.newobj → live e.object ≡ none

abbrev pub AllProper : Heard → List Event → Type 0
AllProper live [] = Unit {0}
AllProper live (e ∷ es) = IsProper live e × AllProper (next_heard live e) es

pub all_heard-append :
    (live : Heard) (xs ys : List Event)
    → all_heard live (xs ++ ys) ≡ all_heard (all_heard live xs) ys
unfolding all_heard
all_heard-append live [] ys = refl
all_heard-append live (e ∷ xs) ys = all_heard-append (next_heard live e) xs ys

pub AllProper-append :
    (live : Heard) (xs ys : List Event)
    → AllProper live (xs ++ ys)
    → AllProper live xs × AllProper (all_heard live xs) ys
unfolding all_heard
AllProper-append live [] ys h = (tt, h)
AllProper-append live (e ∷ xs) ys (h, hs) =
    let (first, rest) = AllProper-append (next_heard live e) xs ys hs in ((h, first), rest)

-- The events before are proper too.
pub own-AllProper :
    (self : ℕ) (xs ys : List Event)
    → AllProper nothing_heard (own self (xs ++ ys))
    → AllProper nothing_heard (own self xs)
own-AllProper self xs ys proper =
    (AllProper-append nothing_heard (own self xs) (own self ys)
      (subst (AllProper nothing_heard) (own-append self xs ys) proper)).0

module _ (tracks : ℕ → Bool) where
  abbrev pub if_tracked : Option ℕ → Option ℕ
  if_tracked none = none
  if_tracked (some klass) = if tracks klass then some klass else none

  -- The abstract view has exactly the objects heard of whose class is tracked, and one count for each.
  pub record Exact (m : Model) (live : Heard) (n : ℕ) : Type 0 where
    pub classes : (q : ℕ) → m.classes q ≡ if_tracked (live q)
    pub counted : m.new_count ≡ m.free_count + m.size
    pub few : m.new_count ≤ n

  pub along-Exact :
      {m m' : Model} {live live' : Heard} {n n' : ℕ}
      → m' ≡ m
      → live' ≡ live
      → n ≤ n'
      → Exact m live n
      → Exact m' live' n'
  along-Exact {m' = m'} {live = live} {n' = n'} e f le x =
      subst (λ l. Exact m' l n') (sym f)
        (subst (λ k. Exact k live n') (sym e)
          (record { classes = x.classes; counted = x.counted; few = omega (arith, x.few, le) }))

  tracked_only : (o : Option ℕ) (klass : ℕ) → if_tracked o ≡ some klass → tracks klass ≡ true
  tracked_only none klass h = absurd (ground (arith, h))
  tracked_only (some k) klass h = ground (arith, h)

  put_tracked :
      (live : Heard) (object klass q : ℕ)
      → tracks klass ≡ true
      → if_tracked (put_heard live object (some klass) q)
        ≡ (if q == object then some klass else if_tracked (live q))
  put_tracked live object klass q on = elim (Bool-cases (q == object)) [
    | inl e ↦ rw (e, if_tracked) (rw on refl)
    | inr e ↦ rw (e, if_tracked) refl
  ]

  put_untracked :
      (live : Heard) (object : ℕ) (klass : Option ℕ) (q : ℕ)
      → if_tracked (live object) ≡ none
      → if_tracked klass ≡ none
      → if_tracked (put_heard live object klass q) ≡ if_tracked (live q)
  put_untracked live object klass q free off = elim (ℕ_discrete q object) [
    | yes e ↦
        ap if_tracked (ground (arith, e)) ∙ off ∙ sym free ∙ ap (λ k. if_tracked (live k)) (sym e)
    | no e ↦ ap if_tracked (ground (arith, e))
  ]

  put_none :
      (live : Heard) (object q : ℕ)
      → if_tracked (put_heard live object none q)
        ≡ (if q == object then none else if_tracked (live q))
  put_none live object q = elim (Bool-cases (q == object)) [
    | inl e ↦ rw (e, if_tracked) refl
    | inr e ↦ rw (e, if_tracked) refl
  ]

  newobj-Exact :
      (m : Model) (live : Heard) (n klass object : ℕ)
      → n < max_probe_length
      → live object ≡ none
      → Exact m live n
      → Exact (next_newobj tracks m klass object) (put_heard live object (some klass)) (suc n)
  newobj-Exact m live n klass object small free x =
      let absent : m.classes object ≡ none = x.classes object ∙ ap if_tracked free in
      elim (Bool-cases (tracks klass)) [
        | inl on ↦ rw on (record {
          classes = λ q.
              ap (λ o. if q == object then some klass else o) (x.classes q)
              ∙ sym (put_tracked live object klass q on);
          counted = omega (arith, x.counted, x.few, small, ap added absent);
          few = omega (arith, x.few, small);
        })
        | inr off ↦ rw off (record {
          classes = λ q.
              x.classes q
              ∙ sym (
                  put_untracked live object (some klass) q (ap if_tracked free)
                    (ap (λ b. if b then some klass else none) off));
          counted = x.counted;
          few = omega (arith, x.few);
        })
      ]

  freeobj-Exact :
      (m : Model) (live : Heard) (n object : ℕ)
      → n < max_probe_length
      → ((klass : ℕ) → m.classes object ≡ some klass → 0 < m.size)
      → Exact m live n
      → Exact (free_at tracks m object (m.classes object)) (put_heard live object none) (suc n)
  freeobj-Exact m live n object small there x = elim (Option-cases (m.classes object)) [
    | inl absent ↦
        rw (absent, free_at)
          (record {
            classes = λ q.
                x.classes q
                ∙ sym (put_untracked live object none q (sym (x.classes object) ∙ absent) refl);
            counted = x.counted;
            few = omega (arith, x.few);
          })
    | inr (klass, present) ↦
        let on : tracks klass ≡ true =
          tracked_only (live object) klass (sym (x.classes object) ∙ present) in
        let pos = there klass present in
        rw (present, on, free_at)
          (record {
            classes = λ q.
                ap (λ o. if q == object then none else o) (x.classes q)
                ∙ sym (put_none live object q);
            counted = omega (arith, x.counted, x.few, small, pos);
            few = omega (arith, x.few, small);
          })
  ]

  -- One more event of the capture.
  pub event-Exact :
      (m : Model) (live : Heard) (n : ℕ) (e : Event)
      → n < max_probe_length
      → IsProper live e
      → ((klass : ℕ) → m.classes e.object ≡ some klass → 0 < m.size)
      → Exact m live n
      → Exact (next_event tracks m e) (next_heard live e) (suc n)
  unfolding next_event next_heard
  event-Exact m live n e small proper there x = elim (kind_cases e.kind) [
    | inl k ↦ rw k (record { classes = x.classes; counted = x.counted; few = omega (arith, x.few) })
    | inr (inl k) ↦ rw k (newobj-Exact m live n e.klass e.object small (proper k) x)
    | inr (inr k) ↦ rw k (freeobj-Exact m live n e.object small there x)
  ]

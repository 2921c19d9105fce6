-- ===== src/Base/Marked.antt =====
-- The values that a marking function passes to `rb_gc_mark` and `rb_gc_mark_movable`, as a list.
use Prim.Native.Nat.{ℕ}
use mathlib.Core.Path.{◌≡◌}
use mathlib.Core.Logic.{◌⊎◌, inl, inr}
use mathlib.Core.List.{List, [], ◌∷◌, ◌++◌}

-- A word in a list of marked words.
abbrev pub Among : ℕ → List ℕ → Type 0
Among v [] = ⊥
Among v (x ∷ xs) = (v ≡ x) ⊎ Among v xs

pub Among-append_left : (v : ℕ) (xs ys : List ℕ) → Among v xs → Among v (xs ++ ys)
Among-append_left v [] ys h = elim h [ ]
Among-append_left v (x ∷ xs) ys (inl e) = inl e
Among-append_left v (x ∷ xs) ys (inr h) = inr (Among-append_left v xs ys h)

pub Among-append_right : (v : ℕ) (xs ys : List ℕ) → Among v ys → Among v (xs ++ ys)
Among-append_right v [] ys h = h
Among-append_right v (x ∷ xs) ys h = inr (Among-append_right v xs ys h)

pub Among-append : (v : ℕ) (xs ys : List ℕ) → Among v (xs ++ ys) → Among v xs ⊎ Among v ys
Among-append v [] ys h = inr h
Among-append v (x ∷ xs) ys (inl e) = inl (inl e)
Among-append v (x ∷ xs) ys (inr h) = elim (Among-append v xs ys h) [
  | inl a ↦ inl (inr a)
  | inr b ↦ inr b
]

-- ===== src/Dynops/Union/Rounds.antt =====
-- One round of a union through its iterables.
use calvin_base.Base.{
  ℕ, ◌≤◌, ◌<◌, ◌≡◌, refl, ◌⊎◌, inl, inr, Bool, true, false, ◌||◌, Option, none, some, List, [], ◌∷◌,
  contains, contains-append, arith,
}
use calvin_base.Dynops.{Event, gives, infinite, pauses, offers, any_offers, total}
use calvin_base.Dynops.Union.{Draw, new, paused, stopped, draw_new, draw_from, add_new}
use calvin_base.Dynops.Union.Draws.{Drawn, IsNew, draw_new_lem, draw_new-IsNew}

-- The same of a round through all iterables. A round that pauses has used up a pause, unless it
-- came to them with one.
abbrev pub Round : List ℕ → Bool → List (List Event) → Option Event × List (List Event) → ℕ → Type 0
Round set p iters (none, rest) n =
    (p ≡ false) × ((contains set n || any_offers iters n) ≡ contains set n)
Round set p iters (some e, rest) n =
    ((contains set n || any_offers iters n)
      ≡ (contains (add_new (some e) set) n || (offers (e ∷ []) n || any_offers rest n)))
    × (total rest ≤ total iters)
    × ((p ≡ true) ⊎ (total rest < total iters))

abbrev pub IsFresh : List ℕ → Option Event → Type 0
IsFresh set (some (gives n)) = contains set n ≡ false
IsFresh set _ = Unit {0}

Round-new :
    (set : List ℕ) (p : Bool) (v : List Event) (iters : List (List Event)) (e : Event)
    (w : List Event) (n : ℕ)
    → Drawn set v (new e w) n
    → Round set p (v ∷ iters) (some e, w ∷ iters) n
Round-new set p v iters (gives m) w n (h, l) = (ground arith, omega arith, inr (omega arith))
Round-new set p v iters infinite w n (h, l) = (ground arith, omega arith, inr (omega arith))
Round-new set p v iters pauses w n (h, l) = (ground arith, omega arith, inr (omega arith))

Round-paused :
    (set : List ℕ) (p : Bool) (v w : List Event) (iters : List (List Event))
    (r : Option Event × List (List Event)) (n : ℕ)
    → Drawn set v (paused w) n
    → Round set true iters r n
    → Round set p (v ∷ iters) (r.0, w ∷ r.1) n
Round-paused set p v w iters (none, rest) n (h, l) (q, k) = cc
Round-paused set p v w iters (some (gives m), rest) n (h, l) (k, le, s) =
    (ground arith, omega arith, inr (omega arith))
Round-paused set p v w iters (some infinite, rest) n (h, l) (k, le, s) =
    (ground arith, omega arith, inr (omega arith))
Round-paused set p v w iters (some pauses, rest) n (h, l) (k, le, s) =
    (ground arith, omega arith, inr (omega arith))

weaken : {p : Bool} {a b c d : ℕ} → (p ≡ true) ⊎ (a < b) → c ≤ a → b ≤ d → (p ≡ true) ⊎ (c < d)
weaken (inl t) h k = inl t
weaken (inr l) h k = inr (omega arith)

Round-stopped :
    (set : List ℕ) (p : Bool) (v : List Event) (iters : List (List Event))
    (r : Option Event × List (List Event)) (n : ℕ)
    → Drawn set v stopped n
    → Round set p iters r n
    → Round set p (v ∷ iters) (r.0, [] ∷ r.1) n
Round-stopped set p v iters (none, rest) n h (q, k) = (q, ground arith)
Round-stopped set p v iters (some (gives m), rest) n h (k, le, s) = (
  ground (arith, contains-append set (m ∷ []) n),
  omega arith,
  weaken s (omega arith) (omega arith),
)
Round-stopped set p v iters (some infinite, rest) n h (k, le, s) =
    (ground arith, omega arith, weaken s (omega arith) (omega arith))
Round-stopped set p v iters (some pauses, rest) n h (k, le, s) =
    (ground arith, omega arith, weaken s (omega arith) (omega arith))

pub draw_from_lem :
    (set : List ℕ) (p : Bool) (iters : List (List Event)) (n : ℕ)
    → Round set p iters (draw_from set p iters) n
unfolding draw_from
draw_from_lem set true [] n = (ground arith, omega arith, inl refl)
draw_from_lem set false [] n = (refl, ground arith)
draw_from_lem set p (v ∷ iters) n =
    after_draw (draw_from_lem set true iters n) (draw_from_lem set p iters n) (draw_new set v)
      (draw_new_lem set v n)
  where
    after_draw :
        Round set true iters (draw_from set true iters) n
        → Round set p iters (draw_from set p iters) n
        → (d : Draw) → Drawn set v d n
        → Round set p
            (v ∷ iters)
            (elim d [
              | new e w ↦ (some e, w ∷ iters)
              | paused w ↦ ((draw_from set true iters).0, w ∷ (draw_from set true iters).1)
              | stopped ↦ ((draw_from set p iters).0, [] ∷ (draw_from set p iters).1)
            ])
            n
    after_draw r q (new e w) h = Round-new set p v iters e w n h
    after_draw r q (paused w) h = Round-paused set p v w iters _ n h r
    after_draw r q stopped h = Round-stopped set p v iters _ n h q

pub draw_from-IsFresh :
    (set : List ℕ) (p : Bool) (iters : List (List Event)) → IsFresh set (draw_from set p iters).0
unfolding draw_from
draw_from-IsFresh set true [] = tt
draw_from-IsFresh set false [] = tt
draw_from-IsFresh set p (v ∷ iters) =
    after_draw (draw_from-IsFresh set true iters) (draw_from-IsFresh set p iters) (draw_new set v)
      (draw_new-IsNew set v)
  where
    after_draw :
        IsFresh set (draw_from set true iters).0
        → IsFresh set (draw_from set p iters).0
        → (d : Draw) → IsNew set d
        → IsFresh set
            (elim d as (λ _. Option Event × List (List Event)) [
              | new e w ↦ (some e, w ∷ iters)
              | paused w ↦ ((draw_from set true iters).0, w ∷ (draw_from set true iters).1)
              | stopped ↦ ((draw_from set p iters).0, [] ∷ (draw_from set p iters).1)
            ]).0
    after_draw r q (new (gives m) w) h = h
    after_draw r q (new infinite w) h = tt
    after_draw r q (new pauses w) h = tt
    after_draw r q (paused w) h = r
    after_draw r q stopped h = q

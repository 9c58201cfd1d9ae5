-- ===== src/Dynops/Union.antt =====
-- dynops.Union. `final` of the code only serves its printing.
pub mod Draws
pub mod Run
pub mod Rounds
use calvin_base.Base.{
  ℕ, ◌≡◌, refl, Bool, true, false, ◌||◌, Option, none, some, List, [], ◌∷◌, ◌++◌, contains,
  if◌then◌else◌, arith,
}
use calvin_base.Dynops.{Event, gives, infinite, pauses, Source, scripts, some_everything}

pub record Union : Type 0 where
  pub iters : List (List Event)
  pub infinite_set : Bool
  pub infinite_sent : Bool
  pub set : List ℕ

unfoldable pub init : List Source → Union
init iters = record {
  iters = scripts iters;
  infinite_set = some_everything iters;
  infinite_sent = false;
  set = [];
}

-- `while True: n = v.next()` up to an element that is new, a pause or the end.
pub data Draw : Type 0 where
  new : Event → List Event → Draw
  paused : List Event → Draw
  stopped : Draw

unfoldable pub draw_new : List ℕ → List Event → Draw
draw_new set [] = stopped
draw_new set (gives n ∷ v) = if contains set n then draw_new set v else new (gives n) v
draw_new set (infinite ∷ v) = new infinite v
draw_new set (pauses ∷ v) = paused v

unfoldable pub draw_from : List ℕ → Bool → List (List Event) → Option Event × List (List Event)
draw_from set some_paused [] = (if some_paused then some pauses else none, [])
draw_from set some_paused (v ∷ iters) =
    let rest = λ (p : Bool). draw_from set p iters in
    elim (draw_new set v) [
      | new e w ↦ (some e, w ∷ iters)
      | paused w ↦ ((rest true).0, w ∷ (rest true).1)
      | stopped ↦ ((rest some_paused).0, [] ∷ (rest some_paused).1)
    ]

-- Each InfiniteElement is an object of its own, and no element equals it.
abbrev pub add_new : Option Event → List ℕ → List ℕ
add_new (some (gives n)) set = set ++ n ∷ []
add_new other set = set

unfoldable pub op : Union → Option Event × Union
op u =
    let (event, iters) = draw_from u.set false u.iters in
    (event, record u { iters = iters; set = add_new event u.set })

unfoldable pub next : Union → Option Event × Union
unfolding op
next u =
    if u.infinite_set
    then (if u.infinite_sent then (none, u) else (some infinite, record u { infinite_sent = true }))
    else op u

-- ===== src/Dynops/Intersection.antt =====
-- dynops.Intersection. A Python set is a list of distinct elements; `pop` takes its first.
mod Draws
mod Common
mod Rounds
mod Ended
mod Calls
pub mod Run
use calvin_base.Base.{
  ℕ, zero, suc, ◌+◌, ◌≡◌, refl, Bool, true, false, not, ◌||◌, ◌&&◌, Option, none, some, List, [],
  ◌∷◌, ◌++◌, contains, is_empty, length, if◌then◌else◌, arith,
}
use calvin_base.Dynops.{
  add, Event, gives, infinite, pauses, Source, is_everything, everything, answers, scripts, total,
}

-- An iterable with its entries in `drawn`, `final` and `infs`. InfiniteElement is not put in `drawn`,
-- which is not read where `inf` is set.
pub record Iter : Type 0 where
  pub script : List Event
  pub drawn : List ℕ
  pub final : Bool
  pub inf : Bool

pub record Intersection : Type 0 where
  pub iters : List Iter
  pub set : List ℕ
  pub candidates : List ℕ
  pub infinite_set : Bool
  pub infinite_sent : Bool

abbrev pub start : List Event → Iter
start es = record { script = es; drawn = []; final = false; inf = false }

-- Infinite sets do not limit.
abbrev pub limiting : List Source → List Iter
limiting [] = []
limiting (everything ∷ sources) = limiting sources
limiting (answers es ∷ sources) = start es ∷ limiting sources

unfoldable pub init : List Source → Intersection
init sources = record {
  iters = limiting sources;
  set = [];
  candidates = [];
  infinite_set = is_empty (limiting sources) && not (is_empty sources);
  infinite_sent = false;
}

abbrev pub keep : (ℕ → Bool) → List ℕ → List ℕ
keep p [] = []
keep p (n ∷ ns) = let rest = keep p ns in if p n then n ∷ rest else rest

-- The next element of an iterable, and whether there is one.
unfoldable pub draw_next : List Event → Iter → Iter × Bool
draw_next [] v = (record v { final = true }, false)
draw_next (pauses ∷ es) v = (record v { script = es }, false)
draw_next (gives n ∷ es) v = (record v { script = es; drawn = add n v.drawn }, true)
draw_next (infinite ∷ es) v = (record v { script = es; inf = true; final = true }, true)

unfoldable pub draw : Iter → Iter × Bool
unfolding draw_next
draw v = if v.final then (v, false) else draw_next v.script v

abbrev pub draw_all : List Iter → List Iter
draw_all [] = []
draw_all (v ∷ vs) = (draw v).0 ∷ draw_all vs

abbrev pub active : List Iter → Bool
active [] = false
active (v ∷ vs) = (draw v).1 || active vs

abbrev pub all_inf : List Iter → Bool
all_inf [] = true
all_inf (v ∷ vs) = v.inf && all_inf vs

abbrev pub all_final : List Iter → Bool
all_final [] = true
all_final (v ∷ vs) = v.final && all_final vs

-- `set.intersection` of what was drawn from those that are not infinite.
abbrev pub in_every : List Iter → ℕ → Bool
in_every [] n = true
in_every (v ∷ vs) n = (v.inf || contains v.drawn n) && in_every vs n

abbrev pub first_drawn : List Iter → List ℕ
first_drawn [] = []
first_drawn (v ∷ vs) = if v.inf then first_drawn vs else v.drawn

abbrev pub common : List Iter → List ℕ
common vs = keep (in_every vs) (first_drawn vs)

-- `v.difference_update(candidates)` for all that was drawn.
abbrev pub forget : List ℕ → List Iter → List Iter
forget found [] = []
forget found (v ∷ vs) =
    record v { drawn = keep (λ n. not (contains found n)) v.drawn } ∷ forget found vs

abbrev pub unseen : List ℕ → List ℕ → List ℕ
unseen set found = keep (λ n. not (contains set n)) found

abbrev pub pop :
    List ℕ → List ℕ → List Iter → Option Event × Intersection → Option Event × Intersection
pop set [] iters otherwise = otherwise
pop set (e ∷ rest) iters otherwise = (
  some (gives e),
  record {
    iters = iters;
    set = set ++ e ∷ [];
    candidates = rest;
    infinite_set = false;
    infinite_sent = false;
  },
)

abbrev pub searching : List ℕ → List Iter → Intersection
searching set iters = record {
  iters = iters;
  set = set;
  candidates = [];
  infinite_set = false;
  infinite_sent = false;
}

-- Where a round finds nothing: StopIteration or PauseIteration.
abbrev pub end_search : List ℕ → List Iter → Option Event × Intersection
end_search set iters = (if all_final iters then none else some pauses, searching set iters)

-- The rounds of the loop.
unfoldable pub rounds : ℕ → List ℕ → List Iter → Option Event × Intersection
rounds zero set iters = end_search set iters
rounds (suc fuel) set iters =
    let drawn = draw_all iters in
    let found = common drawn in
    let left = forget found drawn in
    let again = rounds fuel set left in
    if all_inf drawn
    then (some infinite, record (searching set drawn) { infinite_set = true; infinite_sent = true })
    else pop set (unseen set found) left
        (if not (active iters) || all_final left then end_search set left else again)

abbrev pub left_events : List Iter → ℕ
left_events [] = 0
left_events (v ∷ vs) = length v.script + left_events vs

unfoldable pub next : Intersection → Option Event × Intersection
unfolding rounds
next s =
    if s.infinite_set
    then (if s.infinite_sent then (none, s) else (some infinite, record s { infinite_sent = true }))
    else pop s.set s.candidates s.iters (rounds (left_events s.iters + 1) s.set s.iters)

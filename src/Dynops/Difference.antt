-- ===== src/Dynops/Difference.antt =====
-- dynops.Difference.
pub mod Removals
pub mod Run
pub mod Filters
use calvin_base.Base.{
  ℕ, ◌≡◌, refl, Bool, true, false, not, ◌||◌, ◌&&◌, Option, none, some, List, [], ◌∷◌, ◌++◌,
  contains, if◌then◌else◌,
}
use calvin_base.Dynops.{add, Event, gives, infinite, pauses, Source, script, some_everything}
use calvin_base.Dynops.Union.{Draw, new, paused, stopped, draw_new, add_new}

-- An iterable of elements to remove, with its entry in `final`.
pub record Removed : Type 0 where
  pub script : List Event
  pub final : Bool

pub record Difference : Type 0 where
  pub first : List Event
  pub iters : List Removed
  pub remove : List ℕ
  pub zero_set : Bool

abbrev pub all_removed : List Removed → Bool
all_removed [] = true
all_removed (v ∷ vs) = v.final && all_removed vs

abbrev pub to_remove : List Source → List Removed
to_remove [] = []
to_remove (s ∷ ss) = record { script = script s; final = false } ∷ to_remove ss

-- An infinite set among those to remove leaves nothing.
unfoldable pub init : Source → List Source → Difference
init first iters = record {
  first = script first;
  iters = to_remove iters;
  remove = [];
  zero_set = some_everything iters;
}

-- `while True: self.remove.add(v.next())`, whether it ends by StopIteration, and what is left.
unfoldable pub collect : List Event → List ℕ → Bool × List Event × List ℕ
collect [] remove = (true, [], remove)
collect (pauses ∷ es) remove = (false, es, remove)
collect (gives n ∷ es) remove = collect es (add n remove)
collect (infinite ∷ es) remove = collect es remove

abbrev pub collected : Removed → Bool × List Event × List ℕ → Removed
collected v (ended, es, remove) = record { script = es; final = v.final || ended }

-- The same of all; whether none has paused.
unfoldable pub collect_all : List Removed → List ℕ → Bool × List Removed × List ℕ
unfolding collect
collect_all [] remove = (true, [], remove)
collect_all (v ∷ vs) remove =
    let c = collect v.script remove in
    let rest = collect_all vs c.2 in (c.0 && rest.0, collected v c ∷ rest.1, rest.2)

-- The next element of the first iterable that is not removed; its exceptions are exposed.
abbrev pub filtered : Difference → Draw → Option Event × Difference
filtered d (new e es) = (some e, record d { first = es; remove = add_new (some e) d.remove })
filtered d (paused es) = (some pauses, record d { first = es })
filtered d stopped = (none, record d { first = [] })

unfoldable pub filter_first : Difference → Option Event × Difference
filter_first d = filtered d (draw_new d.remove d.first)

unfoldable pub next : Difference → Option Event × Difference
unfolding filter_first collect_all
next d =
    let c = collect_all d.iters d.remove in
    let e = record d { iters = c.1; remove = c.2 } in
    if d.zero_set
    then (none, d)
    else if all_removed d.iters
    then filter_first d
    else if c.0
    then filter_first e
    else (some pauses, e)

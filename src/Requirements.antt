-- ===== src/Requirements.antt =====
-- calvin/utilities/requirement_matching.py: the nodes that meet an actor's requirements, by set
-- operations over what the requirement operations answer.
mod Match
mod Build
mod Infinite
mod Tests
use calvin_base.Base.{
  ℕ, zero, suc, ◌+◌, ◌*◌, Bool, true, false, not, ◌&&◌, ◌||◌, Option, none, some, List, [], ◌∷◌,
  ◌++◌, is_empty, ltb, contains, length, if◌then◌else◌, get_or_default,
}
use calvin_base.Dynops.{
  add, Event, gives, infinite, pauses, Source, everything, answers, script, scripts,
  some_everything, total, run,
}
use calvin_base.Dynops.Union as Union
use calvin_base.Dynops.Intersection as Intersection
use calvin_base.Dynops.Intersection.{limiting}
use calvin_base.Dynops.Difference as Difference

-- A requirement with what its operation returns, `none` where that raises an exception: of type
-- "+", "-" or any other, or a group of alternatives.
pub data Requirement : Type 0 where
  positive negative unknown_type : Option Source → Requirement
  union_group : List (Option Source) → Requirement

-- A requirement that failed is dropped.
abbrev pub kept : List (Option Source) → List Source
kept [] = []
kept (none ∷ rs) = kept rs
kept (some s ∷ rs) = s ∷ kept rs

-- The operations as iterables of others. `infinite_set` is read when they are created.
abbrev pub union_events : List Source → List Event
union_events sources =
    get_or_default [] (run Union.next (total (scripts sources) + 2) (Union.init sources))

abbrev pub union_source : List Source → Source
union_source sources =
    if some_everything sources then everything else answers (union_events sources)

abbrev pub intersection_events : List Source → List Event
intersection_events sources =
    get_or_default []
      (run Intersection.next (2 * total (scripts sources) + 2) (Intersection.init sources))

abbrev pub difference_events : List Event → List Source → List Event
difference_events first sources = get_or_default [] (
    run Difference.next (length first + total (scripts sources) + 1)
      (Difference.init (answers first) sources))

abbrev pub intersection_iters : List Requirement → List Source
intersection_iters [] = []
intersection_iters (positive (some s) ∷ rs) = s ∷ intersection_iters rs
intersection_iters (union_group alternatives ∷ rs) =
    union_source (kept alternatives) ∷ intersection_iters rs
intersection_iters (positive none ∷ rs) = intersection_iters rs
intersection_iters (negative o ∷ rs) = intersection_iters rs
intersection_iters (unknown_type o ∷ rs) = intersection_iters rs

abbrev pub difference_iters : List Requirement → List Source
difference_iters [] = []
difference_iters (negative (some s) ∷ rs) = s ∷ difference_iters rs
difference_iters (negative none ∷ rs) = difference_iters rs
difference_iters (positive o ∷ rs) = difference_iters rs
difference_iters (unknown_type o ∷ rs) = difference_iters rs
difference_iters (union_group alternatives ∷ rs) = difference_iters rs

-- The answers of `node_iter`.
unfoldable pub build_match : List Requirement → List Event
build_match requirements =
    let placed = intersection_events (intersection_iters requirements) in
    if is_empty (difference_iters requirements)
    then placed
    else difference_events placed (difference_iters requirements)

-- The state of a match, and the answers of `node_iter` that are still to come.
pub record ReqMatch : Type 0 where
  pub events : List Event
  pub possible_placements : List ℕ
  pub has_infinite : Bool
  pub counter : ℕ
  pub done : Bool

unfoldable pub start : List Requirement → ReqMatch
unfolding build_match
start requirements = record {
  events = build_match requirements;
  possible_placements = [];
  has_infinite = false;
  counter = 0;
  done = false;
}

-- What is left after the elements up to a pause or the end: with a pause it is tried again later,
-- after the delay in units of 0.1 s. (`_collect_placement_last_value` stays 0.)
unfoldable pub collect : List Event → ReqMatch → ReqMatch × Option ℕ
collect [] m = (record m { events = []; done = true }, none)
collect (gives n ∷ es) m =
    collect es (record m { possible_placements = add n m.possible_placements })
collect (infinite ∷ es) m = collect es (record m { has_infinite = true })
collect (pauses ∷ es) m =
    (record m { events = es; counter = m.counter + 1 }, some (if ltb 100 m.counter then 0 else 2))

unfoldable pub collect_placements : ReqMatch → ReqMatch × Option ℕ
unfolding collect
collect_placements m = if m.done then (m, none) else collect m.events m

-- The answer: `replace_infinite` puts the nodes that are known for InfiniteElement.
abbrev pub placements : Bool → List ℕ → ReqMatch → List ℕ
placements replace_infinite known m =
    if replace_infinite && m.has_infinite then known else m.possible_placements

-- ===== src/Requirements/Tests.antt =====
-- Requirements of an actor, and iterables that pause.
use calvin_base.Base.{
  ℕ, ◌<◌, ◌≡◌, refl, true, false, not, ◌&&◌, some, List, [], ◌∷◌, length, contains, arith,
}
use calvin_base.Dynops.{
  Event, gives, pauses, offers, any_offers, all_offer, Source, everything, answers, scripts, run,
  Fresh,
}
use calvin_base.Dynops.Union as Union
use calvin_base.Dynops.Union.Run.{union-offers}
use calvin_base.Dynops.Intersection as Intersection
use calvin_base.Dynops.Intersection.Run.{intersection-offers}
use calvin_base.Dynops.Difference as Difference
use calvin_base.Dynops.Difference.Removals.{IsFinite}
use calvin_base.Dynops.Difference.Run.{difference-offers}
use calvin_base.Requirements.{
  Requirement, positive, negative, union_group, intersection_iters, build_match, start, placements,
}
use calvin_base.Requirements.Match.{poll, match_lem}
use calvin_base.Requirements.Build.{meets_all}
use calvin_base.Requirements.Infinite.{listed, match_negative_only}

abbrev first : List Event
first = gives 1 ∷ pauses ∷ gives 2 ∷ gives 3 ∷ []

abbrev second : List Event
second = pauses ∷ gives 3 ∷ gives 1 ∷ gives 3 ∷ []

abbrev sources : List Source
sources = answers first ∷ answers second ∷ []

union-offers_example :
    (out : List Event) × (run Union.next 10 (Union.init sources) ≡ some out)
    × Fresh [] out
    × ((n : ℕ) → offers out n ≡ any_offers (scripts sources) n)
union-offers_example = union-offers sources 10 (omega arith) (omega arith)

intersection-offers_example :
    (out : List Event) × (run Intersection.next 18 (Intersection.init sources) ≡ some out)
    × Fresh [] out
    × ((n : ℕ) → offers out n ≡ all_offer (scripts sources) n)
intersection-offers_example = intersection-offers sources 18 (omega arith)

intersection_run :
    run Intersection.next 18 (Intersection.init sources) ≡ some (gives 1 ∷ gives 3 ∷ [])
unfolding run Intersection.next Intersection.init Intersection.draw
intersection_run = refl

difference-offers_example :
    (out : List Event) × (run Difference.next 10
        (Difference.init (answers first) (answers second ∷ []))
      ≡ some out)
    × IsFinite out
    × Fresh [] out
    × ((n : ℕ)
        → offers out n ≡ (offers first n && not (any_offers (scripts (answers second ∷ [])) n)))
difference-offers_example =
    difference-offers first (answers second ∷ []) 10 tt (tt, tt) (omega arith)

abbrev requirements : List Requirement
requirements =
    positive (some (answers first))
    ∷ union_group (some (answers second) ∷ some everything ∷ [])
    ∷ negative (some (answers (gives 2 ∷ [])))
    ∷ []

few : length (build_match requirements) < 6
unfolding run build_match Union.next Union.init Intersection.next Intersection.init
    Intersection.draw Difference.next Difference.init Union.draw_new
few = omega arith

limits_at : all_offer (scripts (intersection_iters requirements)) 7 ≡ false
limits_at = refl

match_example :
    ((poll 6 (start requirements)).done ≡ true)
    × ((n : ℕ)
        → contains (placements true (1 ∷ 2 ∷ 3 ∷ []) (poll 6 (start requirements))) n
          ≡ meets_all requirements n)
match_example = match_lem requirements true (1 ∷ 2 ∷ 3 ∷ []) 6 (7, limits_at) (tt, tt) few

match_negative_only_example :
    placements true (1 ∷ 2 ∷ []) (poll 2 (start (negative (some (answers (listed (2 ∷ [])))) ∷ [])))
    ≡ 1 ∷ 2 ∷ []
match_negative_only_example = match_negative_only (2 ∷ []) (1 ∷ 2 ∷ [])

-- ===== src/Requirements/Build.antt =====
-- The iterable of possible placements offers the nodes that meet every requirement.
use calvin_base.Base.{
  ℕ, ◌+◌, ◌*◌, ◌≡◌, refl, sym, ap, ◌∙◌, inl, inr, Bool, true, false, not, ◌&&◌, Option, none, some,
  List, [], ◌∷◌, is_empty, length, get_or_default, Bool-cases, arith,
}
use calvin_base.Dynops.{
  Event, gives, infinite, pauses, offers, any_offers, all_offer, Source, script, scripts,
  some_everything, total,
}
use calvin_base.Dynops.Union.Run.{union-offers, everything_offers}
use calvin_base.Dynops.Intersection.Run.{intersection-offers}
use calvin_base.Dynops.Difference.Removals.{IsFinite}
use calvin_base.Dynops.Difference.Run.{FiniteSources, difference-offers}
use calvin_base.Requirements.{
  Requirement, positive, negative, unknown_type, union_group, kept, union_source,
  intersection_events, difference_events, intersection_iters, difference_iters, build_match,
}

-- What a requirement asks of a node; a failed one asks nothing.
abbrev pub meets : Requirement → ℕ → Bool
meets (positive none) n = true
meets (positive (some s)) n = offers (script s) n
meets (negative none) n = true
meets (negative (some s)) n = not (offers (script s) n)
meets (unknown_type o) n = true
meets (union_group alternatives) n = any_offers (scripts (kept alternatives)) n

abbrev pub meets_all : List Requirement → ℕ → Bool
meets_all [] n = true
meets_all (r ∷ rs) n = meets r n && meets_all rs n

-- The answers of an operation, with the fuel that it is given here.
abbrev answered : Option (List Event) → List Event
answered o = get_or_default [] o

union_source-offers :
    (sources : List Source) (n : ℕ)
    → offers (script (union_source sources)) n ≡ any_offers (scripts sources) n
union_source-offers sources n = elim (Bool-cases (some_everything sources)) [
  | inl e ↦ rw e (sym (everything_offers sources n e))
  | inr e ↦
      let (out, ran, fresh, same) =
        union-offers sources (total (scripts sources) + 2) (omega arith) (omega arith) in
      rw e (ap (λ o. offers (answered o) n) ran ∙ same n)
]

intersection_events-offers :
    (sources : List Source) (n : ℕ)
    → offers (intersection_events sources) n ≡ all_offer (scripts sources) n
intersection_events-offers sources n =
    let (out, ran, fresh, same) =
      intersection-offers sources (2 * total (scripts sources) + 2) (omega arith) in
    ap (λ o. offers (answered o) n) ran ∙ same n

difference_events-offers :
    (first : List Event) (sources : List Source) (n : ℕ)
    → IsFinite first
    → FiniteSources sources
    → offers (difference_events first sources) n
      ≡ (offers first n && not (any_offers (scripts sources) n))
difference_events-offers first sources n f g =
    let (out, ran, finite, fresh, same) =
      difference-offers first sources (length first + total (scripts sources) + 1) f g
        (omega arith) in
    ap (λ o. offers (answered o) n) ran ∙ same n

-- The requirements by their kind.
pub requirements_split :
    (rs : List Requirement) (n : ℕ)
    → meets_all rs n ≡ (
        all_offer (scripts (intersection_iters rs)) n
        && not (any_offers (scripts (difference_iters rs)) n))
requirements_split [] n = refl
requirements_split (positive none ∷ rs) n = requirements_split rs n
requirements_split (positive (some s) ∷ rs) n = ground (arith, requirements_split rs n)
requirements_split (negative none ∷ rs) n = requirements_split rs n
requirements_split (negative (some s) ∷ rs) n = ground (arith, requirements_split rs n)
requirements_split (unknown_type o ∷ rs) n = requirements_split rs n
requirements_split (union_group alternatives ∷ rs) n =
    ground (arith, requirements_split rs n, union_source-offers (kept alternatives) n)

-- An iterable that does not offer every node is finite.
IsFinite-of : (es : List Event) (n : ℕ) → offers es n ≡ false → IsFinite es
IsFinite-of [] n e = tt
IsFinite-of (pauses ∷ es) n e = IsFinite-of es n e
IsFinite-of (infinite ∷ es) n e = cc
IsFinite-of (gives m ∷ es) n e = IsFinite-of es n (ground arith)

-- Some node is left out by the requirements that are not negative.
abbrev pub Limits : List Requirement → Type 0
Limits rs = (k : ℕ) × (all_offer (scripts (intersection_iters rs)) k ≡ false)

no_negative :
    (sources : List Source) (n : ℕ)
    → is_empty sources ≡ true
    → (b : Bool) → (b && not (any_offers (scripts sources) n)) ≡ b
no_negative [] n e b = ground arith
no_negative (s ∷ ss) n e b = cc

pub build_match-offers :
    (rs : List Requirement) (n : ℕ)
    → Limits rs
    → FiniteSources (difference_iters rs)
    → offers (build_match rs) n ≡ meets_all rs n
unfolding build_match
build_match-offers rs n (k, e) f = elim (Bool-cases (is_empty (difference_iters rs))) [
  | inl none_left ↦ rw none_left (
      intersection_events-offers (intersection_iters rs) n
      ∙ sym (
          requirements_split rs n
          ∙ no_negative (difference_iters rs) n none_left
              (all_offer (scripts (intersection_iters rs)) n)))
  | inr some_left ↦ rw some_left (
      difference_events-offers (intersection_events (intersection_iters rs)) (difference_iters rs) n
        (IsFinite-of (intersection_events (intersection_iters rs)) k
          (intersection_events-offers (intersection_iters rs) k ∙ e))
        f
      ∙ ap (λ b. b && not (any_offers (scripts (difference_iters rs)) n))
          (intersection_events-offers (intersection_iters rs) n)
      ∙ sym (requirements_split rs n))
]

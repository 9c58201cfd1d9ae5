-- ===== src/Dynops.antt =====
-- calvin/utilities/dynops.py: lazy set operations over iterables that may pause. An iterable is
-- known to its parent by what its calls of `next` answer, one after another.
pub mod Union
pub mod Intersection
pub mod Difference
use calvin_base.Base.{
  ℕ, zero, suc, ◌+◌, ◌≡◌, refl, sym, ap, ◌∙◌, ◌⊎◌, inl, inr, subst, Bool-cases, ==_iff,
  contains-append, if◌then◌else◌, Bool, true, false, ◌||◌, ◌&&◌, not, Option, none, some, List, [],
  ◌∷◌, ◌++◌, ◌==◌, length, contains, arith,
}

-- An element, InfiniteElement, or PauseIteration. After the last one comes StopIteration.
pub data Event : Type 0 where
  gives : ℕ → Event
  infinite : Event
  pauses : Event

-- An iterable whose `infinite_set` is set when it is given to an operation, or any other.
pub data Source : Type 0 where
  everything : Source
  answers : List Event → Source

-- An infinite set answers InfiniteElement once (DynOps.next).
abbrev pub script : Source → List Event
script everything = infinite ∷ []
script (answers es) = es

abbrev pub is_everything : Source → Bool
is_everything everything = true
is_everything (answers es) = false

-- The set that the events of an iterable describe.
abbrev pub offers : List Event → ℕ → Bool
offers [] n = false
offers (gives m ∷ es) n = m == n || offers es n
offers (infinite ∷ es) n = true
offers (pauses ∷ es) n = offers es n

abbrev pub any_offers : List (List Event) → ℕ → Bool
any_offers [] n = false
any_offers (v ∷ vs) n = offers v n || any_offers vs n

abbrev pub all_offer : List (List Event) → ℕ → Bool
all_offer [] n = true
all_offer (v ∷ vs) n = offers v n && all_offer vs n

abbrev pub scripts : List Source → List (List Event)
scripts [] = []
scripts (s ∷ ss) = script s ∷ scripts ss

abbrev pub some_everything : List Source → Bool
some_everything [] = false
some_everything (s ∷ ss) = is_everything s || some_everything ss

-- `s.add(n)`
abbrev pub add : ℕ → List ℕ → List ℕ
add n s = if contains s n then s else s ++ n ∷ []

-- The number of events that are left.
abbrev pub total : List (List Event) → ℕ
total [] = 0
total (v ∷ vs) = length v + total vs

abbrev pub add_event : Event → Option (List Event) → Option (List Event)
add_event e none = none
add_event e (some es) = some (e ∷ es)

-- All answers of an operation, up to StopIteration (`none` of `next`); `none` where the fuel is out.
unfoldable pub run : {S : Type 0} → (S → Option Event × S) → ℕ → S → Option (List Event)
run next zero s = none
run next (suc fuel) s =
    let (event, t) = next s in
    elim event [ none ↦ some [] | some e ↦ let rest = run next fuel t in add_event e rest ]

-- No element is given that was given before, or stands in `set`.
abbrev pub Fresh : List ℕ → List Event → Type 0
Fresh set [] = Unit {0}
Fresh set (gives n ∷ es) = (contains set n ≡ false) × Fresh (set ++ n ∷ []) es
Fresh set (infinite ∷ es) = Fresh set es
Fresh set (pauses ∷ es) = Fresh set es

run_path :
    {S : Type 0} (next : S → Option Event × S) (fuel : ℕ) {s : S} {r : Option Event × S}
    → next s ≡ r
    → run next (suc fuel) s ≡ elim r.0 as (λ _. Option (List Event)) [
      | none ↦ some []
      | some e ↦ add_event e (run next fuel r.1)
    ]
unfolding run
run_path next fuel n =
    ap
      (λ x. elim x.0 as (λ _. Option (List Event)) [
        | none ↦ some []
        | some e ↦ add_event e (run next fuel x.1)
      ])
      n

pub run_stop :
    {S : Type 0} (next : S → Option Event × S) (fuel : ℕ) (s t : S)
    → next s ≡ (none, t)
    → run next (suc fuel) s ≡ some []
run_stop next fuel s t e = run_path next fuel e

pub run_more :
    {S : Type 0} (next : S → Option Event × S) (fuel : ℕ) (s t : S) (e : Event) (es : List Event)
    → next s ≡ (some e, t)
    → run next fuel t ≡ some es
    → run next (suc fuel) s ≡ some (e ∷ es)
run_more next fuel s t e es n r = run_path next fuel n ∙ ap (add_event e) r

pub contains-add : (m : ℕ) (s : List ℕ) (n : ℕ) → contains (add m s) n ≡ (m == n || contains s n)
contains-add m s n = elim (Bool-cases (contains s m)) [
  | inl old ↦ rw old (known (Bool-cases (m == n)) old)
  | inr new ↦ rw new (ground (arith, contains-append s (m ∷ []) n))
]
  where
    known :
        ((m == n) ≡ true) ⊎ ((m == n) ≡ false)
        → contains s m ≡ true
        → contains s n ≡ (m == n || contains s n)
    known (inl e) old = rw e (subst (λ t. contains s t ≡ true) ((==_iff m n).0 e) old)
    known (inr e) old = rw e refl

pub run_same :
    {S : Type 0} (next : S → Option Event × S) (fuel : ℕ) (s t : S)
    → next s ≡ next t
    → run next (suc fuel) s ≡ run next (suc fuel) t
run_same next fuel s t e = run_path next fuel e ∙ sym (run_path next fuel refl)

-- ===== src/Dynops/Difference/Removals.antt =====
-- What is collected for removal.
use calvin_base.Base.{
  ℕ, ◌+◌, ◌≤◌, ◌<◌, ◌≡◌, refl, ap, ◌∙◌, Bool, true, false, ◌||◌, ◌&&◌, List, [], ◌∷◌, length,
  contains, arith,
}
use calvin_base.Dynops.{add, contains-add, Event, gives, infinite, pauses, offers}
use calvin_base.Dynops.Difference.{Removed, all_removed, collect, collected, collect_all}

-- No InfiniteElement comes.
abbrev pub IsFinite : List Event → Type 0
IsFinite [] = Unit {0}
IsFinite (gives n ∷ es) = IsFinite es
IsFinite (infinite ∷ es) = ⊥
IsFinite (pauses ∷ es) = IsFinite es

abbrev pub any_removed : List Removed → ℕ → Bool
any_removed [] n = false
any_removed (v ∷ vs) n = offers v.script n || any_removed vs n

abbrev pub left_to_remove : List Removed → ℕ
left_to_remove [] = 0
left_to_remove (v ∷ vs) = length v.script + left_to_remove vs

-- Finite, and at their end where they are final.
abbrev pub AllFinite : List Removed → Type 0
AllFinite [] = Unit {0}
AllFinite (v ∷ vs) = IsFinite v.script × (v.final ≡ true → v.script ≡ []) × AllFinite vs

-- Of one iterable.
abbrev Collects : List Event → List ℕ → Bool × List Event × List ℕ → Type 0
Collects es remove (ended, left, remove') =
    IsFinite left
    × ((n : ℕ) → (contains remove' n || offers left n) ≡ (contains remove n || offers es n))
    × (length left ≤ length es)
    × (ended ≡ true → left ≡ [])
    × (ended ≡ false → length left < length es)

Collects-gives :
    (m : ℕ) (es : List Event) (remove : List ℕ) (r : Bool × List Event × List ℕ)
    → Collects es (add m remove) r
    → Collects (gives m ∷ es) remove r
Collects-gives m es remove (ended, left, remove') (f, h, l, a, b) =
    (f, λ n. h n ∙ ground (arith, contains-add m remove n), omega arith, a, λ e. omega (arith, b e))

collect-Collects :
    (es : List Event) (remove : List ℕ) → IsFinite es → Collects es remove (collect es remove)
unfolding collect
collect-Collects [] remove f = (tt, λ n. refl, omega arith, λ e. refl, λ e. cc)
collect-Collects (pauses ∷ es) remove f = (f, λ n. refl, omega arith, λ e. cc, λ e. omega arith)
collect-Collects (gives m ∷ es) remove f =
    Collects-gives m es remove (collect es (add m remove)) (collect-Collects es (add m remove) f)
collect-Collects (infinite ∷ es) remove f = absurd f

-- Of all: where none pauses they are all at their end, and where one does there are fewer events.
abbrev pub CollectsAll : List Removed → List ℕ → Bool × List Removed × List ℕ → Type 0
CollectsAll vs remove (ended, ws, remove') =
    AllFinite ws
    × ((n : ℕ) → (contains remove' n || any_removed ws n) ≡ (contains remove n || any_removed vs n))
    × (left_to_remove ws ≤ left_to_remove vs)
    × (ended ≡ true → all_removed ws ≡ true)
    × (ended ≡ false → left_to_remove ws < left_to_remove vs)

CollectsAll-cons :
    (v : Removed) (vs : List Removed) (remove : List ℕ) (c : Bool × List Event × List ℕ)
    (r : Bool × List Removed × List ℕ)
    → (v.final ≡ true → v.script ≡ [])
    → Collects v.script remove c
    → CollectsAll vs c.2 r
    → CollectsAll (v ∷ vs) remove (c.0 && r.0, collected v c ∷ r.1, r.2)
CollectsAll-cons v vs remove (true, es, q) (true, ws, t) k (f, h, l, a, b) (g, i, m, d, e) = (
  (f, λ x. a refl, g),
  λ n. ground (arith, h n, i n),
  omega arith,
  λ x. ground (arith, d),
  λ x. cc,
)
CollectsAll-cons v vs remove (true, es, q) (false, ws, t) k (f, h, l, a, b) (g, i, m, d, e) = (
  (f, λ x. a refl, g),
  λ n. ground (arith, h n, i n),
  omega arith,
  λ x. cc,
  λ x. omega (arith, e refl),
)
CollectsAll-cons v vs remove (false, es, q) (p, ws, t) k (f, h, l, a, b) (g, i, m, d, e) = (
  (f, λ x. absurd (omega (arith, b refl, ap length (k (ground arith)))), g),
  λ n. ground (arith, h n, i n),
  omega arith,
  λ x. cc,
  λ x. omega (arith, b refl),
)

pub collect_all-CollectsAll :
    (vs : List Removed) (remove : List ℕ)
    → AllFinite vs
    → CollectsAll vs remove (collect_all vs remove)
unfolding collect_all
collect_all-CollectsAll [] remove f = (tt, λ n. refl, omega arith, λ x. refl, λ x. cc)
collect_all-CollectsAll (v ∷ vs) remove f =
    CollectsAll-cons v vs remove (collect v.script remove) _ f.1
      (collect-Collects v.script remove f.0) (collect_all-CollectsAll vs _ f.2)

-- Iterables that are all final have nothing more to remove.
pub all_removed-none :
    (vs : List Removed) (n : ℕ) → AllFinite vs → all_removed vs ≡ true → any_removed vs n ≡ false
all_removed-none [] n f a = refl
all_removed-none (v ∷ vs) n f a =
    ground (arith, all_removed-none vs n f.2, ap (λ es. offers es n) (f.1 (ground arith)))

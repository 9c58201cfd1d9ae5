-- ===== src/Queue/Ordered/Windows.antt =====
-- FanoutOrderedFIFO and FanoutRoundRobinFIFO: the schedule of turns, entry by entry.
use calvin_base.Base.{
  ℕ, zero, suc, ◌+◌, ◌-◌, ◌*◌, ◌%◌, ◌≤◌, ◌<◌, ◌≡◌, refl, sym, ap, ◌∙◌, inl, inr, some, List, [],
  ◌∷◌, ◌++◌, length, get_elem?, take, drop, ltb, tests, Bool-cases, arith,
}
use native.Mathlib.Nat.{mod-eq_of_lt, mod-eq-sub-mod}
use calvin_base.Base.{ltb→lt, get_elem?-append_left}
use calvin_base.Queue.Ordered.{Ordered, range_from, rounds}

-- The next turns are those of the readers with the numbers k, k + 1, ..., modulo the peers.
pub record InTurn (k : ℕ) (q : Ordered) : Type 0 where
  pub some_peer : 0 < q.nbr_peers
  pub positive : 0 < q.size
  pub sized : length q.reader_turn ≡ q.size
  pub turns :
      (j : ℕ)
      → j < q.size
      → get_elem? q.reader_turn ((q.turn_pos + j) % q.size) ≡ some ((k + j) % q.nbr_peers)

pub length-range_from : (i n : ℕ) → length (range_from i n) ≡ n
length-range_from i zero = refl
length-range_from i (suc n) = ap suc (length-range_from (i + 1) n)

get_elem?-range_from : (i n j : ℕ) → j < n → get_elem? (range_from i n) j ≡ some (i + j)
get_elem?-range_from i zero j h = elim h [ ]
get_elem?-range_from i (suc n) zero h = ap some (omega arith)
get_elem?-range_from i (suc n) (suc j) h =
    get_elem?-range_from (i + 1) n j (omega arith) ∙ ap some (omega arith)

get_elem?-append_right :
    (xs ys : List ℕ) (i : ℕ) → length xs ≤ i → get_elem? (xs ++ ys) i ≡ get_elem? ys (i - length xs)
get_elem?-append_right [] ys i h = ap (get_elem? ys) (omega arith)
get_elem?-append_right (x ∷ xs) ys zero h = absurd (omega arith)
get_elem?-append_right (x ∷ xs) ys (suc i) h =
    get_elem?-append_right xs ys i (omega arith) ∙ ap (get_elem? ys) (omega arith)

get_elem?-take : (n : ℕ) (xs : List ℕ) (i : ℕ) → i < n → get_elem? (take n xs) i ≡ get_elem? xs i
get_elem?-take zero xs i h = elim h [ ]
get_elem?-take (suc n) [] i h = refl
get_elem?-take (suc n) (x ∷ xs) zero h = refl
get_elem?-take (suc n) (x ∷ xs) (suc i) h = get_elem?-take n xs i (omega arith)

suc-add_left : (n i : ℕ) → suc (n + i) ≡ suc n + i
suc-add_left n i = omega arith

get_elem?-drop : (n : ℕ) (xs : List ℕ) (i : ℕ) → get_elem? (drop n xs) i ≡ get_elem? xs (n + i)
get_elem?-drop zero xs i = ap (get_elem? xs) (omega arith)
get_elem?-drop (suc n) [] i = refl
get_elem?-drop (suc n) (x ∷ xs) i =
    get_elem?-drop n xs i ∙ ap (get_elem? (x ∷ xs)) (suc-add_left n i)

sub_peers : (j n : ℕ) → n ≤ j → (j - n) % n ≡ j % n
sub_peers j n h = sym (mod-eq-sub-mod h)

-- The alternating schedule, entry by entry.
get_elem?-rounds :
    (peers n j : ℕ) → 0 < peers → j < n * peers → get_elem? (rounds peers n) j ≡ some (j % peers)
get_elem?-rounds peers zero j p h = absurd (omega arith)
get_elem?-rounds peers (suc n) j p h = elim (Bool-cases (ltb j peers)) [
  | inl l ↦
      get_elem?-append_left (range_from 0 peers) (rounds peers n) j
        (omega (tests, length-range_from 0 peers))
      ∙ get_elem?-range_from 0 peers j (omega tests)
      ∙ ap some (omega (arith, mod-eq_of_lt (ltb→lt j peers l)))
  | inr l ↦
      get_elem?-append_right (range_from 0 peers) (rounds peers n) j
        (ground (arith, length-range_from 0 peers))
      ∙ ap (get_elem? (rounds peers n)) (ap (λ (t : ℕ). j - t) (length-range_from 0 peers))
      ∙ get_elem?-rounds peers n (j - peers) p (grind tests)
      ∙ ap some (sub_peers j peers (ground arith))
]

-- The schedule that `_reset_turn` takes, and the initial one, where it is long enough.
pub get_elem?-schedule :
    (peers size pos j : ℕ)
    → 0 < peers
    → j < size
    → pos + j < size * peers
    → get_elem? (take size (drop pos (rounds peers size))) j ≡ some ((pos + j) % peers)
get_elem?-schedule peers size pos j p h k =
    get_elem?-take size (drop pos (rounds peers size)) j h
    ∙ get_elem?-drop pos (rounds peers size) j
    ∙ get_elem?-rounds peers size (pos + j) p k

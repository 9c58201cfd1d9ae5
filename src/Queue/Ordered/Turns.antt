-- ===== src/Queue/Ordered/Turns.antt =====
-- The schedule of FanoutOrderedFIFO and FanoutRoundRobinFIFO: whose turn it is.
use calvin_base.Base.{
  ℕ, zero, suc, ◌+◌, ◌-◌, ◌*◌, ◌%◌, ◌≤◌, ◌<◌, ◌≡◌, refl, sym, ap, ◌∙◌, ◌≢◌, some, List, [], ◌∷◌,
  length, set, get_elem?, take, drop, get_or_default, done, arith, ℕ_discrete,
}
use native.Mathlib.Nat.{mod-eq_of_lt, mod-add-mod, add-zero, add-mod_right}
use calvin_base.Base.{
  length-drop, mod_ne, mod_lt, length-set, length-append, get_elem?-set_self, get_elem?-set_ne,
}
use calvin_base.Queue.Common.{PortProperties}
use calvin_base.Queue.Ordered.{
  Ordered, Turn, ordered, round_robin, random, range_from, rounds, init, reset_to, update_turn,
  update_by, rotate,
}
use calvin_base.Queue.Routed
use calvin_base.Queue.Routed.{FanoutBase}
use calvin_base.Queue.Ordered.Windows.{InTurn, length-range_from, get_elem?-schedule}

-- The entry that is put in is the one that follows the last of the window.
next_entry : (k n peers : ℕ) → 0 < n → ((k + (n - 1)) % peers + 1) % peers ≡ (k + n) % peers
next_entry k n peers h = mod-add-mod (k + (n - 1)) peers 1 ∙ ap (λ (t : ℕ). t % peers) (omega arith)

wrap_turn : (t j n : ℕ) → t + 1 + j ≡ t + n → (t + 1 + j) % n ≡ t % n
wrap_turn t j n e = ap (λ (i : ℕ). i % n) e ∙ add-mod_right t n

abbrev pub rotated : Ordered → ℕ → Ordered
rotated q k = record q {
  reader_turn =
      set q.reader_turn (q.turn_pos % q.size)
        (((k + (q.size - 1)) % q.nbr_peers + 1) % q.nbr_peers);
  turn_pos = q.turn_pos + 1;
}

rotated-InTurn : (k : ℕ) (q : Ordered) → InTurn k q → InTurn (k + 1) (rotated q k)
rotated-InTurn k q x = record {
  some_peer = x.some_peer;
  positive = x.positive;
  sized = length-set q.reader_turn (q.turn_pos % q.size) _ ∙ x.sized;
  turns = λ j h. elim (ℕ_discrete (j + 1) q.size) [
    | yes e ↦
        ap (get_elem? (rotated q k).reader_turn) (wrap_turn q.turn_pos j q.size (omega arith))
        ∙ get_elem?-set_self q.reader_turn (q.turn_pos % q.size) _
            (omega (arith, x.sized, mod_lt q.turn_pos q.size x.positive))
        ∙ ap some (
            next_entry k q.size q.nbr_peers x.positive
            ∙ ap (λ (t : ℕ). t % q.nbr_peers) (omega arith))
    | no n ↦
        get_elem?-set_ne q.reader_turn (q.turn_pos % q.size) ((q.turn_pos + 1 + j) % q.size) _
          (mod_ne q.turn_pos (q.turn_pos + 1 + j) q.size (omega arith) (omega arith))
        ∙ ap (λ (t : ℕ). get_elem? q.reader_turn (t % q.size)) (assoc q.turn_pos j)
        ∙ x.turns (j + 1) (omega arith)
        ∙ ap (λ (t : ℕ). some (t % q.nbr_peers)) (sym (assoc k j))
  ];
}
  where
    assoc : (a b : ℕ) → a + 1 + b ≡ a + (b + 1)
    assoc a b = omega arith

rotate_lem : (k : ℕ) (q : Ordered) → InTurn k q → rotate q ≡ done (k % q.nbr_peers) (rotated q k)
unfolding rotate
rotate_lem k q x =
    let now : get_elem? q.reader_turn (q.turn_pos % q.size) ≡ some (k % q.nbr_peers) =
      ap (λ (t : ℕ). get_elem? q.reader_turn (t % q.size)) (sym (add-zero q.turn_pos))
      ∙ x.turns 0 x.positive
      ∙ ap (λ (t : ℕ). some (t % q.nbr_peers)) (add-zero k) in
    let last : get_elem? q.reader_turn ((q.turn_pos + q.size - 1) % q.size)
        ≡ some ((k + (q.size - 1)) % q.nbr_peers) =
      ap (λ (t : ℕ). get_elem? q.reader_turn (t % q.size)) (regroup q.turn_pos q.size x.positive)
      ∙ x.turns (q.size - 1) (less q.size x.positive) in
    let peer = x.some_peer in ground arith
  where
    regroup : (t n : ℕ) → 0 < n → t + n - 1 ≡ t + (n - 1)
    regroup t n h = omega arith

    less : (n : ℕ) → 0 < n → n - 1 < n
    less n h = omega arith

pub update_by_lem :
    (t : Turn) (q : Ordered) (number : ℕ) → t ≢ random → update_by t number q ≡ rotate q
unfolding update_by
update_by_lem ordered q number h = refl
update_by_lem round_robin q number h = refl
update_by_lem random q number h = absurd (h refl)

-- The reader with number k mod nbr_peers has its turn, and the next one is that of k + 1: the
-- readers take turns with no exception, for as long as the peers stay the same.
pub update_turn-InTurn :
    (k number : ℕ) (q : Ordered)
    → q.update ≢ random
    → InTurn k q
    → (update_turn number q ≡ done (k % q.nbr_peers) (rotated q k)) × InTurn (k + 1) (rotated q k)
unfolding update_turn
update_turn-InTurn k number q h x =
    (update_by_lem q.update q number h ∙ rotate_lem k q x, rotated-InTurn k q x)

pub length-rounds : (peers n : ℕ) → length (rounds peers n) ≡ n * peers
length-rounds peers zero = omega arith
length-rounds peers (suc n) = omega (
  arith,
  length-append (range_from 0 peers) (rounds peers n),
  length-range_from 0 peers,
  length-rounds peers n,
)

length-take : (n : ℕ) (xs : List ℕ) → n ≤ length xs → length (take n xs) ≡ n
length-take zero xs h = refl
length-take (suc n) [] h = absurd (omega arith)
length-take (suc n) (x ∷ xs) h = ap suc (length-take n xs (omega arith))

pub length-schedule :
    (peers size pos : ℕ)
    → pos + size ≤ size * peers
    → length (take size (drop pos (rounds peers size))) ≡ size
length-schedule peers size pos h =
    length-take size (drop pos (rounds peers size))
      (omega (arith, length-drop pos (rounds peers size), length-rounds peers size))

-- A slice of the schedule that is long enough lets the readers take turns from its start on.
pub reset_to-InTurn :
    (pos : ℕ) (q : Ordered)
    → 0 < q.nbr_peers
    → 0 < q.size
    → pos + q.size ≤ q.size * q.nbr_peers
    → InTurn pos (reset_to pos q)
reset_to-InTurn pos q p s h = record {
  some_peer = p;
  positive = s;
  sized = length-schedule q.nbr_peers q.size pos h;
  turns = λ j l.
      ap (get_elem? (reset_to pos q).reader_turn) (small j q.size l)
      ∙ get_elem?-schedule q.nbr_peers q.size pos j p l (omega arith);
}
  where
    small : (j n : ℕ) → j < n → (0 + j) % n ≡ j
    small j n l = ap (λ (t : ℕ). t % n) (omega arith) ∙ mod-eq_of_lt l

fits : (peers size : ℕ) → 0 < peers → 0 + size ≤ size * peers
fits peers size p = grind arith

pub init-InTurn_ordered :
    (draws : List ℕ) (props : PortProperties)
    → 0 < get_or_default 1 props.nbr_peers
    → InTurn 0 (init ordered draws props)
unfolding init Routed.init
init-InTurn_ordered draws props p =
    reset_to-InTurn 0 (init ordered draws props) p (omega arith) (fits _ _ p)

pub init-InTurn_round_robin :
    (draws : List ℕ) (props : PortProperties)
    → 0 < get_or_default 1 props.nbr_peers
    → InTurn 0 (init round_robin draws props)
unfolding init Routed.init
init-InTurn_round_robin draws props p =
    reset_to-InTurn 0 (init round_robin draws props) p (omega arith) (fits _ _ p)

-- The turns depend on the schedule, the size and the number of peers alone.
pub rebased-InTurn :
    (k : ℕ) (q : Ordered) (b : FanoutBase)
    → b.size ≡ q.size
    → b.nbr_peers ≡ q.nbr_peers
    → InTurn k q
    → InTurn k (record q { base = b })
rebased-InTurn k q b s n x = record {
  some_peer = rw n x.some_peer;
  positive = rw s x.positive;
  sized = x.sized ∙ sym s;
  turns = λ j h. rw (s, n) (x.turns j (rw s at h));
}

-- ===== src/Queue/Ordered.antt =====
-- fanout_ordered_fifo.py, fanout_round_robin_fifo.py and fanout_random_fifo.py: queues that route
-- each token to the reader whose turn it is. `random.randrange` is an argument.
pub mod Turns
pub mod Windows
pub mod Routes
mod Tests
pub mod Removal
use calvin_base.Base.{
  ℕ, zero, suc, ◌+◌, ◌-◌, ◌*◌, ◌%◌, ◌≤◌, ◌<◌, ◌≡◌, refl, sym, ap, ◌∙◌, ◌≢◌, ◌⊎◌, inl, inr, Bool,
  true, false, not, ◌&&◌, ◌||◌, Option, none, some, List, [], ◌∷◌, ◌++◌, map, length, is_empty, set,
  get_elem?, replicate, take, drop, contains, remove, contains_all, same_set, sort, Distinct, leb,
  ltb, ◌==◌, if◌then◌else◌, subst, tests, get_or_default, Bool-cases, Option-cases, Dict, lookup,
  insert, erase, keys, values, map_values, set_default, update, AllValues, minimum?, minimum_or,
  Error, queue_full, queue_empty, unknown_reader, unknown_writer, illegal_mapping, illegal_order,
  value_error, attribute_error, key_error, type_error, index_error, zero_division, not_implemented,
  Method, Outcome, done, raised, ◌>>=◌, ◌>>◌, return, raise, self, put, require, or_raise, item,
  elem, attempt, after, arith, ℕ_discrete,
}
use calvin_base.Token.{Token}
use calvin_base.Queue.Common.{
  CommitResponse, handled, unhandled, invalid, Disconnect, PortProperties, QueueType, ordered_type,
  round_robin_type, random_type,
}
use calvin_base.Queue.Routed.{FanoutBase}
use calvin_base.Queue.Routed

-- The three classes: the method that `_set_turn` selects.
pub data Turn : Type 0 where
  ordered round_robin random : Turn

pub record Ordered : Type 0 where
  pub base : FanoutBase
  pub open base use *
  pub update : Turn
  pub reader_turn : List ℕ
  pub turn_pos : ℕ
  pub is_ordered : Bool

abbrev pub on_base : {A : Type 0} → Method FanoutBase A → Method Ordered A
on_base m q = elim (m q.base) [
  | done a b ↦ done a (record q { base = b })
  | raised e b ↦ raised e (record q { base = b })
]

-- `range(n)`
abbrev pub range_from : ℕ → ℕ → List ℕ
range_from i zero = []
range_from i (suc n) = i ∷ range_from (i + 1) n

-- `[p for n in range(rounds) for p in range(peers)]`
abbrev pub rounds : ℕ → ℕ → List ℕ
rounds peers zero = []
rounds peers (suc n) = range_from 0 peers ++ rounds peers n

-- Numbers that `random.randrange(nbr_peers)` gives, or its refusal of an empty range.
abbrev pub draw : ℕ → ℕ → Method Ordered ℕ
draw number peers = require (not (peers == 0)) value_error >> return (number % peers)

abbrev pub initial_turns : Turn → ℕ → ℕ → List ℕ → List ℕ
initial_turns ordered size peers draws = take size (rounds peers size)
initial_turns round_robin size peers draws = take size (rounds peers size)
initial_turns random size peers draws = map (λ d. d % peers) (take size draws)

abbrev pub type_of : Turn → QueueType
type_of ordered = ordered_type
type_of round_robin = round_robin_type
type_of random = random_type

-- `draws` are the random numbers, one for each place of the schedule.
unfoldable pub init : Turn → List ℕ → PortProperties → Ordered
init turn draws props =
    let base = Routed.init props in
    record {
      base = record base { queue_type = some (type_of turn) };
      update = turn;
      reader_turn = initial_turns turn base.size base.nbr_peers draws;
      turn_pos = 0;
      is_ordered = false;
    }

-- `_ordered` and `_round_robin`: the entry that is used becomes the one after its predecessor.
pub rotate : Method Ordered ℕ
rotate q =
    (do
      reader ← elem q.reader_turn (q.turn_pos % q.size)
      prev ← elem q.reader_turn ((q.turn_pos + q.size - 1) % q.size)
      require (not (q.nbr_peers == 0)) zero_division
      put (record q {
        reader_turn = set q.reader_turn (q.turn_pos % q.size) ((prev + 1) % q.nbr_peers);
        turn_pos = q.turn_pos + 1;
      })
      return reader)
      q

-- `_random`: the entry that is used is drawn anew.
pub redraw : ℕ → Method Ordered ℕ
redraw number q =
    (do
      reader ← elem q.reader_turn (q.turn_pos % q.size)
      next ← draw number q.nbr_peers
      put (record q {
        reader_turn = set q.reader_turn (q.turn_pos % q.size) next;
        turn_pos = q.turn_pos + 1;
      })
      return reader)
      q

pub update_by : Turn → ℕ → Method Ordered ℕ
unfolding rotate redraw
update_by ordered number = rotate
update_by round_robin number = rotate
update_by random number = redraw number

unfoldable pub update_turn : ℕ → Method Ordered ℕ
unfolding update_by
update_turn number q = update_by q.update number q

-- A slice of the alternating schedule from the reader whose turn it was.
abbrev pub reset_to : ℕ → Ordered → Ordered
reset_to pos q = record q {
  reader_turn = take q.size (drop pos (rounds q.nbr_peers q.size));
  turn_pos = 0;
}

-- Where there is no reader, FanoutOrderedFIFO raises and the others take the empty schedule.
pub reset_by : Turn → List ℕ → Method Ordered (Unit {0})
reset_by ordered draws q =
    (do pos ← elem q.reader_turn (q.turn_pos % q.size); put (reset_to pos q)) q
reset_by round_robin draws q = elim (get_elem? q.reader_turn (q.turn_pos % q.size)) [
  | none ↦ done tt (record q { reader_turn = []; turn_pos = 0 })
  | some pos ↦ done tt (reset_to pos q)
]
reset_by random draws q = done tt (record q {
  reader_turn = if q.nbr_peers == 0 then [] else map (λ d. d % q.nbr_peers) (take q.size draws);
  turn_pos = 0;
})

unfoldable pub reset_turn : List ℕ → Method Ordered (Unit {0})
unfolding reset_by
reset_turn draws q = reset_by q.update draws q

unfoldable pub set_port_order : List ℕ → Method Ordered (Unit {0})
set_port_order order q =
    (do
      require (same_set order q.readers) illegal_order
      put (record q { base = record base { readers = order }; is_ordered = true }))
      q
  where
    open q use {base}

-- Once an order is set the readers are no longer sorted.
unfoldable pub add_reader : ℕ → Ordered → Ordered
add_reader reader q =
    let b = Routed.add_reader reader q.base in
    record q { base = if q.is_ordered then b else record b { readers = sort b.readers } }

unfoldable pub remove_reader : List ℕ → ℕ → Method Ordered Bool
remove_reader draws reader q =
    (do
      removed ← on_base (Routed.remove_reader reader)
      _ ← if removed then reset_turn draws else return tt
      return removed)
      q

unfoldable pub exhaust : List ℕ → ℕ → Disconnect → Method Ordered (List (ℕ × Token))
exhaust draws = Routed.exhaust (λ q. q.base) (remove_reader draws)

count : ℕ → List ℕ → ℕ
count a [] = 0
count a (x ∷ xs) = (if x == a then 1 else 0) + count a xs

-- `[self.reader_turn[i % self.N] for i in range(turn_pos, turn_pos + length)]`
turns_ahead : Ordered → ℕ → ℕ → Option (List ℕ)
turns_ahead q zero pos = some []
turns_ahead q (suc n) pos = elim (get_elem? q.reader_turn (pos % q.size)) [
  | none ↦ none
  | some p ↦ elim (turns_ahead q n (pos + 1)) [ none ↦ none | some ps ↦ some (p ∷ ps) ]
]

-- Whether every reader has room for as many tokens as its turns.
all_have_room : List ℕ → List ℕ → Method Ordered Bool
unfolding count
all_have_room peers [] q = done true q
all_have_room peers (p ∷ ps) q =
    let rest = all_have_room peers ps in
    (do
      peer ← elem q.readers p
      w ← item q.write_pos peer
      a ← item q.read_pos peer
      if ltb (q.size + a) (count p peers + w + 1) then return false else rest)
      q

unfoldable pub slots_available : ℕ → Method Ordered Bool
unfolding turns_ahead all_have_room
slots_available n q =
    if leb q.size n
    then done false q
    else (if n == 1
        then (do
          p ← elem q.reader_turn (q.turn_pos % q.size)
          peer ← elem q.readers p
          w ← item q.write_pos peer
          a ← item q.read_pos peer
          return (ltb (w + 1) (q.size + a)))
            q
        else (do
          peers ← or_raise (turns_ahead q n q.turn_pos) index_error
          all_have_room peers peers)
            q)

unfoldable pub write : ℕ → Token → Method Ordered Bool
write number token q =
    (do
      room ← slots_available 1
      require room queue_full
      turn ← update_turn number
      peer ← elem q.readers turn
      on_base (Routed.push token peer))
      q

write_next : ℕ → Token → Method Ordered CommitResponse
write_next number token = do _ ← write number token; return handled

-- `com_write` of the base class, over the fields of this one.
unfoldable pub com_write : ℕ → Token → ℕ → Method Ordered CommitResponse
unfolding write_next
com_write number token nbr q =
    (do
      p ← elem q.reader_turn (q.turn_pos % q.size)
      peer ← elem q.readers p
      w ← item q.write_pos peer
      (if nbr == w
          then write_next number token
          else return (if ltb nbr w then unhandled else invalid)))
      q

pub record State : Type 0 where
  pub routed : Routed.State
  pub reader_turn : List ℕ
  pub turn_pos : ℕ

unfoldable pub state : Ordered → State
state q = record {
  routed = Routed.state q.base;
  reader_turn = q.reader_turn;
  turn_pos = q.turn_pos;
}

-- `_set_turn` leaves a schedule that is there.
unfoldable pub set_state : State → Ordered → Ordered
set_state s q = record q {
  base = Routed.set_state s.routed q.base;
  reader_turn = s.reader_turn;
  turn_pos = s.turn_pos;
}

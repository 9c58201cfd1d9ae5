-- ===== src/Queue/Balanced.antt =====
-- fanout_balanced_fifo.py: class FanoutBalancedFIFO, which routes each token to the reader with the
-- most free slots.
pub mod Routes
pub mod Best
mod Tests
use calvin_base.Base.{
  ℕ, zero, suc, ◌+◌, ◌-◌, ◌*◌, ◌%◌, ◌≤◌, ◌<◌, ◌≡◌, refl, sym, ap, ◌∙◌, ◌≢◌, ◌⊎◌, inl, inr, Bool,
  true, false, not, ◌&&◌, ◌||◌, Option, none, some, List, [], ◌∷◌, ◌++◌, map, length, is_empty, set,
  get_elem?, replicate, take, drop, contains, remove, contains_all, same_set, sort, Distinct, leb,
  ltb, ◌==◌, if◌then◌else◌, subst, tests, get_or_default, Bool-cases, Option-cases, Dict, lookup,
  insert, erase, keys, values, map_values, set_default, update, AllValues, minimum?, minimum_or,
  Error, queue_full, queue_empty, unknown_reader, unknown_writer, illegal_mapping, illegal_order,
  value_error, attribute_error, key_error, type_error, index_error, zero_division, not_implemented,
  Method, Outcome, done, raised, ◌>>=◌, ◌>>◌, return, raise, self, put, require, or_raise, item,
  elem, attempt, after, arith, ℕ_discrete,
}
use calvin_base.Token.{Token}
use calvin_base.Queue.Common.{PortProperties, balanced_type}
use calvin_base.Queue.Routed.{FanoutBase}
use calvin_base.Queue.Routed

pub record Balanced : Type 0 where
  pub base : FanoutBase
  pub open base use *
  pub is_ordered : Bool

unfoldable pub init : PortProperties → Balanced
init props =
    let base = Routed.init props in
    record { base = record base { queue_type = some balanced_type }; is_ordered = false }

-- `_reset_turn` does nothing in this class.
abbrev pub on_base : {A : Type 0} → Method FanoutBase A → Method Balanced A
on_base m q = elim (m q.base) [
  | done a b ↦ done a (record q { base = b })
  | raised e b ↦ raised e (record q { base = b })
]

-- N - (write_pos - read_pos) - 1. Where that is not positive, 0 and it compare alike below.
pub free_slots : ℕ → Method Balanced ℕ
free_slots reader q =
    (do w ← item q.write_pos reader; a ← item q.read_pos reader; return (q.size + a - w - 1)) q

unfoldable pub slots : List ℕ → Method Balanced (List (ℕ × ℕ))
unfolding free_slots
slots [] = return []
slots (reader ∷ readers) = do
  s ← free_slots reader
  rest ← slots readers
  return ((s, reader) ∷ rest)

abbrev pub any_room : List (ℕ × ℕ) → Bool
any_room [] = false
any_room ((s, r) ∷ rest) = ltb 0 s || any_room rest

-- `max` on pairs compares the slots first and then the readers.
abbrev pub greater : ℕ × ℕ → ℕ × ℕ → ℕ × ℕ
greater (s, r) (t, p) = if ltb s t || (s == t && ltb r p) then (t, p) else (s, r)

abbrev pub max_from : ℕ × ℕ → List (ℕ × ℕ) → ℕ × ℕ
max_from best [] = best
max_from best (x ∷ xs) = max_from (greater best x) xs

abbrev pub maximum? : List (ℕ × ℕ) → Option (ℕ × ℕ)
maximum? [] = none
maximum? (x ∷ xs) = some (max_from x xs)

unfoldable pub write : Token → Method Balanced Bool
write token q =
    (do
      found ← slots q.readers
      require (any_room found) queue_full
      (s, peer) ← or_raise (maximum? found) value_error
      on_base (Routed.push token peer))
      q

-- Whether the free slots, added up reader by reader, reach a number. The count is signed in the
-- source; it is exact for as long as no buffer is overfull.
pub reach : ℕ → ℕ → List ℕ → Method Balanced Bool
unfolding free_slots
reach n sum [] = return false
reach n sum (reader ∷ readers) = do
  s ← free_slots reader
  let rest = reach n (sum + s) readers
  if leb n (sum + s) then return true else rest

unfoldable pub slots_available : ℕ → Method Balanced Bool
unfolding reach
slots_available n q = if leb q.size n then done false q else reach n 0 q.readers q

-- ===== src/Queue/Mapped.antt =====
-- fanout_mapped_fifo.py: class FanoutMappedFIFO, which routes each token to the reader that a
-- mapping gives for the selector in the token's value.
pub mod Routes
mod Tests
use calvin_base.Base.{
  ℕ, zero, suc, ◌+◌, ◌-◌, ◌*◌, ◌%◌, ◌≤◌, ◌<◌, ◌≡◌, refl, sym, ap, ◌∙◌, ◌≢◌, ◌⊎◌, inl, inr, Bool,
  true, false, not, ◌&&◌, ◌||◌, Option, none, some, List, [], ◌∷◌, ◌++◌, map, length, is_empty, set,
  get_elem?, replicate, take, drop, contains, remove, contains_all, same_set, sort, Distinct, leb,
  ltb, ◌==◌, if◌then◌else◌, subst, tests, get_or_default, Bool-cases, Option-cases, Dict, lookup,
  insert, erase, keys, values, map_values, set_default, update, AllValues, minimum?, minimum_or,
  Error, queue_full, queue_empty, unknown_reader, unknown_writer, illegal_mapping, illegal_order,
  value_error, attribute_error, key_error, type_error, index_error, zero_division, not_implemented,
  Method, Outcome, done, raised, ◌>>=◌, ◌>>◌, return, raise, self, put, require, or_raise, item,
  elem, attempt, after, arith, ℕ_discrete,
}
use calvin_base.Token.{
  Token, Value, null, bad_token, num, list, dict, Fields, end, field, value, set_value,
}
use calvin_base.Queue.Common.{PortProperties, mapped_type}
use calvin_base.Queue.Routed.{FanoutBase}
use calvin_base.Queue.Routed

-- There is no `mapping` before it is set.
pub record Mapped : Type 0 where
  pub base : FanoutBase
  pub open base use *
  pub mapping : Option (Dict ℕ)

unfoldable pub init : PortProperties → Mapped
init props =
    let base = Routed.init props in
    record { base = record base { queue_type = some mapped_type }; mapping = none }

abbrev pub on_base : {A : Type 0} → Method FanoutBase A → Method Mapped A
on_base m q = elim (m q.base) [
  | done a b ↦ done a (record q { base = b })
  | raised e b ↦ raised e (record q { base = b })
]

pub record State : Type 0 where
  pub routed : Routed.State
  pub mapping : Dict ℕ

unfoldable pub state : Method Mapped State
state q =
    (do
      mapping ← or_raise q.mapping attribute_error
      return (record { routed = Routed.state q.base; mapping = mapping }))
      q

unfoldable pub set_state : State → Mapped → Mapped
set_state s q = record q { base = Routed.set_state s.routed q.base; mapping = some s.mapping }

unfoldable pub set_port_mapping : Dict ℕ → Method Mapped (Unit {0})
set_port_mapping mapping q =
    (do
      require (same_set (values mapping) q.readers) illegal_mapping
      put (record q { mapping = some mapping }))
      q

-- A write acts on the queue and on the token object of its caller.
pub record Writing : Type 0 where
  pub queue : Mapped
  pub token : Token

abbrev pub on_queue : {A : Type 0} → Method Mapped A → Method Writing A
on_queue m s = elim (m s.queue) [
  | done a q ↦ done a (record s { queue = q })
  | raised e q ↦ raised e (record s { queue = q })
]

-- `popitem` on a dictionary with one entry, which is the token's alone.
pub pop_item : Value → Method Writing (ℕ × Value)
pop_item (dict (field k v rest)) = return (k, v)
pop_item (dict end) = raise key_error
pop_item null = raise attribute_error
pop_item bad_token = raise attribute_error
pop_item (num n) = raise attribute_error
pop_item (list xs) = raise attribute_error

-- `data.value = value` changes the caller's token, before its reader is looked up.
unfoldable pub unwrap_data : Method Writing ℕ
unfolding pop_item
unwrap_data s =
    (do
      (select, v) ← pop_item (value s.token)
      put (record s { token = set_value s.token v })
      mapping ← or_raise s.queue.mapping attribute_error
      item mapping select)
      s

-- w - r < N - length, without subtracting.
pub lane_room : ℕ → ℕ → Method Mapped Bool
lane_room n reader q =
    (do w ← item q.write_pos reader; a ← item q.read_pos reader; return (ltb (w + n) (q.size + a)))
      q

pub all_room : ℕ → List ℕ → Method Mapped Bool
unfolding lane_room
all_room n [] = return true
all_room n (reader ∷ readers) = do
  room ← lane_room n reader
  let rest = all_room n readers
  if room then rest else return false

-- For one reader, or, if the id is that of no reader, for all of them.
unfoldable pub slots_available : ℕ → ℕ → Method Mapped Bool
unfolding lane_room all_room
slots_available n metadata q =
    if contains q.readers metadata then lane_room n metadata q else all_room n q.readers q

unfoldable pub write : Method Writing Bool
write s =
    (do
      peer ← unwrap_data
      room ← on_queue (slots_available 1 peer)
      require room queue_full
      t ← self
      on_queue (on_base (Routed.push t.token peer)))
      s

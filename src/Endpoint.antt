-- ===== src/Endpoint.antt =====
-- calvin/runtime/north/plugins/port/endpoint/local.py: moving tokens between two ports of one
-- runtime. The queues are any that have the operations below; `time.time()` and the scheduler are
-- an argument and a list of the events that were triggered.
pub mod Stream
pub mod Fifo
pub mod Attach
pub mod Tunnel
mod Tests
use calvin_base.Base.{
  ℕ, zero, suc, ◌+◌, ◌-◌, ◌*◌, ◌%◌, ◌≤◌, ◌<◌, ◌≡◌, refl, sym, ap, ◌∙◌, ◌≢◌, ◌⊎◌, inl, inr, Bool,
  true, false, not, ◌&&◌, ◌||◌, Option, none, some, List, [], ◌∷◌, ◌++◌, map, length, set,
  get_elem?, replicate, take, drop, contains, remove, contains_all, same_set, sort, Distinct, leb,
  ltb, ◌==◌, if◌then◌else◌, subst, tests, get_or_default, Bool-cases, Option-cases, Dict, lookup,
  insert, erase, keys, values, set_default, update, AllValues, minimum?, minimum_or, Error,
  queue_full, queue_empty, unknown_reader, unknown_writer, illegal_mapping, illegal_order,
  value_error, attribute_error, key_error, type_error, index_error, zero_division, not_implemented,
  Method, Outcome, done, raised, ◌>>=◌, ◌>>◌, return, raise, self, put, require, or_raise, item,
  elem, attempt, after, arith, ℕ_discrete,
}
use calvin_base.Token.{Token}
use calvin_base.Queue.Common.{
  CommitResponse, Disconnect, temporary, exhaust_all, exhaust_peer, exhaust_inport, exhaust_outport,
  exhaust_peer_recv, exhaust_peer_send,
}

-- What an endpoint calls on the queue of its own port and of the peer's, at the peer's id.
pub record OutQueue (S : Type 0) : Type 0 where
  pub com_peek : Method S (ℕ × Token)
  pub com_commit : ℕ → Method S (Option CommitResponse)
  pub com_cancel : ℕ → Method S CommitResponse

pub record InQueue (S : Type 0) : Type 0 where
  pub com_write : Token → ℕ → Method S CommitResponse

-- The pressure record of a LocalInEndpoint: the last numbers that found no room, with their times.
pub record Pressure : Type 0 where
  pub pressure_count : ℕ
  pub pressure : List (Option ℕ × ℕ)
  pub pressure_last : ℕ

abbrev pub pressure_length : ℕ
pressure_length = 3

unfoldable pub no_pressure : Pressure
no_pressure = record {
  pressure_count = 0;
  pressure = replicate pressure_length (none, 0);
  pressure_last = 0;
}

-- The two queues, the endpoint of the peer where it was found, the local variables of
-- `communicate` and the number of pressure events that the scheduler was told of.
pub record Link (Out In : Type 0) : Type 0 where
  pub out : Out
  pub inbound : In
  pub peer_endpoint : Option Pressure
  pub nbr : Option ℕ
  pub sent : Bool
  pub triggered : ℕ

module _ {Out In : Type 0} where
  abbrev pub on_out : {A : Type 0} → Method Out A → Method (Link Out In) A
  on_out m l = elim (m l.out) [
    | done a s ↦ done a (record l { out = s })
    | raised e s ↦ raised e (record l { out = s })
  ]

  abbrev pub on_in : {A : Type 0} → Method In A → Method (Link Out In) A
  on_in m l = elim (m l.inbound) [
    | done a s ↦ done a (record l { inbound = s })
    | raised e s ↦ raised e (record l { inbound = s })
  ]

abbrev pub same_number : Option (Option ℕ × ℕ) → ℕ → Bool
same_number none n = false
same_number (some (none, time)) n = false
same_number (some (some m, time)) n = m == n

-- One full queue is noted once: the entry before (`count - 1`, modulo the length) is compared.
unfoldable pub note_pressure : ℕ → ℕ → Pressure → Pressure × ℕ
note_pressure now n p =
    if same_number (get_elem? p.pressure ((p.pressure_count + 2) % pressure_length)) n
    then (p, 0)
    else (
      record p {
        pressure = set p.pressure (p.pressure_count % pressure_length) (some n, now);
        pressure_count = p.pressure_count + 1;
      },
      1,
    )

module _ {Out In : Type 0} (out : OutQueue Out) (inq : InQueue In) (now : ℕ) where
  -- The body of the `try`.
  unfoldable pub move_token : Method (Link Out In) (Unit {0})
  move_token l =
      (do
        (n, token) ← on_out out.com_peek
        s ← self
        put (record s { nbr = some n })
        _ ← on_in (inq.com_write token n)
        _ ← on_out (out.com_commit n)
        t ← self
        put (record t { sent = true }))
        l

  -- `except QueueFull`. The log line reads the peer's endpoint first, and raises without one.
  unfoldable pub roll_back : Method (Link Out In) (Unit {0})
  roll_back l =
      (do
        p ← or_raise l.peer_endpoint attribute_error
        n ← or_raise l.nbr type_error
        _ ← on_out (out.com_cancel n)
        s ← self
        put (record s {
          peer_endpoint = some (note_pressure now n p).0;
          triggered = s.triggered + (note_pressure now n p).1;
        }))
        l

  unfoldable pub handle : Error → Method (Link Out In) (Unit {0})
  unfolding roll_back
  handle (queue_empty r) = return tt
  handle queue_full = roll_back
  handle e = raise e

  -- `while True`, with a bound on its rounds.
  unfoldable pub move_tokens : ℕ → Method (Link Out In) (Unit {0})
  move_tokens zero l = done tt l
  move_tokens (suc fuel) l = elim (move_token l) [
    | done _ s ↦ move_tokens fuel s
    | raised e s ↦ handle e s
  ]

  pub set_last : Link Out In → Link Out In
  set_last l = elim l.peer_endpoint [
    | none ↦ l
    | some p ↦ elim l.nbr [
      | none ↦ l
      | some n ↦ record l { peer_endpoint = some (record p { pressure_last = n }) }
    ]
  ]

  unfoldable pub communicate : ℕ → Method (Link Out In) Bool
  unfolding set_last
  communicate fuel l =
      (do move_tokens fuel; s ← self; put (set_last s); return s.sent)
        (record l { nbr = none; sent = false })

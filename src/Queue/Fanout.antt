-- ===== src/Queue/Fanout.antt =====
-- calvin/runtime/north/plugins/port/queue/fanout_fifo.py: class FanoutFIFO, one ring buffer that
-- every reader reads at positions of its own. A Python set is the list of its members.
pub mod Com
pub mod Exhaust
pub mod Invariant
pub mod Log
pub mod Readers
pub mod Joins
pub mod Run
pub mod Transfer
pub mod Commit
pub mod Promises
pub mod Reads
pub mod Tests
use calvin_base.Base.{
  ℕ, zero, suc, ◌+◌, ◌-◌, ◌%◌, ◌≡◌, Bool, true, false, not, ◌&&◌, Option, none, some, List, [], ◌∷◌,
  ◌++◌, map, length, set, replicate, contains, remove, leb, ltb, ◌==◌, if◌then◌else◌,
  get_or_default, Dict, lookup, insert, erase, keys, values, update, minimum?, minimum_or, Error,
  queue_full, queue_empty, unknown_reader, value_error, attribute_error, key_error, type_error,
  index_error, Method, Outcome, done, raised, ◌>>=◌, ◌>>◌, return, raise, self, put, require,
  or_raise, item, elem, attempt,
}
use calvin_base.Token.{Token, plain, num, Repr, repr_for_coder, from_repr}
use calvin_base.Queue.Common.{
  CommitResponse, handled, unhandled, invalid, Disconnect, is_sending, is_receiving, Direction,
  in_port, out_port, PortProperties, QueueType, fanout_fifo,
}

pub record FanoutFifo : Type 0 where
  pub fifo : List Token
  pub size : ℕ  -- self.N
  pub direction : Option Direction
  pub nbr_peers : ℕ
  pub readers : List ℕ
  pub write_pos : ℕ
  pub read_pos : Dict ℕ
  pub tentative_read_pos : Dict ℕ
  pub reader_offset : Dict ℕ
  pub queue_type : QueueType
  pub writer : Option ℕ
  pub exhausted_tokens : Dict (List (ℕ × Token))
  pub termination : Dict (Disconnect × Bool)

-- One slot of the buffer stays unused.
unfoldable pub init : PortProperties → FanoutFifo
init props = record {
  fifo = replicate (get_or_default 4 props.queue_length + 1) (plain (num 0));
  size = get_or_default 4 props.queue_length + 1;
  direction = props.direction;
  nbr_peers = get_or_default 1 props.nbr_peers;
  readers = [];
  write_pos = 0;
  read_pos = [];
  tentative_read_pos = [];
  reader_offset = [];
  queue_type = fanout_fifo;
  writer = none;
  exhausted_tokens = [];
  termination = [];
}

-- What `_state` collects for a migration.
pub record State : Type 0 where
  pub queuetype : Option QueueType
  pub fifo : List Repr
  pub size : ℕ
  pub readers : List ℕ
  pub write_pos : ℕ
  pub read_pos : Dict ℕ
  pub tentative_read_pos : Dict ℕ
  pub reader_offset : Option (Dict ℕ)

unfoldable pub state : FanoutFifo → State
state q = record {
  queuetype = some q.queue_type;
  fifo = map repr_for_coder q.fifo;
  size = q.size;
  readers = q.readers;
  write_pos = q.write_pos;
  read_pos = q.read_pos;
  tentative_read_pos = q.tentative_read_pos;
  reader_offset = some q.reader_offset;
}

unfoldable pub set_state : State → FanoutFifo → FanoutFifo
set_state s q = record q {
  queue_type = get_or_default fanout_fifo s.queuetype;
  fifo = map from_repr s.fifo;
  size = s.size;
  readers = s.readers;
  write_pos = s.write_pos;
  read_pos = s.read_pos;
  tentative_read_pos = s.tentative_read_pos;
  reader_offset = get_or_default (map (λ pid. (pid, 0)) s.readers) s.reader_offset;
}

unfoldable pub add_writer : ℕ → FanoutFifo → FanoutFifo
add_writer w q = record q { writer = some w }

-- The positions that a new reader starts from.
start_at : ℕ → ℕ → Method FanoutFifo (Unit {0})
start_at reader pos q = done tt (record q {
  reader_offset = insert reader pos q.reader_offset;
  read_pos = insert reader pos q.read_pos;
  tentative_read_pos = insert reader pos q.tentative_read_pos;
})

-- `min` of no position raises, after the reader was added.
unfoldable pub add_reader : ℕ → Method FanoutFifo (Unit {0})
unfolding start_at
add_reader reader q =
    if contains q.readers reader
    then done tt q
    else (let readers = q.readers ++ reader ∷ [] in
        if ltb q.nbr_peers (length readers)
        then (do
          put (record q { readers = readers; nbr_peers = length readers })
          oldest ← or_raise (minimum? (values q.read_pos)) value_error
          start_at reader oldest)
            q
        else start_at reader 0 (record q { readers = readers }))

-- `del d[k]` for each of the three dictionaries. `nbr_peers` counts the reader that goes, so the
-- subtraction is exact for as long as there is a reader that counts.
unfoldable pub remove_reader : ℕ → Method FanoutFifo (Unit {0})
remove_reader reader q =
    if not (contains q.readers reader)
    then done tt q
    else (do
      _ ← item q.read_pos reader
      put (record q { read_pos = erase reader q.read_pos })
      _ ← item q.tentative_read_pos reader
      put (record q {
        read_pos = erase reader q.read_pos;
        tentative_read_pos = erase reader q.tentative_read_pos;
      })
      _ ← item q.reader_offset reader
      put (record q {
        read_pos = erase reader q.read_pos;
        tentative_read_pos = erase reader q.tentative_read_pos;
        reader_offset = erase reader q.reader_offset;
        readers = remove reader q.readers;
        nbr_peers = q.nbr_peers - 1;
      }))
        q

unfoldable pub is_exhausting : Option ℕ → FanoutFifo → Bool
is_exhausting none q = elim q.termination [ [] ↦ false | _ ∷ _ ↦ true ]
is_exhausting (some peer) q = elim (lookup peer q.termination) [ none ↦ false | some _ ↦ true ]

-- (a - b) % n as Python has it: not negative, also where `a` is below `b`.
abbrev pub sub_mod : ℕ → ℕ → ℕ → ℕ
sub_mod a b n = if leb b a then (a - b) % n else (n - (b - a) % n) % n

unfoldable pub oldest_read : FanoutFifo → ℕ
oldest_read q = minimum_or 0 (values q.read_pos)

-- N - ((write_pos - last_readpos) % N) - 1 >= length, without subtracting.
unfoldable pub slots_available : ℕ → FanoutFifo → Bool
unfolding oldest_read
slots_available n q = leb (n + sub_mod q.write_pos (oldest_read q) q.size + 1) q.size

-- The write of one token. `self.fifo[i] = data` raises where there is no slot `i`.
unfoldable pub write : Token → Method FanoutFifo Bool
write token q =
    (do
      require (slots_available 1 q) queue_full
      _ ← elem q.fifo (q.write_pos % q.size)
      put (record q { fifo = set q.fifo (q.write_pos % q.size) token; write_pos = q.write_pos + 1 })
      return true)
      q

unfoldable pub tokens_available : ℕ → ℕ → Method FanoutFifo Bool
tokens_available n reader q = elim q.readers [
  | [] ↦ done false q
  | _ ∷ _ ↦
      (do
        require (contains q.readers reader) (unknown_reader reader)
        t ← item q.tentative_read_pos reader
        return (leb (t + n) q.write_pos))
        q
]

-- Reading is tentative until it is committed.
unfoldable pub peek : ℕ → Method FanoutFifo Token
peek reader q =
    (do
      require (contains q.readers reader) (unknown_reader reader)
      available ← tokens_available 1 reader
      require available (queue_empty reader)
      pos ← item q.tentative_read_pos reader
      token ← elem q.fifo (pos % q.size)
      put (record q { tentative_read_pos = insert reader (pos + 1) q.tentative_read_pos })
      return token)
      q

unfoldable pub cancel : ℕ → Method FanoutFifo (Unit {0})
cancel reader q =
    (do
      pos ← item q.read_pos reader
      put (record q { tentative_read_pos = insert reader pos q.tentative_read_pos }))
      q

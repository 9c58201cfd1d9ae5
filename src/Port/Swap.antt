-- ===== src/Port/Swap.antt =====
-- Port.set_queue over FanoutFIFO: what becomes of the tokens of a port that was migrated.
use calvin_base.Base.{
  Outcome, ℕ, ◌≡◌, refl, ap, true, false, some, List, not_implemented, done, raised,
}
use calvin_base.Token.{Token}
use calvin_base.Queue.Fanout.{FanoutFifo, State, state, set_state}
use calvin_base.Queue.Fanout.Invariant.{Follows}
use calvin_base.Queue.Fanout.Run.{Holds}
use calvin_base.Queue.Fanout.Promises.{set_state-state}
use calvin_base.Port.{QueueSlot, migrated, held, is_type, set_queue}

abbrev pub set_fifo :
    FanoutFifo → QueueSlot FanoutFifo State → Outcome (QueueSlot FanoutFifo State) (Unit {0})
set_fifo = set_queue (λ q. some q.queue_type) (λ s. s.queuetype) set_state

-- The new queue with what was migrated from the old one.
abbrev pub restored : FanoutFifo → FanoutFifo → FanoutFifo
restored q p = record p {
  queue_type = q.queue_type;
  fifo = q.fifo;
  size = q.size;
  readers = q.readers;
  write_pos = q.write_pos;
  read_pos = q.read_pos;
  tentative_read_pos = q.tentative_read_pos;
  reader_offset = q.reader_offset;
}

restored-Follows : (q p : FanoutFifo) (r : ℕ) → Follows q r → Follows (restored q p) r
restored-Follows q p r f = record {
  offset = f.offset;
  read = f.read;
  tentative = f.tentative;
  has_offset = f.has_offset;
  has_read = f.has_read;
  has_tentative = f.has_tentative;
  offset_le = f.offset_le;
  read_le = f.read_le;
  tentative_le = f.tentative_le;
}

restored-Holds : (log : List Token) (q p : FanoutFifo) → Holds log q → Holds log (restored q p)
restored-Holds log q p h = record {
  represents = h.represents;
  valid = record {
    positive = h.valid.positive;
    near = h.valid.near;
    distinct = h.valid.distinct;
    follows = λ r m. restored-Follows q p r (h.valid.follows r m);
  };
}

set_migrated :
    (q new : FanoutFifo)
    → is_type (some q.queue_type) (some new.queue_type) ≡ true
    → set_fifo new (migrated (state q)) ≡ done tt (held (restored q new))
unfolding set_queue state
set_migrated q new same = rw same (ap (λ s. done tt (held s)) (set_state-state q new))

-- A queue that holds a log and is migrated: the new queue that the port is given holds the same log,
-- with the readers at the positions where they were. The queues that the port is given at later
-- connections, of the same type, change nothing. A queue of another type raises NotImplementedError,
-- at first and later, and the port keeps what it had.
pub set_queue-Holds :
    (log : List Token) (q new : FanoutFifo)
    → Holds log q
    → is_type (some q.queue_type) (some new.queue_type) ≡ true
    → (s : FanoutFifo) × (set_fifo new (migrated (state q)) ≡ done tt (held s))
      × Holds log s
      × (s.read_pos ≡ q.read_pos)
      × (s.tentative_read_pos ≡ q.tentative_read_pos)
      × ((later : FanoutFifo)
          → is_type (some q.queue_type) (some later.queue_type) ≡ true
          → set_fifo later (held s) ≡ done tt (held s))
      × ((other : FanoutFifo)
          → is_type (some q.queue_type) (some other.queue_type) ≡ false
          → (set_fifo other (migrated (state q)) ≡ raised not_implemented (migrated (state q)))
            × (set_fifo other (held s) ≡ raised not_implemented (held s)))
unfolding set_queue state
set_queue-Holds log q new h same = (
  restored q new,
  set_migrated q new same,
  restored-Holds log q new h,
  refl,
  refl,
  λ later e. rw e refl,
  λ other e. (rw e refl, rw e refl),
)

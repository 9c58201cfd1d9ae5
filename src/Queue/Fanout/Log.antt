-- ===== src/Queue/Fanout/Log.antt =====
-- FanoutFIFO against what it promises: the buffer holds the end of the sequence of all tokens that
-- were ever written, and a reader's position is an index into that sequence.
use calvin_base.Base.{
  ◌+◌, ◌%◌, ◌≡◌, true, List, [], set, if◌then◌else◌, get_or_default, queue_full, done, raised,
  arith,
}
use calvin_base.Base.{Stores, replicate-Stores, slot-some}
use calvin_base.Token.{Token, plain, num}
use calvin_base.Queue.Common.{PortProperties}
use calvin_base.Queue.Fanout.{FanoutFifo, init, write, slots_available}

abbrev pub Represents : List Token → FanoutFifo → Type 0
Represents log q = Stores log q.fifo q.write_pos q.size

pub init-Represents : (props : PortProperties) → Represents [] (init props)
unfolding init
init-Represents props = replicate-Stores (get_or_default 4 props.queue_length) (plain (num 0))

abbrev pub written : FanoutFifo → Token → FanoutFifo
written q token = record q {
  fifo = set q.fifo (q.write_pos % q.size) token;
  write_pos = q.write_pos + 1;
}

-- A write that finds room succeeds, and one that does not raises and changes nothing.
pub write_cases :
    (log : List Token) (q : FanoutFifo) (token : Token)
    → Represents log q
    → write token q
      ≡ (if slots_available 1 q then done true (written q token) else raised queue_full q)
unfolding write
write_cases log q token r =
    let (old, e) = slot-some log q.fifo q.write_pos q.size q.write_pos r in ground arith

-- ===== src/Queue/Fanout/Run.antt =====
-- FanoutFIFO: what any sequence of calls does to a well-formed queue.
use calvin_base.Base.{
  ℕ, ◌≤◌, ◌<◌, ◌≡◌, ◌∙◌, true, false, List, [], ◌∷◌, ◌++◌, length, queue_full, done, raised, arith,
}
use calvin_base.Base.{set-Stores}
use calvin_base.Token.{Token}
use calvin_base.Queue.Common.{handled, unhandled, invalid}
use calvin_base.Queue.Fanout.{FanoutFifo, write, slots_available}
use calvin_base.Queue.Fanout.Com.{com_write}
use calvin_base.Queue.Fanout.Log.{Represents, written, write_cases}
use calvin_base.Queue.Fanout.Invariant.{
  IsValid, Follows, moved, moved-IsValid, slots_available-room,
}

-- A queue that holds the end of a log, with positions in order.
pub record Holds (log : List Token) (q : FanoutFifo) : Type 0 where
  pub represents : Represents log q
  pub valid : IsValid q

written-Follows :
    (q : FanoutFifo) (token : Token) (r : ℕ) → Follows q r → Follows (written q token) r
written-Follows q token r f = record {
  offset = f.offset;
  read = f.read;
  tentative = f.tentative;
  has_offset = f.has_offset;
  has_read = f.has_read;
  has_tentative = f.has_tentative;
  offset_le = f.offset_le;
  read_le = f.read_le;
  tentative_le = omega (arith, f.tentative_le);
}

written-Holds :
    (log : List Token) (q : FanoutFifo) (token : Token)
    → Holds log q
    → slots_available 1 q ≡ true
    → Holds (log ++ token ∷ []) (written q token)
written-Holds log q token h s = record {
  represents = set-Stores log q.fifo q.write_pos q.size token h.represents;
  valid = record {
    positive = h.valid.positive;
    near = slots_available-room q 1 h.valid s;
    distinct = h.valid.distinct;
    follows = λ r m. written-Follows q token r (h.valid.follows r m);
  };
}

-- A write adds its token to the log, and keeps every token that some reader has not committed; if
-- that is not possible it raises `QueueFull` and changes nothing.
pub write-Holds :
    (log : List Token) (q : FanoutFifo) (token : Token)
    → Holds log q
    → (slots_available 1 q ≡ true
        → (write token q ≡ done true (written q token))
          × Holds (log ++ token ∷ []) (written q token))
      × (slots_available 1 q ≡ false → write token q ≡ raised queue_full q)
write-Holds log q token h =
    let e = write_cases log q token h.represents in
    (λ s. (e ∙ rw s, written-Holds log q token h s), λ s. e ∙ rw s)

-- Exactly the token with the next number is written.
pub com_write-Holds :
    (log : List Token) (q : FanoutFifo) (token : Token) (nbr : ℕ)
    → Holds log q
    → (nbr ≡ length log
        → slots_available 1 q ≡ true
        → (com_write token nbr q ≡ done handled (written q token))
          × Holds (log ++ token ∷ []) (written q token))
      × (nbr ≡ length log
          → slots_available 1 q ≡ false
          → com_write token nbr q ≡ raised queue_full q)
      × (nbr < length log → com_write token nbr q ≡ done unhandled q)
      × (length log < nbr → com_write token nbr q ≡ done invalid q)
unfolding com_write
com_write-Holds log q token nbr h =
    let (room, full) = write-Holds log q token h in
    let e = h.represents.written in
    (
      λ n s. (ground (arith, room s, e), (room s).1),
      λ n s. ground (arith, full s, e),
      λ n. ground (arith, e),
      λ n. ground (arith, e),
    )

pub moved-Holds :
    (log : List Token) (q : FanoutFifo) (r read tentative : ℕ) (f : Follows q r)
    → Holds log q
    → f.read ≤ read
    → read ≤ tentative
    → tentative ≤ q.write_pos
    → Holds log (moved q r read tentative)
moved-Holds log q r read tentative f h a b c = record {
  represents = h.represents;
  valid = moved-IsValid q r read tentative f h.valid a b c;
}

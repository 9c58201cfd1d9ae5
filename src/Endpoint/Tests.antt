-- ===== src/Endpoint/Tests.antt =====
-- LocalOutEndpoint.communicate between two FanoutFIFO queues.
use calvin_base.Base.{
  ◌+◌, ◌≡◌, refl, ◌⊎◌, false, not, Option, some, List, [], ◌∷◌, ◌++◌, length, is_empty, done, arith,
}
use calvin_base.Base.{false}
use calvin_base.Token.{Token}
use calvin_base.Queue.Fanout.{FanoutFifo, slots_available}
use calvin_base.Queue.Fanout.Tests.{
  token_a, one_reader, one_reader-Holds, one_token, one_token-Holds, one_token-Follows,
}
use calvin_base.Endpoint.{Link, Pressure, communicate}
use calvin_base.Endpoint.Stream.{InStep, communicate-delivers}
use calvin_base.Endpoint.Fifo.{fifo_out, fifo_in, fifo_gives, fifo_takes}

abbrev quiet : Pressure
quiet = record {
  pressure_count = 0;
  pressure = (Option.none, 0) ∷ (Option.none, 0) ∷ (Option.none, 0) ∷ [];
  pressure_last = 0;
}

-- The out-port's queue holds a token for the reader 7; the in-port's queue is empty.
abbrev linked : Link FanoutFifo FanoutFifo
linked = record {
  out = one_token;
  inbound = one_reader;
  peer_endpoint = some quiet;
  nbr = Option.none;
  sent = false;
  triggered = 0;
}

linked-InStep : InStep (fifo_out 7) fifo_in 5 (fifo_gives 7) fifo_takes 0 (token_a ∷ []) [] linked
linked-InStep = record {
  ready = record {
    log = token_a ∷ [];
    holds = one_token-Holds;
    member = refl;
    follows = one_token-Follows;
    committed = refl;
    numbered = refl;
    rest = refl;
  };
  accepts = (one_reader-Holds, refl);
}

communicate-delivers_example :
    (gone rest : List Token) × (v : Link FanoutFifo FanoutFifo) × ((token_a ∷ []) ≡ gone ++ rest)
    × (communicate (fifo_out 7) fifo_in 5 2 linked ≡ done (not (is_empty gone)) v)
    × InStep (fifo_out 7) fifo_in 5 (fifo_gives 7) fifo_takes (0 + length gone) rest gone v
    × ((rest ≡ []) ⊎ (slots_available 1 v.inbound ≡ false))
communicate-delivers_example =
    communicate-delivers (fifo_out 7) fifo_in 5 (fifo_gives 7) fifo_takes 0 (token_a ∷ []) [] 2
      linked quiet (omega arith) refl linked-InStep

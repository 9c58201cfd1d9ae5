-- ===== src/Endpoint/Tunnel/Refusals.antt =====
-- TunnelOutEndpoint on a FanoutFIFO queue: a message that is refused.
use calvin_base.Base.{
  ℕ, ◌+◌, ◌≤◌, ◌<◌, ◌≡◌, ◌⊎◌, inl, inr, false, List, attribute_error, done, raised, arith,
}
use calvin_base.Base.{>>=_done, >>=_raised}
use calvin_base.Token.{Token}
use calvin_base.Queue.Common.{handled}
use calvin_base.Queue.Fanout.{FanoutFifo}
use calvin_base.Queue.Fanout.Com
use calvin_base.Queue.Fanout.Invariant.{Follows}
use calvin_base.Queue.Fanout.Run.{Holds}
use calvin_base.Queue.Fanout.Reads.{tentatively}
use calvin_base.Queue.Fanout.Promises.{com_cancel_lem}
use calvin_base.Endpoint.Tunnel.{TunnelOut, on_queue, reply_nack, below}
use calvin_base.Endpoint.Tunnel.Sends.{fifo_tunnel, further-Holds}

-- A refusal of a number that was sent and is not committed: the reads from that number on are taken
-- back, so that it is the next to be sent, the sending goes on one token at a time, and later
-- acknowledgements are forgotten. Any number that is not yet sent makes the endpoint raise
-- `AttributeError`.
pub reply_nack_lem :
    (r : ℕ) (log : List Token) (nbr : ℕ) (o : TunnelOut FanoutFifo) (f : Follows o.queue r)
    → Holds log o.queue
    → f.read ≤ nbr + f.offset
    → ((nbr + f.offset < f.tentative)
        × (reply_nack (fifo_tunnel r) nbr o
            ≡ done tt (record o {
              queue = tentatively o.queue r (nbr + f.offset);
              sequencenbrs_acked = below nbr o.sequencenbrs_acked;
              bulk = false;
              tx_nack = o.tx_nack + 1;
            }))
        × Holds log (tentatively o.queue r (nbr + f.offset)))
      ⊎ ((f.tentative ≤ nbr + f.offset)
          × (reply_nack (fifo_tunnel r) nbr o
              ≡ raised attribute_error (record o { bulk = false; tx_nack = o.tx_nack + 1 })))
unfolding reply_nack
reply_nack_lem r log nbr o f h read =
    let told : TunnelOut FanoutFifo = record o { bulk = false; tx_nack = o.tx_nack + 1 } in
    elim (com_cancel_lem o.queue r nbr f) [
      | inl (sent, e) ↦
          let known : on_queue (Com.com_cancel r nbr) told
              ≡ done handled (record told { queue = tentatively o.queue r (nbr + f.offset) }) =
            ground (arith, e) in
          inl (
            sent,
            >>=_done (on_queue (Com.com_cancel r nbr)) _ told known,
            further-Holds log o.queue r (nbr + f.offset) f h read (omega (arith, f.tentative_le)),
          )
      | inr (unsent, e) ↦
          let known : on_queue (Com.com_cancel r nbr) told ≡ raised attribute_error told =
            ground (arith, e) in
          inr (unsent, >>=_raised (on_queue (Com.com_cancel r nbr)) _ told known)
    ]

-- ===== src/Endpoint/Tunnel/Receives.antt =====
-- TunnelInEndpoint.recv_token on a FanoutFIFO queue: which tokens are taken, and what is answered.
use calvin_base.Base.{
  ℕ, ◌+◌, ◌<◌, ◌≡◌, refl, ◌⊎◌, inl, inr, true, false, List, [], ◌∷◌, ◌++◌, length, done, after,
}
use calvin_base.Token.{Token, Repr, from_repr}
use calvin_base.Queue.Fanout.{FanoutFifo, slots_available}
use calvin_base.Queue.Fanout.Run.{Holds}
use calvin_base.Queue.Fanout.Promises.{com_write_lem}
use calvin_base.Endpoint.Fifo.{fifo_in}
use calvin_base.Queue.Fanout.Log.{written}
use calvin_base.Endpoint.{note_pressure}
use calvin_base.Endpoint.Tunnel.{TunnelIn, recv_token, answer}

-- A message with the next number is added to the log of the queue and acknowledged, if there is a
-- free slot, and refused if there is none; one that was received before is acknowledged again and
-- not written again; one that comes too early is refused. The queue changes in the first case only,
-- the answer is the last that was sent, and nothing is raised.
pub recv_token_lem :
    (log : List Token) (now nbr : ℕ) (payload : Repr) (i : TunnelIn FanoutFifo)
    → Holds log i.queue
    → (s : TunnelIn FanoutFifo) × (recv_token fifo_in now payload nbr i ≡ done tt s)
      × (((nbr ≡ length log)
            × (slots_available 1 i.queue ≡ true)
            × Holds (log ++ from_repr payload ∷ []) s.queue
            × (s.replies ≡ i.replies ++ (nbr, true) ∷ []))
          ⊎ ((nbr ≡ length log)
              × (slots_available 1 i.queue ≡ false)
              × (s.queue ≡ i.queue)
              × (s.replies ≡ i.replies ++ (nbr, false) ∷ []))
          ⊎ ((nbr < length log) × (s.queue ≡ i.queue) × (s.replies ≡ i.replies ++ (nbr, true) ∷ []))
          ⊎ ((length log < nbr)
              × (s.queue ≡ i.queue)
              × (s.replies ≡ i.replies ++ (nbr, false) ∷ [])))
unfolding recv_token answer
recv_token_lem log now nbr payload i h =
    let (p, events) = note_pressure now nbr i.pressure in
    let q = written i.queue (from_repr payload) in
    let taken : TunnelIn FanoutFifo = record i { queue = q; tunnel_rx = i.tunnel_rx + 1 } in
    let pressed : TunnelIn FanoutFifo = record i {
      pressure = p;
      triggered = i.triggered + events;
    } in
    elim (com_write_lem log i.queue (from_repr payload) nbr h) [
      | inl (e, room, w, holds) ↦ (
        after (answer fifo_in now nbr true taken),
        rw (w, recv_token) refl,
        inl (e, room, holds, refl),
      )
      | inr (inl (e, full, w)) ↦ (
        after (answer fifo_in now nbr false pressed),
        rw (w, recv_token) refl,
        inr (inl (e, full, refl, refl)),
      )
      | inr (inr (inl (old, w))) ↦ (
        after (answer fifo_in now nbr true i),
        rw (w, recv_token) refl,
        inr (inr (inl (old, refl, refl))),
      )
      | inr (inr (inr (early, w))) ↦ (
        after (answer fifo_in now nbr false i),
        rw (w, recv_token) refl,
        inr (inr (inr (early, refl, refl))),
      )
    ]

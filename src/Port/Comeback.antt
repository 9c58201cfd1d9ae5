-- ===== src/Port/Comeback.antt =====
-- An in-port over FanoutFIFO whose only peer leaves for good, and a peer that comes after it.
use calvin_base.Base.{
  ℕ, ◌≡◌, refl, true, false, none, some, List, [], ◌∷◌, ◌++◌, contains, ◌==◌, Bool-cases, inl, inr,
  done, ◌>>=◌, return, arith,
}
use calvin_base.Queue.Common.{Disconnect, PortProperties, in_port}
use calvin_base.Queue.Fanout.{FanoutFifo, add_writer, is_exhausting}
use calvin_base.Queue.Fanout.Exhaust
use calvin_base.Queue.Fanout.Readers.{add_reader_known}
use calvin_base.Endpoint.Attach.{fifo_queue, in_attached, in_detached}
use calvin_base.Port.{
  Endpoint, PortCalls, Port, Notice, did_disconnect, attach_endpoint, disconnect, is_connected,
  detach_all,
}

-- The calls of an in-port with the id `port`; FanoutFIFO ignores the properties of the peer.
abbrev pub in_calls : ℕ → PortProperties → PortCalls FanoutFifo
in_calls port properties = record {
  attached = λ e. in_attached fifo_queue port properties e.peer_id properties;
  detached = λ m e. in_detached fifo_queue m e.peer_id;
  get_peers = Exhaust.get_peers;
  is_exhausting = is_exhausting none;
  set_exhausted_tokens = λ tokens. Exhaust.set_exhausted_tokens tokens >>= λ n. return tt;
}

module _ (port : ℕ) (properties : PortProperties) where
  abbrev calls : PortCalls FanoutFifo
  calls = in_calls port properties

  -- A port with one endpoint, and no more peers expected; and the same after the peer has left.
  abbrev pub only_peer : FanoutFifo → Endpoint → List Notice → Port FanoutFifo
  only_peer q e notices = record {
    direction = in_port;
    queue = q;
    nbr_peers = 1;
    endpoints = e ∷ [];
    notices = notices;
  }

  abbrev pub left_alone : FanoutFifo → List Notice → Port FanoutFifo
  left_alone q notices = record {
    direction = in_port;
    queue = q;
    nbr_peers = 0;
    endpoints = [];
    notices = notices ++ did_disconnect ∷ [];
  }

  last_leaves :
      (q : FanoutFifo) (e : Endpoint) (notices : List Notice)
      → is_exhausting none q ≡ false
      → disconnect calls none Disconnect.terminate (only_peer q e notices)
        ≡ done (e ∷ []) (left_alone q notices)
  unfolding disconnect detach_all in_detached is_exhausting
  last_leaves q e notices x = elim (Bool-cases (e.id == e.id)) [
    | inl h ↦ rw (h, x) refl
    | inr h ↦ absurd (ground arith)
  ]

  other_comes :
      (q : FanoutFifo) (e : Endpoint) (notices : List Notice)
      → q.direction ≡ some in_port
      → contains q.readers port ≡ true
      → attach_endpoint calls e (left_alone q notices)
        ≡ done none (record (only_peer (add_writer e.peer_id q) e notices) {
          notices = notices ++ did_disconnect ∷ [];
        })
  unfolding attach_endpoint in_attached add_writer Exhaust.get_peers
  other_comes q e notices d r = ground (arith, add_reader_known q port r, d)

  -- An in-port over FanoutFIFO, not exhausting, whose only peer is disconnected for good, tells its
  -- owner did_disconnect. The endpoint that is attached after that makes it connected again, if the
  -- endpoint is, but the owner does not hear of it: the port takes the peer for a replica, since
  -- there is one more than it still expects.
  pub comeback_untold :
      (q : FanoutFifo) (old new : Endpoint) (notices : List Notice)
      → q.direction ≡ some in_port
      → contains q.readers port ≡ true
      → is_exhausting none q ≡ false
      → (gone s : Port FanoutFifo) × (disconnect calls none Disconnect.terminate
            (only_peer q old notices)
          ≡ done (old ∷ []) gone)
        × (attach_endpoint calls new gone ≡ done none s)
        × (is_connected s ≡ new.is_connected)
        × (s.notices ≡ notices ++ did_disconnect ∷ [])
  comeback_untold q old new notices d r x = (
    left_alone q notices,
    record (only_peer (add_writer new.peer_id q) new notices) {
      notices = notices ++ did_disconnect ∷ [];
    },
    last_leaves q old notices x,
    other_comes q new notices d r,
    ground arith,
    refl,
  )

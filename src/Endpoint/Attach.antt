-- ===== src/Endpoint/Attach.antt =====
-- LocalInEndpoint and LocalOutEndpoint of endpoint/local.py in calvin/runtime/north/plugins/port:
-- what attaching and detaching them does to the queue of the port.
use calvin_base.Base.{
  ℕ, ◌≡◌, refl, sym, ◌∙◌, false, Option, none, some, List, contains, subst, lookup, Method, done,
  ◌>>=◌, ◌>>◌, return, arith,
}
use calvin_base.Base.{lookup-insert, >>=_done}
use calvin_base.Token.{Token}
use calvin_base.Queue.Common.{
  Disconnect, temporary, terminate, exhaust_all, exhaust_peer, exhaust_inport, exhaust_outport,
  exhaust_peer_recv, exhaust_peer_send, PortProperties,
}
use calvin_base.Queue.Fanout
use calvin_base.Queue.Fanout.{FanoutFifo}
use calvin_base.Queue.Fanout.Exhaust
use calvin_base.Queue.Fanout.Invariant.{IsValid, Follows}
use calvin_base.Queue.Fanout.Run.{Holds, moved-Holds}
use calvin_base.Queue.Fanout.Reads.{tentatively, tentatively-moved, cancel_lem}
use calvin_base.Queue.Fanout.Promises.{remove_reader-IsValid}

-- What an endpoint calls on the queue of its port when it is attached or detached.
pub record PortQueue (S : Type 0) : Type 0 where
  pub add_reader : ℕ → PortProperties → Method S (Unit {0})
  pub add_writer : ℕ → PortProperties → Method S (Unit {0})
  pub remove_reader : ℕ → Method S (Unit {0})
  pub remove_writer : ℕ → Method S (Unit {0})
  pub cancel : ℕ → Method S (Unit {0})
  pub exhaust : ℕ → Disconnect → Method S (List (ℕ × Token))

module _ {S : Type 0} (queue : PortQueue S) where
  unfoldable pub in_attached : ℕ → PortProperties → ℕ → PortProperties → Method S (Unit {0})
  in_attached port properties peer peer_properties =
      queue.add_reader port properties >> queue.add_writer peer peer_properties

  unfoldable pub out_attached : ℕ → PortProperties → ℕ → PortProperties → Method S (Unit {0})
  out_attached port properties peer peer_properties =
      queue.add_reader peer peer_properties >> queue.add_writer port properties

  -- The remaining tokens of the port, where there are any to be handed over.
  unfoldable pub in_detached : Disconnect → ℕ → Method S (Option (List (ℕ × Token)))
  in_detached terminate peer = queue.remove_writer peer >> return Option.none
  in_detached exhaust_all peer = queue.exhaust peer exhaust_inport >>= λ ts. return (some ts)
  in_detached exhaust_peer peer = queue.exhaust peer exhaust_peer_recv >>= λ ts. return (some ts)
  in_detached mode peer = return Option.none

  unfoldable pub out_detached : Disconnect → ℕ → Method S (Option (List (ℕ × Token)))
  out_detached temporary peer = queue.cancel peer >> return Option.none
  out_detached terminate peer =
      queue.cancel peer >> (queue.remove_reader peer >> return Option.none)
  out_detached exhaust_all peer = queue.exhaust peer exhaust_outport >>= λ ts. return (some ts)
  out_detached exhaust_peer peer = queue.exhaust peer exhaust_peer_send >>= λ ts. return (some ts)
  out_detached mode peer = return Option.none

-- FanoutFIFO ignores the properties of a peer, and the removal of its writer.
abbrev pub fifo_queue : PortQueue FanoutFifo
fifo_queue = record {
  add_reader = λ reader properties. Fanout.add_reader reader;
  add_writer = λ writer properties q. done tt (Fanout.add_writer writer q);
  remove_reader = Fanout.remove_reader;
  remove_writer = λ writer q. done tt q;
  cancel = Fanout.cancel;
  exhaust = Exhaust.exhaust;
}

-- Detaching the reader of an out-port's FanoutFIFO queue: for a migration its reads go back to what
-- it committed, and the queue holds the same log; for good it is removed, and the queue stays
-- well-formed. Neither raises, and no tokens are handed over.
pub out_detached_lem :
    (log : List Token) (q : FanoutFifo) (r : ℕ) (f : Follows q r)
    → Holds log q
    → ((s : FanoutFifo) × (out_detached fifo_queue temporary r q ≡ done none s)
        × Holds log s
        × (lookup r s.tentative_read_pos ≡ some f.read)
        × (s.read_pos ≡ q.read_pos))
      × ((s : FanoutFifo) × (out_detached fifo_queue terminate r q ≡ done none s)
          × IsValid s
          × (contains s.readers r ≡ false))
unfolding out_detached
out_detached_lem log q r f h =
    let back = tentatively q r f.read in
    let holds : Holds log back =
      subst (Holds log) (sym (tentatively-moved q r f.read f.read f.has_read)) (
        moved-Holds log q r f.read f.read f h (omega arith) (omega arith)
          (omega (arith, f.read_le, f.tentative_le))) in
    let (s, e, valid, gone) = remove_reader-IsValid back r holds.valid in
    (
      (
        back,
        >>=_done (Fanout.cancel r) _ q (cancel_lem q r f),
        holds,
        ground (arith, lookup-insert r r f.read q.tentative_read_pos),
        refl,
      ),
      (
        s,
        >>=_done (Fanout.cancel r) _ q (cancel_lem q r f)
            ∙ >>=_done (Fanout.remove_reader r) _ back e,
        valid,
        gone,
      ),
    )

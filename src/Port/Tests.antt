-- ===== src/Port/Tests.antt =====
-- The theorems on ports at ports with one endpoint.
use calvin_base.Base.{
  ℕ, ◌+◌, ◌≡◌, refl, true, false, none, some, [], ◌∷◌, raised, done, not_implemented, arith,
}
use calvin_base.Queue.Common.{Disconnect, PortProperties, in_port, out_port, fanout_fifo}
use calvin_base.Queue.Fanout.{FanoutFifo, state, is_exhausting}
use calvin_base.Queue.Fanout.Run.{Holds}
use calvin_base.Queue.Fanout.Tests.{
  token_a, one_reader, one_reader-Holds, one_token, one_token-Holds,
}
use calvin_base.Port.{
  Endpoint, Port, migrated, held, is_type, did_connect, did_disconnect, attach_endpoint, disconnect,
  is_connected,
}
use calvin_base.Port.Wired.{IsWired, Counted, mode, attach_endpoint-IsWired}
use calvin_base.Port.Disconnects.{disconnect-IsWired}
use calvin_base.Port.Fifo.{out_calls, fifo_tracks}
use calvin_base.Port.Comeback.{in_calls, only_peer, comeback_untold}
use calvin_base.Port.Swap.{set_fifo, set_queue-Holds}

abbrev endpoint : ℕ → ℕ → Endpoint
endpoint id peer_id = record {
  id = id;
  peer_id = peer_id;
  is_connected = true;
  remaining_tokens = none;
}

abbrev no_properties : PortProperties
no_properties = record {
  routing = none;
  queue_length = none;
  nbr_peers = none;
  direction = none;
  tag = none;
}

abbrev new_queue : FanoutFifo
new_queue = record one_reader {
  direction = some out_port;
  readers = [];
  read_pos = [];
  tentative_read_pos = [];
  reader_offset = [];
}

abbrev new_port : Port FanoutFifo
new_port = record {
  direction = out_port;
  queue = new_queue;
  nbr_peers = 1;
  endpoints = [];
  notices = [];
}

new_port-IsWired : IsWired (fifo_tracks 3 no_properties) new_port
new_port-IsWired = record {
  sound = (
    record { positive = omega arith; near = tt; distinct = tt; follows = λ r h. absurd (cc) },
    refl,
  );
  objects = tt;
  distinct = tt;
  known = λ n h. absurd (cc);
  expected = omega arith;
}

attach_endpoint-IsWired_example :
    (q : Port FanoutFifo) × (attach_endpoint (out_calls 3 no_properties) (endpoint 1 7) new_port
      ≡ done none q)
    × IsWired (fifo_tracks 3 no_properties) q
    × (q.endpoints ≡ endpoint 1 7 ∷ [])
    × Counted (fifo_tracks 3 no_properties) new_port q
attach_endpoint-IsWired_example =
    attach_endpoint-IsWired (fifo_tracks 3 no_properties) (endpoint 1 7) new_port new_port-IsWired
      refl (λ h. absurd (omega arith), λ h. omega arith)

-- A port whose queue has the reader 7.
abbrev wired_port : Port FanoutFifo
wired_port = record new_port {
  queue = record one_reader { direction = some out_port };
  endpoints = endpoint 1 7 ∷ [];
}

wired_port-IsWired : IsWired (fifo_tracks 3 no_properties) wired_port
wired_port-IsWired = record {
  sound = (
    record {
      positive = omega arith;
      near = ((omega arith, omega arith), tt);
      distinct = (refl, tt);
      follows = λ r m.
          let f = one_reader-Holds.valid.follows r m in
          record {
            offset = f.offset;
            read = f.read;
            tentative = f.tentative;
            has_offset = f.has_offset;
            has_read = f.has_read;
            has_tentative = f.has_tentative;
            offset_le = f.offset_le;
            read_le = f.read_le;
            tentative_le = f.tentative_le;
          };
    },
    refl,
  );
  objects = (refl, tt);
  distinct = (refl, tt);
  known = λ n h. h;
  expected = omega arith;
}

disconnect-IsWired_example :
    (q : Port FanoutFifo) × (disconnect
        (out_calls 3 no_properties)
        (some (7 ∷ []))
        (mode true)
        wired_port
      ≡ done (endpoint 1 7 ∷ []) q)
    × IsWired (fifo_tracks 3 no_properties) q
    × (q.endpoints ≡ [])
    × (q.nbr_peers + 1 ≡ 1)
    × (q.notices ≡ did_disconnect ∷ [])
disconnect-IsWired_example =
    disconnect-IsWired (fifo_tracks 3 no_properties) true (some (7 ∷ [])) wired_port
      wired_port-IsWired

abbrev in_queue : FanoutFifo
in_queue = record one_reader { direction = some in_port }

in_queue_quiet : is_exhausting none in_queue ≡ false
unfolding is_exhausting
in_queue_quiet = refl

comeback_untold_example :
    (gone s : Port FanoutFifo) × (disconnect
        (in_calls 7 no_properties)
        none
        Disconnect.terminate
        (only_peer 7 no_properties in_queue (endpoint 1 4) (did_connect ∷ []))
      ≡ done (endpoint 1 4 ∷ []) gone)
    × (attach_endpoint (in_calls 7 no_properties) (endpoint 2 5) gone ≡ done none s)
    × (is_connected s ≡ true)
    × (s.notices ≡ did_connect ∷ did_disconnect ∷ [])
comeback_untold_example =
    comeback_untold 7 no_properties in_queue (endpoint 1 4) (endpoint 2 5) (did_connect ∷ []) refl
      refl in_queue_quiet

set_queue-Holds_example :
    (s : FanoutFifo) × (set_fifo one_reader (migrated (state one_token)) ≡ done tt (held s))
    × Holds (token_a ∷ []) s
    × (s.read_pos ≡ (7, 0) ∷ [])
    × (s.tentative_read_pos ≡ (7, 0) ∷ [])
    × ((later : FanoutFifo)
        → is_type (some fanout_fifo) (some later.queue_type) ≡ true
        → set_fifo later (held s) ≡ done tt (held s))
    × ((other : FanoutFifo)
        → is_type (some fanout_fifo) (some other.queue_type) ≡ false
        → (set_fifo other (migrated (state one_token))
            ≡ raised not_implemented (migrated (state one_token)))
          × (set_fifo other (held s) ≡ raised not_implemented (held s)))
set_queue-Holds_example = set_queue-Holds (token_a ∷ []) one_token one_reader one_token-Holds refl

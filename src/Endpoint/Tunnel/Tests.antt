-- ===== src/Endpoint/Tunnel/Tests.antt =====
-- Tunnel endpoints: the theorems at the queues of the local endpoints' tests.
use calvin_base.Base.{ℕ, ◌<◌, ◌≡◌, refl, ◌⊎◌, true, false, Option, [], ◌∷◌, done, arith}
use calvin_base.Token.{Repr, repr_for_coder, from_repr}
use calvin_base.Queue.Fanout.{FanoutFifo, slots_available}
use calvin_base.Queue.Fanout.Run.{Holds}
use calvin_base.Queue.Fanout.Reads.{tentatively}
use calvin_base.Queue.Fanout.Tests.{
  token_a, token_b, one_token, one_token-Holds, one_token-Follows, one_read,
}
use calvin_base.Endpoint.Fifo.{fifo_in}
use calvin_base.Endpoint.Tunnel.{TunnelOut, TunnelIn, communicate, recv_token}
use calvin_base.Endpoint.Tunnel.Receives.{recv_token_lem}
use calvin_base.Endpoint.Tunnel.Sends.{fifo_tunnel, read_to, communicate_bulk}

abbrev sending : TunnelOut FanoutFifo
sending = record {
  queue = one_token;
  sequencenbrs_acked = [];
  bulk = true;
  messages = [];
  tx_ack = 0;
  tx_nack = 0;
  tx_throttle = 0;
}

communicate_bulk_example :
    (communicate (fifo_tunnel 7) 2 sending
      ≡ done true (read_to 7 1 sending ((0, repr_for_coder token_a) ∷ [])))
    × Holds (token_a ∷ []) (tentatively one_token 7 1)
communicate_bulk_example =
    communicate_bulk (token_a ∷ []) 7 (token_a ∷ []) 2 sending one_token-Follows refl
      one_token-Holds refl refl (omega arith)

-- The token was sent, and is refused.
abbrev sent_one : TunnelOut FanoutFifo
sent_one = record sending { queue = one_read; sequencenbrs_acked = 3 ∷ [] }

abbrev receiving : TunnelIn FanoutFifo
receiving = record {
  queue = one_token;
  pressure = record {
    pressure_count = 0;
    pressure = (Option.none, 0) ∷ (Option.none, 0) ∷ (Option.none, 0) ∷ [];
    pressure_last = 0;
  };
  replies = [];
  tunnel_rx = 0;
  triggered = 0;
}

abbrev payload : Repr
payload = repr_for_coder token_b

recv_token_example :
    (s : TunnelIn FanoutFifo) × (recv_token fifo_in 5 payload 1 receiving ≡ done tt s)
    × (((◌≡◌ {A = ℕ} 1 1)
          × (slots_available 1 one_token ≡ true)
          × Holds (token_a ∷ from_repr payload ∷ []) s.queue
          × (s.replies ≡ (1, true) ∷ []))
        ⊎ ((◌≡◌ {A = ℕ} 1 1)
            × (slots_available 1 one_token ≡ false)
            × (s.queue ≡ one_token)
            × (s.replies ≡ (1, false) ∷ []))
        ⊎ ((1 < 1) × (s.queue ≡ one_token) × (s.replies ≡ (1, true) ∷ []))
        ⊎ ((1 < 1) × (s.queue ≡ one_token) × (s.replies ≡ (1, false) ∷ [])))
recv_token_example = recv_token_lem (token_a ∷ []) 5 1 payload receiving one_token-Holds

-- ===== src/Endpoint/Tunnel.antt =====
-- TunnelInEndpoint and TunnelOutEndpoint of endpoint/tunnel.py in
-- calvin/runtime/north/plugins/port: tokens in messages, which are acknowledged or refused. The
-- tunnel is a list of the messages that were sent.
mod Sends
mod Refusals
mod Receives
mod Tests
use calvin_base.Base.{
  ℕ, zero, suc, ◌+◌, ◌-◌, ◌*◌, ◌%◌, ◌≤◌, ◌<◌, ◌≡◌, refl, sym, ap, ◌∙◌, ◌≢◌, ◌⊎◌, inl, inr, Bool,
  true, false, not, ◌&&◌, ◌||◌, Option, none, some, List, [], ◌∷◌, ◌++◌, map, length, is_empty, set,
  get_elem?, replicate, take, drop, contains, remove, contains_all, same_set, sort, Distinct, leb,
  ltb, ◌==◌, if◌then◌else◌, subst, tests, get_or_default, Bool-cases, Option-cases, Dict, lookup,
  insert, erase, keys, values, map_values, set_default, update, AllValues, minimum?, minimum_or,
  Error, queue_full, queue_empty, unknown_reader, unknown_writer, illegal_mapping, illegal_order,
  value_error, attribute_error, key_error, type_error, index_error, zero_division, not_implemented,
  exception, Method, Outcome, done, raised, ◌>>=◌, ◌>>◌, return, raise, self, put, require,
  or_raise, item, elem, attempt, after, arith, ℕ_discrete,
}
use calvin_base.Token.{Token, Repr, repr_for_coder, from_repr}
use calvin_base.Queue.Common.{CommitResponse, handled, unhandled, invalid}
use calvin_base.Endpoint.{Pressure, InQueue, note_pressure}

-- What the sending endpoint calls on the queue of its port, at the peer's id.
pub record TunnelQueue (S : Type 0) : Type 0 where
  pub tokens_available : Method S Bool
  pub com_is_committed : Method S Bool
  pub com_peek : Method S (ℕ × Token)
  pub com_commit : ℕ → Method S (Option CommitResponse)
  pub com_cancel : ℕ → Method S CommitResponse

-- `tx_ack`, `tx_nack` and `tx_throttle` count what the scheduler was told.
pub record TunnelOut (S : Type 0) : Type 0 where
  pub queue : S
  pub sequencenbrs_acked : List ℕ
  pub bulk : Bool
  pub messages : List (ℕ × Repr)
  pub tx_ack : ℕ
  pub tx_nack : ℕ
  pub tx_throttle : ℕ

abbrev pub on_queue : {S A : Type 0} → Method S A → Method (TunnelOut S) A
on_queue m o = elim (m o.queue) [
  | done a s ↦ done a (record o { queue = s })
  | raised e s ↦ raised e (record o { queue = s })
]

-- `r == handled or r == invalid`
abbrev pub is_settled : Option CommitResponse → Bool
is_settled (some handled) = true
is_settled (some invalid) = true
is_settled r = false

-- `[n for n in acked if n < nbr]`
abbrev pub below : ℕ → List ℕ → List ℕ
below nbr [] = []
below nbr (n ∷ ns) = let rest = below nbr ns in if ltb n nbr then n ∷ rest else rest

-- Acknowledgements of later numbers are forgotten when a refusal was handled.
abbrev pub forget_acked : {S : Type 0} → ℕ → CommitResponse → TunnelOut S → TunnelOut S
forget_acked nbr handled s = record s { sequencenbrs_acked = below nbr s.sequencenbrs_acked }
forget_acked nbr r s = s

module _ {S : Type 0} (queue : TunnelQueue S) where
  unfoldable pub send_one_token : Method (TunnelOut S) (Unit {0})
  send_one_token o =
      (do
        (nbr, token) ← on_queue queue.com_peek
        s ← self
        put (record s { messages = s.messages ++ (nbr, repr_for_coder token) ∷ [] }))
        o

  -- `while tokens_available`, with a bound on the rounds.
  unfoldable pub send_all : ℕ → Bool → Method (TunnelOut S) Bool
  unfolding send_one_token
  send_all zero sent o = done sent o
  send_all (suc fuel) sent o =
      (do
        available ← on_queue queue.tokens_available
        (if available then (send_one_token >> send_all fuel true) else return sent))
        o

  -- One token only, since the last was refused, and none while it is not answered.
  unfoldable pub send_throttled : Method (TunnelOut S) Bool
  unfolding send_one_token
  send_throttled o =
      (do
        available ← on_queue queue.tokens_available
        (if available
            then (on_queue queue.com_is_committed >>= λ committed.
                if committed
                then (send_one_token
                    >> (λ s. done true (record s { tx_throttle = s.tx_throttle + 1 })))
                else return false)
            else return false))
        o

  unfoldable pub communicate : ℕ → Method (TunnelOut S) Bool
  unfolding send_all send_throttled
  communicate fuel o = if o.bulk then send_all fuel false o else send_throttled o

  -- Acknowledgements that came too early are tried again, in order.
  unfoldable pub retry : List ℕ → Method (TunnelOut S) (Unit {0})
  retry [] o = done tt o
  retry (n ∷ ns) o =
      (do
        r ← on_queue (queue.com_commit n)
        s ← self
        put (
            if is_settled r
            then record s { sequencenbrs_acked = remove n s.sequencenbrs_acked }
            else s)
        retry ns)
        o

  unfoldable pub reply_ack : ℕ → Method (TunnelOut S) (Unit {0})
  unfolding retry
  reply_ack nbr o =
      (do
        r ← on_queue (queue.com_commit nbr)
        (if is_settled r then return tt else (λ s.
            let acked = sort (s.sequencenbrs_acked ++ nbr ∷ []) in
            retry acked (record s { sequencenbrs_acked = acked }))))
        (record o { bulk = true; tx_ack = o.tx_ack + 1 })

  unfoldable pub reply_nack : ℕ → Method (TunnelOut S) (Unit {0})
  reply_nack nbr o =
      (do r ← on_queue (queue.com_cancel nbr); s ← self; put (forget_acked nbr r s))
        (record o { bulk = false; tx_nack = o.tx_nack + 1 })

-- The receiving endpoint: `replies` holds the numbers that were answered and whether by ACK.
pub record TunnelIn (S : Type 0) : Type 0 where
  pub queue : S
  pub pressure : Pressure
  pub replies : List (ℕ × Bool)
  pub tunnel_rx : ℕ
  pub triggered : ℕ

module _ {S : Type 0} (queue : InQueue S) (now : ℕ) where
  unfoldable pub answer : ℕ → Bool → Method (TunnelIn S) (Unit {0})
  answer nbr ok i = done tt (record i {
    pressure = record i.pressure { pressure_last = nbr };
    replies = i.replies ++ (nbr, ok) ∷ [];
  })

  -- Any other exception than `QueueFull` is not caught.
  unfoldable pub recv_token : Repr → ℕ → Method (TunnelIn S) (Unit {0})
  unfolding answer
  recv_token payload nbr i = elim (queue.com_write (from_repr payload) nbr i.queue) [
    | done r s ↦ elim r [
      | handled ↦ answer nbr true (record i { queue = s; tunnel_rx = i.tunnel_rx + 1 })
      | unhandled ↦ answer nbr true (record i { queue = s })
      | invalid ↦ answer nbr false (record i { queue = s })
    ]
    | raised e s ↦ elim e [
      | queue_full ↦
          let (p, events) = note_pressure now nbr i.pressure in
          answer nbr false (record i { queue = s; pressure = p; triggered = i.triggered + events })
      | other ↦ raised other (record i { queue = s })
    ]
  ]

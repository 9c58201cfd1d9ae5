-- ===== src/Endpoint/Stream.antt =====
-- What `communicate` does, for all queues that keep the laws of a numbered stream.
use calvin_base.Base.{
  ℕ, zero, suc, ◌+◌, ◌<◌, ◌≡◌, refl, sym, ap, ◌∙◌, ◌⊎◌, inl, inr, Bool, true, false, not, none,
  some, List, [], ◌∷◌, ◌++◌, length, is_empty, if◌then◌else◌, subst, queue_full, queue_empty,
  Outcome, done, raised, ◌>>=◌, arith,
}
use native.Mathlib.Nat.{add-zero}
use calvin_base.Base.{>>=_done, append_assoc, append-nil}
use calvin_base.Token.{Token}
use calvin_base.Queue.Common.{handled}
use calvin_base.Endpoint.{
  OutQueue, InQueue, Link, Pressure, note_pressure, move_token, handle, move_tokens, set_last,
  communicate,
}

-- A queue that gives tokens: `Ready n pending s` says that all reads of `s` are committed, that
-- the next number is `n` and that the tokens `pending` are still to be read.
pub record Gives {S : Type 0} (out : OutQueue S) : Type 1 where
  pub Ready : ℕ → List Token → S → Type 0
  pub empty_raises :
      (n : ℕ) (s : S) → Ready n [] s → (r : ℕ) × (out.com_peek s ≡ raised (queue_empty r) s)
  pub read : (n : ℕ) (t : Token) (ts : List Token) (s : S) → Ready n (t ∷ ts) s → S
  pub read_gives :
      (n : ℕ) (t : Token) (ts : List Token) (s : S) (r : Ready n (t ∷ ts) s)
      → out.com_peek s ≡ done (n, t) (read n t ts s r)
  pub commits :
      (n : ℕ) (t : Token) (ts : List Token) (s : S) (r : Ready n (t ∷ ts) s)
      → (u : S) × (out.com_commit n (read n t ts s r) ≡ done (some handled) u) × Ready (n + 1) ts u
  pub rolls_back :
      (n : ℕ) (t : Token) (ts : List Token) (s : S) (r : Ready n (t ∷ ts) s)
      → (u : S) × (out.com_cancel n (read n t ts s r) ≡ done handled u) × Ready n (t ∷ ts) u

-- A queue that takes them: `Accepts n log s` says that it was given the tokens `log` and that the
-- next number is `n`.
pub record Takes {S : Type 0} (inq : InQueue S) : Type 1 where
  pub Accepts : ℕ → List Token → S → Type 0
  pub IsFull : S → Type 0
  pub write :
      (n : ℕ) (log : List Token) (s : S) (t : Token)
      → Accepts n log s
      → ((u : S) × (inq.com_write t n s ≡ done handled u) × Accepts (n + 1) (log ++ t ∷ []) u)
        ⊎ (IsFull s × (inq.com_write t n s ≡ raised queue_full s))

module _ {Out In : Type 0} (out : OutQueue Out) (inq : InQueue In) (now : ℕ) (g : Gives out)
    (k : Takes inq) where
  open g use {Ready}
  open k use {Accepts, IsFull}

  -- Both ends agree on the next number.
  pub record InStep (n : ℕ) (pending log : List Token) (l : Link Out In) : Type 0 where
    pub ready : Ready n pending l.out
    pub accepts : Accepts n log l.inbound

  -- What a run of the loop leaves: some of the pending tokens have gone over, in order.
  pub record Moved (n : ℕ) (pending log : List Token) (b : Bool)
      (o : Outcome (Link Out In) (Unit {0})) : Type 0 where
    pub gone : List Token
    pub rest : List Token
    pub result : Link Out In
    pub split : pending ≡ gone ++ rest
    pub returned : o ≡ done tt result
    pub in_step : InStep (n + length gone) rest (log ++ gone) result
    pub told : result.sent ≡ (if is_empty gone then b else true)
    pub stopped : (rest ≡ []) ⊎ IsFull result.inbound

  stop_empty :
      (n : ℕ) (log : List Token) (l : Link Out In)
      → InStep n [] log l
      → (r : ℕ) × (move_token out inq now l ≡ raised (queue_empty r) l)
  unfolding move_token
  stop_empty n log l x = let (r, e) = g.empty_raises n l.out x.ready in (r, rw (e, ◌>>=◌))

  -- One round over a full queue reads the token and puts it back.
  full_round :
      (n : ℕ) (t : Token) (ts log : List Token) (l : Link Out In) (p : Pressure)
      → InStep n (t ∷ ts) log l
      → l.peer_endpoint ≡ some p
      → inq.com_write t n l.inbound ≡ raised queue_full l.inbound
      → (u v : Link Out In) × (move_token out inq now l ≡ raised queue_full u)
        × (handle out inq now queue_full u ≡ done tt v)
        × InStep n (t ∷ ts) log v
        × (v.inbound ≡ l.inbound)
        × (v.sent ≡ l.sent)
  unfolding move_token handle
  full_round n t ts log l p x e w =
      let s = g.read n t ts l.out x.ready in
      let peeked = g.read_gives n t ts l.out x.ready in
      let (back, cancelled, again) = g.rolls_back n t ts l.out x.ready in
      let u : Link Out In = record l { out = s; nbr = some n } in
      let v : Link Out In = record u {
        out = back;
        peer_endpoint = some (note_pressure now n p).0;
        triggered = l.triggered + (note_pressure now n p).1;
      } in
      (
        u,
        v,
        rw (peeked, ◌>>=◌) (rw (w, ◌>>=◌)),
        rw (e, ◌>>=◌) (rw (cancelled, ◌>>=◌)),
        record { ready = again; accepts = x.accepts },
        refl,
        refl,
      )

  -- One round with room moves one token.
  room_round :
      (n : ℕ) (t : Token) (ts log : List Token) (l : Link Out In) (i : In)
      → InStep n (t ∷ ts) log l
      → inq.com_write t n l.inbound ≡ done handled i
      → Accepts (n + 1) (log ++ t ∷ []) i
      → (u : Link Out In) × (move_token out inq now l ≡ done tt u)
        × InStep (n + 1) ts (log ++ t ∷ []) u
        × (u.peer_endpoint ≡ l.peer_endpoint)
        × (u.sent ≡ true)
  unfolding move_token
  room_round n t ts log l i x w a =
      let peeked = g.read_gives n t ts l.out x.ready in
      let (o, committed, ready) = g.commits n t ts l.out x.ready in
      (
        record l { out = o; inbound = i; nbr = some n; sent = true },
        rw (peeked, ◌>>=◌) (rw (w, ◌>>=◌) (rw (committed, ◌>>=◌))),
        record { ready = ready; accepts = a },
        refl,
        refl,
      )

  Moved-one :
      (n : ℕ) (t : Token) (ts log : List Token) (b c : Bool) (o : Outcome (Link Out In) (Unit {0}))
      → b ≡ true
      → Moved (n + 1) ts (log ++ t ∷ []) b o
      → Moved n (t ∷ ts) log c o
  Moved-one n t ts log b c o e m = record {
    gone = t ∷ m.gone;
    rest = m.rest;
    result = m.result;
    split = ap (◌∷◌ t) m.split;
    returned = m.returned;
    in_step =
        subst (λ k. InStep k m.rest (log ++ t ∷ m.gone) m.result) (next (length m.gone))
          (subst (λ l. InStep (n + 1 + length m.gone) m.rest l m.result)
            (append_assoc log (t ∷ []) m.gone) m.in_step);
    told = m.told ∙ always (is_empty m.gone);
    stopped = m.stopped;
  }
    where
      next : (c : ℕ) → n + 1 + c ≡ n + suc c
      next c = omega arith

      always : (a : Bool) → (if a then b else true) ≡ true
      always true = e
      always false = refl

  -- The loop moves pending tokens, in order and each once, until none is left or the other queue
  -- is full, and ends within one round more than there are tokens.
  move_tokens-Moved :
      (pending : List Token) (n fuel : ℕ) (log : List Token) (l : Link Out In) (p : Pressure)
      → length pending < fuel
      → l.peer_endpoint ≡ some p
      → InStep n pending log l
      → Moved n pending log l.sent (move_tokens out inq now fuel l)
  unfolding move_tokens handle
  move_tokens-Moved pending n zero log l p h e x = absurd (omega arith)
  move_tokens-Moved [] n (suc fuel) log l p h e x =
      let (r, stop) = stop_empty n log l x in
      rw (stop, move_tokens)
        (record {
          gone = [];
          rest = [];
          result = l;
          split = refl;
          returned = refl;
          in_step = rw (append-nil, add-zero) x;
          told = refl;
          stopped = inl refl;
        })
  move_tokens-Moved (t ∷ ts) n (suc fuel) log l p h e x =
      elim (k.write n log l.inbound t x.accepts) [
        | inl (i, w, a) ↦
            let (u, moved, y, same, sent) = room_round n t ts log l i x w a in
            rw (moved, move_tokens)
              (Moved-one n t ts log u.sent l.sent _ sent
                (move_tokens-Moved ts (n + 1) fuel (log ++ t ∷ []) u p (omega arith) (same ∙ e) y))
        | inr (f, w) ↦
            let (u, v, raises, stops, y, same, sent) = full_round n t ts log l p x e w in
            rw (raises, move_tokens)
              (record {
                gone = [];
                rest = t ∷ ts;
                result = v;
                split = refl;
                returned = stops;
                in_step = rw (append-nil, add-zero) y;
                told = sent;
                stopped = inr (subst IsFull (sym same) f);
              })
      ]

  set_last_queues :
      (l : Link Out In)
      → ((set_last out inq now l).out ≡ l.out)
        × ((set_last out inq now l).inbound ≡ l.inbound)
        × ((set_last out inq now l).sent ≡ l.sent)
  unfolding set_last
  set_last_queues l = ground arith

  told_nothing : (b : Bool) → (if b then false else true) ≡ not b
  told_nothing true = refl
  told_nothing false = refl

  -- Of any two queues that keep the laws of `Gives` and `Takes`: one call moves the pending tokens, each once and in order, until none is left or the peer's
  -- queue is full. It tells whether any went over, leaves both ends at the same number, and ends
  -- within one round more than there are tokens.
  pub communicate-delivers :
      (n : ℕ) (pending log : List Token) (fuel : ℕ) (l : Link Out In) (p : Pressure)
      → length pending < fuel
      → l.peer_endpoint ≡ some p
      → InStep n pending log l
      → (gone rest : List Token) × (v : Link Out In) × (pending ≡ gone ++ rest)
        × (communicate out inq now fuel l ≡ done (not (is_empty gone)) v)
        × InStep (n + length gone) rest (log ++ gone) v
        × ((rest ≡ []) ⊎ IsFull v.inbound)
  unfolding communicate
  communicate-delivers n pending log fuel l p h e x =
      let start : Link Out In = record l { nbr = none; sent = false } in
      let m =
        move_tokens-Moved pending n fuel log start p h e
          (record { ready = x.ready; accepts = x.accepts }) in
      let (outs, ins, tells) = set_last_queues m.result in
      (
        m.gone,
        m.rest,
        set_last out inq now m.result,
        m.split,
        >>=_done (move_tokens out inq now fuel) _ start m.returned
            ∙ ap (λ b. done b (set_last out inq now m.result))
                (m.told ∙ told_nothing (is_empty m.gone)),
        record {
          ready = subst (Ready (n + length m.gone) m.rest) (sym outs) m.in_step.ready;
          accepts = subst (Accepts (n + length m.gone) (log ++ m.gone)) (sym ins) m.in_step.accepts;
        },
        elim m.stopped [ inl r ↦ inl r | inr f ↦ inr (subst IsFull (sym ins) f) ],
      )

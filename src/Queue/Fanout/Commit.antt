-- ===== src/Queue/Fanout/Commit.antt =====
-- FanoutFIFO: `commit`, whatever tokens of exhausted peers are waiting.
use calvin_base.Base.{
  ℕ, ◌≡◌, refl, ◌∙◌, inl, inr, true, false, ◌&&◌, List, [], ◌∷◌, ◌++◌, length, ltb, ◌==◌, subst,
  tests, Bool-cases, Dict, lookup, insert, erase, Method, Outcome, done, ◌>>=◌, return, arith,
}
use calvin_base.Base.{insert_self, >>=_done, append-nil, append_assoc}
use calvin_base.Token.{Token}
use calvin_base.Queue.Common.{handled}
use calvin_base.Queue.Fanout.{FanoutFifo, slots_available, oldest_read}
use calvin_base.Queue.Fanout.Com.{com_write}
use calvin_base.Queue.Fanout.Exhaust.{
  Numbered, transfer_exhaust_tokens, transfer_all, transfer_exhausted, finish_commit, commit,
  keep_entry, is_receiving_entry, is_received_entry,
}
use calvin_base.Queue.Fanout.Invariant.{IsValid, Follows, moved-IsValid}
use calvin_base.Queue.Fanout.Run.{Holds, com_write-Holds}
use calvin_base.Queue.Fanout.Log.{written}
use calvin_base.Queue.Fanout.Transfer.{noted, noted-Holds}

-- A call that returns, adds to the log at most, and moves no reader.
pub record Settled {A : Type 0} (log : List Token) (q : FanoutFifo) (o : Outcome FanoutFifo A)
    : Type 0 where
  pub value : A
  pub result : FanoutFifo
  pub more : List Token
  pub returned : o ≡ done value result
  pub holds : Holds (log ++ more) result
  pub reads : result.read_pos ≡ q.read_pos
  pub tentative_reads : result.tentative_read_pos ≡ q.tentative_read_pos

nothing :
    {A : Type 0} (log : List Token) (q : FanoutFifo) (a : A)
    → Holds log q
    → Settled log q (done a q)
nothing log q a h = record {
  value = a;
  result = q;
  more = [];
  returned = refl;
  holds = rw append-nil h;
  reads = refl;
  tentative_reads = refl;
}

-- One call after another.
Settled-then :
    {A B : Type 0} (log : List Token) (q : FanoutFifo) (m : Method FanoutFifo A)
    (f : A → Method FanoutFifo B)
    → (s : Settled log q (m q)) → Settled (log ++ s.more) s.result (f s.value s.result)
    → Settled log q ((m >>= f) q)
Settled-then log q m f s t = record {
  value = t.value;
  result = t.result;
  more = s.more ++ t.more;
  returned = >>=_done m f q s.returned ∙ t.returned;
  holds = subst (λ l. Holds l t.result) (append_assoc log s.more t.more) t.holds;
  reads = t.reads ∙ s.reads;
  tentative_reads = t.tentative_reads ∙ s.tentative_reads;
}

-- A number that is not the next one writes nothing, and the next one is written if there is room.
com_write-Settled :
    (log : List Token) (q : FanoutFifo) (token : Token) (nbr : ℕ)
    → Holds log q
    → slots_available 1 q ≡ true
    → Settled log q (com_write token nbr q)
com_write-Settled log q token nbr h s =
    let (next, _, old, far) = com_write-Holds log q token nbr h in
    elim (Bool-cases (nbr == length log)) [
      | inl e ↦
          let (wrote, grown) = next (ground arith) s in
          record {
            value = handled;
            result = written q token;
            more = token ∷ [];
            returned = wrote;
            holds = grown;
            reads = refl;
            tentative_reads = refl;
          }
      | inr e ↦ elim (Bool-cases (ltb nbr (length log))) [
        | inl l ↦ rw (old (omega tests)) (nothing log q _ h)
        | inr l ↦ rw (far (ground arith)) (nothing log q _ h)
      ]
    ]

transfer_exhaust_tokens-Settled :
    (log : List Token) (q : FanoutFifo) (tokens : Numbered)
    → Holds log q
    → Settled log q (transfer_exhaust_tokens tokens q)
unfolding transfer_exhaust_tokens
transfer_exhaust_tokens-Settled log q [] h = nothing log q [] h
transfer_exhaust_tokens-Settled log q ((pos, token) ∷ rest) h =
    elim (Bool-cases (slots_available 1 q)) [
      | inl room ↦
          let s = com_write-Settled log q token pos h room in
          rw room (
            Settled-then log q (com_write token pos) (λ _. transfer_exhaust_tokens rest) s
              (transfer_exhaust_tokens-Settled (log ++ s.more) s.result rest s.holds))
      | inr full ↦ rw full (nothing log q _ h)
    ]

transfer_all-Settled :
    (log : List Token) (q : FanoutFifo) (d : Dict Numbered)
    → Holds log q
    → Settled log q (transfer_all d q)
unfolding transfer_all
transfer_all-Settled log q [] h = nothing log q [] h
transfer_all-Settled log q ((peer, tokens) ∷ d) h =
    let s = transfer_exhaust_tokens-Settled log q tokens h in
    let t = transfer_all-Settled (log ++ s.more) s.result d s.holds in
    Settled-then log q (transfer_exhaust_tokens tokens)
      (λ left. transfer_all d >>= λ rest. return (keep_entry peer left rest)) s
      (Settled-then (log ++ s.more) s.result (transfer_all d)
        (λ rest. return (keep_entry peer s.value rest)) t
        (nothing ((log ++ s.more) ++ t.more) t.result _ t.holds))

pub transfer_exhausted-Settled :
    (log : List Token) (q : FanoutFifo) → Holds log q → Settled log q (transfer_exhausted q)
unfolding transfer_exhausted
transfer_exhausted-Settled log q h =
    let s = transfer_all-Settled log q q.exhausted_tokens h in
    record {
      value = tt;
      result = noted s.result s.value s.result.termination;
      more = s.more;
      returned = >>=_done (transfer_all q.exhausted_tokens) _ q s.returned;
      holds = noted-Holds (log ++ s.more) s.result s.value s.result.termination s.holds;
      reads = s.reads;
      tentative_reads = s.tentative_reads;
    }

finish_commit-Settled :
    (log : List Token) (q : FanoutFifo) (r : ℕ) → Holds log q → Settled log q (finish_commit r q)
unfolding finish_commit
finish_commit-Settled log q r h =
    elim (Bool-cases (
      is_receiving_entry (lookup r q.termination)
      && (oldest_read q == q.write_pos && is_received_entry (lookup r q.termination)))) [
        | inl e ↦ rw e (record {
          value = true;
          result = noted q q.exhausted_tokens (erase r q.termination);
          more = [];
          returned = refl;
          holds = rw append-nil (noted-Holds log q q.exhausted_tokens (erase r q.termination) h);
          reads = refl;
          tentative_reads = refl;
        })
        | inr e ↦ rw e (nothing log q false h)
      ]

-- The queue with a reader's tentative reads made final.
abbrev pub committed : FanoutFifo → ℕ → ℕ → FanoutFifo
committed q r t = record q { read_pos = insert r t q.read_pos }

committed-Holds :
    (log : List Token) (q : FanoutFifo) (r : ℕ) (f : Follows q r)
    → Holds log q
    → Holds log (committed q r f.tentative)
committed-Holds log q r f h = record {
  represents = h.represents;
  valid =
      subst (λ d. IsValid (record (committed q r f.tentative) { tentative_read_pos = d }))
        (insert_self r f.tentative q.tentative_read_pos f.has_tentative)
        (moved-IsValid q r f.tentative f.tentative f h.valid f.read_le (omega arith)
          f.tentative_le);
}

-- `commit` returns, makes the tentative position of its reader final and moves no other. It may
-- take tokens of exhausted peers over into the space that it frees: the log is at most extended,
-- and the queue holds its end.
pub commit-Settled :
    (log : List Token) (q : FanoutFifo) (r : ℕ) (f : Follows q r)
    → Holds log q
    → Settled log (committed q r f.tentative) (commit r q)
unfolding commit
commit-Settled log q r f h =
    let c = committed q r f.tentative in
    let s = transfer_exhausted-Settled log c (committed-Holds log q r f h) in
    let t =
      Settled-then log c transfer_exhausted (λ _. finish_commit r) s
        (finish_commit-Settled (log ++ s.more) s.result r s.holds) in
    rw f.has_tentative t

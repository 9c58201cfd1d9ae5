-- ===== src/Queue/Fanout/Transfer.antt =====
-- FanoutFIFO: the transfer of the tokens that a peer had left when it was taken off, and `commit`.
use calvin_base.Base.{
  ℕ, suc, ◌+◌, ◌≤◌, ◌≡◌, refl, ◌∙◌, ◌⊎◌, inl, inr, Bool, true, false, List, [], ◌∷◌, ◌++◌, length,
  take, drop, subst, Bool-cases, Dict, done, arith,
}
use native.Mathlib.Nat.{add-zero}
use calvin_base.Base.{>>=_done, append-nil, append_assoc, length-append}
use calvin_base.Token.{Token}
use calvin_base.Queue.Common.{Disconnect}
use calvin_base.Queue.Fanout.{FanoutFifo, slots_available}
use calvin_base.Queue.Fanout.Com.{com_write}
use calvin_base.Queue.Fanout.Exhaust.{Numbered, transfer_exhaust_tokens}
use calvin_base.Queue.Fanout.Invariant.{Follows}
use calvin_base.Queue.Fanout.Run.{Holds, com_write-Holds}
use calvin_base.Queue.Fanout.Log.{written}

-- A queue that differs in the records of exhausted peers alone.
abbrev pub noted : FanoutFifo → Dict Numbered → Dict (Disconnect × Bool) → FanoutFifo
noted q tokens marks = record q { exhausted_tokens = tokens; termination = marks }

noted-Follows :
    (q : FanoutFifo) (tokens : Dict Numbered) (marks : Dict (Disconnect × Bool)) (r : ℕ)
    → Follows q r
    → Follows (noted q tokens marks) r
noted-Follows q tokens marks r f = record {
  offset = f.offset;
  read = f.read;
  tentative = f.tentative;
  has_offset = f.has_offset;
  has_read = f.has_read;
  has_tentative = f.has_tentative;
  offset_le = f.offset_le;
  read_le = f.read_le;
  tentative_le = f.tentative_le;
}

pub noted-Holds :
    (log : List Token) (q : FanoutFifo) (tokens : Dict Numbered) (marks : Dict (Disconnect × Bool))
    → Holds log q
    → Holds log (noted q tokens marks)
noted-Holds log q tokens marks h = record {
  represents = h.represents;
  valid = record {
    positive = h.valid.positive;
    near = h.valid.near;
    distinct = h.valid.distinct;
    follows = λ r m. noted-Follows q tokens marks r (h.valid.follows r m);
  };
}

-- Tokens with the numbers from `n` on.
abbrev pub numbered : ℕ → List Token → Numbered
numbered n [] = []
numbered n (t ∷ ts) = (n, t) ∷ numbered (n + 1) ts

-- Tokens that are in the queue already are passed over.
transfer_old :
    (log : List Token) (q : FanoutFifo) (old : List Token) (n : ℕ) (rest : Numbered)
    → Holds log q
    → slots_available 1 q ≡ true
    → n + length old ≤ length log
    → transfer_exhaust_tokens (numbered n old ++ rest) q ≡ transfer_exhaust_tokens rest q
unfolding transfer_exhaust_tokens
transfer_old log q [] n rest h s l = refl
transfer_old log q (t ∷ old) n rest h s l =
    let passed = (com_write-Holds log q t n h).2 (omega arith) in
    let ih = transfer_old log q old (n + 1) rest h s (omega arith) in
    rw s (
      >>=_done (com_write t n) (λ _. transfer_exhaust_tokens (numbered (n + 1) old ++ rest)) q
        passed
      ∙ ih)

-- What a transfer of the missing tokens gives: the first of them, as many as fit.
pub record Transferred (log ahead : List Token) (q : FanoutFifo) : Type 0 where
  pub count : ℕ
  pub result : FanoutFifo
  pub returned :
      transfer_exhaust_tokens (numbered (length log) ahead) q
      ≡ done (numbered (length log + count) (drop count ahead)) result
  pub holds : Holds (log ++ take count ahead) result
  pub complete : (count ≡ length ahead) ⊎ (slots_available 1 result ≡ false)

Transferred-next :
    (log ahead : List Token) (t : Token) (q : FanoutFifo) (x : Transferred (log ++ t ∷ []) ahead q)
    → transfer_exhaust_tokens (numbered (length log + 1) ahead) q
      ≡ done (numbered (length log + suc x.count) (drop x.count ahead)) x.result
Transferred-next log ahead t q x =
    let grown : length (log ++ t ∷ []) ≡ length log + 1 = length-append log (t ∷ []) in
    let step : length log + suc x.count ≡ length log + 1 + x.count = omega arith in
    rw step (
      subst
        (λ n.
          transfer_exhaust_tokens (numbered n ahead) q
          ≡ done (numbered (n + x.count) (drop x.count ahead)) x.result)
        grown x.returned)

transfer_new : (log ahead : List Token) (q : FanoutFifo) → Holds log q → Transferred log ahead q
unfolding transfer_exhaust_tokens
transfer_new log [] q h = record {
  count = 0;
  result = q;
  returned = refl;
  holds = rw append-nil h;
  complete = inl refl;
}
transfer_new log (t ∷ ahead) q h = elim (Bool-cases (slots_available 1 q)) [
  | inr full ↦ record {
    count = 0;
    result = q;
    returned = rw (full, add-zero);
    holds = rw append-nil h;
    complete = inr full;
  }
  | inl room ↦
      let (wrote, next) = (com_write-Holds log q t (length log) h).0 refl room in
      let ih = transfer_new (log ++ t ∷ []) ahead (written q t) next in
      record {
        count = suc ih.count;
        result = ih.result;
        returned = rw room (
            >>=_done (com_write t (length log))
              (λ _. transfer_exhaust_tokens (numbered (length log + 1) ahead)) q wrote
            ∙ Transferred-next log ahead t (written q t) ih);
        holds =
            subst (λ l. Holds l ih.result) (append_assoc log (t ∷ []) (take ih.count ahead))
              ih.holds;
        complete = ground (arith, ih.complete);
      }
]

-- The tokens that a peer had left, numbered without a gap and perhaps overlapping the end of the
-- log, are added to it in order from the first that is missing, as many as there is room for. The
-- others stay numbered for a later try, and none is lost or written twice.
pub transfer_exhaust_tokens-Transferred :
    (log old ahead : List Token) (q : FanoutFifo) (n : ℕ)
    → Holds log q
    → slots_available 1 q ≡ true
    → n + length old ≡ length log
    → (x : Transferred log ahead q) × (transfer_exhaust_tokens
          (numbered n old ++ numbered (length log) ahead)
          q
        ≡ done (numbered (length log + x.count) (drop x.count ahead)) x.result)
transfer_exhaust_tokens-Transferred log old ahead q n h room e =
    let x = transfer_new log ahead q h in
    (x, transfer_old log q old n (numbered (length log) ahead) h room (omega arith) ∙ x.returned)

-- ===== src/Queue/Collect/Unordered.antt =====
-- collect_unordered.py and collect_tagged.py: the reader is given one token at a time, from one
-- writer after another.
use calvin_base.Base.{
  ℕ, zero, suc, ◌+◌, ◌-◌, ◌%◌, Bool, true, false, Option, none, some, List, [], ◌∷◌, length,
  same_set, leb, ltb, if◌then◌else◌, Dict, insert, values, queue_empty, illegal_mapping,
  not_implemented, Method, done, raised, ◌>>=◌, ◌>>◌, return, put, require, or_raise, item, elem,
}
use calvin_base.Token.{Token, dict, field, end, value, set_value}
use calvin_base.Queue.Common.{PortProperties, unordered_type, tagged_type}
use calvin_base.Queue.Collect.{CollectBase}
use calvin_base.Queue.Collect
use calvin_base.Queue.Collect.Exhaust

-- A place in the turn: `minus_one` is the source's -1.
pub data Place : Type 0 where
  minus_one : Place
  at : ℕ → Place

pub record Unordered : Type 0 where
  pub base : CollectBase
  pub open base use *
  pub tagged : Bool  -- CollectTagged
  pub turn_pos : Place
  pub peek_turn_pos : Place

abbrev pub on_base : {A : Type 0} → Method CollectBase A → Method Unordered A
on_base m q = elim (m q.base) [
  | done a b ↦ done a (record q { base = b })
  | raised e b ↦ raised e (record q { base = b })
]

unfoldable pub init : Bool → PortProperties → Unordered
init tagged props = record {
  base = Collect.init (if tagged then tagged_type else unordered_type) props;
  tagged = tagged;
  turn_pos = at 0;
  peek_turn_pos = minus_one;
}

-- Whether the unread tokens, added up writer by writer, reach a number. No position is passed
-- over by a tentative one, so the differences are exact.
reach : ℕ → ℕ → List ℕ → Method Unordered Bool
reach n sum [] q = done false q
reach n sum (writer ∷ writers) q =
    let rest = λ (k : ℕ). reach n k writers q in
    (do
      w ← item q.write_pos writer
      t ← item q.tentative_read_pos writer
      if leb n (sum + w - t) then return true else (λ _. rest (sum + w - t)))
      q

unfoldable pub tokens_available : ℕ → Method Unordered Bool
unfolding reach
tokens_available n q = if leb q.size n then done false q else reach n 0 q.writers q

-- The index of the writer that is `j` turns on, of `n`: Python's % is not negative.
abbrev pub seat : Place → ℕ → ℕ → ℕ
seat minus_one j n = (j + n - 1) % n
seat (at t) j n = (t + j) % n

-- The first peek since the last commit notes where it began.
abbrev pub note_start : Place → Place → Place
note_start turn minus_one = turn
note_start turn (at p) = at p

-- The token, its writer and the queue after a peek: the turn passes on to the next writer.
unfoldable pub take_token : ℕ → ℕ → ℕ → Method Unordered (Token × ℕ)
take_token i writer t q =
    (do
      buffer ← item q.fifo writer
      token ← elem buffer (t % q.size)
      put (record q {
        base = record base { tentative_read_pos = insert writer (t + 1) q.tentative_read_pos };
        peek_turn_pos = note_start q.turn_pos q.peek_turn_pos;
        turn_pos = at ((i + 1) % length q.writers);
      })
      return (token, writer))
      q
  where
    open q use {base}

-- The loop over the writers from `turn_pos` on, with the turns that are left; `none` is its end.
unfoldable pub find_token : ℕ → ℕ → Method Unordered (Option (Token × ℕ))
unfolding take_token
find_token zero j q = done none q
find_token (suc left) j q =
    let i = seat q.turn_pos j (length q.writers) in
    let rest = find_token left (j + 1) q in
    (do
      writer ← elem q.writers i
      w ← item q.write_pos writer
      t ← item q.tentative_read_pos writer
      (if ltb t w then (take_token i writer t >>= λ x. return (some x)) else (λ _. rest)))
      q

-- A tagged token is a copy with the value {tag: value}.
unfoldable pub give : Bool → Token → ℕ → Method Unordered Token
give false token writer q = done token q
give true token writer q =
    (do tag ← item q.tags writer; return (set_value token (dict (field tag (value token) end)))) q

unfoldable pub peek : ℕ → Method Unordered Token
unfolding give
peek reader q =
    (do
      found ← find_token (length q.writers) 0
      (token, writer) ← or_raise found (queue_empty reader)
      give q.tagged token writer)
      q

unfoldable pub commit : Method Unordered Bool
commit q = on_base Exhaust.commit (record q { peek_turn_pos = minus_one })

-- Without a peek before it the turn becomes -1.
unfoldable pub cancel : Method Unordered (Unit {0})
cancel q =
    on_base Collect.cancel (record q { turn_pos = q.peek_turn_pos; peek_turn_pos = minus_one })

-- `{ v: k for k, v in mapping.items() }`
abbrev pub inverse : Dict ℕ → Dict ℕ → Dict ℕ
inverse acc [] = acc
inverse acc ((k, v) ∷ d) = inverse (insert v k acc) d

-- CollectUnordered raises NotImplementedError.
unfoldable pub set_port_mapping : Dict ℕ → Method Unordered (Unit {0})
set_port_mapping mapping q =
    (do
      require q.tagged not_implemented
      require (same_set (values mapping) q.writers) illegal_mapping
      put (record q { base = record base { tags = inverse [] mapping } }))
      q
  where
    open q use {base}

pub record State : Type 0 where
  pub collected : Collect.State
  pub turn_pos : Place

unfoldable pub state : Unordered → State
state q = record { collected = Collect.state q.base; turn_pos = q.turn_pos }

unfoldable pub set_state : State → Unordered → Unordered
set_state s q = record q { base = Collect.set_state s.collected q.base; turn_pos = s.turn_pos }

-- ===== src/Queue/Collect.antt =====
-- calvin/runtime/north/plugins/port/queue/collect_base.py: class CollectBase, a queue with a ring
-- buffer for each writer, which one reader empties. Its subclasses decide in which order.
pub mod Exhaust
pub mod Lanes
pub mod Unordered
pub mod Together
pub mod Turns
mod Tests
use calvin_base.Base.{
  ℕ, zero, suc, ◌+◌, ◌-◌, ◌*◌, ◌%◌, ◌≤◌, ◌<◌, ◌≡◌, refl, sym, ap, ◌∙◌, ◌≢◌, ◌⊎◌, inl, inr, Bool,
  true, false, not, ◌&&◌, ◌||◌, Option, none, some, List, [], ◌∷◌, ◌++◌, map, length, is_empty, set,
  get_elem?, replicate, take, drop, contains, remove, contains_all, same_set, sort, Distinct, leb,
  ltb, ◌==◌, if◌then◌else◌, subst, tests, get_or_default, Bool-cases, Option-cases, Dict, lookup,
  insert, erase, keys, values, map_values, set_default, update, AllValues, minimum?, minimum_or,
  Error, queue_full, queue_empty, unknown_reader, unknown_writer, illegal_mapping, illegal_order,
  value_error, attribute_error, key_error, type_error, index_error, zero_division, not_implemented,
  Method, Outcome, done, raised, ◌>>=◌, ◌>>◌, return, raise, self, put, require, or_raise, item,
  elem, attempt, after, arith, ℕ_discrete,
}
use calvin_base.Token.{Token, plain, num, Repr, repr_for_coder, from_repr}
use calvin_base.Queue.Common.{
  CommitResponse, handled, unhandled, invalid, Disconnect, is_receiving, PortProperties, QueueType,
}

abbrev pub Numbered : Type 0
Numbered = List (ℕ × Token)

pub record CollectBase : Type 0 where
  pub fifo : Dict (List Token)
  pub nbr_peers : ℕ
  pub size : ℕ  -- self.N
  pub writers : List ℕ
  pub write_pos : Dict ℕ
  pub read_pos : Dict ℕ
  pub tentative_read_pos : Dict ℕ
  pub tags : Dict ℕ
  pub tags_are_ordering : Bool
  pub exhausted_tokens : Dict Numbered
  pub termination : Dict (Disconnect × Bool)
  pub queue_type : Option QueueType

unfoldable pub init : QueueType → PortProperties → CollectBase
init kind props = record {
  fifo = [];
  nbr_peers = get_or_default 1 props.nbr_peers;
  size = get_or_default 4 props.queue_length + 1;
  writers = [];
  write_pos = [];
  read_pos = [];
  tentative_read_pos = [];
  tags = [];
  tags_are_ordering = false;
  exhausted_tokens = [];
  termination = [];
  queue_type = some kind;
}

pub record State : Type 0 where
  pub queuetype : Option QueueType
  pub fifo : Dict (List Repr)
  pub size : ℕ
  pub writers : List ℕ
  pub write_pos : Dict ℕ
  pub read_pos : Dict ℕ
  pub tentative_read_pos : Dict ℕ
  pub tags : Option (Dict ℕ)
  pub tags_are_ordering : Option Bool

unfoldable pub state : CollectBase → State
state q = record {
  queuetype = q.queue_type;
  fifo = map_values (map repr_for_coder) q.fifo;
  size = q.size;
  writers = q.writers;
  write_pos = q.write_pos;
  read_pos = q.read_pos;
  tentative_read_pos = q.tentative_read_pos;
  tags = some q.tags;
  tags_are_ordering = some q.tags_are_ordering;
}

unfoldable pub set_state : State → CollectBase → CollectBase
set_state s q = record q {
  queue_type = s.queuetype;
  fifo = map_values (map from_repr) s.fifo;
  size = s.size;
  writers = s.writers;
  write_pos = s.write_pos;
  read_pos = s.read_pos;
  tentative_read_pos = s.tentative_read_pos;
  tags = get_or_default [] s.tags;
  tags_are_ordering = get_or_default false s.tags_are_ordering;
}

-- The new writer's buffer and positions; the writers are kept sorted.
pub open_lane : ℕ → CollectBase → CollectBase
open_lane writer q = record q {
  read_pos = insert writer 0 q.read_pos;
  write_pos = insert writer 0 q.write_pos;
  tentative_read_pos = insert writer 0 q.tentative_read_pos;
  fifo = set_default writer (replicate q.size (plain (num 0))) q.fifo;
  writers = sort (q.writers ++ writer ∷ []);
}

-- The tag of a writer is that of the properties, or its id.
unfoldable pub add_writer : ℕ → PortProperties → CollectBase → CollectBase
unfolding open_lane
add_writer writer props q =
    let opened = if contains q.writers writer then q else open_lane writer q in
    record opened {
      nbr_peers =
          if ltb opened.nbr_peers (length opened.writers)
          then length opened.writers
          else opened.nbr_peers;
      tags = set_default writer (get_or_default writer props.tag) opened.tags;
    }

-- Each deletion raises where its key is missing.
unfoldable pub remove_writer : ℕ → Method CollectBase (Unit {0})
remove_writer writer q =
    (do
      _ ← item q.read_pos writer
      let q1 = record q { read_pos = erase writer q.read_pos }
      put q1
      _ ← item q1.tentative_read_pos writer
      let q2 = record q1 { tentative_read_pos = erase writer q.tentative_read_pos }
      put q2
      _ ← item q2.write_pos writer
      let q3 = record q2 { write_pos = erase writer q.write_pos }
      put q3
      _ ← item q3.fifo writer
      let q4 = record q3 { fifo = erase writer q.fifo }
      put q4
      _ ← item q4.tags writer
      let q5 = record q4 { tags = erase writer q.tags }
      put q5
      require (contains q.writers writer) value_error
      put (record q5 { writers = remove writer q.writers; nbr_peers = q.nbr_peers - 1 }))
      q

unfoldable pub is_exhausting : Option ℕ → CollectBase → Bool
is_exhausting none q = not (is_empty q.termination)
is_exhausting (some peer) q = elim (lookup peer q.termination) [ none ↦ false | some _ ↦ true ]

-- Nothing is given back until the last token is consumed.
unfoldable pub exhaust : ℕ → Disconnect → CollectBase → CollectBase
exhaust peer mode q = record q { termination = insert peer (mode, false) q.termination }

any_missing : Dict (Disconnect × Bool) → Bool
any_missing [] = false
any_missing ((k, (t, received)) ∷ d) = not received || any_missing d

unfoldable pub any_outstanding_exhaustion_tokens : CollectBase → Bool
unfolding any_missing
any_outstanding_exhaustion_tokens q = any_missing q.termination

-- length < N and write_pos - read_pos < N - length
unfoldable pub slots_available : ℕ → ℕ → Method CollectBase Bool
slots_available n writer q =
    (do
      require (contains q.writers writer) (unknown_writer writer)
      w ← item q.write_pos writer
      a ← item q.read_pos writer
      return (ltb n q.size && ltb (w + n) (q.size + a)))
      q

unfoldable pub write : Token → ℕ → Method CollectBase Bool
write token writer q =
    (do
      room ← slots_available 1 writer
      require room queue_full
      w ← item q.write_pos writer
      buffer ← item q.fifo writer
      _ ← elem buffer (w % q.size)
      put (record q {
        fifo = insert writer (set buffer (w % q.size) token) q.fifo;
        write_pos = insert writer (w + 1) q.write_pos;
      })
      return true)
      q

pub write_next : Token → ℕ → Method CollectBase CommitResponse
write_next token writer = do _ ← write token writer; return handled

unfoldable pub com_write : Token → ℕ → ℕ → Method CollectBase CommitResponse
unfolding write_next
com_write token writer nbr q =
    (do
      w ← item q.write_pos writer
      (if nbr == w
          then write_next token writer
          else return (if ltb nbr w then unhandled else invalid)))
      q

-- `self.tentative_read_pos[writer] = self.read_pos[writer]` for all writers.
unfoldable pub cancel_all : List ℕ → Method CollectBase (Unit {0})
cancel_all [] = return tt
cancel_all (writer ∷ writers) = do
  q ← self
  a ← item q.read_pos writer
  put (record q { tentative_read_pos = insert writer a q.tentative_read_pos })
  cancel_all writers

unfoldable pub cancel : Method CollectBase (Unit {0})
unfolding cancel_all
cancel q = cancel_all q.writers q

-- `self.read_pos[writer] = self.tentative_read_pos[writer]` for all writers.
unfoldable pub commit_reads : List ℕ → Method CollectBase (Unit {0})
commit_reads [] = return tt
commit_reads (writer ∷ writers) = do
  q ← self
  t ← item q.tentative_read_pos writer
  put (record q { read_pos = insert writer t q.read_pos })
  commit_reads writers

-- ===== src/Queue/Collect/Exhaust.antt =====
-- collect_base.py: `set_exhausted_tokens`, and `commit`, which removes the writers that are done.
use calvin_base.Base.{
  ℕ, Bool, true, not, ◌&&◌, List, [], ◌∷◌, ◌++◌, is_empty, contains, ◌==◌, if◌then◌else◌,
  get_or_default, Dict, lookup, insert, erase, keys, Method, ◌>>=◌, ◌>>◌, return, self, put, item,
}
use calvin_base.Queue.Common.{Disconnect, is_receiving}
use calvin_base.Queue.Collect.{
  CollectBase, Numbered, com_write, slots_available, remove_writer, commit_reads,
}

-- Writes numbered tokens while there is room, and returns those that are left.
unfoldable pub transfer_exhaust_tokens : ℕ → Numbered → Method CollectBase Numbered
transfer_exhaust_tokens peer [] = return []
transfer_exhaust_tokens peer ((pos, token) ∷ rest) = do
  room ← slots_available 1 peer
  let more = com_write token peer pos >>= λ _. transfer_exhaust_tokens peer rest
  if room then more else return ((pos, token) ∷ rest)

-- The entries whose tokens all went over are deleted.
abbrev keep_entry : ℕ → Numbered → Dict Numbered → Dict Numbered
keep_entry peer [] d = d
keep_entry peer (t ∷ ts) d = (peer, t ∷ ts) ∷ d

transfer_all : Dict Numbered → Method CollectBase (Dict Numbered)
transfer_all [] = return []
transfer_all ((peer, tokens) ∷ d) = do
  left ← transfer_exhaust_tokens peer tokens
  rest ← transfer_all d
  return (keep_entry peer left rest)

-- The same, with the entries of peers that are no writers dropped.
transfer_known : Dict Numbered → Method CollectBase (Dict Numbered)
transfer_known [] = return []
transfer_known ((peer, tokens) ∷ d) = do
  q ← self
  left ← (if contains q.writers peer then transfer_exhaust_tokens peer tokens else return [])
  rest ← transfer_known d
  return (keep_entry peer left rest)

-- `{k: self.exhausted_tokens.get(k, []) + v for k, v in tokens.items()}`
abbrev pub extend : Dict Numbered → Dict Numbered → Dict Numbered
extend d [] = d
extend d ((k, v) ∷ e) = extend (insert k (get_or_default [] (lookup k d) ++ v) d) e

-- `self.termination[peer_id][0]` raises where the peer is not being terminated.
mark_received : List ℕ → Method CollectBase (Unit {0})
mark_received [] = return tt
mark_received (peer ∷ peers) = do
  q ← self
  (mode, received) ← item q.termination peer
  put (record q { termination = insert peer (mode, true) q.termination })
  mark_received peers

abbrev pub drop_writer : ℕ → Method CollectBase (Unit {0})
drop_writer peer = do
  remove_writer peer
  q ← self
  put (record q { termination = erase peer q.termination })

-- Of the peers that are writers, those that receive no more and are empty are removed.
finish_empty : List ℕ → Method CollectBase (Unit {0})
finish_empty [] = return tt
finish_empty (peer ∷ peers) = do
  q ← self
  (if not (contains q.writers peer) then return tt else (do
    w ← item q.write_pos peer
    a ← item q.read_pos peer
    (mode, received) ← item q.termination peer
    (if w == a && is_receiving mode then drop_writer peer else return tt)))
  finish_empty peers

unfoldable pub set_exhausted_tokens : Dict Numbered → Method CollectBase ℕ
unfolding transfer_known mark_received finish_empty
set_exhausted_tokens tokens q =
    (do
      put (record q { exhausted_tokens = extend q.exhausted_tokens tokens })
      mark_received (keys tokens)
      s ← self
      left ← transfer_known s.exhausted_tokens
      t ← self
      put (record t { exhausted_tokens = left })
      finish_empty (keys tokens)
      u ← self
      return u.nbr_peers)
      q

-- The terminated writers that are consumed, in the order of the dictionary.
consumed : Dict (Disconnect × Bool) → Method CollectBase (List ℕ)
consumed [] = return []
consumed ((peer, (mode, received)) ∷ d) = do
  q ← self
  w ← item q.write_pos peer
  a ← item q.read_pos peer
  rest ← consumed d
  return (if w == a && (is_receiving mode && received) then peer ∷ rest else rest)

drop_all : List ℕ → Method CollectBase (Unit {0})
drop_all [] = return tt
drop_all (peer ∷ peers) = drop_writer peer >> drop_all peers

unfoldable pub finish_commit : Method CollectBase Bool
unfolding transfer_all consumed drop_all
finish_commit q =
    (do
      left ← transfer_all q.exhausted_tokens
      s ← self
      put (record s { exhausted_tokens = left })
      gone ← consumed s.termination
      drop_all gone
      return (not (is_empty gone)))
      q

unfoldable pub commit : Method CollectBase Bool
commit q = (commit_reads q.writers >> finish_commit) q

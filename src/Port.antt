-- ===== src/Port.antt =====
-- calvin/actor/actorport.py: InPort and OutPort. The owner of a port hears of its connection by
-- did_connect and did_disconnect, which the port keeps a record of here.
pub mod Replaced
pub mod Wired
pub mod Disconnects
pub mod Stays
pub mod Fifo
pub mod Comeback
pub mod Swap
mod Tests
use calvin_base.Base.{
  ℕ, ◌-◌, Bool, true, false, not, ◌&&◌, ◌||◌, Option, none, some, List, [], ◌∷◌, ◌++◌, map, length,
  is_empty, contains, ltb, ◌==◌, if◌then◌else◌, type_error, not_implemented, attribute_error,
  Method, Outcome, done, raised, ◌>>=◌, ◌>>◌, return, raise, self, put, or_raise,
}
use calvin_base.Token.{Token}
use calvin_base.Queue.Common.{
  Disconnect, temporary, Direction, in_port, out_port, QueueType, fanout_fifo, ordered_type,
  round_robin_type, random_type, balanced_type, mapped_type, unordered_type, tagged_type,
  synced_type, any_type,
}

-- An endpoint object, known by its number `id`, with the remaining tokens that it is left with.
pub record Endpoint : Type 0 where
  pub id : ℕ
  pub peer_id : ℕ
  pub is_connected : Bool
  pub remaining_tokens : Option (List (ℕ × Token))

-- What a port calls: `attached` and `detached` of an endpoint, which act on the port's queue and
-- may find remaining tokens, and three methods of the queue.
pub record PortCalls (S : Type 0) : Type 0 where
  pub attached : Endpoint → Method S (Unit {0})
  pub detached : Disconnect → Endpoint → Method S (Option (List (ℕ × Token)))
  pub get_peers : S → Option (List ℕ)
  pub is_exhausting : S → Bool
  pub set_exhausted_tokens : List (ℕ × List (ℕ × Token)) → Method S (Unit {0})

pub data Notice : Type 0 where
  did_connect did_disconnect : Notice

pub record Port (S : Type 0) : Type 0 where
  pub direction : Direction
  pub queue : S
  pub nbr_peers : ℕ
  pub endpoints : List Endpoint
  pub notices : List Notice

abbrev pub on_queue : {S A : Type 0} → Method S A → Method (Port S) A
on_queue m p = elim (m p.queue) [
  | done a s ↦ done a (record p { queue = s })
  | raised e s ↦ raised e (record p { queue = s })
]

abbrev pub tell : {S : Type 0} → Notice → Method (Port S) (Unit {0})
tell notice p = done tt (record p { notices = p.notices ++ notice ∷ [] })

abbrev pub ids : List Endpoint → List ℕ
ids [] = []
ids (e ∷ es) = e.id ∷ ids es

abbrev pub peer_ids : List Endpoint → List ℕ
peer_ids [] = []
peer_ids (e ∷ es) = e.peer_id ∷ peer_ids es

-- The first endpoint with the peer, as `match[0]`.
abbrev pub find_peer : ℕ → List Endpoint → Option Endpoint
find_peer peer [] = none
find_peer peer (e ∷ es) = if e.peer_id == peer then some e else find_peer peer es

-- `endpoints.remove(endpoint)`, or no change where it is not there.
abbrev pub detach_endpoint : Endpoint → List Endpoint → List Endpoint
detach_endpoint old [] = []
detach_endpoint old (e ∷ es) = if e.id == old.id then es else e ∷ detach_endpoint old es

abbrev pub without : Option Endpoint → List Endpoint → List Endpoint
without none es = es
without (some old) es = detach_endpoint old es

-- The endpoints that `disconnect` removes: all, or those of the peers that it is given.
abbrev pub is_chosen : Option (List ℕ) → Endpoint → Bool
is_chosen none e = true
is_chosen (some peers) e = contains peers e.peer_id

abbrev pub chosen : Option (List ℕ) → List Endpoint → List Endpoint
chosen peers [] = []
chosen peers (e ∷ es) = if is_chosen peers e then e ∷ chosen peers es else chosen peers es

-- `[e for e in self.endpoints if e not in endpoints]`
abbrev pub not_in : List Endpoint → List Endpoint → List Endpoint
not_in gone [] = []
not_in gone (e ∷ es) = if contains (ids gone) e.id then not_in gone es else e ∷ not_in gone es

-- `terminate >= DISCONNECT.TERMINATE`
abbrev pub is_lasting : Disconnect → Bool
is_lasting temporary = false
is_lasting _ = true

abbrev with_remaining : Endpoint → Option (List (ℕ × Token)) → Endpoint
with_remaining e none = e
with_remaining e (some tokens) = record e { remaining_tokens = some tokens }

module _ {S : Type 0} (calls : PortCalls S) where
  -- The answer is the endpoint that the new one replaces, or none (`Endpoint.void()`).
  unfoldable pub attach_endpoint : Endpoint → Method (Port S) (Option Endpoint)
  attach_endpoint endpoint p =
      let old = find_peer endpoint.peer_id p.endpoints in
      (do
        put (record p { endpoints = without old p.endpoints ++ endpoint ∷ [] })
        on_queue (calls.attached endpoint)
        q ← self
        peers ← or_raise (calls.get_peers q.queue) type_error
        (if ltb q.nbr_peers (length peers)
            then put (record q { nbr_peers = length peers })
            else tell did_connect)
        return old)
        p

  -- The loop over the endpoints to detach, each with the tokens that it is left with.
  pub detach_all : Disconnect → List Endpoint → Method (Port S) (List Endpoint)
  detach_all mode [] = return []
  detach_all mode (e ∷ es) = do
    tokens ← on_queue (calls.detached mode e)
    rest ← detach_all mode es
    return (with_remaining e tokens ∷ rest)

  -- An in-port that exhausts its tokens is not yet disconnected.
  abbrev pub is_disconnected : Port S → Bool
  is_disconnected p =
      is_empty p.endpoints
      && elim p.direction [ in_port ↦ not (calls.is_exhausting p.queue) | out_port ↦ true ]

  abbrev pub tell_disconnected : Method (Port S) (Unit {0})
  tell_disconnected p = if is_disconnected p then tell did_disconnect p else done tt p

  unfoldable pub disconnect : Option (List ℕ) → Disconnect → Method (Port S) (List Endpoint)
  disconnect peers mode p =
      let gone = chosen peers p.endpoints in
      (do
        put (record p { endpoints = not_in gone p.endpoints })
        detached ← detach_all mode gone
        q ← self
        (if is_lasting mode
            then put (record q { nbr_peers = q.nbr_peers - length gone })
            else return tt)
        tell_disconnected
        return detached)
        p

  -- Only an in-port looks whether that was the end of it.
  unfoldable pub exhausted_tokens : List (ℕ × List (ℕ × Token)) → Method (Port S) (Unit {0})
  exhausted_tokens tokens p =
      (on_queue (calls.set_exhausted_tokens tokens)
          >> elim p.direction [ in_port ↦ tell_disconnected | out_port ↦ return tt ])
        p

  -- `InPort.finished_exhaustion`.
  unfoldable pub finished_exhaustion : Method (Port S) (Unit {0})
  finished_exhaustion = tell_disconnected

abbrev all_connected : List Endpoint → Bool
all_connected [] = true
all_connected (e ∷ es) = e.is_connected && all_connected es

abbrev pub is_connected : {S : Type 0} → Port S → Bool
is_connected p = not (ltb (length p.endpoints) p.nbr_peers) && all_connected p.endpoints

abbrev pub is_connected_to : {S : Type 0} → ℕ → Port S → Bool
is_connected_to peer p = contains (peer_ids p.endpoints) peer

-- What `self.queue` may be: nothing, the placeholder QueueNone without a state or with one that was
-- migrated, or a queue.
pub data QueueSlot (S St : Type 0) : Type 0 where
  no_queue stateless : QueueSlot S St
  migrated : St → QueueSlot S St
  held : S → QueueSlot S St

abbrev type_number : QueueType → ℕ
type_number fanout_fifo = 0
type_number ordered_type = 1
type_number round_robin_type = 2
type_number random_type = 3
type_number balanced_type = 4
type_number mapped_type = 5
type_number unordered_type = 6
type_number tagged_type = 7
type_number synced_type = 8
type_number any_type = 9

-- Equality of the names of two queue types, where there are such names.
abbrev pub is_type : Option QueueType → Option QueueType → Bool
is_type (some a) (some b) = type_number a == type_number b
is_type none none = true
is_type a b = false

module _ {S St : Type 0} (queue_type : S → Option QueueType) (state_type : St → Option QueueType)
    (set_state : St → S → S) where
  unfoldable pub set_queue : S → Method (QueueSlot S St) (Unit {0})
  set_queue new no_queue = done tt (held new)
  set_queue new stateless = done tt (held new)
  set_queue new (migrated state) =
      if is_type (state_type state) (queue_type new)
      then done tt (held (set_state state new))
      else raised not_implemented (migrated state)
  set_queue new (held old) =
      if is_type (queue_type old) (queue_type new)
      then done tt (held old)
      else raised not_implemented (held old)

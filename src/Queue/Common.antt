-- ===== src/Queue/Common.antt =====
-- What the queues share: queue/common.py, and DISCONNECT of calvin/runtime/north/plugins/port.
use calvin_base.Base.{ℕ, Option, none, some, Bool, true, false}

-- COMMIT_RESPONSE.
pub data CommitResponse : Type 0 where
  handled unhandled invalid : CommitResponse

-- DISCONNECT.
pub data Disconnect : Type 0 where
  temporary terminate exhaust_all exhaust_peer : Disconnect
  exhaust_inport exhaust_outport exhaust_peer_recv exhaust_peer_send : Disconnect

-- `terminate in [DISCONNECT.EXHAUST_PEER_SEND, DISCONNECT.EXHAUST_OUTPORT]`
abbrev pub is_sending : Disconnect → Bool
is_sending exhaust_outport = true
is_sending exhaust_peer_send = true
is_sending _ = false

-- `terminate in [DISCONNECT.EXHAUST_PEER_RECV, DISCONNECT.EXHAUST_INPORT]`
abbrev pub is_receiving : Disconnect → Bool
is_receiving exhaust_inport = true
is_receiving exhaust_peer_recv = true
is_receiving _ = false

pub data Direction : Type 0 where
  in_port out_port : Direction

-- The routing property of a port, which selects its queue; `no_routing` is any other value.
pub data Routing : Type 0 where
  round_robin random dispatch_ordered dispatch_mapped balanced : Routing
  collect_unordered collect_tagged collect_all_tagged collect_any_tagged no_routing : Routing

pub data QueueType : Type 0 where
  fanout_fifo : QueueType
  ordered_type round_robin_type random_type balanced_type mapped_type : QueueType
  unordered_type tagged_type synced_type any_type : QueueType

-- The port properties that the queues read, where they are given.
pub record PortProperties : Type 0 where
  pub routing : Option Routing
  pub queue_length : Option ℕ
  pub nbr_peers : Option ℕ
  pub direction : Option Direction
  pub tag : Option ℕ

-- `get` of queue/__init__.py: the class of a port's queue; with no routing property the name that it
-- looks up is unbound, and the answer is None.
abbrev pub queue_class : Option Routing → Option QueueType
queue_class none = none
queue_class (some round_robin) = some round_robin_type
queue_class (some random) = some random_type
queue_class (some dispatch_ordered) = some ordered_type
queue_class (some dispatch_mapped) = some mapped_type
queue_class (some balanced) = some balanced_type
queue_class (some collect_unordered) = some unordered_type
queue_class (some collect_tagged) = some tagged_type
queue_class (some collect_all_tagged) = some synced_type
queue_class (some collect_any_tagged) = some any_type
queue_class (some no_routing) = some fanout_fifo

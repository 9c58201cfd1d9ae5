-- ===== src/Lib.antt =====
-- Calvin base: the data flow of a runtime, from the actors that fire to the queues that carry their
-- tokens. An actor reads tokens from the queues of its in-ports and writes tokens to the queues of
-- its out-ports; endpoints move tokens from an out-port's queue to the queue of an in-port; a
-- scheduler calls the endpoints and the actors from one queue of tasks.
--
-- The files and what they model (paths from the root of the repository):
--   Token                 calvin/runtime/north/calvin_token.py: Token, ExceptionToken, EOSToken
--   Queue.Common          queue/common.py and DISCONNECT of calvin/runtime/north/plugins/port
--   Queue.Fanout          queue/fanout_fifo.py; .Com is the interface of the endpoints (com_...),
--                         .Exhaust the termination protocol (exhaust, set_exhausted_tokens, commit)
--   Queue.Routed          queue/fanout_base.py: one lane of tokens for each reader
--   Queue.Ordered         queue/fanout_ordered_fifo.py, fanout_round_robin_fifo.py and
--                         fanout_random_fifo.py: the classes differ in their turns (type Turn)
--   Queue.Balanced        queue/fanout_balanced_fifo.py
--   Queue.Mapped          queue/fanout_mapped_fifo.py
--   Queue.Collect         queue/collect_base.py; .Exhaust its termination protocol, .Unordered is
--                         collect_unordered.py and collect_tagged.py, .Together is
--                         collect_synced.py and collect_any.py
--   Endpoint              endpoint/local.py: LocalOutEndpoint.communicate, on interfaces of the two
--                         queues; .Stream states what it needs of them as records of laws and
--                         .Fifo gives these laws for FanoutFIFO
--                         .Attach is attached and detached of both local endpoints, and .Tunnel
--                         is endpoint/tunnel.py: tokens in messages, acknowledged or refused
--   Monitor               calvin/runtime/north/monitor.py: Event_Monitor
--   Scheduler             calvin/runtime/north/scheduler.py: the task queue, the delayed call, the
--                         events and the tasks of BaseScheduler and SimpleScheduler
--   Actor                 calvin/actor/actor.py: the status machine; .Firing is condition,
--                         stateguard and fire, with the firing loops of scheduler.py; the
--                         time limit of the preemptive loop is a test on its rounds
--   Access                calvin/runtime/north/authorization/policy_decision_point.py: .Conditions is
--                         target_matches, evaluate_function and rule_decision, .Policies the
--                         combination of rules and of policies, .Search _authorize_cont and
--                         runtime_search with the checks of plugins/authorization_checks
--   Dynops                calvin/utilities/dynops.py: Union, Intersection and Difference; an iterable
--                         is the list of what its calls of next answer, and .run gives that list
--                         of an operation, so that operations are iterables of others
--   Requirements          calvin/utilities/requirement_matching.py: the nodes that an actor may be
--                         placed on, by the operations of Dynops
--   Port                  calvin/actor/actorport.py: InPort and OutPort, attach_endpoint, disconnect and
--                         set_queue. .Wired states what a port needs of its queue as a record of
--                         laws, and .Fifo gives them for the FanoutFIFO of an out-port
-- where queue/ and endpoint/ are in calvin/runtime/north/plugins/port. Base is the shared part:
-- dictionaries, lists, ring buffers, and methods with exceptions. A module's children hold its
-- proofs, named for what they prove, and in Tests the concrete inputs.
--
-- How the code is modelled:
--   * An object is a record and a method a function from its state to an outcome: a result or an
--     exception, with the state that the object has then. `try: ... except: pass` is `attempt`.
--   * Ids, tags and labels are natural numbers, since the code only compares them. A dictionary is
--     an association list, iterated in its order; a set is a list of distinct ids.
--   * Times are natural numbers and arguments (`now`, `later`), as are random draws and the answers
--     of parts that are not modelled: an authorization decision, a node that was found, a
--     coder. In Monitor a unit of time is 0.1 s.
--   * What a task of the scheduler calls in the managers, the monitor and the actors is an argument:
--     the events that these calls report to the scheduler, whether they raise an exception, and
--     whether there was activity. A search for another runtime, which a denied actor starts, is
--     counted; its answer is the operation `set_migration_info`.
--   * A token object that a method changes, as `FanoutMappedFIFO.write` does, is part of its state.
--   * Subtraction stops at 0; where the code takes a difference modulo the size, as in the slots
--     of FanoutFIFO, the remainder of a negative number is written out (`sub_mod`). `nbr_peers` is
--     taken to stay at 0 once it is there.
--   * The loop of `communicate` has a bound on its rounds: one more than the pending tokens is
--     enough, and for the sending loop of the tunnel endpoint too. The loops of `_fire_actor` and
--     `_fire_actor_non_preemptive` have one: any size that each firing makes smaller, and one
--     more, is enough. The loop of Intersection has one round more than there are events, and `run`
--     is given more calls than there are answers.
--   * In Access a text is a number, 0 the empty one; matching by a pattern, splitting at ":", the
--     order of texts and the policy information point, whose answers hold for the time of a
--     request, are the parameters `TextRules`. The requirements of a request are a list. `none` is
--     an exception there.
--   * A Python set is a list of distinct elements, and `pop` takes the first.
--
-- Not modelled: the connections, the managers of actors, applications and replication, storage, the
-- network and its protocols, the compiler of CalvinScript, the other parts of security, the control
-- API and the tools. They are callbacks around I/O, or are independent of the parts above. Of the
-- modelled files, set_config, the printing methods, the serialization of actors and ports, PortMeta,
-- and the List, Map, Chain and Collect of dynops with the triggers are left out.
pub mod Base
pub mod Token
pub mod Queue
pub mod Endpoint
pub mod Monitor
pub mod Scheduler
pub mod Actor
pub mod Access
pub mod Dynops
pub mod Requirements
pub mod Port

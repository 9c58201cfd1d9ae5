-- ===== src/Actor.antt =====
-- The status of an actor, and how connections, authorization and migration change it:
-- calvin/actor/actor.py.
mod Firing
mod Lifecycle
mod Priority
mod Loops
mod Tests
use calvin_base.Base.{
  ℕ, zero, suc, ◌+◌, ◌-◌, ◌*◌, ◌%◌, ◌≤◌, ◌<◌, ◌≡◌, refl, sym, ap, ◌∙◌, ◌≢◌, ◌⊎◌, inl, inr, Bool,
  true, false, not, ◌&&◌, ◌||◌, Option, none, some, List, [], ◌∷◌, ◌++◌, map, length, is_empty, set,
  get_elem?, replicate, take, drop, contains, remove, contains_all, same_set, sort, Distinct, leb,
  ltb, ◌==◌, if◌then◌else◌, subst, tests, get_or_default, Bool-cases, Option-cases, Dict, lookup,
  insert, erase, keys, values, map_values, set_default, update, AllValues, minimum?, minimum_or,
  Error, queue_full, queue_empty, unknown_reader, unknown_writer, illegal_mapping, illegal_order,
  value_error, attribute_error, key_error, type_error, index_error, zero_division, not_implemented,
  exception, Method, Outcome, done, raised, ◌>>=◌, ◌>>◌, return, raise, self, put, require,
  or_raise, item, elem, attempt, after, arith, ℕ_discrete,
}

pub data Status : Type 0 where
  loaded ready pending enabled denied migratable : Status

abbrev pub same_status : Status → Status → Bool
same_status loaded loaded = true
same_status ready ready = true
same_status pending pending = true
same_status enabled enabled = true
same_status denied denied = true
same_status migratable migratable = true
same_status a b = false

-- VALID_TRANSITIONS.
abbrev pub is_valid : Status → Status → Bool
is_valid loaded ready = true
is_valid ready pending = true
is_valid ready enabled = true
is_valid ready denied = true
is_valid pending ready = true
is_valid pending pending = true
is_valid pending enabled = true
is_valid enabled ready = true
is_valid enabled pending = true
is_valid enabled denied = true
is_valid denied enabled = true
is_valid denied migratable = true
is_valid denied pending = true
is_valid migratable ready = true
is_valid migratable denied = true
is_valid a b = false

-- `starts` and `stops` count the calls of `will_start` and `will_stop`, the actor's own hooks, and
-- `searches` those of `authorization_runtime_search`, which looks in the storage and answers by
-- `set_migration_info`, an operation of its own.
pub record Actor : Type 0 where
  pub state : Status
  pub allow_invalid_transitions : Bool
  pub disable_transition_checks : Bool
  pub has_started : Bool
  pub starts : ℕ
  pub stops : ℕ
  pub searches : ℕ
  pub inports : List ℕ
  pub outports : List ℕ
  pub is_exhausting : Bool
  pub migration_info : Option ℕ

abbrev pub init : List ℕ → List ℕ → Bool → Bool → Actor
init inports outports allow disable = record {
  state = loaded;
  allow_invalid_transitions = allow;
  disable_transition_checks = disable;
  has_started = false;
  starts = 0;
  stops = 0;
  searches = 0;
  inports = inports;
  outports = outports;
  is_exhausting = false;
  migration_info = none;
}

abbrev pub will_start : Actor → Actor
will_start a = if a.has_started then a else record a { has_started = true; starts = a.starts + 1 }

-- The hooks, by the old and the new status.
unfoldable pub hook : Status → Status → Actor → Actor
hook pending enabled a = will_start a
hook enabled pending a = record a { stops = a.stops + 1 }
hook old new a = a

abbrev pub set_state : Status → Actor → Actor
set_state new a = record a { state = new }

unfoldable pub transition_to : Status → Method Actor (Unit {0})
unfolding hook
transition_to new a =
    if is_valid a.state new || a.disable_transition_checks
    then done tt (set_state new (hook a.state new a))
    else (if a.allow_invalid_transitions then done tt (set_state new a) else raised exception a)

unfoldable pub setup_complete : Method Actor (Unit {0})
unfolding transition_to
setup_complete a = transition_to ready a

-- `is_connected` of the ports.
abbrev pub all_ports : (ℕ → Bool) → List ℕ → Bool
all_ports p [] = true
all_ports p (i ∷ ports) = p i && all_ports p ports

abbrev pub any_port : (ℕ → Bool) → List ℕ → Bool
any_port p [] = false
any_port p (i ∷ ports) = p i || any_port p ports

module _ (is_connected : ℕ → Bool) where
  unfoldable pub enable_connected : Method Actor (Unit {0})
  unfolding transition_to
  enable_connected a =
      if all_ports is_connected a.inports && all_ports is_connected a.outports
      then transition_to enabled a
      else done tt a

  unfoldable pub did_connect : Method Actor (Unit {0})
  unfolding transition_to enable_connected
  did_connect a = elim (same_status a.state enabled) [
    | true ↦ done tt a
    | false ↦
        ((if same_status a.state ready then transition_to pending else return tt)
            >> enable_connected)
          a
  ]

  unfoldable pub ready_disconnected : Method Actor (Unit {0})
  unfolding transition_to
  ready_disconnected a =
      if any_port is_connected a.inports || any_port is_connected a.outports
      then done tt a
      else transition_to ready a

  unfoldable pub did_disconnect : Method Actor (Unit {0})
  unfolding transition_to ready_disconnected
  did_disconnect a = elim (same_status a.state migratable) [
    | true ↦ done tt a
    | false ↦
        ((if same_status a.state pending then return tt else transition_to pending)
            >> ready_disconnected)
          a
  ]

abbrev pub start_search : Method Actor (Unit {0})
start_search a = done tt (record a { searches = a.searches + 1 })

-- `decision` is what `check_authorization_decision` answers.
unfoldable pub authorized : Bool → Method Actor Bool
unfolding transition_to
authorized true a = done true a
authorized false a = (transition_to denied >> (start_search >> return false)) a

unfoldable pub enable_or_migrate : Bool → Method Actor (Unit {0})
unfolding transition_to
enable_or_migrate true a = transition_to enabled a
enable_or_migrate false a = start_search a

-- The node that the authorization search found, if it found one.
unfoldable pub set_migration_info : Option ℕ → Method Actor (Unit {0})
unfolding transition_to
set_migration_info none a = done tt a
set_migration_info (some node) a =
    transition_to migratable (record a { migration_info = some node })

unfoldable pub remove_migration_info : Bool → Method Actor (Unit {0})
remove_migration_info true a = done tt a
remove_migration_info false a = done tt (record a { migration_info = none })

unfoldable pub enable : Method Actor (Unit {0})
unfolding transition_to
enable a = transition_to enabled a

unfoldable pub disable : Method Actor (Unit {0})
unfolding transition_to
disable a = transition_to pending a

abbrev pub is_enabled : Actor → Bool
is_enabled a = same_status a.state enabled || a.is_exhausting

abbrev pub is_denied : Actor → Bool
is_denied a = same_status a.state denied

abbrev pub is_migratable : Actor → Bool
is_migratable a = same_status a.state migratable

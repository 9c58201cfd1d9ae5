-- ===== src/Actor/Lifecycle.antt =====
-- The actor's status: which transitions its operations make.
use calvin_base.Base.{
  inl, Bool-cases, exception, raised, ℕ, ◌+◌, ◌≤◌, ◌≡◌, refl, sym, ap, ◌∙◌, ◌⊎◌, inr, Bool, true,
  false, ◌&&◌, ◌||◌, Option, some, List, if◌then◌else◌, subst, Method, done, ◌>>=◌, return, after,
  arith,
}
use calvin_base.Actor.{
  Actor, Status, loaded, ready, pending, enabled, denied, migratable, same_status, init, will_start,
  hook, set_state, transition_to, setup_complete, all_ports, any_port, enable_connected,
  did_connect, ready_disconnected, did_disconnect, authorized, enable_or_migrate,
  set_migration_info, remove_migration_info, enable, disable,
}

-- The operations on the status, with what they are told: the ports that are connected, the decision
-- and the node that were found, and whether the migration went well.
pub data Operation : Type 0 where
  complete : Operation
  connect disconnect : (ℕ → Bool) → Operation
  deny : Operation
  decide : Bool → Operation
  found : Option ℕ → Operation
  migrated : Bool → Operation
  turn_on turn_off : Operation

pub apply : Operation → Method Actor (Unit {0})
unfolding setup_complete did_connect did_disconnect authorized enable_or_migrate set_migration_info
    remove_migration_info enable disable
apply complete a = setup_complete a
apply (connect p) a = did_connect p a
apply (disconnect p) a = did_disconnect p a
apply deny a = (authorized false >>= λ b. return tt) a
apply (decide b) a = enable_or_migrate b a
apply (found at) a = set_migration_info at a
apply (migrated b) a = remove_migration_info b a
apply turn_on a = enable a
apply turn_off a = disable a

-- The statuses that the `verify_status` of an operation names. `_authorized`, the operation `deny`,
-- has no such decorator: the firing loops call it for enabled actors, before `fire`.
unfoldable pub is_meant : Operation → Status → Bool
is_meant complete loaded = true
is_meant (connect p) ready = true
is_meant (connect p) pending = true
is_meant (connect p) enabled = true
is_meant (disconnect p) enabled = true
is_meant (disconnect p) pending = true
is_meant (disconnect p) denied = true
is_meant (disconnect p) migratable = true
is_meant deny enabled = true
is_meant (decide b) denied = true
is_meant (found at) denied = true
is_meant (migrated b) migratable = true
is_meant (migrated b) ready = true
is_meant turn_on enabled = true
is_meant turn_off ready = true
is_meant turn_off pending = true
is_meant turn_off loaded = true
is_meant o s = false

-- The statuses of them from which VALID_TRANSITIONS does not allow what the operation does.
unfoldable pub is_mistaken : Operation → Status → Bool
is_mistaken turn_on enabled = true
is_mistaken turn_off loaded = true
is_mistaken o s = false

-- The status that an operation leads to.
unfoldable pub next : Operation → Actor → Status
next complete a = ready
next (connect p) a =
    if same_status a.state enabled || all_ports p a.inports && all_ports p a.outports
    then enabled
    else pending
next (disconnect p) a =
    if same_status a.state migratable
    then migratable
    else (if any_port p a.inports || any_port p a.outports then pending else ready)
next deny a = denied
next (decide true) a = enabled
next (decide false) a = denied
next (found Option.none) a = denied
next (found (some n)) a = migratable
next (migrated b) a = a.state
next turn_on a = enabled
next turn_off a = pending

-- `will_start` was called at most once, and was called if the actor is or was enabled.
unfoldable pub was_enabled : Status → Bool
was_enabled enabled = true
was_enabled denied = true
was_enabled migratable = true
was_enabled s = false

pub IsStarted : Actor → Type 0
IsStarted a =
    ((a.has_started ≡ true) × (a.starts ≡ 1))
    ⊎ ((a.has_started ≡ false) × (a.starts ≡ 0) × (was_enabled a.state ≡ false))

-- The operation succeeds, leads to its status, and keeps the count of the starts.
pub Succeeds : Operation → Actor → Type 0
Succeeds o a = (b : Actor) × (apply o a ≡ done tt b) × (b.state ≡ next o a) × IsStarted b

connected :
    (c : Bool) (a : Actor)
    → IsStarted (set_state pending a)
    → (b : Actor) × ((if c
          then transition_to enabled (set_state pending a)
          else done tt (set_state pending a))
        ≡ done tt b)
      × (b.state ≡ (if c then enabled else pending))
      × IsStarted b
unfolding transition_to hook IsStarted was_enabled
connected true a h =
    (set_state enabled (will_start (set_state pending a)), refl, refl, ground (arith, h))
connected false a h = (set_state pending a, refl, refl, h)

disconnected :
    (c : Bool) (a : Actor)
    → IsStarted (set_state pending a)
    → (b : Actor) × ((if c
          then done tt (set_state pending a)
          else transition_to ready (set_state pending a))
        ≡ done tt b)
      × (b.state ≡ (if c then pending else ready))
      × IsStarted b
unfolding transition_to hook IsStarted was_enabled
disconnected true a h = (set_state pending a, refl, refl, h)
disconnected false a h = (set_state ready a, refl, refl, h)

pending-IsStarted :
    (s : Status) (a : Actor) → IsStarted (set_state s a) → IsStarted (set_state pending a)
unfolding IsStarted was_enabled
pending-IsStarted s a h = ground (arith, h)

succeeds :
    (o : Operation) (s : Status) (a : Actor)
    → IsStarted (set_state s a)
    → is_meant o s ≡ true
    → is_mistaken o s ≡ false
    → Succeeds o (set_state s a)
unfolding Succeeds IsStarted was_enabled apply is_meant next transition_to hook setup_complete
    did_connect did_disconnect authorized enable_or_migrate set_migration_info remove_migration_info
    enable disable is_mistaken enable_connected ready_disconnected
succeeds complete loaded a h m w = (set_state ready a, refl, refl, ground (arith, h))
succeeds (connect p) ready a h m w =
    connected (all_ports p a.inports && all_ports p a.outports) a (pending-IsStarted ready a h)
succeeds (connect p) pending a h m w =
    connected (all_ports p a.inports && all_ports p a.outports) a h
succeeds (connect p) enabled a h m w = (set_state enabled a, refl, refl, h)
succeeds (disconnect p) enabled a h m w =
    disconnected (any_port p a.inports || any_port p a.outports) (record a { stops = a.stops + 1 })
      (pending-IsStarted enabled a h)
succeeds (disconnect p) pending a h m w =
    disconnected (any_port p a.inports || any_port p a.outports) a h
succeeds (disconnect p) denied a h m w =
    disconnected (any_port p a.inports || any_port p a.outports) a (pending-IsStarted denied a h)
succeeds (disconnect p) migratable a h m w = (set_state migratable a, refl, refl, h)
succeeds deny enabled a h m w =
    (record a { state = denied; searches = a.searches + 1 }, refl, refl, h)
succeeds (decide true) denied a h m w = (set_state enabled a, refl, refl, h)
succeeds (decide false) denied a h m w =
    (record a { state = denied; searches = a.searches + 1 }, refl, refl, h)
succeeds (found Option.none) denied a h m w = (set_state denied a, refl, refl, h)
succeeds (found (some n)) denied a h m w =
    (record a { state = migratable; migration_info = some n }, refl, refl, h)
succeeds (migrated true) s a h m w = (set_state s a, refl, refl, h)
succeeds (migrated false) s a h m w =
    (record a { state = s; migration_info = Option.none }, refl, refl, h)
succeeds turn_off ready a h m w = (set_state pending a, refl, refl, pending-IsStarted ready a h)
succeeds turn_off pending a h m w = (set_state pending a, refl, refl, h)
succeeds o s a h m w = absurd (ground arith)

at_status : (a : Actor) (s : Status) → a.state ≡ s → a ≡ set_state s a
at_status a s e = ap (λ r. set_state r a) e

-- The history of an actor on which each operation is called at a status that is meant for it.
pub data Life : Actor → Type 0 where
  born :
      (inports outports : List ℕ) (allow disable : Bool)
      → Life (init inports outports allow disable)
  lives :
      (o : Operation) (a b : Actor)
      → Life a
      → is_meant o a.state ≡ true
      → apply o a ≡ done tt b
      → Life b

-- A transition that is not valid is refused, unless the actor allows it or does not check it.
abbrev pub Refuses : Operation → Actor → Type 0
Refuses o a =
    (is_mistaken o a.state ≡ true)
    × (a.disable_transition_checks ≡ false)
    × (a.allow_invalid_transitions ≡ false)
    × (apply o a ≡ raised exception a)

mistaken :
    (o : Operation) (s : Status) (a : Actor) (allow unchecked : Bool)
    → a.allow_invalid_transitions ≡ allow
    → a.disable_transition_checks ≡ unchecked
    → IsStarted (set_state s a)
    → is_mistaken o s ≡ true
    → Succeeds o (set_state s a) ⊎ Refuses o (set_state s a)
unfolding Succeeds IsStarted was_enabled apply next transition_to hook enable disable is_mistaken
mistaken turn_on enabled a allow true x y h w = inl (set_state enabled a, rw y refl, refl, h)
mistaken turn_on enabled a true false x y h w = inl (set_state enabled a, rw (y, x) refl, refl, h)
mistaken turn_on enabled a false false x y h w = inr (refl, y, x, rw (y, x) refl)
mistaken turn_off loaded a allow true x y h w =
    inl (set_state pending a, rw y refl, refl, pending-IsStarted loaded a h)
mistaken turn_off loaded a true false x y h w =
    inl (set_state pending a, rw (y, x) refl, refl, pending-IsStarted loaded a h)
mistaken turn_off loaded a false false x y h w = inr (refl, y, x, rw (y, x) refl)
mistaken o s a allow unchecked x y h w = absurd (ground arith)

ends :
    (o : Operation) (a : Actor)
    → IsStarted a
    → is_meant o a.state ≡ true
    → Succeeds o a ⊎ Refuses o a
ends o a h m = elim (Bool-cases (is_mistaken o a.state)) [
  | inl w ↦
      mistaken o a.state a a.allow_invalid_transitions a.disable_transition_checks refl refl h w
  | inr w ↦ inl (succeeds o a.state a h m w)
]

Life-IsStarted : (a : Actor) → Life a → IsStarted a
unfolding Succeeds IsStarted was_enabled
Life-IsStarted _ (born inports outports allow disable) = inr (refl, refl, refl)
Life-IsStarted _ (lives o a b l m e) = elim (ends o a (Life-IsStarted a l) m) [
  | inl (c, f, led, started) ↦ subst IsStarted (ap after (sym f ∙ e)) started
  | inr (w, checked, forbidden, f) ↦ absurd (ground (arith, sym f ∙ e))
]

-- In every state of a history on which each operation was called at a status that its
-- `verify_status` names, and a denied authorization, which has none, at ENABLED: each operation
-- that may be called so at the status of that state succeeds, also where invalid transitions are
-- not allowed, except for `enable` at ENABLED and `disable` at LOADED, the two whose transition is
-- not valid. These succeed too, or they raise an exception and change nothing, and they raise it
-- only where invalid transitions are neither allowed nor left unchecked. An operation that succeeds
-- leads to the status that `next` gives, from the ports that are connected, and the history goes on.
pub apply-Life :
    (o : Operation) (a : Actor)
    → Life a
    → is_meant o a.state ≡ true
    → ((b : Actor) × (apply o a ≡ done tt b) × (b.state ≡ next o a) × Life b) ⊎ Refuses o a
unfolding Succeeds
apply-Life o a l m = elim (ends o a (Life-IsStarted a l) m) [
  | inl (b, e, led, started) ↦ inl (b, e, led, lives o a b l m e)
  | inr refused ↦ inr refused
]

-- On a history on which each operation was called at a status that is meant for it, `will_start` was
-- called once where the actor is enabled, denied or migratable, however often it was stopped and
-- enabled again, and at most once elsewhere.
pub Life-starts :
    (a : Actor) → Life a → (a.starts ≤ 1) × ((a.starts ≡ 1) ⊎ (was_enabled a.state ≡ false))
unfolding IsStarted
Life-starts a l = let h = Life-IsStarted a l in ground (arith, h)

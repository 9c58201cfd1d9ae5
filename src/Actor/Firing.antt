-- ===== src/Actor/Firing.antt =====
-- How an actor's actions fire: condition, stateguard and fire of calvin/actor/actor.py, and the
-- loops of calvin/runtime/north/scheduler.py that call it.
use calvin_base.Base.{
  ℕ, zero, suc, Bool, true, false, not, ◌&&◌, List, [], ◌∷◌, length, ◌==◌, if◌then◌else◌, exception,
  Method, done, raised, ◌>>=◌, ◌>>◌, return, self, require, attempt,
}
use calvin_base.Token.{Token}
use calvin_base.Actor.{Actor, authorized}

-- The operations of an actor's ports that an action uses, on a state that holds their queues.
-- `read` tells whether the port was exhausted by it.
pub record Ports (W : Type 0) : Type 0 where
  pub tokens_available : ℕ → W → Bool
  pub slots_available : ℕ → W → Bool
  pub read : ℕ → Method W (Token × Bool)
  pub write_token : ℕ → Token → Method W (Unit {0})
  pub finished_exhaustion : ℕ → Method W (Unit {0})
  pub any_outstanding : W → Bool

-- An action method, its exceptions handled: it takes the tokens and gives a production.
pub record Action (W : Type 0) : Type 0 where
  pub guard : W → Bool
  pub inputs : List ℕ
  pub outputs : List ℕ
  pub method : List Token → Method W (List Token)

-- (did_fire, output_ok, exhausted)
pub record Fired : Type 0 where
  pub did_fire : Bool
  pub output_ok : Bool
  pub exhausted : List ℕ

abbrev pub nothing_yet : Fired
nothing_yet = record { did_fire = false; output_ok = false; exhausted = [] }

module _ {W : Type 0} (ports : Ports W) where
  abbrev pub all_available : (ℕ → W → Bool) → List ℕ → W → Bool
  all_available available [] w = true
  all_available available (p ∷ ps) w = available p w && all_available available ps w

  -- The tokens that the action takes, and the ports that are exhausted by it.
  unfoldable pub read_all : List ℕ → Method W (List Token × List ℕ)
  read_all [] w = done ([], []) w
  read_all (p ∷ ps) w =
      (do
        (token, exhaust) ← ports.read p
        (tokens, exhausted) ← read_all ps
        return (token ∷ tokens, if exhaust then p ∷ exhausted else exhausted))
        w

  unfoldable pub write_all : List ℕ → List Token → Method W (Unit {0})
  write_all (p ∷ ps) (t ∷ ts) w = (ports.write_token p t >> write_all ps ts) w
  write_all [] ts w = done tt w
  write_all (p ∷ ps) [] w = done tt w

  -- The action itself, and what it reads and writes.
  unfoldable pub perform : Action W → Method W Fired
  unfolding read_all write_all
  perform action w =
      (do
        (tokens, exhausted) ← read_all action.inputs
        production ← action.method tokens
        _ ← require (length action.outputs == length production) exception
        _ ← write_all action.outputs production
        return (record { did_fire = true; output_ok = true; exhausted = exhausted }))
        w

  unfoldable pub condition_wrapper : Action W → Method W Fired
  unfolding perform
  condition_wrapper action w =
      let input_ok = all_available ports.tokens_available action.inputs w in
      let output_ok = all_available ports.slots_available action.outputs w in
      if input_ok && output_ok
      then perform action w
      else done (record { did_fire = false; output_ok = output_ok; exhausted = [] }) w

  unfoldable pub guard_wrapper : Action W → Method W Fired
  unfolding condition_wrapper
  guard_wrapper action w =
      if action.guard w
      then condition_wrapper action w
      else done (record { did_fire = false; output_ok = true; exhausted = [] }) w

  -- The loop over `action_priority`; with no action at all, its result's names are unbound.
  unfoldable pub fire_from : Fired → List (Action W) → Method W Fired
  unfolding guard_wrapper
  fire_from last [] w = done last w
  fire_from last (action ∷ actions) w =
      (do
        fired ← guard_wrapper action
        (if fired.did_fire then return fired else fire_from fired actions))
        w

  unfoldable pub fire : List (Action W) → Method W Fired
  unfolding fire_from
  fire [] w = raised exception w
  fire (action ∷ actions) w = fire_from nothing_yet (action ∷ actions) w

  unfoldable pub finish_all : List ℕ → Method W (Unit {0})
  finish_all [] w = done tt w
  finish_all (p ∷ ps) w = (attempt (ports.finished_exhaustion p) >> finish_all ps) w

  -- Whether the exhaustion callback is called: `waiting` is whether there is one.
  unfoldable pub handle_exhaustion : List ℕ → Bool → Bool → Method W Bool
  unfolding finish_all
  handle_exhaustion exhausted output_ok waiting w =
      (do
        finish_all exhausted
        s ← self
        return (output_ok && waiting && not (ports.any_outstanding s)))
        w

  -- One round of a loop: `fire`, and the exhaustion where nothing fired.
  unfoldable pub settle : Bool → Bool → Fired → Method W Bool
  unfolding handle_exhaustion
  settle waiting did fired w =
      (handle_exhaustion fired.exhausted fired.output_ok waiting >>= λ called. return did) w

  unfoldable pub fire_once : Bool → List (Action W) → Method W Bool
  unfolding fire settle
  fire_once waiting actions w =
      (do
        fired ← fire actions
        (if fired.did_fire then return true else settle waiting false fired))
        w

  -- The loop of `_fire_actor` and `_fire_actor_non_preemptive`, with a bound on its rounds. `over`
  -- tells whether the time limit has passed, by the rounds that are left.
  unfoldable pub fire_loop : (ℕ → Bool) → Bool → List (Action W) → Bool → ℕ → Method W Bool
  unfolding fire settle
  fire_loop over waiting actions did zero w = done did w
  fire_loop over waiting actions did (suc fuel) w =
      (do
        fired ← fire actions
        (if fired.did_fire
            then (if over fuel then return true else fire_loop over waiting actions true fuel)
            else settle waiting did fired))
        w

-- An actor with its ports' queues.
pub record Runner (W : Type 0) : Type 0 where
  pub actor : Actor
  pub world : W

abbrev pub on_actor : {W A : Type 0} → Method Actor A → Method (Runner W) A
on_actor m r = elim (m r.actor) [
  | done x a ↦ done x (record r { actor = a })
  | raised e a ↦ raised e (record r { actor = a })
]

abbrev pub on_world : {W A : Type 0} → Method W A → Method (Runner W) A
on_world m r = elim (m r.world) [
  | done x w ↦ done x (record r { world = w })
  | raised e w ↦ raised e (record r { world = w })
]

-- `if not actor._authorized(): return False`, where `decision` is the authorization decision: a denied
-- actor changes its status and searches for another runtime.
abbrev pub if_authorized : {W : Type 0} → Bool → Method W Bool → Method (Runner W) Bool
if_authorized decision m =
    on_actor (authorized decision) >>= λ allowed. if allowed then on_world m else return false

module _ {W : Type 0} (ports : Ports W) where
  -- `_fire_actor_once`.
  unfoldable pub fire_actor_once : Bool → Bool → List (Action W) → Method (Runner W) Bool
  unfolding authorized
  fire_actor_once decision waiting actions r =
      if_authorized decision (fire_once ports waiting actions) r

  unfoldable pub fire_actor :
      (ℕ → Bool) → Bool → Bool → List (Action W) → ℕ → Method (Runner W) Bool
  unfolding authorized
  fire_actor over decision waiting actions fuel r =
      if_authorized decision (fire_loop ports over waiting actions false fuel) r

  -- This one has no time limit.
  unfoldable pub fire_actor_non_preemptive :
      Bool → Bool → List (Action W) → ℕ → Method (Runner W) Bool
  unfolding authorized
  fire_actor_non_preemptive decision waiting actions fuel r =
      if_authorized decision (fire_loop ports (λ n. false) waiting actions false fuel) r

-- ===== src/Actor/Loops.antt =====
-- The firing loops of calvin/runtime/north/scheduler.py: they end.
use calvin_base.Base.{
  ◌+◌, ◌||◌, ltb, exception, raised, Outcome, ℕ, suc, ◌<◌, ◌≡◌, ◌⊎◌, Bool, true, false, List, [],
  ◌∷◌, done,
}
use calvin_base.Actor.{Actor, denied, is_valid}
use calvin_base.Actor.Firing.{Runner, Ports, Action, Fired, fire, perform}
use calvin_base.Actor.Priority.{can_fire, none_can_fire}

module _ {W : Type 0} (ports : Ports W) (size : W → ℕ) where
  -- An action that can fire does so without an exception, and makes the state smaller.
  unfoldable pub Progresses : Action W → Type 0
  Progresses action =
      (w : W)
      → can_fire ports action w ≡ true
      → (f : Fired) × (v : W) × (perform ports action w ≡ done f v) × (size v < size w)

  unfoldable pub AllProgress : List (Action W) → Type 0
  AllProgress [] = Unit {0}
  AllProgress (action ∷ actions) = Progresses action × AllProgress actions

  -- Rounds of the loop in which an action fires and the time limit has not passed, from `n` rounds
  -- that are left to `m`.
  pub data Fires (over : ℕ → Bool) (actions : List (Action W)) : ℕ → W → ℕ → W → Type 0 where
    rest : (n : ℕ) (w : W) → Fires over actions n w n w
    round :
        (n m : ℕ) (w v u : W) (f : Fired)
        → fire ports actions w ≡ done f v
        → f.did_fire ≡ true
        → over n ≡ false
        → Fires over actions n v m u
        → Fires over actions (suc n) w m u

  -- How the loop ends: in a state in which no action can fire, or with the first round that fires
  -- when the time limit has passed. The answer is whether any round fired.
  pub data Ended (over : ℕ → Bool) (actions : List (Action W)) (did : Bool) (fuel : ℕ) (w : W)
      : Bool → W → Type 0 where
    quiet :
        (m : ℕ) (v : W)
        → Fires over actions fuel w m v
        → none_can_fire ports actions v ≡ true
        → Ended over actions did fuel w (did || ltb m fuel) v
    late :
        (m : ℕ) (v u : W) (f : Fired)
        → Fires over actions fuel w (suc m) v
        → fire ports actions v ≡ done f u
        → f.did_fire ≡ true
        → over m ≡ true
        → Ended over actions did fuel w true u

  -- The actor after a denial.
  abbrev pub denied_runner : Runner W → Runner W
  denied_runner r = record r {
    actor = record r.actor { state = denied; searches = r.actor.searches + 1 };
  }

  -- A firing loop of an actor that is denied.
  abbrev pub IsDenied : Runner W → Outcome (Runner W) Bool → Type 0
  IsDenied r o =
      (o ≡ done false (denied_runner r))
      ⊎ ((is_valid r.actor.state denied ≡ false) × (o ≡ raised exception r))

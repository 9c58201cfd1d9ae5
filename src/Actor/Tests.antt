-- ===== src/Actor/Tests.antt =====
-- Actors: the theorems at an actor with one port of each kind, and at one that takes tokens.
use calvin_base.Base.{ℕ, ◌-◌, ◌≡◌, refl, ◌⊎◌, true, false, [], ◌∷◌, ltb, done}
use calvin_base.Token.{plain, num}
use calvin_base.Actor.{Actor, ready, enabled, init}
use calvin_base.Actor.Lifecycle.{Life, born, complete, apply, next, apply-Life, is_meant, Refuses}
use calvin_base.Actor.Firing.{Runner, Ports, Action}

-- Invalid transitions are not allowed.
abbrev newborn : Actor
newborn = init (1 ∷ []) (2 ∷ []) false false

newborn-Life : Life newborn
newborn-Life = born (1 ∷ []) (2 ∷ []) false false

apply-Life_example :
    ((b : Actor) × (apply complete newborn ≡ done tt b) × (b.state ≡ ready) × Life b)
    ⊎ Refuses complete newborn
unfolding is_meant next
apply-Life_example = apply-Life complete newborn newborn-Life refl

-- The state is the number of tokens on the only port; an action takes one.
abbrev counter : Ports ℕ
counter = record {
  tokens_available = λ p n. ltb 0 n;
  slots_available = λ p n. true;
  read = λ p n. done (plain (num n), false) (n - 1);
  write_token = λ p t n. done tt n;
  finished_exhaustion = λ p n. done tt n;
  any_outstanding = λ n. false;
}

abbrev take_one : Action ℕ
take_one = record { guard = λ n. true; inputs = 1 ∷ []; outputs = []; method = λ ts n. done [] n }

-- An action that its guard forbids.
abbrev forbidden : Action ℕ
forbidden = record { guard = λ n. false; inputs = []; outputs = []; method = λ ts n. done [] n }

-- The actor that is enabled, with three tokens.
abbrev running : Runner ℕ
running = record {
  actor = record newborn { state = enabled; has_started = true; starts = 1 };
  world = 3;
}

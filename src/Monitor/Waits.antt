-- ===== src/Monitor/Waits.antt =====
-- Event_Monitor: who waits, and for how long.
use calvin_base.Base.{
  ℕ, ◌+◌, ◌≤◌, ◌≡◌, refl, ap, inl, inr, Bool, some, List, [], ◌∷◌, ◌++◌, get_or_default,
  Option-cases, Dict, lookup, AllValues, arith,
}
use calvin_base.Base.{lookup-insert, insert-AllValues}
use calvin_base.Monitor.{
  Monitor, set_backoff, check_backoff, waiting, next_backoff, communicate, communicate_with,
}

-- An endpoint's time of its next attempt and its last wait: 0.1 s to 1 s.
abbrev pub IsBounded : ℕ × ℕ → Type 0
IsBounded v = (1 ≤ v.1) × (v.1 ≤ 10) × (v.1 ≤ v.0)

set_backoff-IsBounded :
    (now endpoint : ℕ) (m : Monitor)
    → AllValues IsBounded m.backoff
    → AllValues IsBounded (set_backoff now endpoint m).backoff
unfolding set_backoff
set_backoff-IsBounded now endpoint m h =
    insert-AllValues IsBounded endpoint _ m.backoff (ground arith) h

lookup-waiting :
    (now e : ℕ) (v : ℕ × ℕ) (d : Dict (ℕ × ℕ))
    → lookup e d ≡ some v
    → now ≤ v.0
    → lookup e (waiting now d) ≡ some v
lookup-waiting now e v [] k h = absurd (ground arith)
lookup-waiting now e v ((j, w) ∷ d) k h = ground (arith, lookup-waiting now e v d)

-- The wait that a refused token sets for an endpoint.
abbrev pub wait_after : ℕ → Monitor → ℕ
wait_after e m = next_backoff (get_or_default (0, 0) (lookup e m.backoff)).1

module _ {W : Type 0} (each : ℕ → W → Bool × W) where
  skipped :
      (e : ℕ) (v : ℕ × ℕ) (d : Dict (ℕ × ℕ)) (front back : List ℕ) (w : W)
      → lookup e d ≡ some v
      → communicate_with each d (front ++ e ∷ back) w ≡ communicate_with each d (front ++ back) w
  unfolding communicate_with
  skipped e v d [] back w k = rw (communicate_with, k) refl
  skipped e v d (x ∷ front) back w k = elim (Option-cases (lookup x d)) [
    | inl n ↦ rw (communicate_with, n) (rw (skipped e v d front back (each x w).1 k) refl)
    | inr (u, n) ↦ rw (communicate_with, n) (skipped e v d front back w k)
  ]

  -- After a refused token an endpoint is left out of the communication from then on, at every time
  -- until its wait is over; the other endpoints communicate as if it were not there. The wait is
  -- from 0.1 s to 1 s.
  pub set_backoff_skips :
      (now later e : ℕ) (front back : List ℕ) (m : Monitor) (w : W)
      → later ≤ now + wait_after e m
      → (1 ≤ wait_after e m)
        × (wait_after e m ≤ 10)
        × (communicate each later (front ++ e ∷ back) (set_backoff now e m) w
            ≡ communicate each later (front ++ back) (set_backoff now e m) w)
  unfolding set_backoff communicate check_backoff
  set_backoff_skips now later e front back m w h =
      let wait = wait_after e m in
      (
        ground arith,
        ground arith,
        ap (λ r. (r, check_backoff later (set_backoff now e m)))
            (skipped e (now + wait, wait) (waiting later (set_backoff now e m).backoff) front back w
              (lookup-waiting later e (now + wait, wait) (set_backoff now e m).backoff
                (ground (arith, lookup-insert e e (now + wait, wait) m.backoff)) h)),
      )

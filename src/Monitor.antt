-- ===== src/Monitor.antt =====
-- Event_Monitor of calvin/runtime/north/monitor.py: the endpoints that wait before they send again.
-- Times are natural numbers of a unit of which 0.1 s is one and 1 s is ten.
mod Waits
use calvin_base.Base.{
  ℕ, zero, suc, ◌+◌, ◌-◌, ◌*◌, ◌%◌, ◌≤◌, ◌<◌, ◌≡◌, refl, sym, ap, ◌∙◌, ◌≢◌, ◌⊎◌, inl, inr, Bool,
  true, false, not, ◌&&◌, ◌||◌, Option, none, some, List, [], ◌∷◌, ◌++◌, map, length, is_empty, set,
  get_elem?, replicate, take, drop, contains, remove, contains_all, same_set, sort, Distinct, leb,
  ltb, ◌==◌, if◌then◌else◌, subst, tests, get_or_default, Bool-cases, Option-cases, Dict, lookup,
  insert, erase, keys, values, map_values, set_default, update, AllValues, minimum?, minimum_or,
  Error, queue_full, queue_empty, unknown_reader, unknown_writer, illegal_mapping, illegal_order,
  value_error, attribute_error, key_error, type_error, index_error, zero_division, not_implemented,
  Method, Outcome, done, raised, ◌>>=◌, ◌>>◌, return, raise, self, put, require, or_raise, item,
  elem, attempt, after, arith, ℕ_discrete,
}

pub record Monitor : Type 0 where
  pub endpoints : List ℕ
  pub backoff : Dict (ℕ × ℕ)

-- `min(1.0, 0.1 if bo < 0.1 else bo * 2.0)`
abbrev pub next_backoff : ℕ → ℕ
next_backoff bo = let b = (if ltb bo 1 then 1 else bo * 2) in if ltb b 10 then b else 10

unfoldable pub set_backoff : ℕ → ℕ → Monitor → Monitor
set_backoff now endpoint m =
    let bo = next_backoff (get_or_default (0, 0) (lookup endpoint m.backoff)).1 in
    record m { backoff = insert endpoint (now + bo, bo) m.backoff }

unfoldable pub clear_backoff : ℕ → Monitor → Monitor
clear_backoff endpoint m = record m { backoff = erase endpoint m.backoff }

abbrev pub times : Dict (ℕ × ℕ) → List ℕ
times [] = []
times ((k, v) ∷ d) = v.0 ∷ times d

unfoldable pub next_slot : Monitor → Option ℕ
next_slot m = minimum? (times m.backoff)

-- The endpoints whose wait is over leave the dictionary.
abbrev pub waiting : ℕ → Dict (ℕ × ℕ) → Dict (ℕ × ℕ)
waiting now [] = []
waiting now ((k, v) ∷ d) = let rest = waiting now d in if ltb v.0 now then rest else (k, v) ∷ rest

unfoldable pub check_backoff : ℕ → Monitor → Monitor
check_backoff now m = record m { backoff = waiting now m.backoff }

unfoldable pub register : ℕ → Monitor → Monitor
register endpoint m = record m { endpoints = m.endpoints ++ endpoint ∷ [] }

unfoldable pub unregister : ℕ → Method Monitor (Unit {0})
unfolding clear_backoff
unregister endpoint m =
    if contains m.endpoints endpoint
    then done tt (clear_backoff endpoint (record m { endpoints = remove endpoint m.endpoints }))
    else raised value_error m

-- `communicate`: `each` is an endpoint's own method, which acts on the state `W` of the queues.
module _ {W : Type 0} (each : ℕ → W → Bool × W) where
  unfoldable pub communicate_with : Dict (ℕ × ℕ) → List ℕ → W → Bool × W
  communicate_with backoff [] w = (false, w)
  communicate_with backoff (e ∷ es) w = elim (lookup e backoff) [
    | some wait ↦ communicate_with backoff es w
    | none ↦
        let first = each e w in
        let rest = communicate_with backoff es first.1 in (first.0 || rest.0, rest.1)
  ]

  unfoldable pub communicate : ℕ → List ℕ → Monitor → W → (Bool × W) × Monitor
  unfolding check_backoff communicate_with
  communicate now endpoints m w =
      let n = check_backoff now m in (communicate_with n.backoff endpoints w, n)

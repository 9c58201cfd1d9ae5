-- ===== src/Queue/Balanced/Tests.antt =====
-- FanoutBalancedFIFO: the theorem at a queue with two readers.
use calvin_base.Base.{ℕ, ◌≤◌, ◌≡◌, refl, ◌⊎◌, true, [], ◌∷◌, contains, queue_full, done, raised}
use calvin_base.Queue.Routed.Lanes.{Lane}
use calvin_base.Queue.Routed.Tests.{two_readers, lane_4, lane_9, token_c}
use calvin_base.Queue.Balanced.{Balanced, write}
use calvin_base.Queue.Balanced.Routes.{write_balances}
use calvin_base.Queue.Balanced.Best.{room}

abbrev balanced : Balanced
balanced = record { base = two_readers; is_ordered = true }

write_balances_example :
    ((s : Balanced) × (r : ℕ) × (contains (4 ∷ 9 ∷ []) r ≡ true)
      × (room balanced 9 ≤ room balanced r)
      × (write token_c balanced ≡ done true s)
      × Lane (token_c ∷ []) s.base r
      × ((r ≡ 9) ⊎ Lane [] s.base 9))
    ⊎ ((room balanced 9 ≡ 0) × (write token_c balanced ≡ raised queue_full balanced))
write_balances_example = write_balances (λ r. []) token_c balanced 9 (lane_4, (lane_9, tt)) refl

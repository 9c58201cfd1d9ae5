-- ===== src/Queue/Mapped/Tests.antt =====
-- FanoutMappedFIFO: the theorems at a queue with two readers.
use calvin_base.Base.{◌≤◌, ◌<◌, ◌≡◌, refl, ◌⊎◌, true, some, [], ◌∷◌, queue_full, done, raised}
use calvin_base.Token.{Token, plain, num, dict, field, end}
use calvin_base.Queue.Routed.Lanes.{Lane}
use calvin_base.Queue.Routed.Tests.{two_readers, lane_4, lane_9, 4≢9}
use calvin_base.Queue.Mapped.{Mapped, write}
use calvin_base.Queue.Mapped.Routes.{write-unwrap}

abbrev mapped : Mapped
mapped = record { base = two_readers; mapping = some ((0, 4) ∷ (1, 9) ∷ []) }

-- {0: 8}
abbrev selected : Token
selected = plain (dict (field 0 (num 8) end))

write-unwrap_example :
    ((s : Mapped) × (1 < 3)
      × (write (record { queue = mapped; token = selected })
          ≡ done true (record { queue = s; token = plain (num 8) }))
      × Lane (plain (num 8) ∷ []) s.base 4
      × Lane [] s.base 9
      × (s.mapping ≡ some ((0, 4) ∷ (1, 9) ∷ [])))
    ⊎ ((3 ≤ 1)
        × (write (record { queue = mapped; token = selected })
            ≡ raised queue_full (record { queue = mapped; token = plain (num 8) })))
write-unwrap_example =
    write-unwrap [] [] mapped selected ((0, 4) ∷ (1, 9) ∷ []) 0 4 9 (num 8) lane_4 refl refl refl
      4≢9 lane_9

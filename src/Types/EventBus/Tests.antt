-- ===== src/Types/EventBus/Tests.antt =====
-- `EventBus` at concrete inputs.
use tklb.Base.{ℕ, ◌≡◌, refl, Bool, true, none, some, [], ◌∷◌, replicate, ◌==◌, ok, arith}
use tklb.Types.HeapBuffer.{Heap, Memory, HeapBuffer}
use tklb.Types.HeapBuffer.Owned.{Holds}
use tklb.Types.EventBus.{EventBus, add_subscriber, remove_subscriber, fire_event}
use tklb.Types.EventBus.Fire.{SameOthers, fire_event-add_subscriber, fire_event-remove_subscriber}

abbrev grants : Heap → ℕ → Bool
grants h n = true

abbrev heap : Heap
heap = record { next = 1; live = λ j. j == 0 }

abbrev block : Memory ℕ
block = record { name = 0; cells = some 10 ∷ some 11 ∷ some 12 ∷ replicate 13 none }

-- Three subscriptions of one event.
abbrev three : HeapBuffer ℕ
three = record { buf = some block; size = 3; real_size = 16 }

abbrev bus : EventBus
bus = record { events = record { buf = none; size = 0; real_size = 0 } ∷ three ∷ [] }

three-Holds : Holds heap three (10 ∷ 11 ∷ 12 ∷ [])
three-Holds = record {
  size = refl;
  memory = (omega arith, refl, refl, omega arith, (replicate 13 none, refl));
}

fire_event-add_subscriber_example :
    (bus' : EventBus) × (h' : Heap) × (add_subscriber grants 13 1 heap bus ≡ ok (bus', h'))
    × (fire_event 1 bus' ≡ ok (10 ∷ 11 ∷ 12 ∷ 13 ∷ []))
    × SameOthers bus bus' 1
fire_event-add_subscriber_example =
    fire_event-add_subscriber grants (λ h n. refl) 13 1 heap bus three (10 ∷ 11 ∷ 12 ∷ []) refl
      three-Holds (omega arith)

fire_event-remove_subscriber_example :
    (bus' : EventBus) × (remove_subscriber 10 1 bus ≡ ok bus')
    × (fire_event 1 bus' ≡ ok (12 ∷ 11 ∷ []))
    × SameOthers bus bus' 1
fire_event-remove_subscriber_example =
    fire_event-remove_subscriber 10 1 heap bus three [] (11 ∷ 12 ∷ []) refl three-Holds tt

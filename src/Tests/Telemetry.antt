-- ===== src/Tests/Telemetry.antt =====
-- The event queue: the theorems on a queue that holds one event, and on a run of its gate.
use shinken_sentinel.Prelude.{
  ℕ, ◌+◌, ◌≤◌, ◌<◌, ◌≡◌, refl, List, [], ◌∷◌, none, true, false, arith, length,
}
use shinken_sentinel.Telemetry.Queue.{Event, Queue, queue_init, count_in, producer_leave}
use shinken_sentinel.Telemetry.Queue.Laws.{Sound}
use shinken_sentinel.Telemetry.Ring.{Payload, smaller, flush}
use shinken_sentinel.Telemetry.Ring.Laws.{At, AllFit, after_records, flush_lem}
use shinken_sentinel.Telemetry.Queue.Gate.{Gate, Step, Steps, opened, no_enqueue_after_stop}

abbrev ping : Event
ping = record { kind = 3; ctx = 0; counter = none }

abbrev one_event : Queue
one_event = record {
  events = ping ∷ [];
  pending = 1;
  capacity = 2;
  stopping = false;
  producers = 0;
  posted = 1;
  consumed = 0;
  dropped = 0;
  overflow_dropped = 0;
  released = [];
}

one_event-Sound : Sound one_event
one_event-Sound = record { counted = refl; bounded = λ h. omega arith }

-- Two producers find the flag clear and one is registered; the stop sets the flag; that producer is turned away
-- and leaves, and the stop sees none. Then the other is registered.
abbrev after_enter : Gate
after_enter = record (opened 2) { queue = count_in (opened 2).queue; checked = 1; entered = 1 }

abbrev after_stop : Gate
after_stop = record after_enter { queue = record (after_enter.queue) { stopping = true } }

abbrev after_turn : Gate
after_turn = record after_stop { entered = 0; leaving = 1 }

abbrev after_leave : Gate
after_leave = record after_turn { queue = producer_leave after_turn.queue; leaving = 0 }

abbrev now_quiet : Gate
now_quiet = record after_leave { quiet = true }

stopping_run : Steps (opened 2) now_quiet
unfolding producer_leave queue_init
stopping_run =
    Steps.more
      (Steps.more
        (Steps.more
          (Steps.more
            (Steps.more (Steps.more (Steps.more Steps.done (Step.check refl)) (Step.check refl))
              (Step.count (omega arith)))
            Step.stop)
          (Step.turn_away refl (omega arith)))
        (Step.leave (omega arith)))
      (Step.see_none refl refl)

abbrev after_late : Gate
after_late = record now_quiet { queue = count_in now_quiet.queue; checked = 0; entered = 1 }

late_run : Steps now_quiet after_late
late_run = Steps.more Steps.done (Step.count (omega arith))

no_enqueue_after_stop_example :
    (after_late.quiet ≡ true)
    × (length after_late.queue.events ≤ length now_quiet.queue.events)
    × (after_late.queue.stopping ≡ true)
    × (after_late.writing ≡ 0)
no_enqueue_after_stop_example = no_enqueue_after_stop 2 stopping_run refl late_run

abbrev sevens : Payload
sevens = record { size = 2; byte = λ j. 7 }

abbrev nines : Payload
nines = record { size = 1; byte = λ j. 9 }

abbrev two_records : List Payload
two_records = nines ∷ sevens ∷ []

flush_lem_example :
    ((flush 10 2 (after_records two_records) (λ i j. 0)).0 ≡ smaller (smaller 2 1024) 10)
    × ((i k : ℕ) (p : Payload)
        → i + 1 + k ≡ smaller (smaller 2 1024) 10
        → At k p two_records
        → (j : ℕ) → j < p.size
        → j < 2
        → (flush 10 2 (after_records two_records) (λ i j. 0)).1 i j ≡ p.byte j)
    × ((i : ℕ)
        → smaller (smaller 2 1024) 10 ≤ i
        → (flush 10 2 (after_records two_records) (λ i j. 0)).1 i ≡ (λ j. 0))
flush_lem_example =
    flush_lem two_records 10 2 (λ i j. 0)
      (AllFit.fits (omega arith) (omega arith)
        (AllFit.fits (omega arith) (omega arith) AllFit.no_more))
      (omega arith) (omega arith) (omega arith)

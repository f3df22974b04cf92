-- ===== src/Tests/Lifecycle.antt =====
-- runtime/lifecycle.c: a start whose installation fails, and a quiesce that the event thread outlives.
use shinken_sentinel.Prelude.{◌≡◌, ◌≢◌, refl, [], none, some, true, false}
use shinken_sentinel.Status.{status_device_busy}
use shinken_sentinel.Runtime.State.{no_reason, worker_thread_drain, record_block}
use shinken_sentinel.Runtime.Lifecycle.{
  Calls, no_steps, Life, Starts, lifecycle_quiesce, lifecycle_start,
}
use shinken_sentinel.Runtime.Lifecycle.Laws.{
  only_device, start_steps, first_failure, Started, lifecycle_start_lem,
}
use shinken_sentinel.Runtime.Lifecycle.Laws.Causes.{
  Answers, Quiesced, outcome, quiesce_outcomes, lifecycle_quiesce_lem,
}
use shinken_sentinel.Tests.Data.{running}

-- The event thread still runs, and its stop recorded a cause of its own.
abbrev busy_calls : Calls
busy_calls = record {
  control = λ r. (true, r);
  writable = λ r. false;
  events = λ r. (false, record_block worker_thread_drain r);
  inject = λ r. (true, r);
  unsubscribe = 0;
  bfe_reads = λ i. 2147483648;
  teardown = λ r. (true, r);
  work_reads = λ i. 2147483648;
  event_running = true;
  shutdown = λ r. (true, r);
}

fine-Answers : Answers (λ r. (true, r)) true none
fine-Answers = record { verdict = λ rt. refl; cause = λ rt. refl }

stop-Answers :
    Answers (λ r. (false, record_block worker_thread_drain r)) false (some worker_thread_drain)
unfolding record_block
stop-Answers = record { verdict = λ rt. refl; cause = λ rt. refl }

abbrev busy_calls-Quiesced : Quiesced busy_calls
busy_calls-Quiesced = record {
  control_ok = true;
  events_ok = false;
  inject_ok = true;
  teardown_ok = true;
  writable = false;
  control_own = none;
  events_own = some worker_thread_drain;
  inject_own = none;
  teardown_own = none;
  control = fine-Answers;
  events = stop-Answers;
  inject = fine-Answers;
  teardown = fine-Answers;
  store = λ rt. refl;
}

abbrev loaded : Life
loaded = record {
  steps = no_steps;
  has_device = false;
  deferred = false;
  bfe_handle = true;
  runtime = running;
  destroyed = [];
}

lifecycle_quiesce_lem_example :
    ((lifecycle_quiesce busy_calls loaded).0
      ≡ (outcome (true, no_reason) (quiesce_outcomes busy_calls loaded busy_calls-Quiesced)).0)
    × ((lifecycle_quiesce busy_calls loaded).1.runtime.block_reason
        ≡ (outcome (true, no_reason) (quiesce_outcomes busy_calls loaded busy_calls-Quiesced)).1)
    × ((lifecycle_quiesce busy_calls loaded).0 ≡ false
        → (lifecycle_quiesce busy_calls loaded).1.runtime.block_reason ≢ no_reason)
lifecycle_quiesce_lem_example = lifecycle_quiesce_lem busy_calls loaded busy_calls-Quiesced

-- The installation fails with STATUS_DEVICE_BUSY.
abbrev failing : Starts
failing = record {
  rules = 0;
  events = 0;
  control = 0;
  inject = 0;
  flow = 0;
  subscribe = 0;
  bfe_running = true;
  install = status_device_busy;
}

lifecycle_start_lem_example :
    Started failing
      (first_failure only_device (start_steps failing))
      loaded
      (lifecycle_start busy_calls failing loaded)
lifecycle_start_lem_example = lifecycle_start_lem busy_calls failing loaded

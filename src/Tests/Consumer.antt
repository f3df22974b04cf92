-- ===== src/Tests/Consumer.antt =====
-- control/ioctl.c: the consumer thread on a short run.
use shinken_sentinel.Prelude.{◌≡◌, refl, ◌++◌, map, [], true, false, inl}
use shinken_sentinel.Control.Consumer.{
  Phase, Consumer, started, arrival, queue_ready, serve, tell_stop, purge, ThreadStep, Step, Steps,
}
use shinken_sentinel.Control.Consumer.Laws.{completed_once, Awake, never_asleep}

-- The thread goes to sleep, and a request arrives.
abbrev asleep : Consumer
asleep = arrival 5 (record (record started { phase = Phase.checking }) { phase = Phase.waiting })

asleep-Steps : Steps started asleep
asleep-Steps =
    Steps.then_
      (Steps.then_ (Steps.then_ Steps.none_yet (Step.thread (ThreadStep.find_empty refl refl)))
        (Step.thread (ThreadStep.wait refl refl)))
      (Step.arrive 5 refl)

-- The callback rings, the thread wakes and serves the request, is told to stop and ends, and a
-- request that came behind it is purged.
abbrev purged_run : Consumer
purged_run = purge (
    arrival 6
      (record (record (tell_stop
        (serve 5 [] (record (queue_ready asleep) { doorbell = false; phase = Phase.draining }))) {
          phase = Phase.checking;
        }) { phase = Phase.exited }))

purged-Steps : Steps started purged_run
unfolding arrival queue_ready serve tell_stop purge
purged-Steps =
    let awake =
      Steps.then_ (Steps.then_ asleep-Steps (Step.notify refl))
        (Step.thread (ThreadStep.wake_by_doorbell refl refl)) in
    let told =
      Steps.then_ (Steps.then_ awake (Step.thread (ThreadStep.retrieve 5 [] refl refl)))
        Step.told in
    let gone =
      Steps.then_ (Steps.then_ told (Step.thread (ThreadStep.find_empty refl refl)))
        (Step.thread (ThreadStep.leave refl refl)) in
    Steps.then_ (Steps.then_ gone (Step.arrive 6 refl)) (Step.purged refl)

completed_once_example :
    (map (λ x. x.0) purged_run.completed ++ purged_run.queue ≡ purged_run.arrived)
    × (purged_run.purged ≡ true → map (λ x. x.0) purged_run.completed ≡ purged_run.arrived)
completed_once_example = completed_once purged-Steps

never_asleep_example : Awake asleep
unfolding arrival
never_asleep_example = never_asleep asleep-Steps (λ h. cc) (inl refl)

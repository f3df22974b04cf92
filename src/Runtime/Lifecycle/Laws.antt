-- ===== src/Runtime/Lifecycle/Laws.antt =====
-- What a rollback and a failed start leave behind, and that a quiesce that fails leaves a cause.
pub mod Causes
use shinken_sentinel.Prelude.{
  ◌≡◌, ◌≢◌, ◌⊎◌, refl, sym, ap, ◌∙◌, List, [], ◌∷◌, ◌++◌, Option, none, some, Bool, true, false,
  not, ◌&&◌, if◌then◌else◌, ◌==◌, arith, Bool-cases, inl, inr,
}
use shinken_sentinel.Status.{NtStatus, nt_success, status_success, status_device_busy}
use shinken_sentinel.Runtime.Rundown.{drain}
use shinken_sentinel.Runtime.State.{
  Runtime, no_reason, unload_blocked, handle_contexts_open, rundown_stuck, event_thread_drain,
  injection_drain, engine_close, work_item_drain, BlockReason, is_none, record_block,
  begin_teardown, enter_unload_blocked, is_blocked,
}
use shinken_sentinel.Runtime.State
use shinken_sentinel.Runtime.Lifecycle.{
  Calls, StartSteps, no_steps, drain_retries, Destruction, inject_pools, flow_table, rule_store,
  control_device, device, Life, record_if_none, check, bfe_quiesce, quiesce_front, quiesce_back,
  lifecycle_quiesce, logged, rollback_bfe, rollback_quiesce, rollback_destroy, lifecycle_rollback,
  fail_start, Starts, lifecycle_start,
}

-- A component's operation never takes a recorded cause away.
abbrev pub KeepsCause : (Runtime → Bool × Runtime) → Type 0
KeepsCause step =
    (rt : Runtime) → is_none rt.block_reason ≡ false → is_none (step rt).1.block_reason ≡ false

pub record CallsKeep (calls : Calls) : Type 0 where
  pub control : KeepsCause calls.control
  pub events : KeepsCause calls.events
  pub inject : KeepsCause calls.inject
  pub teardown : KeepsCause calls.teardown

-- A failure has a recorded cause.
Explained : Bool × Runtime → Type 0
Explained r = r.0 ≡ false → is_none r.1.block_reason ≡ false

recorded :
    (why : BlockReason) (rt : Runtime)
    → is_none why ≡ false
    → is_none (record_if_none why rt).block_reason ≡ false
unfolding record_if_none record_block
recorded why rt h = ground (arith, h)

check-Explained :
    (step : Runtime → Bool × Runtime) (why : BlockReason) (acc : Bool × Runtime)
    → KeepsCause step
    → is_none why ≡ false
    → Explained acc
    → Explained (check step why acc)
unfolding check Explained
check-Explained step why acc keeps real e = elim (Bool-cases (step acc.1).0) [
  | inl fine ↦ rw fine (λ bad. keeps acc.1 (e bad))
  | inr failed ↦ rw failed (λ bad. recorded why (step acc.1).1 real)
]

bfe_quiesce_cause :
    (calls : Calls) (s : Life)
    → ((bfe_quiesce calls s).0 ≡ false
        → is_none (bfe_quiesce calls s).1.runtime.block_reason ≡ false)
      × (is_none s.runtime.block_reason ≡ false
          → is_none (bfe_quiesce calls s).1.runtime.block_reason ≡ false)
unfolding bfe_quiesce
bfe_quiesce_cause calls s =
    elim (Bool-cases (s.bfe_handle && not (calls.unsubscribe == status_success))) [
      | inl kept ↦
          let now = recorded State.bfe_unsubscribe s.runtime refl in
          rw kept ((λ bad. now), (λ cause. now))
      | inr closed ↦ elim (Bool-cases (drain calls.bfe_reads drain_retries == status_success)) [
        | inl idle ↦ rw (closed, idle) ((λ bad. cc), (λ cause. cause))
        | inr busy ↦
            let now = recorded State.bfe_callback_active s.runtime refl in
            rw (closed, busy) ((λ bad. now), (λ cause. now))
      ]
    ]

bfe-Explained :
    (calls : Calls) (s : Life) (b : Bool)
    → (b ≡ false → is_none s.runtime.block_reason ≡ false)
    → Explained (b && (bfe_quiesce calls s).0, (bfe_quiesce calls s).1.runtime)
unfolding Explained
bfe-Explained calls s true e = (bfe_quiesce_cause calls s).0
bfe-Explained calls s false e = λ bad. (bfe_quiesce_cause calls s).1 (e refl)

-- A quiesce that fails leaves a cause.
pub quiesce_failure_cause :
    (calls : Calls) (s : Life)
    → CallsKeep calls
    → (lifecycle_quiesce calls s).0 ≡ false
    → (lifecycle_quiesce calls s).1.runtime.block_reason ≢ no_reason
unfolding lifecycle_quiesce quiesce_front quiesce_back Explained
quiesce_failure_cause calls s keep bad none_ =
    let start : Explained (true, s.runtime) = λ h. cc in
    let a =
      check-Explained calls.control handle_contexts_open (true, s.runtime) keep.control refl
        start in
    let b = check-Explained (λ r. (not (calls.writable r), r)) rundown_stuck _ (λ rt h. h) refl a in
    let c = check-Explained calls.events event_thread_drain _ keep.events refl b in
    let d = check-Explained calls.inject injection_drain _ keep.inject refl c in
    let front = quiesce_front calls s.runtime in
    let e = bfe-Explained calls (record s { runtime = front.1 }) front.0 d in
    let f = check-Explained calls.teardown engine_close _ keep.teardown refl e in
    let g =
      check-Explained (λ r. (drain calls.work_reads drain_retries == status_success, r))
        work_item_drain _ (λ rt h. h) refl f in
    let h =
      check-Explained (λ r. (not calls.event_running, r)) event_thread_drain _ (λ rt k. k) refl g in
    let clash : false ≡ true = sym (h bad) ∙ ap is_none none_ in cc

bfe_quiesce_keeps :
    (calls : Calls) (s : Life)
    → ((bfe_quiesce calls s).1.steps ≡ s.steps) × ((bfe_quiesce calls s).1.destroyed ≡ s.destroyed)
unfolding bfe_quiesce
bfe_quiesce_keeps calls s =
    elim (Bool-cases (s.bfe_handle && not (calls.unsubscribe == status_success))) [
      | inl kept ↦ rw kept (refl, refl)
      | inr closed ↦ elim (Bool-cases (drain calls.bfe_reads drain_retries == status_success)) [
        | inl idle ↦ rw (closed, idle) (refl, refl)
        | inr busy ↦ rw (closed, busy) (refl, refl)
      ]
    ]

-- The same steps and destructions.
Same : Life → Bool × Life → Type 0
Same s r = (r.1.steps ≡ s.steps) × (r.1.destroyed ≡ s.destroyed)

either-Same :
    (s : Life) (b : Bool) (r acc : Bool × Life)
    → Same s r
    → Same s acc
    → Same s (if b then r else acc)
either-Same s true r acc h k = h
either-Same s false r acc h k = k

rollback_bfe_keeps : (calls : Calls) (b : Bool) (s : Life) → Same s (rollback_bfe calls (b, s))
unfolding rollback_bfe Same
rollback_bfe_keeps calls b s =
    unfold Same in
    either-Same s s.steps.bfe (b && (bfe_quiesce calls s).0, (bfe_quiesce calls s).1) (b, s)
      (bfe_quiesce_keeps calls s) (refl, refl)

rollback_quiesce_keeps :
    (calls : Calls) (s : Life)
    → ((rollback_quiesce calls s).1.steps ≡ s.steps)
      × ((rollback_quiesce calls s).1.destroyed ≡ s.destroyed)
unfolding rollback_quiesce Same
rollback_quiesce_keeps calls s = rollback_bfe_keeps calls _ (record s {
  runtime = (check calls.teardown engine_close (true, (begin_teardown s.runtime).1)).1;
})

-- The destructions that belong to the completed steps.
abbrev pub torn_down : StartSteps → List Destruction → List Destruction
torn_down steps before =
    (before
      ++ logged steps.inject inject_pools
      ++ logged steps.flow flow_table
      ++ logged steps.rules rule_store)
    ++ logged steps.control control_device
    ++ logged steps.device device

-- A start that failed with `st` behind the steps of `s`: all undone, or resident.
pub Undone : Life → NtStatus → NtStatus × Life → Type 0
Undone s st r =
    ((r.0 ≡ st)
      × (r.1.steps ≡ no_steps)
      × (r.1.has_device ≡ false)
      × (r.1.destroyed ≡ torn_down s.steps s.destroyed))
    ⊎ ((r.0 ≡ status_device_busy) × (r.1.runtime.state ≡ unload_blocked) × (r.1.steps ≡ s.steps))

destroy_undoes :
    (calls : Calls) (s : Life)
    → ((rollback_destroy calls s).0 ≡ true
        → ((rollback_destroy calls s).1.steps ≡ no_steps)
          × ((rollback_destroy calls s).1.has_device ≡ false)
          × ((rollback_destroy calls s).1.destroyed ≡ torn_down s.steps s.destroyed))
      × ((rollback_destroy calls s).0 ≡ false → (rollback_destroy calls s).1.steps ≡ s.steps)
unfolding rollback_destroy
destroy_undoes calls s = elim (Bool-cases (s.steps.rules && not (calls.shutdown s.runtime).0)) [
  | inl stuck ↦ rw stuck ((λ h. cc), (λ h. refl))
  | inr fine ↦ rw fine ((λ h. (refl, refl, refl)), (λ h. cc))
]

rollback_lem :
    (calls : Calls) (s : Life)
    → ((lifecycle_rollback calls s).0 ≡ true
        → ((lifecycle_rollback calls s).1.steps ≡ no_steps)
          × ((lifecycle_rollback calls s).1.has_device ≡ false)
          × ((lifecycle_rollback calls s).1.destroyed ≡ torn_down s.steps s.destroyed))
      × ((lifecycle_rollback calls s).0 ≡ false → (lifecycle_rollback calls s).1.steps ≡ s.steps)
unfolding lifecycle_rollback
rollback_lem calls s =
    let (steps, destroyed) = rollback_quiesce_keeps calls s in
    let (clean, stuck) = destroy_undoes calls (rollback_quiesce calls s).1 in
    elim (Bool-cases (rollback_quiesce calls s).0) [
      | inr bad ↦ rw bad ((λ h. ground (arith, bad, h)), (λ h. steps))
      | inl good ↦ rw good (
        (λ h.
            let (a, b, c) = clean h in
            (
              a,
              b,
              c
                  ∙ ap (λ x. torn_down x (rollback_quiesce calls s).1.destroyed) steps
                  ∙ ap (torn_down s.steps) destroyed,
            )),
        (λ h. stuck h ∙ steps),
      )
    ]

fail_start-Undone : (calls : Calls) (st : NtStatus) (s : Life) → Undone s st (fail_start calls st s)
unfolding fail_start Undone enter_unload_blocked
fail_start-Undone calls st s =
    let (clean, stuck) = rollback_lem calls s in
    elim (Bool-cases (lifecycle_rollback calls s).0) [
      | inl ok ↦ let (a, b, c) = clean ok in rw ok (inl (refl, a, b, c))
      | inr bad ↦ rw bad (inr (refl, refl, stuck bad))
    ]

-- The steps of a start in their order, each with its answer and the mark that it leaves; the installation only
-- where the engine runs.
pub engine_steps : Starts → List (NtStatus × (StartSteps → StartSteps))
engine_steps up =
    (up.subscribe, (λ x. record x { bfe = true }))
    ∷ (if up.bfe_running then (up.install, (λ x. record x { wfp = true })) ∷ [] else [])

pub start_steps : Starts → List (NtStatus × (StartSteps → StartSteps))
start_steps up =
    (up.rules, (λ x. record x { rules = true }))
    ∷ (up.events, (λ x. record x { eventq = true }))
    ∷ (up.control, (λ x. record x { control = true }))
    ∷ (up.inject, (λ x. record x { inject = true }))
    ∷ (up.flow, (λ x. record x { flow = true }))
    ∷ engine_steps up

-- The first step that fails, as its answer and the marks of the steps before it.
pub first_failure :
    StartSteps → List (NtStatus × (StartSteps → StartSteps)) → Option (NtStatus × StartSteps)
first_failure done [] = none
first_failure done (step ∷ rest) =
    if nt_success step.0 then first_failure (step.1 done) rest else some (step.0, done)

abbrev pub only_device : StartSteps
only_device = record no_steps { device = true }

-- What a start comes to, where `first` is the first step that fails.
pub Started : Starts → Option (NtStatus × StartSteps) → Life → NtStatus × Life → Type 0
Started up first s0 r =
    ((r.0 ≡ status_success)
      × (first ≡ none)
      × (r.1.steps.device ≡ true)
      × (r.1.steps.rules ≡ true)
      × (r.1.steps.eventq ≡ true)
      × (r.1.steps.control ≡ true)
      × (r.1.steps.inject ≡ true)
      × (r.1.steps.flow ≡ true)
      × (r.1.steps.bfe ≡ true)
      × (r.1.steps.wfp ≡ not r.1.deferred)
      × (r.1.deferred ≡ not up.bfe_running)
      × (r.1.destroyed ≡ s0.destroyed))
    ⊎ ((s : Life) × (st : NtStatus) × (nt_success st ≡ false)
        × (first ≡ some (st, s.steps))
        × (s.destroyed ≡ s0.destroyed)
        × Undone s st r)

-- The steps that a start has completed where it subscribes to the engine.
abbrev to_flow : Life → Life
to_flow s0 = record s0 {
  steps = record no_steps {
    device = true;
    rules = true;
    eventq = true;
    control = true;
    inject = true;
    flow = true;
  };
  has_device = true;
  deferred = false;
}

abbrev to_bfe : Life → Life
to_bfe s0 = record (to_flow s0) {
  steps = record ((to_flow s0).steps) { bfe = true };
  bfe_handle = true;
}

subscribed :
    (calls : Calls) (up : Starts) (s0 : Life)
    → Started up (first_failure (to_flow s0).steps (engine_steps up)) s0 (
        if not (nt_success up.subscribe)
        then fail_start calls up.subscribe (record (to_flow s0) { bfe_handle = false })
        else if not up.bfe_running
        then (status_success, record (to_bfe s0) { deferred = true })
        else if not (nt_success up.install)
        then fail_start calls up.install (to_bfe s0)
        else (
          status_success,
          record (to_bfe s0) { steps = record ((to_bfe s0).steps) { wfp = true } },
        ))
unfolding Started first_failure engine_steps
subscribed calls up s0 = elim (Bool-cases (nt_success up.subscribe)) [
  | inr f ↦ rw f (inr (_, up.subscribe, f, refl, refl, fail_start-Undone calls up.subscribe _))
  | inl g ↦ elim (Bool-cases up.bfe_running) [
    | inr f ↦
        rw (g, f) (inl (refl, refl, refl, refl, refl, refl, refl, refl, refl, refl, refl, refl))
    | inl h ↦ elim (Bool-cases (nt_success up.install)) [
      | inr f ↦
          rw (g, h, f) (inr (_, up.install, f, refl, refl, fail_start-Undone calls up.install _))
      | inl k ↦
          rw (g, h, k)
            (inl (refl, refl, refl, refl, refl, refl, refl, refl, refl, refl, refl, refl))
    ]
  ]
]

-- `SkLifecycleStart`, whatever the steps and the rollback answer: it succeeds with every step completed, the
-- installation done, or deferred to the engine's return where the engine does not run; or a step failed. It
-- then fails with the answer of the first step that failed, and the rollback has destroyed what the steps
-- before that one made, each once and the device always; or the rollback failed as well, the status is
-- STATUS_DEVICE_BUSY, the driver is blocked from unloading, and the steps before that one stay recorded.
pub lifecycle_start_lem :
    (calls : Calls) (up : Starts) (s0 : Life)
    → Started up (first_failure only_device (start_steps up)) s0 (lifecycle_start calls up s0)
unfolding lifecycle_start Started first_failure start_steps engine_steps
lifecycle_start_lem calls up s0 = elim (Bool-cases (nt_success up.rules)) [
  | inr f ↦ rw f (inr (_, up.rules, f, refl, refl, fail_start-Undone calls up.rules _))
  | inl a ↦ elim (Bool-cases (nt_success up.events)) [
    | inr f ↦ rw (a, f) (inr (_, up.events, f, refl, refl, fail_start-Undone calls up.events _))
    | inl b ↦ elim (Bool-cases (nt_success up.control)) [
      | inr f ↦
          rw (a, b, f) (inr (_, up.control, f, refl, refl, fail_start-Undone calls up.control _))
      | inl c ↦ elim (Bool-cases (nt_success up.inject)) [
        | inr f ↦
            rw (a, b, c, f) (inr (_, up.inject, f, refl, refl, fail_start-Undone calls up.inject _))
        | inl d ↦ elim (Bool-cases (nt_success up.flow)) [
          | inr f ↦
              rw (a, b, c, d, f)
                (inr (_, up.flow, f, refl, refl, fail_start-Undone calls up.flow _))
          | inl e ↦ rw (a, b, c, d, e) (subscribed calls up s0)
        ]
      ]
    ]
  ]
]

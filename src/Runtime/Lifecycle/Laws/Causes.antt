-- ===== src/Runtime/Lifecycle/Laws/Causes.antt =====
-- Which cause a quiesce leaves: the first that anything records.
use shinken_sentinel.Prelude.{
  ◌≡◌, ◌≢◌, refl, ap, ◌∙◌, List, [], ◌∷◌, Option, none, some, Bool, true, false, not, ◌&&◌,
  if◌then◌else◌, ◌==◌, arith, Bool-cases, inl, inr,
}
use shinken_sentinel.Status.{status_success}
use shinken_sentinel.Runtime.Rundown.{drain}
use shinken_sentinel.Runtime.State.{
  Runtime, no_reason, handle_contexts_open, rundown_stuck, event_thread_drain, injection_drain,
  engine_close, work_item_drain, bfe_unsubscribe, bfe_callback_active, BlockReason, is_none,
  record_block,
}
use shinken_sentinel.Runtime.Lifecycle.{
  Calls, drain_retries, Life, record_if_none, check, bfe_quiesce, quiesce_front, quiesce_back,
  lifecycle_quiesce,
}
use shinken_sentinel.Runtime.Lifecycle.Laws.{KeepsCause, CallsKeep, quiesce_failure_cause}

-- A record of a cause counts only where there is none.
abbrev pub first : BlockReason → BlockReason → BlockReason
first x why = if is_none x then why else x

abbrev pub recorded : BlockReason → Option BlockReason → BlockReason
recorded x none = x
recorded x (some why) = first x why

-- What a component's operation answers, and the cause that it records itself, if any.
pub record Answers (step : Runtime → Bool × Runtime) (ok : Bool) (own : Option BlockReason)
    : Type 0 where
  pub verdict : (rt : Runtime) → (step rt).0 ≡ ok
  pub cause : (rt : Runtime) → (step rt).1.block_reason ≡ recorded rt.block_reason own

-- One step of a quiesce as the specification has it: its verdict, its own cause, and the cause that is
-- recorded for it where it fails.
pub record Outcome : Type 0 where
  pub ok : Bool
  pub own : Option BlockReason
  pub fallback : BlockReason

abbrev pub behind : BlockReason → Outcome → BlockReason
behind x o = if o.ok then recorded x o.own else first (recorded x o.own) o.fallback

pub outcome : Bool × BlockReason → List Outcome → Bool × BlockReason
outcome acc [] = acc
outcome acc (o ∷ os) = outcome (acc.0 && o.ok, behind acc.1 o) os

record_if_none-first :
    (why : BlockReason) (rt : Runtime)
    → (record_if_none why rt).block_reason ≡ first rt.block_reason why
unfolding record_if_none record_block
record_if_none-first why rt = elim (Bool-cases (is_none rt.block_reason)) [
  | inl no_cause ↦ rw no_cause refl
  | inr cause ↦ rw cause refl
]

Reaches : Bool × Runtime → Bool × BlockReason → Type 0
Reaches r acc = (r.0 ≡ acc.0) × (r.1.block_reason ≡ acc.1)

check-Reaches :
    (step : Runtime → Bool × Runtime) (why : BlockReason) (r : Bool × Runtime)
    (acc : Bool × BlockReason) (ok : Bool) (own : Option BlockReason)
    → Answers step ok own
    → Reaches r acc
    → Reaches
        (check step why r)
        (acc.0 && ok, behind acc.1 (record { ok = ok; own = own; fallback = why }))
unfolding check Reaches
check-Reaches step why r acc true own a (same, x) =
    rw (a.verdict r.1) (ground (arith, same), a.cause r.1 ∙ ap (λ y. recorded y own) x)
check-Reaches step why r acc false own a (same, x) =
    let e = a.cause r.1 ∙ ap (λ y. recorded y own) x in
    rw (a.verdict r.1)
      (ground arith, record_if_none-first why (step r.1).1 ∙ ap (λ y. first y why) e)

-- A step that only reads.
reads-Answers : (b : Bool) → Answers (λ r. (b, r)) b none
reads-Answers b = record { verdict = λ rt. refl; cause = λ rt. refl }

-- The engine's state change subscription: what ends it, and what keeps it.
abbrev pub bfe_outcome : Calls → Life → Outcome
bfe_outcome calls s =
    let kept = s.bfe_handle && not (calls.unsubscribe == status_success) in
    record {
      ok = not kept && drain calls.bfe_reads drain_retries == status_success;
      own = none;
      fallback = if kept then bfe_unsubscribe else bfe_callback_active;
    }

bfe-Reaches :
    (calls : Calls) (s : Life) (r : Bool × Runtime) (acc : Bool × BlockReason)
    → Reaches r acc
    → Reaches
        (
          r.0 && (bfe_quiesce calls (record s { runtime = r.1 })).0,
          (bfe_quiesce calls (record s { runtime = r.1 })).1.runtime,
        )
        (acc.0 && (bfe_outcome calls s).ok, behind acc.1 (bfe_outcome calls s))
unfolding Reaches bfe_quiesce
bfe-Reaches calls s r acc (same, x) =
    elim (Bool-cases (s.bfe_handle && not (calls.unsubscribe == status_success))) [
      | inl kept ↦ rw kept (
        ground (arith, same),
        record_if_none-first bfe_unsubscribe r.1 ∙ ap (λ y. first y bfe_unsubscribe) x,
      )
      | inr closed ↦ elim (Bool-cases (drain calls.bfe_reads drain_retries == status_success)) [
        | inl idle ↦ rw (closed, idle) (ground (arith, same), x)
        | inr busy ↦
            rw (closed, busy)
              (
                ground (arith, same),
                record_if_none-first bfe_callback_active r.1
                    ∙ ap (λ y. first y bfe_callback_active) x,
              )
      ]
    ]

-- What the four components do in a quiesce, and whether the rule store is writable.
pub record Quiesced (calls : Calls) : Type 0 where
  pub control_ok : Bool
  pub events_ok : Bool
  pub inject_ok : Bool
  pub teardown_ok : Bool
  pub writable : Bool
  pub control_own : Option BlockReason
  pub events_own : Option BlockReason
  pub inject_own : Option BlockReason
  pub teardown_own : Option BlockReason
  pub control : Answers calls.control control_ok control_own
  pub events : Answers calls.events events_ok events_own
  pub inject : Answers calls.inject inject_ok inject_own
  pub teardown : Answers calls.teardown teardown_ok teardown_own
  pub store : (rt : Runtime) → calls.writable rt ≡ writable

-- The steps of a quiesce, in their order.
pub quiesce_outcomes : (calls : Calls) → Life → Quiesced calls → List Outcome
quiesce_outcomes calls s q =
    record { ok = q.control_ok; own = q.control_own; fallback = handle_contexts_open }
    ∷ record { ok = not q.writable; own = none; fallback = rundown_stuck }
    ∷ record { ok = q.events_ok; own = q.events_own; fallback = event_thread_drain }
    ∷ record { ok = q.inject_ok; own = q.inject_own; fallback = injection_drain }
    ∷ bfe_outcome calls s
    ∷ record { ok = q.teardown_ok; own = q.teardown_own; fallback = engine_close }
    ∷ record {
      ok = drain calls.work_reads drain_retries == status_success;
      own = none;
      fallback = work_item_drain;
    }
    ∷ record { ok = not calls.event_running; own = none; fallback = event_thread_drain }
    ∷ []

Answers-KeepsCause :
    (step : Runtime → Bool × Runtime) (ok : Bool) (own : Option BlockReason)
    → Answers step ok own
    → KeepsCause step
Answers-KeepsCause step ok none a rt h = ap is_none (a.cause rt) ∙ h
Answers-KeepsCause step ok (some why) a rt h = ap is_none (a.cause rt) ∙ rw h h

Quiesced-CallsKeep : (calls : Calls) → Quiesced calls → CallsKeep calls
Quiesced-CallsKeep calls q = record {
  control = Answers-KeepsCause _ _ _ q.control;
  events = Answers-KeepsCause _ _ _ q.events;
  inject = Answers-KeepsCause _ _ _ q.inject;
  teardown = Answers-KeepsCause _ _ _ q.teardown;
}

-- `SkLifecycleQuiesce`, for components with fixed verdicts of which each records at most one cause of its own:
-- it succeeds exactly where every step does. The cause it leaves is the one that was recorded before it, if any;
-- else the first that a step records, in the order of the steps, where a step's own cause comes before the
-- one that is recorded for it because it failed. A quiesce that fails leaves a cause.
pub lifecycle_quiesce_lem :
    (calls : Calls) (s : Life) (q : Quiesced calls)
    → ((lifecycle_quiesce calls s).0
        ≡ (outcome (true, s.runtime.block_reason) (quiesce_outcomes calls s q)).0)
      × ((lifecycle_quiesce calls s).1.runtime.block_reason
          ≡ (outcome (true, s.runtime.block_reason) (quiesce_outcomes calls s q)).1)
      × ((lifecycle_quiesce calls s).0 ≡ false
          → (lifecycle_quiesce calls s).1.runtime.block_reason ≢ no_reason)
unfolding lifecycle_quiesce quiesce_front quiesce_back Reaches outcome quiesce_outcomes
lifecycle_quiesce_lem calls s q =
    let a =
      check-Reaches calls.control handle_contexts_open (true, s.runtime)
        (true, s.runtime.block_reason) q.control_ok q.control_own q.control (refl, refl) in
    let w : Answers (λ r. (not (calls.writable r), r)) (not q.writable) none = record {
      verdict = λ rt. ap not (q.store rt);
      cause = λ rt. refl;
    } in
    let b =
      check-Reaches (λ r. (not (calls.writable r), r)) rundown_stuck _ _ (not q.writable) none w
        a in
    let c = check-Reaches calls.events event_thread_drain _ _ q.events_ok q.events_own q.events b in
    let d = check-Reaches calls.inject injection_drain _ _ q.inject_ok q.inject_own q.inject c in
    let e = bfe-Reaches calls s _ _ d in
    let f =
      check-Reaches calls.teardown engine_close _ _ q.teardown_ok q.teardown_own q.teardown e in
    let idle = drain calls.work_reads drain_retries == status_success in
    let g = check-Reaches (λ r. (idle, r)) work_item_drain _ _ idle none (reads-Answers idle) f in
    let h =
      check-Reaches (λ r. (not calls.event_running, r)) event_thread_drain _ _
        (not calls.event_running) none (reads-Answers (not calls.event_running)) g in
    (h.0, h.1, quiesce_failure_cause calls s (Quiesced-CallsKeep calls q))

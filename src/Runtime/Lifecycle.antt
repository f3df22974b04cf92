-- ===== src/Runtime/Lifecycle.antt =====
-- runtime/lifecycle.c: the start with its rollback, the quiesce and the destruction. The operations of the
-- components are arguments, each on the runtime that they share.
pub mod Laws
use shinken_sentinel.Prelude.{
  ℕ, List, [], ◌∷◌, ◌++◌, Option, none, some, Bool, true, false, not, ◌&&◌, if◌then◌else◌, ◌==◌,
}
use shinken_sentinel.Status.{NtStatus, nt_success, status_success, status_device_busy}
use shinken_sentinel.Runtime.State.{
  Runtime, BlockReason, is_none, is_active, record_block, begin_teardown, enter_unload_blocked,
  destroy_allowed, handle_contexts_open, rundown_stuck, event_thread_drain, injection_drain,
  bfe_unsubscribe, bfe_callback_active, engine_close, work_item_drain,
}
use shinken_sentinel.Runtime.Rundown.{Rundown, acquire, release, drain}

-- The operations of the components, and the answers of the operating system: SkControlQuiesce,
-- SkRuleStoreWritable, ShEventThreadStop with whether it returned STATUS_SUCCESS, SkInjectQuiesce, the
-- answer of BfeUnsubscribe and the reads of the two drained rundowns, SkWfpManagerTeardown,
-- ShEventThreadRunning, and SkRuleStoreShutdown.
pub record Calls : Type 0 where
  pub control : Runtime → Bool × Runtime
  pub writable : Runtime → Bool
  pub events : Runtime → Bool × Runtime
  pub inject : Runtime → Bool × Runtime
  pub unsubscribe : NtStatus
  pub bfe_reads : ℕ → ℕ
  pub teardown : Runtime → Bool × Runtime
  pub work_reads : ℕ → ℕ
  pub event_running : Bool
  pub shutdown : Runtime → Bool × Runtime

-- `g_SkSteps`
pub record StartSteps : Type 0 where
  pub rules : Bool
  pub eventq : Bool
  pub control : Bool
  pub inject : Bool
  pub bfe : Bool
  pub wfp : Bool
  pub flow : Bool
  pub device : Bool

abbrev pub no_steps : StartSteps
no_steps = record {
  rules = false;
  eventq = false;
  control = false;
  inject = false;
  bfe = false;
  wfp = false;
  flow = false;
  device = false;
}

-- The destructions, in their order.
pub data Destruction : Type 0 where
  inject_pools flow_table rule_store control_device device : Destruction

-- The globals of the file, the runtime, and the destructions that were run.
pub record Life : Type 0 where
  pub steps : StartSteps
  pub has_device : Bool
  pub deferred : Bool
  pub bfe_handle : Bool
  pub runtime : Runtime
  pub destroyed : List Destruction

abbrev pub drain_retries : ℕ
drain_retries = 100

-- `skRecordIfNone`
unfoldable pub record_if_none : BlockReason → Runtime → Runtime
record_if_none why rt = if is_none rt.block_reason then record_block why rt else rt

-- One step of a quiesce: `if (!step()) { skRecordIfNone(why); ok = FALSE; }`
unfoldable pub check : (Runtime → Bool × Runtime) → BlockReason → Bool × Runtime → Bool × Runtime
check step why acc =
    let r = step acc.1 in if r.0 then (acc.0, r.1) else (false, record_if_none why r.1)

-- `skBfeQuiesce`
unfoldable pub bfe_quiesce : Calls → Life → Bool × Life
bfe_quiesce calls s =
    let closed = record s { bfe_handle = false } in
    if s.bfe_handle && not (calls.unsubscribe == status_success)
    then (false, record s { runtime = record_if_none bfe_unsubscribe s.runtime })
    else if drain calls.bfe_reads drain_retries == status_success
    then (true, closed)
    else (false, record closed { runtime = record_if_none bfe_callback_active s.runtime })

-- The steps before and behind it, on the runtime.
unfoldable pub quiesce_front : Calls → Runtime → Bool × Runtime
quiesce_front calls rt =
    let a = check calls.control handle_contexts_open (true, rt) in
    let b = check (λ r. (not (calls.writable r), r)) rundown_stuck a in
    let c = check calls.events event_thread_drain b in check calls.inject injection_drain c

unfoldable pub quiesce_back : Calls → Bool × Runtime → Bool × Runtime
quiesce_back calls acc =
    let a = check calls.teardown engine_close acc in
    let b =
      check (λ r. (drain calls.work_reads drain_retries == status_success, r)) work_item_drain a in
    check (λ r. (not calls.event_running, r)) event_thread_drain b

-- `SkLifecycleQuiesce`
unfoldable pub lifecycle_quiesce : Calls → Life → Bool × Life
lifecycle_quiesce calls s =
    let front = quiesce_front calls s.runtime in
    let bfe = bfe_quiesce calls (record s { runtime = front.1 }) in
    let back = quiesce_back calls (front.0 && bfe.0, bfe.1.runtime) in
    (back.0, record (bfe.1) { runtime = back.1 })

abbrev pub logged : Bool → Destruction → List Destruction
logged true d = d ∷ []
logged false d = []

-- `SkLifecycleDestroy`
unfoldable pub lifecycle_destroy : Calls → Life → Life
lifecycle_destroy calls s =
    let r = calls.shutdown s.runtime in
    let begun = s.destroyed ++ inject_pools ∷ flow_table ∷ rule_store ∷ [] in
    if not (destroy_allowed s.runtime)
    then s
    else if not r.0
    then record s { runtime = enter_unload_blocked rundown_stuck r.1; destroyed = begun }
    else record s {
      runtime = r.1;
      steps = no_steps;
      has_device = false;
      destroyed = begun ++ control_device ∷ device ∷ [];
    }

-- A step of the rollback, for a start step that was completed.
unfoldable pub check_if :
    Bool → (Runtime → Bool × Runtime) → BlockReason → Bool × Runtime → Bool × Runtime
check_if done step why acc = if done then check step why acc else acc

unfoldable pub rollback_bfe : Calls → Bool × Life → Bool × Life
rollback_bfe calls acc =
    let r = bfe_quiesce calls acc.1 in if acc.1.steps.bfe then (acc.0 && r.0, r.1) else acc

-- The quiesce part of `skLifecycleRollback`
unfoldable pub rollback_quiesce : Calls → Life → Bool × Life
rollback_quiesce calls s =
    let a = check calls.teardown engine_close (true, (begin_teardown s.runtime).1) in
    let b = rollback_bfe calls (a.0, record s { runtime = a.1 }) in
    let c = check_if s.steps.inject calls.inject injection_drain (b.0, b.1.runtime) in
    let d = check_if s.steps.control calls.control handle_contexts_open c in
    let e = check_if s.steps.eventq calls.events event_thread_drain d in
    (e.0, record (b.1) { runtime = e.1 })

-- Its destroy part.
unfoldable pub rollback_destroy : Calls → Life → Bool × Life
rollback_destroy calls s =
    let r = calls.shutdown s.runtime in
    let begun =
      s.destroyed
      ++ logged s.steps.inject inject_pools
      ++ logged s.steps.flow flow_table
      ++ logged s.steps.rules rule_store in
    let rt = if s.steps.rules then r.1 else s.runtime in
    if s.steps.rules && not r.0 then (false, record s { runtime = rt; destroyed = begun }) else (
      true,
      record s {
        runtime = rt;
        steps = no_steps;
        has_device = false;
        destroyed = begun ++ logged s.steps.control control_device ++ logged s.steps.device device;
      },
    )

-- `skLifecycleRollback`
unfoldable pub lifecycle_rollback : Calls → Life → Bool × Life
lifecycle_rollback calls s =
    let r = rollback_quiesce calls s in if not r.0 then r else rollback_destroy calls r.1

-- The label `rollback` of `SkLifecycleStart`.
unfoldable pub fail_start : Calls → NtStatus → Life → NtStatus × Life
fail_start calls st s =
    let r = lifecycle_rollback calls s in
    if r.0 then (st, r.1) else (
      status_device_busy,
      record (r.1) { runtime = enter_unload_blocked r.1.runtime.block_reason r.1.runtime },
    )

-- What the steps of a start answer; the installation only where the engine runs.
pub record Starts : Type 0 where
  pub rules : NtStatus
  pub events : NtStatus
  pub control : NtStatus
  pub inject : NtStatus
  pub flow : NtStatus
  pub subscribe : NtStatus
  pub bfe_running : Bool
  pub install : NtStatus

-- `SkLifecycleStart`
unfoldable pub lifecycle_start : Calls → Starts → Life → NtStatus × Life
lifecycle_start calls up s0 =
    let s = record s0 {
      steps = record no_steps { device = true };
      has_device = true;
      deferred = false;
    } in
    let s1 = record s { steps = record (s.steps) { rules = true } } in
    let s2 = record s1 { steps = record (s1.steps) { eventq = true } } in
    let s3 = record s2 { steps = record (s2.steps) { control = true } } in
    let s4 = record s3 { steps = record (s3.steps) { inject = true } } in
    let s5 = record s4 { steps = record (s4.steps) { flow = true } } in
    let s6 = record s5 { steps = record (s5.steps) { bfe = true }; bfe_handle = true } in
    if not (nt_success up.rules)
    then fail_start calls up.rules s
    else if not (nt_success up.events)
    then fail_start calls up.events s1
    else if not (nt_success up.control)
    then fail_start calls up.control s2
    else if not (nt_success up.inject)
    then fail_start calls up.inject s3
    else if not (nt_success up.flow)
    then fail_start calls up.flow s4
    else if not (nt_success up.subscribe)
    then fail_start calls up.subscribe (record s5 { bfe_handle = false })
    else if not up.bfe_running
    then (status_success, record s6 { deferred = true })
    else if not (nt_success up.install)
    then fail_start calls up.install s6
    else (status_success, record s6 { steps = record (s6.steps) { wfp = true } })

-- `SkBfeStateChangeCallback`, with the status of the installation.
unfoldable pub bfe_changed : Bool → NtStatus → Rundown → Life → Rundown × Life
bfe_changed running st gate s =
    let got = acquire gate in
    let s' =
      if running && is_active s.runtime.state && s.has_device
      then record s { deferred = not (nt_success st) }
      else s in
    let back = release got.1 s.runtime in
    if not got.0 then (gate, s) else (back.0, record s' { runtime = back.1 })

-- ===== src/Control/Device.antt =====
-- control/ioctl.c: the life of the control device and the handles on it; the count of open handles is
-- that of runtime/runtime.c.
pub mod Laws
use shinken_sentinel.Prelude.{
  ℕ, zero, suc, ◌+◌, ◌-◌, ◌%◌, ◌^◌, List, [], ◌∷◌, ◌++◌, Option, none, some, Bool, true, false, not,
  ◌&&◌, if◌then◌else◌, ◌==◌,
}
use shinken_sentinel.Prelude.Polls.{poll}
use shinken_sentinel.Status.{NtStatus, status_success, status_insufficient_resources}
use shinken_sentinel.Runtime.State.{
  Runtime, record_block, handle_contexts_open, worker_thread_drain,
}

-- `g_ControlGateOpen`, `g_ControlReady`, whether `g_SkDequeueThread` is set, `g_SkDequeueStop`, the stop
-- event, whether the framework's queue was purged, and whether the device is there.
pub record Device : Type 0 where
  pub gate_open : Bool
  pub ready : Bool
  pub thread : Bool
  pub stop : Bool
  pub stop_event : Bool
  pub purged : Bool
  pub present : Bool

-- `SkControlInit`: the answers of WdfIoQueueReadyNotify and of the thread's creation are arguments.
unfoldable pub control_init : NtStatus → NtStatus → Device → NtStatus × Device
control_init notify_status thread_status d =
    if d.ready
    then (status_success, d)
    else let fresh = record d { ready = true; stop_event = false; stop = false } in
      if not (notify_status == status_success)
      then (notify_status, record fresh { ready = false })
      else if not (thread_status == status_success)
      then (status_insufficient_resources, record fresh { ready = false; thread = false })
      else (status_success, record fresh { thread = true; gate_open = true })

abbrev pub control_drain_retries : ℕ
control_drain_retries = 200

-- `SkControlQuiesce` once the consumer is gone: the purge and the wait for the handles; `handles` are
-- the counts that the polls read.
unfoldable pub await_handles : Bool → (ℕ → ℕ) → Device → Runtime → Bool × Device × Runtime
await_handles has_queue handles d rt =
    let d' = if has_queue then record d { purged = true } else d in
    if poll (λ i. handles i == 0) control_drain_retries 0
    then (true, d', rt)
    else (false, d', record_block handle_contexts_open rt)

-- `SkControlQuiesce`
unfoldable pub control_quiesce :
    Bool → NtStatus → (ℕ → ℕ) → Device → Runtime → Bool × Device × Runtime
control_quiesce has_queue join_status handles d rt =
    let closing = record d { gate_open = false; stop = true; stop_event = true } in
    if d.thread && not (join_status == status_success)
    then (false, closing, record_block worker_thread_drain rt)
    else await_handles has_queue handles (record closing { thread = false }) rt

-- `SkControlDestroy`
unfoldable pub control_destroy : Device → Device
control_destroy d =
    if d.ready
    then record d { gate_open = false; ready = false; present = false }
    else record d { gate_open = false }

-- `SK_IOCTL_CONTEXT`
pub record Context : Type 0 where
  pub privileged : Bool
  pub counted : Bool

-- The contexts of the file objects that are there, and `g_HandlesOpen` as its 64-bit pattern.
pub record Files : Type 0 where
  pub contexts : List Context
  pub handles_open : ℕ

-- `ShHandleOpen` and `ShHandleClose`
unfoldable pub handle_open : ℕ → ℕ
handle_open n = (n + 1) % 2 ^ 64

unfoldable pub handle_close : ℕ → ℕ
handle_close n = (n + 2 ^ 64 - 1) % 2 ^ 64

-- `SkIoctlEvtFileCreate` for a new file object, which the framework gives a context of zeros; the argument
-- is what SkIoctlQueryCallerPrivileged answers.
unfoldable pub file_create : Bool → Files → Files
file_create privileged f = record {
  contexts = record { privileged = privileged; counted = true } ∷ f.contexts;
  handles_open = handle_open f.handles_open;
}

-- `SkIoctlEvtFileDestroy` of a context.
unfoldable pub uncount : Context → ℕ → Context × ℕ
uncount ctx n = if ctx.counted then (record ctx { counted = false }, handle_close n) else (ctx, n)

-- The destruction of the file object at a position, after which it is gone.
unfoldable pub destroy_at : ℕ → List Context → ℕ → List Context × ℕ
destroy_at i [] n = ([], n)
destroy_at zero (ctx ∷ contexts) n = (contexts, (uncount ctx n).1)
destroy_at (suc i) (ctx ∷ contexts) n = let rest = destroy_at i contexts n in (ctx ∷ rest.0, rest.1)

unfoldable pub file_destroy : ℕ → Files → Files
file_destroy i f =
    let r = destroy_at i f.contexts f.handles_open in record { contexts = r.0; handles_open = r.1 }

-- `SkIoctlQueryCallerPrivileged`: the process identifier, whether a token was found, and whether it is an
-- administrator's.
unfoldable pub caller_privileged : ℕ → Bool → Bool → Bool
caller_privileged pid token admin = if pid == 4 then true else if token then admin else false

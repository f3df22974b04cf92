-- ===== src/Packet/Injection.antt =====
-- packet/injection.c: the two injection handles and the packet pools, from their creation to their
-- destruction. The answers of the network stack are arguments.
pub mod Laws
use shinken_sentinel.Prelude.{ℕ, Bool, true, false, not, if◌then◌else◌, none, ◌==◌}
use shinken_sentinel.Status.{NtStatus, nt_success, status_success, status_insufficient_resources}
use shinken_sentinel.Runtime.State.{Runtime, record_block, injection_drain}
use shinken_sentinel.Runtime.Rundown.{Rundown}
use shinken_sentinel.Runtime.Objects.{WfpObject, object_init, injection_destroy, is_deleted}
use shinken_sentinel.Runtime.Injection.{injection_gate_stop}
use shinken_sentinel.Runtime.Injection

-- A handle with its tracking.
pub record Handle : Type 0 where
  pub present : Bool
  pub track : WfpObject

-- `g_InjectionHandle` with `g_InjectionTrack`, the two pools, `g_SkInjectInited`, and the gate.
pub record Injector : Type 0 where
  pub v4 : Handle
  pub v6 : Handle
  pub nbl_pool : Bool
  pub nb_pool : Bool
  pub inited : Bool
  pub gate : Rundown

abbrev pub tracked : Bool → Handle
tracked present = record { present = present; track = object_init 0 0 none }

-- What the network stack holds for the driver: the two handles and the two pools.
pub record Held : Type 0 where
  pub v4 : Bool
  pub v6 : Bool
  pub nbl : Bool
  pub nb : Bool

abbrev pub nothing_held : Held
nothing_held = record { v4 = false; v6 = false; nbl = false; nb = false }

-- The answers to the two creations and the two allocations, and those to the destructions of a rollback.
pub record Answers : Type 0 where
  pub v4 : NtStatus
  pub v6 : NtStatus
  pub nbl : Bool
  pub nb : Bool
  pub destroy_v4 : NtStatus
  pub destroy_v6 : NtStatus

-- `ShOps.InjectionHandleDestroy`, whose answer the rollback ignores: the stack keeps the handle where it
-- is not STATUS_SUCCESS.
abbrev pub destroy_v4 : Answers → Held → Held
destroy_v4 a h = record h { v4 = if a.destroy_v4 == status_success then false else h.v4 }

abbrev pub destroy_v6 : Answers → Held → Held
destroy_v6 a h = record h { v6 = if a.destroy_v6 == status_success then false else h.v6 }

-- The two destructions of a rollback, and the pointers.
abbrev destroy_both : Answers → Held → Held
destroy_both a h = destroy_v4 a (destroy_v6 a h)

-- `SkInjectInit`, each creation with its check: the handles, the first pool and the second.
unfoldable pub init_nb : Answers → Injector → Held → NtStatus × Injector × Held
init_nb a s h =
    if a.nb then (status_success, record s { nb_pool = true }, record h { nb = true }) else (
      status_insufficient_resources,
      record s {
        v4 = tracked false;
        v6 = tracked false;
        nbl_pool = false;
        nb_pool = false;
        inited = false;
      },
      destroy_both a (record h { nbl = false }),
    )

unfoldable pub init_nbl : Answers → Injector → Held → NtStatus × Injector × Held
init_nbl a s h =
    if a.nbl then init_nb a (record s { nbl_pool = true }) (record h { nbl = true }) else (
      status_insufficient_resources,
      record s { v4 = tracked false; v6 = tracked false; nbl_pool = false; inited = false },
      destroy_both a h,
    )

unfoldable pub init_v6 : Answers → Injector → Held → NtStatus × Injector × Held
init_v6 a s h =
    if nt_success a.v6
    then init_nbl a (record s { v6 = tracked true }) (record h { v6 = true })
    else (a.v6, record s { v4 = tracked false; v6 = tracked false; inited = false }, destroy_v4 a h)

unfoldable pub inject_init : Answers → Injector → Held → NtStatus × Injector × Held
inject_init a s h =
    let fresh = record s {
      v4 = record (s.v4) { track = object_init 0 0 none };
      v6 = record (s.v6) { track = object_init 0 0 none };
      inited = true;
    } in
    if s.inited
    then (status_success, s, h)
    else if nt_success a.v4
    then init_v6 a (record fresh { v4 = tracked true }) (record h { v4 = true })
    else (a.v4, record fresh { v4 = tracked false; inited = false }, h)

abbrev pub busy_retries : ℕ
busy_retries = 8

abbrev pub drain_retries : ℕ
drain_retries = 100

-- The body of the loop of `SkInjectQuiesce`: whether it goes on, and the handle.
unfoldable pub destroy_handle : (ℕ → NtStatus) → Handle → Bool × Handle
destroy_handle answers h =
    let r = injection_destroy h.present answers busy_retries h.track in
    if is_deleted r.1.state
    then (true, record { present = false; track = r.1 })
    else if not (r.0 == status_success)
    then (false, record h { track = r.1 })
    else (true, record h { track = r.1 })

-- `SkInjectQuiesce`: what the polls of the gate read, and the answers for the two handles.
unfoldable pub inject_quiesce :
    (ℕ → ℕ) → (ℕ → NtStatus) → (ℕ → NtStatus) → Injector → Runtime → Bool × Injector × Runtime
inject_quiesce reads v4 v6 s rt =
    let stopped = record s { gate = injection_gate_stop s.gate } in
    let a = destroy_handle v4 s.v4 in
    let b = destroy_handle v6 s.v6 in
    if not s.inited
    then (true, s, rt)
    else if not (Injection.injection_drain reads drain_retries == status_success)
    then (false, stopped, record_block injection_drain rt)
    else if not a.0
    then (false, record stopped { v4 = a.1 }, record_block injection_drain rt)
    else if not b.0
    then (false, record stopped { v4 = a.1; v6 = b.1 }, record_block injection_drain rt)
    else (true, record stopped { v4 = a.1; v6 = b.1 }, rt)

-- `SkInjectDestroy`
unfoldable pub inject_destroy : Injector → Injector
inject_destroy s = record s { nbl_pool = false; nb_pool = false }

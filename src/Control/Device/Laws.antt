-- ===== src/Control/Device/Laws.antt =====
-- The quiesce of the control device on every branch, and the balance of the handles.
use shinken_sentinel.Prelude.{
  ℕ, zero, suc, ◌%◌, ◌^◌, ◌≤◌, ◌<◌, ◌≡◌, ◌≢◌, ◌↔◌, ◌⊎◌, refl, ap, List, [], ◌∷◌, Bool, true, false,
  not, ◌&&◌, if◌then◌else◌, ◌==◌, arith, length, inl, inr, Bool-cases, All, ==_iff,
}
use shinken_sentinel.Prelude.Polls.{poll, poll_iff}
use shinken_sentinel.Status.{NtStatus, status_success}
use shinken_sentinel.Runtime.State.{
  Runtime, record_block, handle_contexts_open, worker_thread_drain,
}
use shinken_sentinel.Control.Device.{
  Device, control_quiesce, await_handles, Context, Files, file_create, file_destroy, destroy_at,
  uncount, handle_open, handle_close,
}

-- The device once the gate is closed and the consumer told to stop.
abbrev pub closing : Device → Device
closing d = record d { gate_open = false; stop = true; stop_event = true }

-- The consumer is not known to have ended.
abbrev pub Lingers : Device → NtStatus → Type 0
Lingers d join_status = (d.thread ≡ true) × (join_status ≢ status_success)

abbrev pub NoHandle : (ℕ → ℕ) → Type 0
NoHandle handles = (i : ℕ) × (i ≤ 200) × (handles i ≡ 0)

lingers :
    (d : Device) (st : NtStatus) → Lingers d st → (d.thread && not (st == status_success)) ≡ true
lingers d st (on, bad) = ground (arith, bad)

not-Lingers :
    (d : Device) (st : NtStatus)
    → (Lingers d st → ⊥)
    → (d.thread && not (st == status_success)) ≡ false
not-Lingers d st h = elim (Bool-cases (d.thread && not (st == status_success))) [
  | inr no_ ↦ no_
  | inl yes_ ↦ absurd (h (ground arith, (λ e. ground arith)))
]

awaited : (handles : ℕ → ℕ) → (poll (λ i. handles i == 0) 200 0 ≡ true) ↔ NoHandle handles
awaited handles = (
  (λ h. let (i, le, e) = (poll_iff (λ i. handles i == 0) 200).0 h in (i, le, (==_iff _ 0).0 e)),
  (λ h. (poll_iff (λ i. handles i == 0) 200).1 (h.0, h.1, (==_iff _ 0).1 h.2)),
)

not_awaited : (handles : ℕ → ℕ) → (NoHandle handles → ⊥) → poll (λ i. handles i == 0) 200 0 ≡ false
not_awaited handles n = elim (Bool-cases (poll (λ i. handles i == 0) 200 0)) [
  | inl hit ↦ absurd (n ((awaited handles).0 hit))
  | inr miss ↦ miss
]

-- `SkControlQuiesce` closes the gate and tells the consumer to stop on every branch. Where the join of the
-- consumer fails it returns FALSE, keeps the thread and blocks the unload for it. Else the thread is given up
-- and the queue, if there is one, purged; it returns TRUE with the runtime as it was exactly where one of its
-- 201 readings finds no open handle, and FALSE with the unload blocked for the handles otherwise.
pub control_quiesce_lem :
    (has_queue : Bool) (join_status : NtStatus) (handles : ℕ → ℕ) (d : Device) (rt : Runtime)
    → (Lingers d join_status
        → control_quiesce has_queue join_status handles d rt
          ≡ (false, closing d, record_block worker_thread_drain rt))
      × ((Lingers d join_status → ⊥)
          → NoHandle handles
          → control_quiesce has_queue join_status handles d rt ≡ (
            true,
            record (closing d) { thread = false; purged = if has_queue then true else d.purged },
            rt,
          ))
      × ((Lingers d join_status → ⊥)
          → (NoHandle handles → ⊥)
          → control_quiesce has_queue join_status handles d rt ≡ (
            false,
            record (closing d) { thread = false; purged = if has_queue then true else d.purged },
            record_block handle_contexts_open rt,
          ))
unfolding control_quiesce await_handles
control_quiesce_lem has_queue join_status handles d rt = (
  (λ l. rw (lingers d join_status l) refl),
  (λ l n. elim (Bool-cases has_queue) [
    | inl q ↦ rw (not-Lingers d join_status l, q, (awaited handles).1 n) refl
    | inr q ↦ rw (not-Lingers d join_status l, q, (awaited handles).1 n) refl
  ]),
  (λ l n. elim (Bool-cases has_queue) [
    | inl q ↦ rw (not-Lingers d join_status l, q, not_awaited handles n) refl
    | inr q ↦ rw (not-Lingers d join_status l, q, not_awaited handles n) refl
  ]),
)

-- A run of creations and destructions of file objects.
pub data FileEvent : Type 0 where
  create : Bool → FileEvent
  destroy : ℕ → FileEvent

unfoldable pub run_files : List FileEvent → Files → Files
run_files [] f = f
run_files (create p ∷ events) f = run_files events (file_create p f)
run_files (destroy i ∷ events) f = run_files events (file_destroy i f)

record Balanced (f : Files) : Type 0 where
  counted : All (λ ctx. ctx.counted ≡ true) f.contexts
  exact : f.handles_open ≡ length f.contexts % 2 ^ 64

-- Nothing stands at the position, or one context goes and the count with it.
abbrev Shrunk : List Context → ℕ → List Context × ℕ → Type 0
Shrunk contexts n r =
    All (λ ctx. ctx.counted ≡ true) r.0
    × (((length r.0 ≡ length contexts) × (r.1 ≡ n))
        ⊎ ((length contexts ≡ suc (length r.0)) × (r.1 ≡ handle_close n)))

destroy-Shrunk :
    (i : ℕ) (contexts : List Context) (n : ℕ)
    → All (λ ctx. ctx.counted ≡ true) contexts
    → Shrunk contexts n (destroy_at i contexts n)
unfolding destroy_at uncount
destroy-Shrunk zero [] n h = (tt, inl (refl, refl))
destroy-Shrunk (suc i) [] n h = (tt, inl (refl, refl))
destroy-Shrunk zero (ctx ∷ contexts) n h = (h.1, inr (refl, rw h.0 refl))
destroy-Shrunk (suc i) (ctx ∷ contexts) n h =
    let (left, change) = destroy-Shrunk i contexts n h.1 in
    (
      (h.0, left),
      elim change [
        | inl (same, kept) ↦ inl (ap suc same, kept)
        | inr (less, closed) ↦ inr (ap suc less, closed)
      ],
    )

destroy-Balanced : (i : ℕ) (f : Files) → Balanced f → Balanced (file_destroy i f)
unfolding file_destroy handle_close
destroy-Balanced i f b =
    let (left, change) = destroy-Shrunk i f.contexts f.handles_open b.counted in
    record { counted = left; exact = balance change }
  where
    balance :
        ((length (destroy_at i f.contexts f.handles_open).0 ≡ length f.contexts)
            × ((destroy_at i f.contexts f.handles_open).1 ≡ f.handles_open))
          ⊎ ((length f.contexts ≡ suc (length (destroy_at i f.contexts f.handles_open).0))
              × ((destroy_at i f.contexts f.handles_open).1 ≡ handle_close f.handles_open))
        → (destroy_at i f.contexts f.handles_open).1
          ≡ length (destroy_at i f.contexts f.handles_open).0 % 2 ^ 64
    balance (inl (same, kept)) = omega (arith, b.exact)
    balance (inr (less, closed)) = omega (arith, b.exact)

run_files-Balanced :
    (events : List FileEvent) (f : Files) → Balanced f → Balanced (run_files events f)
unfolding run_files file_create handle_open
run_files-Balanced [] f b = b
run_files-Balanced (create p ∷ events) f b =
    run_files-Balanced events (file_create p f)
      (record { counted = (refl, b.counted); exact = omega (arith, b.exact) })
run_files-Balanced (destroy i ∷ events) f b =
    run_files-Balanced events (file_destroy i f) (destroy-Balanced i f b)

-- However file objects are created and destroyed, fewer than 2 ^ 64 at a time, the count of open handles is
-- the number of file objects that are there.
pub handles_balance :
    (events : List FileEvent)
    → let f = run_files events (record { contexts = []; handles_open = 0 }) in
      length f.contexts < 2 ^ 64 → f.handles_open ≡ length f.contexts
handles_balance events h =
    let b =
      run_files-Balanced events (record { contexts = []; handles_open = 0 })
        (record { counted = tt; exact = refl }) in
    omega (arith, b.exact)

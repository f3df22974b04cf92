-- ===== src/Control/Dispatch/Checks.antt =====
-- Which requests go on to their command.
use shinken_sentinel.Prelude.{
  ◌+◌, ◌/◌, ◌%◌, ◌^◌, ◌≤◌, ◌<◌, ◌≡◌, refl, Option, none, some, Bool, true, false, arith, inl, inr,
  Option-cases,
}
use shinken_sentinel.Status.{NtStatus, nt_success}
use shinken_sentinel.Runtime.State.{is_active}
use shinken_sentinel.Control.Commands.{header_of, plain, Pools}
use shinken_sentinel.Control.Dispatch.{
  Driver, Request, is_modify_command, is_privileged, may_run, refusal, carry_out, device_control,
}

-- The conditions that the protocol sets a request.
pub record Admissible (d : Driver) (r : Request) : Type 0 where
  pub open_ : d.gate_open ≡ true
  pub running : is_active d.store.runtime.state ≡ true
  pub same_code : r.packet_code ≡ r.code
  pub readable : nt_success r.in_status ≡ true
  pub has_header : (24 ≤ r.in_len) × (r.in_len < 2 ^ 32)
  pub own_size : (header_of r.m).size ≡ r.in_len
  pub own_version : (header_of r.m).version ≡ 1
  pub no_flags : (header_of r.m).flags ≡ 0
  pub known : (header_of r.m).command < 11
  pub numbered : r.code / 4 % 4096 ≡ 2048 + (header_of r.m).command
  pub allowed : is_modify_command (header_of r.m).command ≡ true → r.privileged ≡ some true
  pub writable_out : 0 < r.out_asked → (nt_success r.out_status ≡ true) × (r.out ≡ true)

privileged_some : (p : Option Bool) → is_privileged p ≡ true → p ≡ some true
privileged_some none h = cc
privileged_some (some p) h = ground arith

privileged_true : (p : Option Bool) → p ≡ some true → is_privileged p ≡ true
privileged_true p h = rw h refl

pub Admissible-of : (d : Driver) (r : Request) → refusal d r ≡ none → Admissible d r
unfolding refusal may_run
Admissible-of d r h = record {
  open_ = ground arith;
  running = ground arith;
  same_code = ground arith;
  readable = ground arith;
  has_header = ground arith;
  own_size = ground arith;
  own_version = ground arith;
  no_flags = ground arith;
  known = ground arith;
  numbered = ground arith;
  allowed = λ k. privileged_some r.privileged (ground arith);
  writable_out = λ k. ground arith;
}

refusal-none : (d : Driver) (r : Request) → Admissible d r → refusal d r ≡ none
unfolding refusal may_run
refusal-none d r h = ground (arith, h.allowed, h.writable_out, privileged_true r.privileged)

refusal-error :
    (d : Driver) (r : Request) (st : NtStatus) → refusal d r ≡ some st → nt_success st ≡ false
unfolding refusal
refusal-error d r st h = ground arith

-- `SkIoctlEvtDeviceControl` hands a request on to its command exactly where the gate is open, the driver
-- is active and the request keeps the protocol (the code's number is the command's, a command that
-- modifies comes from a privileged handle, the size is that of the input). Any other request is
-- completed with an error status, no bytes and no output, and changes nothing.
pub device_control_checks :
    (pools : Pools) (d : Driver) (r : Request)
    → (Admissible d r → device_control pools r d ≡ carry_out pools none r d)
      × ((Admissible d r → ⊥)
          → (st : NtStatus) × (nt_success st ≡ false)
            × (device_control pools r d ≡ some (plain st 0, d)))
unfolding device_control carry_out
device_control_checks pools d r = (
  (λ ok. rw (refusal-none d r ok) refl),
  (λ bad. elim (Option-cases (refusal d r)) [
    | inl passed ↦ absurd (bad (Admissible-of d r passed))
    | inr (st, refused) ↦ (st, refusal-error d r st refused, rw refused refl)
  ]),
)

-- ===== src/Runtime/Injection.antt =====
-- runtime/runtime.c: the gate of in-flight injections, on the rundown counter `g_InjectionRundown`.
pub mod Laws
use shinken_sentinel.Prelude.{
  ℕ, zero, suc, ◌+◌, ◌≤◌, ◌≡◌, ◌↔◌, ◌⊎◌, Bool, true, false, ◌||◌, if◌then◌else◌, ◌==◌, arith, inl,
  inr, ℕ_discrete,
}
use shinken_sentinel.Status.{NtStatus, status_success, status_timeout}
use shinken_sentinel.Runtime.State.{Runtime}
use shinken_sentinel.Runtime.Rundown.{
  Rundown, stop_bit, acquire, release, begin_stop, ActiveCount, active_count,
}

-- `ShInjectionBegin`, `ShInjectionEnd` and `ShInjectionGateStop`
unfoldable pub injection_begin : Rundown → Bool × Rundown
injection_begin gate = acquire gate

unfoldable pub injection_end : Rundown → Runtime → Rundown × Runtime
injection_end gate rt = release gate rt

unfoldable pub injection_gate_stop : Rundown → Rundown
injection_gate_stop gate = begin_stop gate

-- `ShInjectionInFlight`: -1 becomes 0.
abbrev in_flight_of : ActiveCount → ℕ
in_flight_of ActiveCount.drained = 0
in_flight_of (ActiveCount.holders n) = n

unfoldable pub injection_in_flight : Rundown → ℕ
injection_in_flight gate = in_flight_of (active_count gate)

-- `ShInjectionDrain` from poll `i` on, with the sleeps that are left; `reads i` is what poll `i` reads.
unfoldable pub injection_drain_from : (ℕ → ℕ) → ℕ → ℕ → NtStatus
injection_drain_from reads zero i =
    if reads i == stop_bit || reads i == 0 then status_success else status_timeout
injection_drain_from reads (suc left) i =
    let rest = injection_drain_from reads left (i + 1) in
    if reads i == stop_bit || reads i == 0 then status_success else rest

unfoldable pub injection_drain : (ℕ → ℕ) → ℕ → NtStatus
injection_drain reads retries = injection_drain_from reads retries 0

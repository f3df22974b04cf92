-- ===== src/Packet/Injection/Laws.antt =====
-- The creation is all or nothing, and what a quiesce does on success and on failure.
use shinken_sentinel.Prelude.{ℕ, ◌≡◌, Bool, true, false, not, ◌&&◌, if◌then◌else◌, arith}
use shinken_sentinel.Status.{NtStatus, nt_success, status_success, status_insufficient_resources}
use shinken_sentinel.Runtime.State.{Runtime, record_block, injection_drain}
use shinken_sentinel.Runtime.Injection.{injection_gate_stop}
use shinken_sentinel.Runtime.Injection
use shinken_sentinel.Packet.Injection.{
  Injector, Held, nothing_held, Answers, init_nb, init_nbl, init_v6, inject_init, drain_retries,
  inject_quiesce,
}

-- Nothing is there, as before the first creation.
pub record Bare (s : Injector) : Type 0 where
  pub v4 : s.v4.present ≡ false
  pub v6 : s.v6.present ≡ false
  pub nbl : s.nbl_pool ≡ false
  pub nb : s.nb_pool ≡ false
  pub inited : s.inited ≡ false

-- Everything is there, in the driver and in the stack.
pub record Ready (s : Injector) (h : Held) : Type 0 where
  pub v4 : (s.v4.present ≡ true) × (h.v4 ≡ true)
  pub v6 : (s.v6.present ≡ true) × (h.v6 ≡ true)
  pub nbl : (s.nbl_pool ≡ true) × (h.nbl ≡ true)
  pub nb : (s.nb_pool ≡ true) × (h.nb ≡ true)
  pub inited : s.inited ≡ true

-- What a failed creation leaves in the stack: no pool, and no handle whose destruction succeeded.
pub record Returned (a : Answers) (h : Held) : Type 0 where
  pub v4 : a.destroy_v4 ≡ status_success → h.v4 ≡ false
  pub v6 : a.destroy_v6 ≡ status_success → h.v6 ≡ false
  pub nbl : h.nbl ≡ false
  pub nb : h.nb ≡ false

-- All four are had.
abbrev pub all_had : Answers → Bool
all_had a = nt_success a.v4 && nt_success a.v6 && a.nbl && a.nb

-- The status of a creation in which something is refused.
abbrev pub refusal : Answers → NtStatus
refusal a =
    if not (nt_success a.v4)
    then a.v4
    else if not (nt_success a.v6)
    then a.v6
    else status_insufficient_resources

-- `SkInjectInit` on a bare state, with nothing held by the network stack. Where both handles and both pools are
-- had it succeeds, and the driver has all four, as the stack does. Where one is refused it fails, with the
-- handle's status or STATUS_INSUFFICIENT_RESOURCES for a pool; the driver's state is bare again, and
-- the stack holds no pool and no handle but those whose destruction it did not answer with STATUS_SUCCESS.
pub inject_init_lem :
    (a : Answers) (s : Injector)
    → Bare s
    → (all_had a ≡ true
        → ((inject_init a s nothing_held).0 ≡ status_success)
          × Ready (inject_init a s nothing_held).1 (inject_init a s nothing_held).2)
      × (all_had a ≡ false
          → ((inject_init a s nothing_held).0 ≡ refusal a)
            × Bare (inject_init a s nothing_held).1
            × Returned a (inject_init a s nothing_held).2)
unfolding inject_init init_v6 init_nbl init_nb
inject_init_lem a s bare = (
  (λ had. (
    ground (arith, bare.inited),
    record {
      v4 = (ground (arith, bare.inited), ground (arith, bare.inited));
      v6 = (ground (arith, bare.inited), ground (arith, bare.inited));
      nbl = (ground (arith, bare.inited), ground (arith, bare.inited));
      nb = (ground (arith, bare.inited), ground (arith, bare.inited));
      inited = ground (arith, bare.inited);
    },
  )),
  (λ not_had. (
    ground (arith, bare.inited),
    record {
      v4 = ground (arith, bare.inited);
      v6 = ground (arith, bare.inited, bare.v6);
      nbl = ground (arith, bare.inited, bare.nbl);
      nb = ground (arith, bare.inited, bare.nb);
      inited = ground (arith, bare.inited);
    },
    record {
      v4 = λ k. ground (arith, bare.inited);
      v6 = λ k. ground (arith, bare.inited);
      nbl = ground (arith, bare.inited);
      nb = ground (arith, bare.inited);
    },
  )),
)

-- `SkInjectQuiesce` of what was created: the gate is closed whatever happens; a failure records the cause
-- INJECTION_DRAIN, and a success changes nothing of the runtime and saw the gate drained.
pub inject_quiesce_lem :
    (reads : ℕ → ℕ) (v4 v6 : ℕ → NtStatus) (s : Injector) (rt : Runtime)
    → s.inited ≡ true
    → ((inject_quiesce reads v4 v6 s rt).1.gate ≡ injection_gate_stop s.gate)
      × ((inject_quiesce reads v4 v6 s rt).0 ≡ false
          → (inject_quiesce reads v4 v6 s rt).2 ≡ record_block injection_drain rt)
      × ((inject_quiesce reads v4 v6 s rt).0 ≡ true
          → ((inject_quiesce reads v4 v6 s rt).2 ≡ rt)
            × (Injection.injection_drain reads drain_retries ≡ status_success))
unfolding inject_quiesce
inject_quiesce_lem reads v4 v6 s rt on =
    (ground (arith, on), (λ h. ground (arith, on)), (λ h. (ground (arith, on), ground (arith, on))))

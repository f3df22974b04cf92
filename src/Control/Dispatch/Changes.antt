-- ===== src/Control/Dispatch/Changes.antt =====
-- Which requests change the rules, and that a request that changes them does so wholly or not at all.
use shinken_sentinel.Prelude.{
  ℕ, ◌≡◌, ◌⊎◌, refl, sym, ap, ◌∙◌, List, Option, none, some, Bool, true, false, arith, inl, inr,
  Bool-cases, Option-cases,
}
use shinken_sentinel.Status.{NtStatus, nt_success, status_success}
use shinken_sentinel.Rules.Types.{Rule}
use shinken_sentinel.Rules.Store.{Store, ◌>>=◌}
use shinken_sentinel.Rules.Store.Safe.{Safe}
use shinken_sentinel.Rules.Store.Binds.{>>=-eq-some}
use shinken_sentinel.Rules.Store.View.{Content, view, published_view}
use shinken_sentinel.Rules.Store.Api.Writers.{Ready}
use shinken_sentinel.Control.Commands.{Call, Completion, Pools, header_of, plain, echo_if_room}
use shinken_sentinel.Control.Commands.Settled.{
  Settled, add_or_update-Settled, delete-Settled, clear-Settled, policy-Settled,
  cmd_replace-Settled,
}
use shinken_sentinel.Control.Dispatch.{
  Driver, Request, Command, query_capabilities, get_rule_version, add_rule, update_rule,
  delete_rule, enum_rules, replace_ruleset, clear_rules, set_policy, get_stats, flush_events,
  call_of, changed, run_command, route, complete, carry_out, device_control, refusal, command_of,
  is_modify_command,
}
use shinken_sentinel.Control.Dispatch.Checks.{Admissible, Admissible-of, device_control_checks}

-- The request's completion: an error with no bytes and nothing changed, or a success.
abbrev pub Done : List ℕ → Driver → Content → Option (Completion × Driver) → Type 0
Done held d old o =
    ((st : NtStatus) × (nt_success st ≡ false) × (o ≡ some (plain st 0, d)))
    ⊎ ((done : Completion) × (s' : Store) × (rules : List Rule) × (policy : ℕ) × (done.status
          ≡ status_success)
        × (o ≡ some (done, record d { store = s' }))
        × Safe held s'
        × (view s' ≡ published_view rules policy old))

echo_error :
    (c : Call) (st : NtStatus) → nt_success st ≡ false → echo_if_room c (plain st 0) ≡ plain st 0
unfolding echo_if_room plain
echo_error c st h = ground arith

echo_status : (c : Call) (r : Completion) → (echo_if_room c r).status ≡ r.status
unfolding echo_if_room
echo_status c r = ground arith

completed :
    (held : List ℕ) (d : Driver) (old : Content) (c : Call) (o : Option (NtStatus × Store))
    → Settled held d.store old o
    → Done held d old ((o >>= λ x. some (changed d x)) >>= complete c)
unfolding changed complete
completed held d old c o (inl (st, bad, same)) = inl (st, bad, rw (same, echo_error c st bad) refl)
completed held d old c o (inr (s', rules, policy, same, safe, seen)) = inr (
  echo_if_room c (plain status_success 0),
  s',
  rules,
  policy,
  echo_status c (plain status_success 0) ∙ unfold plain in refl,
  rw same refl,
  safe,
  seen,
)

modifies : Command → Bool
modifies add_rule = true
modifies update_rule = true
modifies delete_rule = true
modifies replace_ruleset = true
modifies clear_rules = true
modifies set_policy = true
modifies _ = false

modifies_lem :
    (n : ℕ) (cmd : Command) → command_of n ≡ some cmd → modifies cmd ≡ is_modify_command n
unfolding modifies command_of is_modify_command
modifies_lem n query_capabilities h = ground arith
modifies_lem n get_rule_version h = ground arith
modifies_lem n add_rule h = ground arith
modifies_lem n update_rule h = ground arith
modifies_lem n delete_rule h = ground arith
modifies_lem n enum_rules h = ground arith
modifies_lem n replace_ruleset h = ground arith
modifies_lem n clear_rules h = ground arith
modifies_lem n set_policy h = ground arith
modifies_lem n get_stats h = ground arith
modifies_lem n flush_events h = ground arith

modify_some : (n : ℕ) → is_modify_command n ≡ true → (cmd : Command) × (command_of n ≡ some cmd)
unfolding command_of is_modify_command
modify_some n h = elim (Option-cases (command_of n)) [
  | inl unknown ↦ absurd (ground arith)
  | inr (cmd, e) ↦ (cmd, e)
]

run_modify :
    (held : List ℕ) (pools : Pools) (c : Call) (d : Driver) (old : Content)
    → Ready held d.store old
    → (cmd : Command) → modifies cmd ≡ true
    → Done held d old (run_command pools c d cmd >>= complete c)
unfolding run_command modifies
run_modify held pools c d old ready add_rule m =
    completed held d old c _ (add_or_update-Settled held d.store old ready pools c false)
run_modify held pools c d old ready update_rule m =
    completed held d old c _ (add_or_update-Settled held d.store old ready pools c true)
run_modify held pools c d old ready delete_rule m =
    completed held d old c _ (delete-Settled held d.store old ready pools c)
run_modify held pools c d old ready replace_ruleset m =
    completed held d old c _ (cmd_replace-Settled held d.store old ready pools c)
run_modify held pools c d old ready clear_rules m =
    completed held d old c _ (clear-Settled held d.store old ready pools)
run_modify held pools c d old ready set_policy m =
    completed held d old c _ (policy-Settled held d.store old ready pools c)
run_modify held pools c d old ready query_capabilities m = cc
run_modify held pools c d old ready get_rule_version m = cc
run_modify held pools c d old ready enum_rules m = cc
run_modify held pools c d old ready get_stats m = cc
run_modify held pools c d old ready flush_events m = cc

-- A request that keeps the protocol and modifies the rules, on a safe store that may be written, always
-- returns. Either it is completed with an error, no bytes and no output, and nothing at all is changed; or it is
-- completed with success, the store is safe and shows a new rule set under the next version, what it
-- showed is kept for a rollback, and nothing but the store is changed.
pub modify_request :
    (held : List ℕ) (pools : Pools) (d : Driver) (r : Request) (old : Content)
    → Ready held d.store old
    → Admissible d r
    → is_modify_command (header_of r.m).command ≡ true
    → Done held d old (device_control pools r d)
unfolding carry_out route
modify_request held pools d r old ready ok m =
    let n = (header_of r.m).command in
    let (cmd, known) = modify_some n m in
    rw ((device_control_checks pools d r).0 ok, known)
      (run_modify held pools (call_of r) d old ready cmd (modifies_lem n cmd known ∙ m))

query_keeps :
    (d : Driver) (o : Option Completion) (x : Completion × Driver)
    → (o >>= λ a. some (a, d)) ≡ some x
    → x.1 ≡ d
query_keeps d o x h = let (a, _, e) = >>=-eq-some o (λ a. some (a, d)) h in cc

run_keeps :
    (pools : Pools) (c : Call) (d : Driver) (cmd : Command) (x : Completion × Driver)
    → modifies cmd ≡ false
    → run_command pools c d cmd ≡ some x
    → x.1 ≡ d
unfolding run_command modifies
run_keeps pools c d query_capabilities x m h = cc
run_keeps pools c d get_rule_version x m h = query_keeps d _ x h
run_keeps pools c d add_rule x m h = cc
run_keeps pools c d update_rule x m h = cc
run_keeps pools c d delete_rule x m h = cc
run_keeps pools c d enum_rules x m h = query_keeps d _ x h
run_keeps pools c d replace_ruleset x m h = cc
run_keeps pools c d clear_rules x m h = cc
run_keeps pools c d set_policy x m h = cc
run_keeps pools c d get_stats x m h = cc
run_keeps pools c d flush_events x m h = cc

route_keeps :
    (pools : Pools) (c : Call) (d : Driver) (n : ℕ) (o : Option Command) (x : Completion × Driver)
    → command_of n ≡ o
    → is_modify_command n ≡ false
    → route pools c d o ≡ some x
    → x.1 ≡ d
unfolding route
route_keeps pools c d n none x e m h = cc
route_keeps pools c d n (some cmd) x e m h = run_keeps pools c d cmd x (modifies_lem n cmd e ∙ m) h

refused_keeps :
    (pools : Pools) (st : NtStatus) (r : Request) (d : Driver) (x : Completion × Driver)
    → carry_out pools (some st) r d ≡ some x
    → x.1 ≡ d
unfolding carry_out
refused_keeps pools st r d x h = cc

passed_keeps :
    (pools : Pools) (r : Request) (d : Driver) (x : Completion × Driver)
    → is_modify_command (header_of r.m).command ≡ false
    → carry_out pools none r d ≡ some x
    → x.1 ≡ d
unfolding carry_out complete
passed_keeps pools r d x m h =
    let c = call_of r in
    let o = command_of (header_of r.m).command in
    let (y, routed, e) = >>=-eq-some (route pools c d o) (complete c) h in
    let same : y.1 ≡ d = route_keeps pools c d (header_of r.m).command o y refl m routed in cc

-- Whatever the request and the store: where the driver behind a request is not the one before it, the
-- request keeps the protocol and its command modifies the rules, so the gate was open, the driver
-- active and the handle privileged.
pub changes_need_privilege :
    (pools : Pools) (d d' : Driver) (r : Request) (done : Completion)
    → device_control pools r d ≡ some (done, d')
    → (d' ≡ d)
      ⊎ (Admissible d r
          × (is_modify_command (header_of r.m).command ≡ true)
          × (r.privileged ≡ some true))
unfolding device_control
changes_need_privilege pools d d' r done h = elim (Option-cases (refusal d r)) [
  | inr (st, refused) ↦
      inl
        (refused_keeps pools st r d (done, d') (ap (λ o. carry_out pools o r d) (sym refused) ∙ h))
  | inl passed ↦ elim (Bool-cases (is_modify_command (header_of r.m).command)) [
    | inl m ↦ let ok = Admissible-of d r passed in inr (ok, m, ok.allowed m)
    | inr q ↦
        inl (passed_keeps pools r d (done, d') q (ap (λ o. carry_out pools o r d) (sym passed) ∙ h))
  ]
]

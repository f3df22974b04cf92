-- ===== src/Control/Dispatch/Routes.antt =====
-- What a request of any command may write, and which requests may change the rules.
use shinken_sentinel.Prelude.{
  ◌+◌, ◌*◌, ◌≤◌, ◌≡◌, ◌⊎◌, refl, sym, ap, ◌∙◌, subst, Option, none, some, Bool, true, arith, length,
  inl, inr, Bool-cases, Option-cases,
}
use shinken_sentinel.Status.{
  NtStatus, nt_success, status_invalid_device_state, status_invalid_device_request,
}
use shinken_sentinel.Rules.Types.{Rule}
use shinken_sentinel.Rules.Store.{Store, ◌>>=◌}
use shinken_sentinel.Rules.Store.Binds.{>>=-eq-some}
use shinken_sentinel.Rules.Store.View.{Content, content, shown, view}
use shinken_sentinel.Rules.Store.Api.{store_enum, visit}
use shinken_sentinel.Rules.Store.Api.Queries.{queries_lem}
use shinken_sentinel.Control.Commands.{
  Call, Completion, Pools, header_of, header_bytes, plain, echo_header, count_rule, echo_if_room,
  cmd_get_rule_version, cmd_enum_rules, lacks_room, rule_list,
}
use shinken_sentinel.Control.Commands.Laws.{
  room-le, Fits, plain-Fits, too_small-Fits, answered-Fits, capabilities-Fits, version-Fits,
  stats-Fits, flush-Fits, echo-Fits,
}
use shinken_sentinel.Control.Commands.Listing.{cmd_enum_rules_lem}
use shinken_sentinel.Control.Dispatch.{
  Driver, Request, Command, query_capabilities, get_rule_version, add_rule, update_rule,
  delete_rule, enum_rules, replace_ruleset, clear_rules, set_policy, get_stats, flush_events,
  call_of, changed, run_command, route, complete, carry_out, device_control, refusal, command_of,
}

some_inj {ℓ} : {A : Type ℓ} (a b : A) → some a ≡ some b → a ≡ b
some_inj a b h = cc

none-some {ℓ} : {A : Type ℓ} (a : A) → none ≡ some a → ⊥
none-some a h = cc

-- The store is initialized and shows a content.
Showing : Store → Type 0
Showing s = (s.inited ≡ true) × ((now : Content) × ((view s).now ≡ some now))

enum_cases {ℓ} :
    {C : Type ℓ} (on_rule : Rule → C → Bool × C) (ctx : C) (s : Store)
    → (store_enum on_rule ctx s ≡ none)
      ⊎ ((store_enum on_rule ctx s ≡ some (status_invalid_device_state, ctx)) ⊎ Showing s)
unfolding store_enum shown Showing
enum_cases on_rule ctx s = elim (Bool-cases s.inited) [
  | inr off ↦ inr (inl (rw off refl))
  | inl on ↦ elim (Option-cases s.current) [
    | inl absent ↦ inr (inl (rw (on, absent) refl))
    | inr (p, at) ↦ elim (Option-cases (s.cells p)) [
      | inl freed ↦ inl (rw (on, at, freed) refl)
      | inr (snap, e) ↦ inr (inr (on, (_, ap (shown s.cells) at ∙ ap content e)))
    ]
  ]
]

-- The result is known, so its fit is.
concluded :
    (c : Call) (o : Option Completion) (r x : Completion)
    → o ≡ some r
    → o ≡ some x
    → Fits c x
    → Fits c r
concluded c o r x h k fits = subst (λ y. Fits c y) (some_inj x r (sym k ∙ h)) fits

version_query-Fits :
    (c : Call) (s : Store) (r : Completion) → cmd_get_rule_version c s ≡ some r → Fits c r
unfolding cmd_get_rule_version Showing
version_query-Fits c s r h = elim (Bool-cases (lacks_room c (header_bytes + 16))) [
  | inl small ↦ concluded c _ r _ h (rw small refl) (too_small-Fits c (header_bytes + 16))
  | inr room ↦ elim (enum_cases count_rule 0 s) [
    | inl freed ↦ absurd (none-some r (sym (rw (room, freed) refl) ∙ h))
    | inr (inl off) ↦
        concluded c _ r _ h (rw (room, off) refl) (plain-Fits c status_invalid_device_state)
    | inr (inr (on, (now, at))) ↦
        let q = queries_lem count_rule 0 s now 0 on at in
        concluded c _ r _ h (rw (room, q.3, q.0, q.1) refl)
          (version-Fits c (visit count_rule now.rules 0) now.version now.policy room)
  ]
]

-- The rules of the store are no more than a store may have.
abbrev pub Few : Store → Type 0
Few s = (now : Content) → (view s).now ≡ some now → length now.rules ≤ 4096

enum_freed :
    (c : Call) (s : Store) → store_enum count_rule 0 s ≡ none → cmd_enum_rules c s s s ≡ none
unfolding cmd_enum_rules
enum_freed c s h = rw h refl

enum_off :
    (c : Call) (s : Store)
    → store_enum count_rule 0 s ≡ some (status_invalid_device_state, 0)
    → cmd_enum_rules c s s s ≡ some (plain status_invalid_device_state 0)
unfolding cmd_enum_rules
enum_off c s h = rw h refl

list_query-Fits :
    (c : Call) (s : Store) (r : Completion) → Few s → cmd_enum_rules c s s s ≡ some r → Fits c r
unfolding Showing
list_query-Fits c s r few h = elim (enum_cases count_rule 0 s) [
  | inl freed ↦ absurd (none-some r (sym (enum_freed c s freed) ∙ h))
  | inr (inl off) ↦
      concluded c _ r _ h (enum_off c s off) (plain-Fits c status_invalid_device_state)
  | inr (inr (on, (now, at))) ↦
      let k =
        cmd_enum_rules_lem c s s s now now now (on, at, few now at) (on, at, few now at) (on, at) in
      elim (Bool-cases (lacks_room c (40 + 184 * length now.rules))) [
        | inl small ↦
            concluded c _ r _ h (k.0 small) (too_small-Fits c (40 + 184 * length now.rules))
        | inr room ↦
            let le = room-le c (40 + 184 * length now.rules) room in
            concluded c _ r _ h (k.1 room le) (
              answered-Fits c (40 + 184 * length now.rules)
                (rule_list (length now.rules) now.version now.rules) le)
      ]
]

changed-Fits :
    (c : Call) (d : Driver) (o : Option (NtStatus × Store)) (r : Completion × Driver)
    → (o >>= λ x. some (changed d x)) ≡ some r
    → Fits c r.0
unfolding changed
changed-Fits c d o r h =
    let (x, _, e) = >>=-eq-some o (λ x. some (changed d x)) h in
    subst (λ y. Fits c y.0) (some_inj (plain x.0 0, record d { store = x.1 }) r e)
      (plain-Fits c x.0)

query-Fits :
    (c : Call) (d : Driver) (o : Option Completion) (r : Completion × Driver)
    → ((x : Completion) → o ≡ some x → Fits c x)
    → (o >>= λ x. some (x, d)) ≡ some r
    → Fits c r.0
query-Fits c d o r fits h =
    let (x, got, e) = >>=-eq-some o (λ x. some (x, d)) h in
    subst (λ y. Fits c y.0) (some_inj (x, d) r e) (fits x got)

run_command-Fits :
    (pools : Pools) (c : Call) (d : Driver) (cmd : Command) (r : Completion × Driver)
    → Few d.store
    → run_command pools c d cmd ≡ some r
    → Fits c r.0
unfolding run_command
run_command-Fits pools c d query_capabilities r few h =
    subst (λ y. Fits c y.0) (some_inj _ r h) (capabilities-Fits c)
run_command-Fits pools c d get_rule_version r few h =
    query-Fits c d (cmd_get_rule_version c d.store) r (version_query-Fits c d.store) h
run_command-Fits pools c d add_rule r few h = changed-Fits c d _ r h
run_command-Fits pools c d update_rule r few h = changed-Fits c d _ r h
run_command-Fits pools c d delete_rule r few h = changed-Fits c d _ r h
run_command-Fits pools c d enum_rules r few h =
    query-Fits c d (cmd_enum_rules c d.store d.store d.store) r
      (λ x e. list_query-Fits c d.store x few e) h
run_command-Fits pools c d replace_ruleset r few h = changed-Fits c d _ r h
run_command-Fits pools c d clear_rules r few h = changed-Fits c d _ r h
run_command-Fits pools c d set_policy r few h = changed-Fits c d _ r h
run_command-Fits pools c d get_stats r few h =
    subst (λ y. Fits c y.0) (some_inj _ r h) (stats-Fits c d.stats d.queue)
run_command-Fits pools c d flush_events r few h =
    subst (λ y. Fits c y.0) (some_inj _ r h) (flush-Fits c d.ring)

route-Fits :
    (pools : Pools) (c : Call) (d : Driver) (cmd : Option Command) (r : Completion × Driver)
    → Few d.store
    → route pools c d cmd ≡ some r
    → Fits c r.0
unfolding route
route-Fits pools c d none r few h =
    subst (λ y. Fits c y.0) (some_inj _ r h) (plain-Fits c status_invalid_device_request)
route-Fits pools c d (some cmd) r few h = run_command-Fits pools c d cmd r few h

carry_out-Fits :
    (pools : Pools) (o : Option NtStatus) (req : Request) (d : Driver) (r : Completion × Driver)
    → Few d.store
    → carry_out pools o req d ≡ some r
    → Fits (call_of req) r.0
unfolding carry_out complete
carry_out-Fits pools (some st) req d r few h =
    subst (λ y. Fits (call_of req) y.0) (some_inj _ r h) (plain-Fits (call_of req) st)
carry_out-Fits pools none req d r few h =
    let c = call_of req in
    let (x, routed, e) =
      >>=-eq-some (route pools c d (command_of (header_of req.m).command)) (complete c) h in
    subst (λ y. Fits c y.0) (some_inj (echo_if_room c x.0, x.1) r e)
      (echo-Fits c x.0 (route-Fits pools c d (command_of (header_of req.m).command) x few routed))

out_bound : (r : Request) → (call_of r).out_len ≤ r.out_len
unfolding call_of
out_bound r = ground arith

-- A request on a store of at most 4096 rules that is completed with success reports no more bytes than
-- its output buffer has. Where it reports none there is no header; else the output starts with a
-- header of that size, of the protocol's version, with the request's command and identifier.
pub device_control_output :
    (pools : Pools) (d d' : Driver) (r : Request) (done : Completion)
    → Few d.store
    → device_control pools r d ≡ some (done, d')
    → nt_success done.status ≡ true
    → (done.information ≤ r.out_len)
      × (((done.header ≡ none) × (done.information ≡ 0))
          ⊎ (done.header
              ≡ some (record {
                size = done.information;
                version = 1;
                command = (header_of r.m).command;
                flags = 0;
                request_id = (header_of r.m).request_id;
              })))
unfolding device_control Fits echo_header call_of
device_control_output pools d d' r done few h ok =
    let (le, echoed) = carry_out-Fits pools (refusal d r) r d (done, d') few h ok in
    (omega (arith, out_bound r), echoed)

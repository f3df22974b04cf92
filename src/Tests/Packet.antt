-- ===== src/Tests/Packet.antt =====
-- packet/: an outgoing connection under one rule, and the flow table.
use shinken_sentinel.Prelude.{
  ℕ, ◌+◌, ◌^◌, ◌<◌, ◌≡◌, ◌≢◌, ◌-◌, ◌%◌, length, refl, [], ◌∷◌, Option, none, some, true, false,
  arith,
}
use shinken_sentinel.Rules.Types.{has}
use shinken_sentinel.Rules.Types.{Verdict}
use shinken_sentinel.Rules.Rate.{empty_table}
use shinken_sentinel.Rules.Engine.{Engine, Clock, evaluate}
use shinken_sentinel.Rules.Store.{store_acquire, acquire_at, store_release}
use shinken_sentinel.Rules.Store.Steps.{blank, Reach-Safe}
use shinken_sentinel.Packet.Classify.Tuple.{Value, Incoming, Meta, build_tuple}
use shinken_sentinel.Packet.Classify.{
  ActionType, ClassifyOut, right_action_write, Sensor, inject_is_self, ale_common, apply_verdict,
  verdict_on, judge, snapshot_at, engine_of, write_verdict, events_of,
}
use shinken_sentinel.Packet.Classify.Laws.Filtering.{Callback, ale_common_lem, Written, rights_gate}
use shinken_sentinel.Rules.Store.Safe.{occ}
use shinken_sentinel.Rules.Store.Sections.Readers.{drop_one}
use shinken_sentinel.Telemetry.Ring.{set_at}
use shinken_sentinel.Packet.Flow.{
  FlowCtx, Flows, no_flows, flow_attach, flow_find, link_or_reuse, remove_begin, split_callout,
  remove_pop, remove_clear, attach_failed, attach_unlink, flow_release, refs, linked, FlowStep,
  FlowSteps,
}
use shinken_sentinel.Packet.Flow.Laws.Safety.{entries_short}
use shinken_sentinel.Packet.Flow.Laws.Race.{popped_failure_frees}
use shinken_sentinel.Status.{status_success, status_device_busy}
use shinken_sentinel.Packet.Injection.{
  Handle, Injector, tracked, Answers, nothing_held, inject_init,
}
use shinken_sentinel.Packet.Injection.Laws.{
  Bare, Ready, Returned, all_had, refusal, inject_init_lem,
}
use shinken_sentinel.Tests.Data.{one_rule_store, web_tuple, running}
use shinken_sentinel.Tests.Control.{no_stats}
use shinken_sentinel.Tests.Store.{one_rule-Reach}

abbrev sensor : Sensor
sensor = record { store = one_rule_store; stats = no_stats; qpc_freq = 0; posted = [] }

abbrev short_clock : Clock
short_clock = record { start = 5; in_rate = 6; finish = 7; freq = 10000000 }

abbrev plain_value : ℕ → Value
plain_value n = record { uint8 = n; uint16 = n; uint32 = n; byte_array16 = none }

-- To 10.1.2.3:443 over TCP.
abbrev values : Incoming
values =
    plain_value 0
    ∷ plain_value 0
    ∷ plain_value 3232235522
    ∷ plain_value 0
    ∷ plain_value 50000
    ∷ plain_value 6
    ∷ plain_value 167838211
    ∷ plain_value 443
    ∷ []

abbrev asked : ClassifyOut
asked = record { action_type = ActionType.unset; rights = 1 }

not_own : inject_is_self 0 ≡ false
unfolding inject_is_self
not_own = refl

asked_right : has 1 right_action_write ≡ true
unfolding has
asked_right = refl

ale_common_lem_example :
    Callback [] short_clock
      (build_tuple 77 0 (some values) none)
      asked
      sensor
      (ale_common short_clock 77 0 (some values) none 0 (some asked) sensor)
ale_common_lem_example =
    ale_common_lem [] short_clock 77 0 (some values) none 0 asked sensor (Reach-Safe one_rule-Reach)
      not_own asked_right (omega arith)

-- Before the rule store is initialized.
abbrev early : Sensor
early = record sensor { store = blank empty_table running }

abbrev early_run : Verdict × Engine
early_run = evaluate short_clock none web_tuple (engine_of early early.store)

abbrev early_after : Sensor
early_after = record {
  store = record (early.store) { table = early_run.1.table };
  stats = early_run.1.stats;
  qpc_freq = early_run.1.qpc_freq;
  posted = events_of early_run.0 web_tuple;
}

early_applied :
    apply_verdict short_clock 4 (some web_tuple) (some asked) early
    ≡ some (write_verdict 4 early_run.0 (some asked), early_after)
unfolding apply_verdict verdict_on judge snapshot_at store_acquire acquire_at store_release blank
early_applied = refl

rights_gate_example :
    (v : Verdict) × (verdict_on short_clock web_tuple early ≡ some (v, early_after))
    × (has asked.rights right_action_write ≡ false
        → write_verdict 4 early_run.0 (some asked) ≡ some asked)
    × (has asked.rights right_action_write ≡ true
        → (out' : ClassifyOut) × (write_verdict 4 early_run.0 (some asked) ≡ some out')
          × (has out'.rights right_action_write ≡ false)
          × Written 4 v.action out'.action_type)
    × ((other : Option ClassifyOut)
        → (o' : Option ClassifyOut) × (apply_verdict short_clock 4 (some web_tuple) other early
            ≡ some (o', early_after)))
rights_gate_example =
    rights_gate short_clock 4 web_tuple asked (write_verdict 4 early_run.0 (some asked)) early
      early_after early_applied

abbrev flow_ctx : FlowCtx
flow_ctx = record { ref = 2; flow_id = 40; layer_id = 4; callout_id = 3 }

abbrev one_flow : Flows
one_flow = record no_flows {
  cells = set_at 7 (some flow_ctx) no_flows.cells;
  table = 7 ∷ [];
  entries = 1;
  attaching = 7 ∷ [];
}

-- A removal takes the flow off the table, and then its association fails.
abbrev slipped_flow : Flows
slipped_flow = record no_flows {
  cells = set_at 7 none (set_at 7 (some (record flow_ctx { ref = 1 })) one_flow.cells);
  entries = 2 ^ 32 - 1;
  slipped = 1;
}

slipped-FlowSteps : FlowSteps no_flows (some slipped_flow)
unfolding flow_attach flow_find link_or_reuse remove_begin split_callout attach_failed attach_unlink
    flow_release occ drop_one set_at refs linked
slipped-FlowSteps =
    FlowSteps.then_
      (FlowSteps.then_
        (FlowSteps.then_ FlowSteps.start (FlowStep.attach 7 40 4 3 refl (λ q. omega arith)))
        (FlowStep.begin_removal 3))
      (FlowStep.not_associated 7 (omega arith) refl)

entries_short_example :
    ((slipped_flow.entries + slipped_flow.slipped) % 2 ^ 32 ≡ length slipped_flow.table % 2 ^ 32)
    × (0 < slipped_flow.slipped
        → slipped_flow.slipped < 2 ^ 32
        → slipped_flow.entries % 2 ^ 32 ≢ length slipped_flow.table % 2 ^ 32)
entries_short_example = entries_short slipped-FlowSteps

-- A removal has popped the flow.
abbrev popped_flow : Flows
popped_flow = record one_flow { table = []; entries = 0; popped = 7 ∷ [] }

popped-FlowSteps : FlowSteps no_flows (some popped_flow)
unfolding flow_attach flow_find link_or_reuse remove_begin split_callout remove_pop occ drop_one
    set_at refs linked
popped-FlowSteps =
    FlowSteps.then_
      (FlowSteps.then_
        (FlowSteps.then_ FlowSteps.start (FlowStep.attach 7 40 4 3 refl (λ q. omega arith)))
        (FlowStep.begin_removal 3))
      (FlowStep.take 7 (omega arith))

popped_failure_frees_example :
    (s' : Flows) × (attach_failed 7 popped_flow ≡ some s')
    × (s'.cells 7 ≡ none)
    × (0 < occ 7 s'.popped)
    × (remove_clear 7 s' ≡ none)
unfolding occ
popped_failure_frees_example =
    popped_failure_frees 7 popped_flow popped-FlowSteps (omega arith) refl refl

abbrev flow_meta : Meta
flow_meta = record {
  has_process_id = false;
  process_id = 0;
  has_path = false;
  path = none;
  has_flow_handle = true;
  flow_handle = 40;
}

abbrev absent : Handle
absent = tracked false

abbrev bare : Injector
bare = record {
  v4 = absent;
  v6 = absent;
  nbl_pool = false;
  nb_pool = false;
  inited = false;
  gate = record { count = 0; underflows = 0 };
}

bare-Bare : Bare bare
bare-Bare = record { v4 = refl; v6 = refl; nbl = refl; nb = refl; inited = refl }

-- The second pool is refused, and the handle for IPv4 cannot be destroyed.
abbrev no_second_pool : Answers
no_second_pool = record {
  v4 = 0;
  v6 = 0;
  nbl = true;
  nb = false;
  destroy_v4 = status_device_busy;
  destroy_v6 = 0;
}

inject_init_lem_example :
    (all_had no_second_pool ≡ true
      → ((inject_init no_second_pool bare nothing_held).0 ≡ status_success)
        × Ready
            (inject_init no_second_pool bare nothing_held).1
            (inject_init no_second_pool bare nothing_held).2)
    × (all_had no_second_pool ≡ false
        → ((inject_init no_second_pool bare nothing_held).0 ≡ refusal no_second_pool)
          × Bare (inject_init no_second_pool bare nothing_held).1
          × Returned no_second_pool (inject_init no_second_pool bare nothing_held).2)
inject_init_lem_example = inject_init_lem no_second_pool bare bare-Bare

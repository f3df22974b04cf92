-- ===== src/Packet/Classify.antt =====
-- packet/classify.c: the callbacks of the ALE layers, from the packet's values to what is written for the
-- filter engine. The build is the driver's, which has no field for the direction. The record posts of
-- telemetry are a log, since their answer is ignored. One callback runs as one step; Rules.Store.Steps
-- has the sections that interleave with it.
pub mod Tuple
pub mod Laws
use shinken_sentinel.Prelude.{
  ℕ, ◌-◌, ◌^◌, ◌%◌, List, [], ◌∷◌, ◌++◌, Option, none, some, Bool, true, false, not, ◌&&◌, ◌||◌,
  if◌then◌else◌, ltb, leb, ◌==◌, bit_and,
}
use shinken_sentinel.Rules.Types.{Verdict, VerdictAction, permit, block, audit, RuleStats, has}
use shinken_sentinel.Rules.Types
use shinken_sentinel.Rules.Snapshot.{Snapshot}
use shinken_sentinel.Rules.Engine.{Engine, Clock, evaluate}
use shinken_sentinel.Rules.Store.{Store, store_acquire, store_release, ◌>>=◌}
use shinken_sentinel.Packet.Flow.{
  Flows, flow_find, flow_attach, attach_done, attach_failed, caller_release,
}
use shinken_sentinel.Packet.Classify.Tuple.{Incoming, Meta, build_tuple}

-- `SK_EVENT_RECORD`, without its padding.
pub record EventRecord : Type 0 where
  pub kind : ℕ
  pub rule_id : ℕ
  pub timestamp : ℕ
  pub family : ℕ
  pub protocol : ℕ
  pub direction : ℕ
  pub process_id : ℕ
  pub local_port : ℕ
  pub remote_port : ℕ
  pub local_addr : List ℕ
  pub remote_addr : List ℕ

abbrev pub evt_verdict_audit : ℕ
evt_verdict_audit = 1

abbrev pub evt_rate_limited : ℕ
evt_rate_limited = 3

pub data ActionType : Type 0 where
  unset action_permit action_block : ActionType

-- `FWPS_CLASSIFY_OUT0`
pub record ClassifyOut : Type 0 where
  pub action_type : ActionType
  pub rights : ℕ

abbrev pub right_action_write : ℕ
right_action_write = 1

-- The rule store, with the bucket table that the engine shares with it, the engine's statistics and
-- frequency, and the records that were posted.
pub record Sensor : Type 0 where
  pub store : Store
  pub stats : RuleStats
  pub qpc_freq : ℕ
  pub posted : List EventRecord

-- `classifyOut->actionType = action; classifyOut->rights &= ~FWPS_RIGHT_ACTION_WRITE`
unfoldable pub write_action : ActionType → ClassifyOut → ClassifyOut
write_action action out = record {
  action_type = action;
  rights = bit_and out.rights (2 ^ 32 - 1 - right_action_write);
}

-- `skClassifyPostEvent`
unfoldable pub event_record : ℕ → ℕ → Types.Tuple → EventRecord
event_record kind rule_id tuple = record {
  kind = kind;
  rule_id = rule_id;
  timestamp = tuple.now_utc_100ns;
  family = tuple.family;
  protocol = tuple.protocol;
  direction = tuple.direction;
  process_id = tuple.process_id;
  local_port = tuple.local_port;
  remote_port = tuple.remote_port;
  local_addr = tuple.local_addr;
  remote_addr = tuple.remote_addr;
}

abbrev pub is_audit : VerdictAction → Bool
is_audit audit = true
is_audit _ = false

abbrev pub is_block : VerdictAction → Bool
is_block block = true
is_block _ = false

-- What `SkClassifyApplyVerdict` posts for a verdict.
unfoldable pub events_of : Verdict → Types.Tuple → List EventRecord
events_of v tuple =
    if v.rate_limited
    then event_record evt_rate_limited v.rule_id tuple ∷ []
    else if is_audit v.action
    then event_record evt_verdict_audit v.rule_id tuple ∷ []
    else []

-- `SkCalloutDefById(layerId)` with its `hardBlockAllowed`, from the table of wfp/wfp_callouts.c.
unfoldable pub hard_block_allowed : ℕ → Bool
hard_block_allowed layer = ltb layer 4

-- The end of `SkClassifyApplyVerdict`, behind the gate on the write right.
unfoldable pub write_verdict : ℕ → Verdict → Option ClassifyOut → Option ClassifyOut
write_verdict layer v none = none
write_verdict layer v (some out) =
    if not (has out.rights right_action_write)
    then some out
    else if is_block v.action && hard_block_allowed layer
    then some (write_action ActionType.action_block out)
    else some (write_action ActionType.action_permit out)

-- The snapshot that a reader got; none where it was freed.
abbrev pub present : Option Snapshot → Option (Option Snapshot)
present none = none
present (some snap) = some (some snap)

unfoldable pub snapshot_at : Option ℕ → Store → Option (Option Snapshot)
snapshot_at none store = some none
snapshot_at (some p) store = present (store.cells p)

-- The engine's part of the sensor.
unfoldable pub engine_of : Sensor → Store → Engine
engine_of s store = record { stats = s.stats; table = store.table; qpc_freq = s.qpc_freq }

-- The evaluation and the release, of the snapshot that was acquired.
unfoldable pub judge :
    Clock → Types.Tuple → Option ℕ → Store → Option Snapshot → Sensor → Option (Verdict × Sensor)
judge clock tuple held store snap s =
    let r = evaluate clock snap tuple (engine_of s store) in
    store_release held (record store { table = r.1.table }) >>= λ store'. some (
      r.0,
      record {
        store = store';
        stats = r.1.stats;
        qpc_freq = r.1.qpc_freq;
        posted = s.posted ++ events_of r.0 tuple;
      },
    )

unfoldable pub verdict_on : Clock → Types.Tuple → Sensor → Option (Verdict × Sensor)
verdict_on clock tuple s =
    store_acquire s.store >>= λ a. snapshot_at a.0 a.1 >>= λ snap. judge clock tuple a.0 a.1 snap s

-- `SkClassifyApplyVerdict`; nothing is done without a tuple.
unfoldable pub apply_verdict :
    Clock
    → ℕ
    → Option Types.Tuple
    → Option ClassifyOut
    → Sensor
    → Option (Option ClassifyOut × Sensor)
apply_verdict clock layer none out s = some (out, s)
apply_verdict clock layer (some tuple) out s =
    verdict_on clock tuple s >>= λ r. some (write_verdict layer r.0 out, r.1)

abbrev pub inject_tag : ℕ
inject_tag = 0x534B4A54

-- `SkInjectIsSelf`
unfoldable pub inject_is_self : ℕ → Bool
inject_is_self context = context % 2 ^ 32 == inject_tag

-- The permit that is written where the write right is held.
unfoldable pub permit_if_held : ClassifyOut → ClassifyOut
permit_if_held out =
    if has out.rights right_action_write then write_action ActionType.action_permit out else out

-- `skClassifyAleCommon`, which the four ALE callbacks call with their layer.
unfoldable pub ale_common :
    Clock
    → ℕ
    → ℕ
    → Option Incoming
    → Option Meta
    → ℕ
    → Option ClassifyOut
    → Sensor
    → Option (Option ClassifyOut × Sensor)
ale_common clock now layer values meta context none s = some (none, s)
ale_common clock now layer values meta context (some out) s =
    if inject_is_self context
    then some (some (permit_if_held out), s)
    else apply_verdict clock layer (some (build_tuple now layer values meta)) (some out) s

-- The flow of the metadata, where there is one.
unfoldable pub flow_of : Option Meta → ℕ
flow_of none = 0
flow_of (some meta) = if meta.has_flow_handle then meta.flow_handle else 0

-- Behind the attach, the callback keeps no reference; `ok` is the answer of FwpsFlowAssociateContext0,
-- which is asked for a new context only.
unfoldable pub keep_none : Option ℕ → Bool → ℕ → Flows → Option Flows
keep_none (some old) ok p s = caller_release old s
keep_none none true p s = caller_release p (attach_done p s)
keep_none none false p s = attach_failed p s

-- The attach of the flow and its release, with memory at `p` if there is any.
unfoldable pub track_flow : Option ℕ → Bool → ℕ → ℕ → ℕ → Flows → Option Flows
track_flow none ok id layer runtime_id s = some s
track_flow (some p) ok id layer runtime_id s = flow_find s.cells id s.table >>= λ old.
    flow_attach p id layer runtime_id s >>= λ s1. keep_none old ok p s1

-- `skClassifyFlowCommon`, of the two flow layers; the statistics of the context are left out.
unfoldable pub flow_common :
    Option ℕ
    → Bool
    → ℕ
    → ℕ
    → Option Meta
    → ℕ
    → Option ClassifyOut
    → Flows
    → Option (Option ClassifyOut × Flows)
flow_common p ok runtime_id layer meta context none s = some (none, s)
flow_common p ok runtime_id layer meta context (some out) s =
    let tracked = track_flow p ok (flow_of meta) layer runtime_id s in
    if inject_is_self context || (flow_of meta == 0 || runtime_id == 0)
    then some (some (permit_if_held out), s)
    else tracked >>= λ s'. some (some (permit_if_held out), s')

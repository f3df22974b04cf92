-- ===== src/Rules/Types.antt =====
-- rules/rule_types.h: the rule, the classify tuple, the verdict and the statistics.
-- Unsigned fields are numbers; their widths are stated where a result depends on them.
use Prim.Native.Nat.{ℕ}
use mathlib.Core.Bool.{Bool, not}
use mathlib.Core.List.{List}
use mathlib.Core.Option.{Option}
use shinken_sentinel.Prelude.{bit_and, ◌==◌}

-- `SK_RULE_ACTION`. The field `action` of a rule is a UINT32, which validation bounds.
abbrev pub action_allow : ℕ
action_allow = 0

abbrev pub action_block : ℕ
action_block = 1

abbrev pub action_audit : ℕ
action_audit = 2

abbrev pub action_rate_limit : ℕ
action_rate_limit = 3

-- `SK_RULE_M_*`
abbrev pub m_family : ℕ
m_family = 0x0001

abbrev pub m_direction : ℕ
m_direction = 0x0002

abbrev pub m_protocol : ℕ
m_protocol = 0x0004

abbrev pub m_local_addr : ℕ
m_local_addr = 0x0008

abbrev pub m_remote_addr : ℕ
m_remote_addr = 0x0010

abbrev pub m_local_port : ℕ
m_local_port = 0x0020

abbrev pub m_remote_port : ℕ
m_remote_port = 0x0040

abbrev pub m_pid : ℕ
m_pid = 0x0080

abbrev pub m_app_id : ℕ
m_app_id = 0x0100

abbrev pub m_layer : ℕ
m_layer = 0x0200

abbrev pub m_if_index : ℕ
m_if_index = 0x0400

abbrev pub m_sid : ℕ
m_sid = 0x0800

abbrev pub m_time : ℕ
m_time = 0x1000

abbrev pub dir_any : ℕ
dir_any = 0

abbrev pub dir_in : ℕ
dir_in = 2

abbrev pub proto_any : ℕ
proto_any = 0

-- `SK_RULE`
pub record Rule : Type 0 where
  pub rule_id : ℕ
  pub priority : ℕ
  pub mask : ℕ
  pub action : ℕ
  pub enabled : ℕ
  pub family : ℕ
  pub direction : ℕ
  pub protocol : ℕ
  pub layer_id : ℕ
  pub if_index : ℕ
  pub process_id : ℕ
  pub app_id : ℕ
  pub not_before : ℕ
  pub not_after : ℕ
  pub local_port_min : ℕ
  pub local_port_max : ℕ
  pub remote_port_min : ℕ
  pub remote_port_max : ℕ
  pub local_addr : List ℕ
  pub remote_addr : List ℕ
  pub local_prefix : ℕ
  pub remote_prefix : ℕ
  pub sid : List ℕ
  pub sid_length : ℕ
  pub rate_tokens : ℕ
  pub rate_interval_ms : ℕ
  pub burst : ℕ

-- `rule->mask & bit`, as a condition.
unfoldable pub has : ℕ → ℕ → Bool
has mask bit = not (bit_and mask bit == 0)

-- `SK_CLASSIFY_TUPLE`; `user_id` is `none` for the NULL pointer.
pub record Tuple : Type 0 where
  pub family : ℕ
  pub direction : ℕ
  pub protocol : ℕ
  pub layer_id : ℕ
  pub if_index : ℕ
  pub process_id : ℕ
  pub app_id : ℕ
  pub local_port : ℕ
  pub remote_port : ℕ
  pub local_addr : List ℕ
  pub remote_addr : List ℕ
  pub user_id : Option (List ℕ)
  pub user_id_length : ℕ
  pub now_utc_100ns : ℕ

-- `SK_VERDICT_ACTION`
pub data VerdictAction : Type 0 where
  permit block audit : VerdictAction

-- `SK_VERDICT_REASON`
pub data VerdictReason : Type 0 where
  rule_match no_match snapshot_unavailable : VerdictReason

-- `SK_VERDICT`
pub record Verdict : Type 0 where
  pub action : VerdictAction
  pub rule_id : ℕ
  pub rate_limited : Bool
  pub hard_block : Bool
  pub reason : VerdictReason

-- `SK_RULE_STATS`
pub record RuleStats : Type 0 where
  pub classify_calls : ℕ
  pub verdict_permit : ℕ
  pub verdict_block : ℕ
  pub verdict_audit : ℕ
  pub rate_limited : ℕ
  pub rule_hits : ℕ
  pub default_hits : ℕ
  pub match_ns_total : ℕ
  pub match_ns_max : ℕ
  pub match_ns_samples : ℕ

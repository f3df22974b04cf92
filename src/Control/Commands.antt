-- ===== src/Control/Commands.antt =====
-- control/ioctl.c: the handlers of the commands. A handler that changes the rules gives a status and
-- the store, `none` for an access to freed memory; a query gives the completion. The output buffer is what
-- the handler writes into it: the echoed header and the answer behind it.
pub mod Laws
pub mod Listing
pub mod Replacing
pub mod Settled
use shinken_sentinel.Prelude.{
  ℕ, ◌+◌, ◌-◌, ◌*◌, ◌/◌, ◌%◌, ◌^◌, List, [], ◌∷◌, ◌++◌, Option, none, some, Bool, true, false, not,
  ◌&&◌, ◌||◌, if◌then◌else◌, ltb, leb, ◌==◌,
}
use shinken_sentinel.Status.{
  NtStatus, nt_success, status_success, status_invalid_parameter, status_buffer_too_small,
  status_insufficient_resources,
}
use shinken_sentinel.Rules.Types.{Rule, RuleStats}
use shinken_sentinel.Rules.Snapshot.{policy_permit, policy_block}
use shinken_sentinel.Rules.Store.{Store, ◌>>=◌}
use shinken_sentinel.Rules.Store.Safe.{rule_max}
use shinken_sentinel.Rules.Store.Api.{
  add, update, delete, replace, clear, set_default_policy, store_version, store_policy, store_enum,
  replace_max_bytes,
}
use shinken_sentinel.Telemetry.Queue.{Queue}
use shinken_sentinel.Telemetry.Ring.{Ring, flush}
use shinken_sentinel.Control.Wire.{
  Bytes, u16_at, u32_at, u64_at, wire_bytes, validate_wire, convert_wire, walk_wires,
}

-- `SHINKEN_IOCTL_HEADER`, 24 bytes
pub record Header : Type 0 where
  pub size : ℕ
  pub version : ℕ
  pub command : ℕ
  pub flags : ℕ
  pub request_id : ℕ

abbrev pub header_bytes : ℕ
header_bytes = 24

abbrev pub ioctl_version : ℕ
ioctl_version = 1

unfoldable pub header_of : Bytes → Header
header_of m = record {
  size = u32_at m 0;
  version = u16_at m 4;
  command = u16_at m 6;
  flags = u32_at m 8;
  request_id = u64_at m 16;
}

-- What stands behind the header of the output.
pub data Answer : Type 0 where
  no_answer : Answer
  capabilities : ℕ → ℕ → ℕ → ℕ → Answer
  rule_version : ℕ → ℕ → ℕ → Answer
  rule_list : ℕ → ℕ → List Rule → Answer
  statistics : RuleStats → ℕ → ℕ → ℕ → ℕ → Answer
  event_list : ℕ → ℕ → (ℕ → ℕ → ℕ) → Answer

-- How a request is completed: the status, the byte count and the output.
pub record Completion : Type 0 where
  pub status : NtStatus
  pub information : ℕ
  pub header : Option Header
  pub answer : Answer

unfoldable pub plain : NtStatus → ℕ → Completion
plain st information = record {
  status = st;
  information = information;
  header = none;
  answer = no_answer;
}

-- `SK_IOCTL_CALL`; `out` is whether there is an output buffer.
pub record Call : Type 0 where
  pub m : Bytes
  pub payload_len : ℕ
  pub out : Bool
  pub out_len : ℕ

-- Whether the pool has memory for the parsed rules, the store's array and the snapshot.
pub record Pools : Type 0 where
  pub parsed : Bool
  pub array : Bool
  pub snap : Bool

-- `skEchoHeader`
unfoldable pub echo_header : Call → ℕ → Header
unfolding header_of
echo_header c total = record (header_of c.m) { size = total; version = ioctl_version; flags = 0 }

-- `skEchoIfRoom`, where `SkIoctlEvtDeviceControl` calls it.
unfoldable pub echo_if_room : Call → Completion → Completion
echo_if_room c r =
    if nt_success r.status && r.information == 0
    then (if c.out && leb header_bytes c.out_len
        then record r { information = header_bytes; header = some (echo_header c header_bytes) }
        else r)
    else r

unfoldable pub lacks_room : Call → ℕ → Bool
lacks_room c total = not c.out || ltb c.out_len total

unfoldable pub answered : Call → ℕ → Answer → Completion
answered c total a = record {
  status = status_success;
  information = total;
  header = some (echo_header c total);
  answer = a;
}

-- `skCmdQueryCapabilities`
unfoldable pub cmd_query_capabilities : Call → Completion
cmd_query_capabilities c =
    let total = header_bytes + 16 in
    if lacks_room c total
    then plain status_buffer_too_small total
    else answered c total (capabilities rule_max replace_max_bytes 0xF ioctl_version)

-- `skEnumCountCb`
unfoldable pub count_rule : Rule → ℕ → Bool × ℕ
count_rule rule n = (true, (n + 1) % 2 ^ 32)

unfoldable pub version_answer : Call → ℕ → ℕ → ℕ → Completion
version_answer c count version policy =
    answered c (header_bytes + 16) (rule_version version count policy)

-- `skCmdGetRuleVersion`
unfoldable pub cmd_get_rule_version : Call → Store → Option Completion
cmd_get_rule_version c s =
    let total = header_bytes + 16 in
    if lacks_room c total
    then some (plain status_buffer_too_small total)
    else store_enum count_rule 0 s >>= λ r.
        if nt_success r.0
        then (store_version s >>= λ version.
            store_policy s >>= λ policy. some (version_answer c r.1 version policy))
        else some (plain r.0 0)

-- `skCmdAddOrUpdateRule`
unfoldable pub cmd_add_or_update : Pools → Call → Bool → Store → Option (NtStatus × Store)
cmd_add_or_update pools c is_update s = elim (validate_wire c.m header_bytes c.payload_len) [
  | none ↦ some (status_invalid_parameter, s)
  | some n ↦
      if not (n == c.payload_len)
      then some (status_invalid_parameter, s)
      else if is_update
      then update pools.array pools.snap (convert_wire c.m header_bytes) s
      else add pools.array pools.snap (convert_wire c.m header_bytes) s
]

-- `skCmdDeleteRule`
unfoldable pub cmd_delete_rule : Pools → Call → Store → Option (NtStatus × Store)
cmd_delete_rule pools c s =
    if not (c.payload_len == 8)
    then some (status_invalid_parameter, s)
    else delete pools.array pools.snap (u64_at c.m header_bytes) s

-- `SK_ENUM_FILL`
pub record Fill : Type 0 where
  pub wires : List Rule
  pub remaining : ℕ
  pub count : ℕ
  pub overflow : Bool

-- `skEnumFillCb`
unfoldable pub fill_rule : Rule → Fill → Bool × Fill
fill_rule rule f = if ltb f.remaining wire_bytes then (false, record f { overflow = true }) else (
  true,
  record f {
    wires = f.wires ++ rule ∷ [];
    remaining = f.remaining - wire_bytes;
    count = f.count + 1;
  },
)

-- The header, `SK_ENUM_HEADER` and the wires, as a UINT32.
unfoldable pub list_bytes : ℕ → ℕ
list_bytes count = (header_bytes + 16 + count * wire_bytes) % 2 ^ 32

unfoldable pub fill_answer : Call → Fill → ℕ → Completion
fill_answer c f version =
    if f.overflow
    then plain status_buffer_too_small 0
    else answered c (list_bytes f.count) (rule_list f.count version f.wires)

-- `skCmdEnumRules`: the store in the first pass, in the second, and where the version is read, each under
-- its own hold of the lock.
unfoldable pub cmd_enum_rules : Call → Store → Store → Store → Option Completion
cmd_enum_rules c s1 s2 s3 =
    let empty : Fill = record {
      wires = [];
      remaining = c.out_len - header_bytes - 16;
      count = 0;
      overflow = false;
    } in
    store_enum count_rule 0 s1 >>= λ r.
    if nt_success r.0
    then (if lacks_room c (list_bytes r.1)
        then some (plain status_buffer_too_small (list_bytes r.1))
        else store_enum fill_rule empty s2 >>= λ f.
            if nt_success f.0
            then (store_version s3 >>= λ version. some (fill_answer c f.1 version))
            else some (plain f.0 0))
    else some (plain r.0 0)

-- `skCmdReplaceRuleset`, behind the walk: what it left must be nothing.
unfoldable pub replace_parsed :
    Pools → ℕ → Option (List Rule × ℕ) → Store → Option (NtStatus × Store)
replace_parsed pools expected none s = some (status_invalid_parameter, s)
replace_parsed pools expected (some (rules, left)) s =
    if left == 0
    then replace pools.array pools.snap rules expected s
    else some (status_invalid_parameter, s)

-- `SK_REPLACE_HEADER`: `count`, `rulesBytes` and `expectedVersion`.
unfoldable pub replace_count : Bytes → ℕ
replace_count m = u32_at m header_bytes

unfoldable pub replace_bytes : Bytes → ℕ
replace_bytes m = u32_at m (header_bytes + 4)

unfoldable pub replace_expected : Bytes → ℕ
replace_expected m = u64_at m (header_bytes + 8)

-- The tests before the walk: `none` goes on.
unfoldable pub replace_check : Pools → Call → Option NtStatus
replace_check pools c =
    let count = replace_count c.m in
    let area = replace_bytes c.m in
    if ltb c.payload_len 16
    then some status_invalid_parameter
    else if ltb rule_max count
    then some status_invalid_parameter
    else if ltb replace_max_bytes area
    then some status_invalid_parameter
    else if not (16 + area == c.payload_len)
    then some status_invalid_parameter
    else if not (count == 0) && ltb area (count * wire_bytes)
    then some status_invalid_parameter
    else if not (count == 0) && not pools.parsed
    then some status_insufficient_resources
    else none

unfoldable pub replace_checked : Pools → Call → Option NtStatus → Store → Option (NtStatus × Store)
replace_checked pools c (some st) s = some (st, s)
replace_checked pools c none s =
    replace_parsed pools (replace_expected c.m)
      (walk_wires (replace_count c.m) c.m (header_bytes + 16) (replace_bytes c.m)) s

unfoldable pub cmd_replace_ruleset : Pools → Call → Store → Option (NtStatus × Store)
cmd_replace_ruleset pools c s = replace_checked pools c (replace_check pools c) s

-- `skCmdSetDefaultPolicy`
unfoldable pub cmd_set_default_policy : Pools → Call → Store → Option (NtStatus × Store)
cmd_set_default_policy pools c s =
    let policy = u32_at c.m header_bytes in
    if not (c.payload_len == 4)
    then some (status_invalid_parameter, s)
    else if not (policy == policy_permit) && not (policy == policy_block)
    then some (status_invalid_parameter, s)
    else set_default_policy pools.array pools.snap policy s

-- `skCmdGetStats`
unfoldable pub cmd_get_stats : Call → RuleStats → Queue → Completion
cmd_get_stats c stats q =
    let total = header_bytes + 112 in
    if lacks_room c total
    then plain status_buffer_too_small total
    else answered c total (statistics stats q.posted q.consumed q.dropped q.overflow_dropped)

-- `skCmdFlushEvents`; the output buffer is the request's buffer.
unfoldable pub flush_rows : Call → ℕ → ℕ → ℕ
flush_rows c i j = c.m (header_bytes + 8 + i * 80 + j)

unfoldable pub cmd_flush_events : Call → Ring → Completion
cmd_flush_events c ring =
    let fixed = header_bytes + 8 in
    let cap = (c.out_len - fixed) / 80 in
    let r = flush (if ltb 1024 cap then 1024 else cap) 80 ring (flush_rows c) in
    if lacks_room c fixed
    then plain status_buffer_too_small fixed
    else answered c (fixed + r.0 * 80) (event_list r.0 80 r.1)

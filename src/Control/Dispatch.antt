-- ===== src/Control/Dispatch.antt =====
-- control/ioctl.c: `SkIoctlEvtDeviceControl`, from the checks of a request to its completion.
pub mod Checks
pub mod Routes
pub mod Changes
use shinken_sentinel.Prelude.{
  ℕ, ◌+◌, ◌-◌, ◌*◌, ◌/◌, ◌%◌, ◌^◌, Option, none, some, Bool, true, false, not, ◌&&◌, ◌||◌,
  if◌then◌else◌, ltb, leb, ◌==◌,
}
use shinken_sentinel.Status.{
  NtStatus, nt_success, status_invalid_parameter, status_buffer_too_small, status_device_not_ready,
  status_invalid_device_request, status_access_denied, status_revision_mismatch,
}
use shinken_sentinel.Runtime.State.{is_active}
use shinken_sentinel.Rules.Types.{RuleStats}
use shinken_sentinel.Rules.Store.{Store, ◌>>=◌}
use shinken_sentinel.Rules.Store.Api.{clear}
use shinken_sentinel.Telemetry.Queue.{Queue}
use shinken_sentinel.Telemetry.Ring.{Ring}
use shinken_sentinel.Control.Wire.{Bytes}
use shinken_sentinel.Control.Commands.{
  Header, header_of, header_bytes, ioctl_version, Completion, plain, Call, Pools, echo_if_room,
  cmd_query_capabilities, cmd_get_rule_version, cmd_add_or_update, cmd_delete_rule, cmd_enum_rules,
  cmd_replace_ruleset, cmd_set_default_policy, cmd_get_stats, cmd_flush_events,
}

-- What the handlers read and change: `g_ControlGateOpen`, the rule store with its runtime,
-- `g_SkRuleStats`, the telemetry queue and its ring.
pub record Driver : Type 0 where
  pub gate_open : Bool
  pub store : Store
  pub stats : RuleStats
  pub queue : Queue
  pub ring : Ring

-- A request as the framework hands it over: the code of the callback and that of the request packet, the
-- status, length and bytes of the input buffer, the `privileged` of the handle's context if there is
-- one, the length that the callback is told for the output, and the status, presence and length of the
-- output buffer.
pub record Request : Type 0 where
  pub code : ℕ
  pub packet_code : ℕ
  pub in_status : NtStatus
  pub in_len : ℕ
  pub m : Bytes
  pub privileged : Option Bool
  pub out_asked : ℕ
  pub out_status : NtStatus
  pub out : Bool
  pub out_len : ℕ

-- `SK_IOCTL_COMMAND`
pub data Command : Type 0 where
  query_capabilities get_rule_version add_rule update_rule delete_rule enum_rules replace_ruleset
        clear_rules set_policy get_stats flush_events :
      Command

abbrev pub cmd_max : ℕ
cmd_max = 11

unfoldable pub command_of : ℕ → Option Command
command_of n =
    if n == 0
    then some query_capabilities
    else if n == 1
    then some get_rule_version
    else if n == 2
    then some add_rule
    else if n == 3
    then some update_rule
    else if n == 4
    then some delete_rule
    else if n == 5
    then some enum_rules
    else if n == 6
    then some replace_ruleset
    else if n == 7
    then some clear_rules
    else if n == 8
    then some set_policy
    else if n == 9
    then some get_stats
    else if n == 10
    then some flush_events
    else none

-- `skIsModifyCommand`
unfoldable pub is_modify_command : ℕ → Bool
is_modify_command n = n == 2 || n == 3 || n == 4 || n == 6 || n == 7 || n == 8

abbrev pub is_privileged : Option Bool → Bool
is_privileged none = false
is_privileged (some p) = p

unfoldable pub may_run : Driver → Bool
may_run d = d.gate_open && is_active d.store.runtime.state

-- The early returns, in their order: `none` goes on to the command.
unfoldable pub refusal : Driver → Request → Option NtStatus
unfolding header_of
refusal d r =
    let hdr = header_of r.m in
    if not (may_run d)
    then some status_device_not_ready
    else if not (r.packet_code == r.code)
    then some status_invalid_device_request
    else if not (nt_success r.in_status)
    then some r.in_status
    else if ltb r.in_len header_bytes || ltb (2 ^ 32 - 1) r.in_len
    then some status_buffer_too_small
    else if not (hdr.size == r.in_len)
    then some status_invalid_parameter
    else if not (hdr.version == ioctl_version)
    then some status_revision_mismatch
    else if not (hdr.flags == 0)
    then some status_invalid_parameter
    else if leb cmd_max hdr.command
    then some status_invalid_device_request
    else if not (r.code / 4 % 4096 == 0x800 + hdr.command)
    then some status_invalid_device_request
    else if is_modify_command hdr.command && not (is_privileged r.privileged)
    then some status_access_denied
    else if ltb 0 r.out_asked && not (nt_success r.out_status)
    then some r.out_status
    else if ltb 0 r.out_asked && not r.out
    then some status_invalid_parameter
    else none

-- `SK_IOCTL_CALL` for a request that goes on.
unfoldable pub call_of : Request → Call
call_of r = record {
  m = r.m;
  payload_len = r.in_len - header_bytes;
  out = ltb 0 r.out_asked && r.out;
  out_len =
      if ltb 0 r.out_asked
      then (if ltb (2 ^ 32 - 1) r.out_len then 2 ^ 32 - 1 else r.out_len)
      else 0;
}

-- The two kinds of handler as one: the completion and the driver behind it.
unfoldable pub changed : Driver → NtStatus × Store → Completion × Driver
changed d r = (plain r.0 0, record d { store = r.1 })

unfoldable pub run_command : Pools → Call → Driver → Command → Option (Completion × Driver)
run_command pools c d query_capabilities = some (cmd_query_capabilities c, d)
run_command pools c d get_rule_version = cmd_get_rule_version c d.store >>= λ r. some (r, d)
run_command pools c d add_rule = cmd_add_or_update pools c false d.store >>= λ r. some (changed d r)
run_command pools c d update_rule =
    cmd_add_or_update pools c true d.store >>= λ r. some (changed d r)
run_command pools c d delete_rule = cmd_delete_rule pools c d.store >>= λ r. some (changed d r)
run_command pools c d enum_rules = cmd_enum_rules c d.store d.store d.store >>= λ r. some (r, d)
run_command pools c d replace_ruleset =
    cmd_replace_ruleset pools c d.store >>= λ r. some (changed d r)
run_command pools c d clear_rules = clear pools.snap d.store >>= λ r. some (changed d r)
run_command pools c d set_policy =
    cmd_set_default_policy pools c d.store >>= λ r. some (changed d r)
run_command pools c d get_stats = some (cmd_get_stats c d.stats d.queue, d)
run_command pools c d flush_events = some (cmd_flush_events c d.ring, d)

-- The switch: its default is STATUS_INVALID_DEVICE_REQUEST.
unfoldable pub route : Pools → Call → Driver → Option Command → Option (Completion × Driver)
route pools c d none = some (plain status_invalid_device_request 0, d)
route pools c d (some cmd) = run_command pools c d cmd

unfoldable pub complete : Call → Completion × Driver → Option (Completion × Driver)
complete c r = some (echo_if_room c r.0, r.1)

unfoldable pub carry_out : Pools → Option NtStatus → Request → Driver → Option (Completion × Driver)
unfolding header_of
carry_out pools (some st) r d = some (plain st 0, d)
carry_out pools none r d =
    route pools (call_of r) d (command_of (header_of r.m).command) >>= complete (call_of r)

-- `SkIoctlEvtDeviceControl`
unfoldable pub device_control : Pools → Request → Driver → Option (Completion × Driver)
device_control pools r d = carry_out pools (refusal d r) r d

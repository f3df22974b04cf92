-- ===== src/Rules/Validate.antt =====
-- rules/rule_store.c, `SkRuleValidate`: what a rule must satisfy before it can be published.
pub mod Spec
use shinken_sentinel.Prelude.{
  ℕ, Bool, true, false, not, ◌&&◌, ◌||◌, if◌then◌else◌, ltb, ◌==◌, bit_and,
}
use shinken_sentinel.Status.{NtStatus, status_success, status_invalid_parameter}
use shinken_sentinel.Packet.Addr.{af_inet, af_inet6}
use shinken_sentinel.Rules.Types.{
  Rule, has, action_rate_limit, m_family, m_direction, m_protocol, m_local_addr, m_remote_addr,
  m_local_port, m_remote_port, m_layer, m_time, dir_in,
}

-- `~((UINT32)SK_RULE_M_ALL)`: the bits outside 0x1fff.
abbrev pub m_unknown : ℕ
m_unknown = 0xffffe000

-- `SK_RULE_M_IFINDEX | SK_RULE_M_SID`
abbrev pub m_reserved : ℕ
m_reserved = 0x0c00

-- `SK_LAYER_COUNT` of wfp/wfp_callouts.h
abbrev pub layer_count : ℕ
layer_count = 6

-- `lim` of the two prefix checks
prefix_limit : Rule → ℕ
prefix_limit rule = if has rule.mask m_family && rule.family == af_inet then 32 else 128

-- Each group of tests is TRUE where the source returns STATUS_INVALID_PARAMETER.
bad_action : Rule → Bool
bad_action rule =
    rule.rule_id == 0
    || (has rule.mask m_unknown
        || (has rule.mask m_reserved
            || (ltb 1 rule.enabled
                || (ltb action_rate_limit rule.action
                    || (rule.action == action_rate_limit
                        && (rule.rate_tokens == 0
                            || (rule.rate_interval_ms == 0 || rule.burst == 0)))))))

bad_scalar : Rule → Bool
bad_scalar rule =
    (not (rule.sid_length == 0) && (ltb rule.sid_length 8 || ltb 32 rule.sid_length))
    || ((has rule.mask m_family && (not (rule.family == af_inet) && not (rule.family == af_inet6)))
        || ((has rule.mask m_direction && ltb dir_in rule.direction)
            || ((has rule.mask m_layer && not (ltb rule.layer_id layer_count))
                || (has rule.mask m_protocol && ltb 255 rule.protocol))))

bad_range : Rule → Bool
bad_range rule =
    (has rule.mask m_local_addr && ltb (prefix_limit rule) rule.local_prefix)
    || ((has rule.mask m_remote_addr && ltb (prefix_limit rule) rule.remote_prefix)
        || ((has rule.mask m_local_port
              && (ltb rule.local_port_max rule.local_port_min || ltb 65535 rule.local_port_max))
            || ((has rule.mask m_remote_port
                  && (ltb rule.remote_port_max rule.remote_port_min
                      || ltb 65535 rule.remote_port_max))
                || (has rule.mask m_time && ltb rule.not_after rule.not_before))))

-- `SkRuleValidate`, for a pointer that is not NULL.
unfoldable pub validate : Rule → NtStatus
unfolding prefix_limit bad_action bad_scalar bad_range
validate rule =
    if bad_action rule
    then status_invalid_parameter
    else if bad_scalar rule
    then status_invalid_parameter
    else if bad_range rule
    then status_invalid_parameter
    else status_success

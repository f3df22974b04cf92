-- ===== src/Rules/Validate/Spec.antt =====
-- What validation lets through.
use shinken_sentinel.Prelude.{ℕ, ◌+◌, ◌<◌, ◌≤◌, ◌≡◌, ◌≢◌, ◌↔◌, ◌⊎◌, true, false, bit_and, arith}
use shinken_sentinel.Prelude.Bits.{bit_and_pair}
use shinken_sentinel.Status.{status_success, status_invalid_parameter}
use shinken_sentinel.Packet.Addr.{af_inet, af_inet6}
use shinken_sentinel.Rules.Types.{
  Rule, has, action_rate_limit, m_family, m_direction, m_protocol, m_local_addr, m_remote_addr,
  m_local_port, m_remote_port, m_layer, m_time, m_if_index, m_sid, dir_in,
}
use shinken_sentinel.Rules.Validate.{
  m_unknown, layer_count, m_reserved, prefix_limit, bad_action, bad_scalar, bad_range, validate,
}

pair : (mask : ℕ) → bit_and mask m_reserved ≡ bit_and mask m_if_index + bit_and mask m_sid
pair mask = bit_and_pair 10 mask

has_reserved :
    (mask : ℕ)
    → has mask m_reserved ≡ false
    → (has mask m_if_index ≡ false) × (has mask m_sid ≡ false)
unfolding has
has_reserved mask h = ground (arith, pair mask)

has_reserved_back :
    (mask : ℕ) → has mask m_if_index ≡ false → has mask m_sid ≡ false → has mask m_reserved ≡ false
unfolding has
has_reserved_back mask h k = ground (arith, pair mask)

module _ (rule : Rule) where
  abbrev Given : ℕ → Type 0
  Given bit = has rule.mask bit ≡ true

  pub record GoodAction : Type 0 where
    pub id : rule.rule_id ≢ 0
    pub known : has rule.mask m_unknown ≡ false
    pub no_if_index : has rule.mask m_if_index ≡ false
    pub no_sid : has rule.mask m_sid ≡ false
    pub enabled : rule.enabled ≤ 1
    pub action : rule.action ≤ action_rate_limit
    pub rate :
        rule.action ≡ action_rate_limit
        → (0 < rule.rate_tokens) × (0 < rule.rate_interval_ms) × (0 < rule.burst)

  pub record GoodScalar : Type 0 where
    pub sid_length : (rule.sid_length ≡ 0) ⊎ ((8 ≤ rule.sid_length) × (rule.sid_length ≤ 32))
    pub family : Given m_family → (rule.family ≡ af_inet) ⊎ (rule.family ≡ af_inet6)
    pub direction : Given m_direction → rule.direction ≤ dir_in
    pub layer : Given m_layer → rule.layer_id < layer_count
    pub protocol : Given m_protocol → rule.protocol ≤ 255

  -- A prefix is at most 128 bits, and at most 32 where the rule asks for IPv4.
  abbrev PrefixFits : ℕ → Type 0
  PrefixFits prefix = (prefix ≤ 128) × (Given m_family → rule.family ≡ af_inet → prefix ≤ 32)

  pub record GoodRange : Type 0 where
    pub local_prefix : Given m_local_addr → PrefixFits rule.local_prefix
    pub remote_prefix : Given m_remote_addr → PrefixFits rule.remote_prefix
    pub local_port :
        Given m_local_port
        → (rule.local_port_min ≤ rule.local_port_max) × (rule.local_port_max ≤ 65535)
    pub remote_port :
        Given m_remote_port
        → (rule.remote_port_min ≤ rule.remote_port_max) × (rule.remote_port_max ≤ 65535)
    pub time : Given m_time → rule.not_before ≤ rule.not_after

  pub record WellFormed : Type 0 where
    pub good_action : GoodAction
    pub good_scalar : GoodScalar
    pub good_range : GoodRange

  bad_action_iff : (bad_action rule ≡ false) ↔ GoodAction
  unfolding bad_action
  bad_action_iff = (
    λ h. let r = has_reserved rule.mask (ground arith) in ground arith,
    λ h. let r = has_reserved_back rule.mask h.no_if_index h.no_sid in ground arith,
  )

  bad_scalar_iff : (bad_scalar rule ≡ false) ↔ GoodScalar
  unfolding bad_scalar
  bad_scalar_iff = ground arith

  bad_range_iff : (bad_range rule ≡ false) ↔ GoodRange
  unfolding bad_range prefix_limit
  bad_range_iff = ground arith

  -- `SkRuleValidate` accepts exactly the rules whose identifier is not 0, whose mask has no unknown
  -- and no reserved bit, and whose enabled flag, action, rate parameters, SID length and conditions
  -- are in range; it answers STATUS_INVALID_PARAMETER to every other rule.
  pub validate_iff :
      ((validate rule ≡ status_success) ↔ WellFormed)
      × ((validate rule ≡ status_success) ⊎ (validate rule ≡ status_invalid_parameter))
  unfolding validate
  validate_iff = ((forward, backward), ground arith)
    where
      forward : validate rule ≡ status_success → WellFormed
      forward h = record {
        good_action = bad_action_iff.0 (ground arith);
        good_scalar = bad_scalar_iff.0 (ground arith);
        good_range = bad_range_iff.0 (ground arith);
      }

      backward : WellFormed → validate rule ≡ status_success
      backward h = rw (
        bad_action_iff.1 h.good_action,
        bad_scalar_iff.1 h.good_scalar,
        bad_range_iff.1 h.good_range,
      )

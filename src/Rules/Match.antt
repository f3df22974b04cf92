-- ===== src/Rules/Match.antt =====
-- rules/rule_match.c, `SkRuleMatch`: the Boolean matcher of the classify hot path.
pub mod Spec
use shinken_sentinel.Prelude.{
  ℕ, ◌+◌, List, [], ◌∷◌, Option, none, some, Bool, true, false, not, ◌&&◌, ◌||◌, if◌then◌else◌, ltb,
  ◌==◌, get_or, zero, suc,
}
use shinken_sentinel.Packet.Addr.{addr_match}
use shinken_sentinel.Rules.Types.{
  Rule, Tuple, has, m_family, m_direction, m_protocol, m_local_addr, m_remote_addr, m_local_port,
  m_remote_port, m_pid, m_app_id, m_layer, m_if_index, m_sid, m_time, dir_any, proto_any,
}

-- `memcmp(a, b, n) == 0`
bytes_equal : ℕ → List ℕ → List ℕ → Bool
bytes_equal zero a b = true
bytes_equal (suc n) (x ∷ a) (y ∷ b) = x == y && bytes_equal n a b
bytes_equal (suc n) a b = false

-- `(m & BIT) && a != b`
differs : ℕ → ℕ → ℕ → ℕ → Bool
differs mask bit a b = has mask bit && not (a == b)

-- `(m & BIT) && a != ANY && a != b`
differs_from_any : ℕ → ℕ → ℕ → ℕ → ℕ → Bool
differs_from_any mask bit any a b = has mask bit && (not (a == any) && not (a == b))

-- `if (m & BIT) { if (x < lo || x > hi) return FALSE; }`
outside : ℕ → ℕ → ℕ → ℕ → ℕ → Bool
outside mask bit x lo hi = has mask bit && (ltb x lo || ltb hi x)

-- `if (m & BIT) { if (!SkPkAddrMatch(...)) return FALSE; }`
other_net : ℕ → ℕ → List ℕ → List ℕ → ℕ → ℕ → Bool
other_net mask bit addr rule_addr prefix family =
    has mask bit && not (addr_match addr rule_addr prefix family)

module _ (rule : Rule) (tuple : Tuple) where
  -- Each group of tests is TRUE where the source goes on and FALSE where it returns FALSE.
  scalar_ok : Bool
  scalar_ok =
      if differs rule.mask m_family rule.family tuple.family
      then false
      else if differs_from_any rule.mask m_direction dir_any rule.direction tuple.direction
      then false
      else if differs_from_any rule.mask m_protocol proto_any rule.protocol tuple.protocol
      then false
      else if differs rule.mask m_layer rule.layer_id tuple.layer_id
      then false
      else if differs_from_any rule.mask m_if_index 0 rule.if_index tuple.if_index
      then false
      else if differs_from_any rule.mask m_pid 0 rule.process_id tuple.process_id
      then false
      else if differs_from_any rule.mask m_app_id 0 rule.app_id tuple.app_id
      then false
      else true

  range_ok : Bool
  range_ok =
      if outside rule.mask m_local_port tuple.local_port rule.local_port_min rule.local_port_max
      then false
      else if outside rule.mask m_remote_port tuple.remote_port rule.remote_port_min
          rule.remote_port_max
      then false
      else if other_net rule.mask m_local_addr tuple.local_addr rule.local_addr rule.local_prefix
          tuple.family
      then false
      else if other_net rule.mask m_remote_addr tuple.remote_addr rule.remote_addr
          rule.remote_prefix tuple.family
      then false
      else true

  -- The user id against the rule's SID; `none` is the NULL pointer.
  sid_same : Option (List ℕ) → Bool
  sid_same none = false
  sid_same (some user_id) =
      if rule.sid_length == 0 || not (tuple.user_id_length == rule.sid_length)
      then false
      else bytes_equal rule.sid_length rule.sid user_id

  sid_ok : Bool
  sid_ok = if has rule.mask m_sid then sid_same tuple.user_id else true

  time_ok : Bool
  time_ok =
      if has rule.mask m_time && (not (rule.not_before == 0) || not (rule.not_after == 0))
      then not (ltb tuple.now_utc_100ns rule.not_before || ltb rule.not_after tuple.now_utc_100ns)
      else true

  -- `SkRuleMatch`
  unfoldable pub rule_match : Bool
  unfolding differs differs_from_any outside other_net bytes_equal scalar_ok range_ok sid_same
      sid_ok time_ok
  rule_match = if rule.enabled == 0 then false else scalar_ok && (range_ok && (sid_ok && time_ok))

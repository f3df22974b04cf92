-- ===== src/Rules/Match/Spec.antt =====
-- What a match means, field by field.
use shinken_sentinel.Prelude.{
  ℕ, ◌*◌, ◌==◌, ◌≤◌, ◌≡◌, ◌≢◌, ◌↔◌, ◌⊎◌, refl, List, Option, none, some, Bool, true, false, zero,
  suc, [], ◌∷◌, take, length, arith, inl, inr, Bool-cases, ◌&&◌, if◌then◌else◌, ==_iff, sym, ◌∙◌,
}
use mathlib.Core.Bool.{false≢true}
use shinken_sentinel.Packet.Addr.{addr_width}
use shinken_sentinel.Packet.Addr.Spec.{IsBytes, SameBits, addr_match_iff}
use shinken_sentinel.Rules.Types.{
  Rule, Tuple, has, m_family, m_direction, m_protocol, m_local_addr, m_remote_addr, m_local_port,
  m_remote_port, m_pid, m_app_id, m_layer, m_if_index, m_sid, m_time, dir_any, proto_any,
}
use shinken_sentinel.Rules.Match.{
  differs, differs_from_any, outside, other_net, bytes_equal, scalar_ok, range_ok, sid_same, sid_ok,
  time_ok, rule_match,
}

-- The first `p` bits of two addresses of a known family agree, and the prefix fits the family.
abbrev pub SamePrefix : List ℕ → List ℕ → ℕ → ℕ → Type 0
SamePrefix a r p family = (w : ℕ) × (addr_width family ≡ some w) × (p ≤ w * 8) × SameBits a r p

module _ (rule : Rule) (tuple : Tuple) where
  abbrev pub Given : ℕ → Type 0
  Given bit = has rule.mask bit ≡ true

  pub record ScalarsMatch : Type 0 where
    pub family : Given m_family → rule.family ≡ tuple.family
    pub direction :
        Given m_direction → (rule.direction ≡ dir_any) ⊎ (rule.direction ≡ tuple.direction)
    pub protocol : Given m_protocol → (rule.protocol ≡ proto_any) ⊎ (rule.protocol ≡ tuple.protocol)
    pub layer : Given m_layer → rule.layer_id ≡ tuple.layer_id
    pub if_index : Given m_if_index → (rule.if_index ≡ 0) ⊎ (rule.if_index ≡ tuple.if_index)
    pub pid : Given m_pid → (rule.process_id ≡ 0) ⊎ (rule.process_id ≡ tuple.process_id)
    pub app_id : Given m_app_id → (rule.app_id ≡ 0) ⊎ (rule.app_id ≡ tuple.app_id)

  pub record RangesMatch : Type 0 where
    pub local_port :
        Given m_local_port
        → (rule.local_port_min ≤ tuple.local_port) × (tuple.local_port ≤ rule.local_port_max)
    pub remote_port :
        Given m_remote_port
        → (rule.remote_port_min ≤ tuple.remote_port) × (tuple.remote_port ≤ rule.remote_port_max)
    pub local_addr :
        Given m_local_addr
        → SamePrefix tuple.local_addr rule.local_addr rule.local_prefix tuple.family
    pub remote_addr :
        Given m_remote_addr
        → SamePrefix tuple.remote_addr rule.remote_addr rule.remote_prefix tuple.family

  -- A user id of the rule's length, whose bytes are those of the rule's SID.
  abbrev pub SidMatches : Type 0
  SidMatches =
      (user_id : List ℕ) × (tuple.user_id ≡ some user_id)
      × (rule.sid_length ≢ 0)
      × (tuple.user_id_length ≡ rule.sid_length)
      × (rule.sid_length ≤ length rule.sid)
      × (rule.sid_length ≤ length user_id)
      × (take rule.sid_length rule.sid ≡ take rule.sid_length user_id)

  -- 0/0 is permanent.
  abbrev pub TimeMatches : Type 0
  TimeMatches =
      ((rule.not_before ≡ 0) × (rule.not_after ≡ 0))
      ⊎ ((rule.not_before ≤ tuple.now_utc_100ns) × (tuple.now_utc_100ns ≤ rule.not_after))

  -- Every condition that the rule's mask gives holds of the tuple.
  pub record Matches : Type 0 where
    pub enabled : rule.enabled ≢ 0
    pub scalars : ScalarsMatch
    pub ranges : RangesMatch
    pub sid : Given m_sid → SidMatches
    pub time : Given m_time → TimeMatches

differs_iff : (mask bit a b : ℕ) → (differs mask bit a b ≡ false) ↔ (has mask bit ≡ true → a ≡ b)
unfolding differs
differs_iff mask bit a b = ground arith

differs_from_any_iff :
    (mask bit any a b : ℕ)
    → (differs_from_any mask bit any a b ≡ false) ↔ (has mask bit ≡ true → (a ≡ any) ⊎ (a ≡ b))
unfolding differs_from_any
differs_from_any_iff mask bit any a b = ground arith

outside_iff :
    (mask bit x lo hi : ℕ)
    → (outside mask bit x lo hi ≡ false) ↔ (has mask bit ≡ true → (lo ≤ x) × (x ≤ hi))
unfolding outside
outside_iff mask bit x lo hi = ground arith

other_net_iff :
    (mask bit : ℕ) (a r : List ℕ) (p family : ℕ)
    → IsBytes a
    → IsBytes r
    → (other_net mask bit a r p family ≡ false) ↔ (has mask bit ≡ true → SamePrefix a r p family)
unfolding other_net
other_net_iff mask bit a r p family ba br = (
  λ h given. (addr_match_iff a r ba br p family).0 (ground arith),
  λ h. elim (Bool-cases (has mask bit)) [
    | inl given ↦ let same = (addr_match_iff a r ba br p family).1 (h given) in ground arith
    | inr free ↦ ground arith
  ],
)

bytes_equal_iff :
    (n : ℕ) (a b : List ℕ)
    → (bytes_equal n a b ≡ true) ↔ ((n ≤ length a) × (n ≤ length b) × (take n a ≡ take n b))
unfolding bytes_equal
bytes_equal_iff zero a b = (λ h. (omega arith, omega arith, refl), λ h. refl)
bytes_equal_iff (suc n) [] b = (λ h. cc, λ h. absurd (omega (arith, h.0)))
bytes_equal_iff (suc n) (x ∷ a) [] = (λ h. cc, λ h. absurd (omega (arith, h.1)))
bytes_equal_iff (suc n) (x ∷ a) (y ∷ b) = ground (arith, bytes_equal_iff n a b)

all_pass :
    (off a b c d : Bool)
    → (if off then false else a && (b && (c && d))) ≡ true
    → (off ≡ false) × (a ≡ true) × (b ≡ true) × (c ≡ true) × (d ≡ true)
all_pass off a b c d h = ground arith

module _ (rule : Rule) (tuple : Tuple) where
  scalar_ok_iff : (scalar_ok rule tuple ≡ true) ↔ ScalarsMatch rule tuple
  unfolding scalar_ok
  scalar_ok_iff = (forward, backward)
    where
      forward : scalar_ok rule tuple ≡ true → ScalarsMatch rule tuple
      forward h = record {
        family = (differs_iff _ _ _ _).0 (ground arith);
        direction = (differs_from_any_iff _ _ _ _ _).0 (ground arith);
        protocol = (differs_from_any_iff _ _ _ _ _).0 (ground arith);
        layer = (differs_iff _ _ _ _).0 (ground arith);
        if_index = (differs_from_any_iff _ _ _ _ _).0 (ground arith);
        pid = (differs_from_any_iff _ _ _ _ _).0 (ground arith);
        app_id = (differs_from_any_iff _ _ _ _ _).0 (ground arith);
      }

      backward : ScalarsMatch rule tuple → scalar_ok rule tuple ≡ true
      backward h = rw (
        (differs_iff _ _ _ _).1 h.family,
        (differs_from_any_iff _ _ _ _ _).1 h.direction,
        (differs_from_any_iff _ _ _ _ _).1 h.protocol,
        (differs_iff _ _ _ _).1 h.layer,
        (differs_from_any_iff _ _ _ _ _).1 h.if_index,
        (differs_from_any_iff _ _ _ _ _).1 h.pid,
        (differs_from_any_iff _ _ _ _ _).1 h.app_id,
      )

  range_ok_iff :
      IsBytes tuple.local_addr
      → IsBytes tuple.remote_addr
      → IsBytes rule.local_addr
      → IsBytes rule.remote_addr
      → (range_ok rule tuple ≡ true) ↔ RangesMatch rule tuple
  unfolding range_ok
  range_ok_iff bl br rl rr = (forward, backward)
    where
      forward : range_ok rule tuple ≡ true → RangesMatch rule tuple
      forward h = record {
        local_port = (outside_iff _ _ _ _ _).0 (ground arith);
        remote_port = (outside_iff _ _ _ _ _).0 (ground arith);
        local_addr = (other_net_iff _ _ _ _ _ tuple.family bl rl).0 (ground arith);
        remote_addr = (other_net_iff _ _ _ _ _ tuple.family br rr).0 (ground arith);
      }

      backward : RangesMatch rule tuple → range_ok rule tuple ≡ true
      backward h = rw (
        (outside_iff _ _ _ _ _).1 h.local_port,
        (outside_iff _ _ _ _ _).1 h.remote_port,
        (other_net_iff _ _ _ _ _ _ bl rl).1 h.local_addr,
        (other_net_iff _ _ _ _ _ _ br rr).1 h.remote_addr,
      )

  sid_same_iff : (sid_same rule tuple tuple.user_id ≡ true) ↔ SidMatches rule tuple
  unfolding sid_same
  sid_same_iff = (forward tuple.user_id refl, backward)
    where
      forward :
          (o : Option (List ℕ))
          → tuple.user_id ≡ o
          → sid_same rule tuple o ≡ true
          → SidMatches rule tuple
      forward none e h = absurd (ground arith)
      forward (some u) e h =
          let (long, long', same) = (bytes_equal_iff rule.sid_length rule.sid u).0 (ground arith) in
          (u, e, ground arith, ground arith, long, long', same)

      backward : SidMatches rule tuple → sid_same rule tuple tuple.user_id ≡ true
      backward (u, e, nonzero, len, long, long', same) =
          let eq = (bytes_equal_iff rule.sid_length rule.sid u).1 (long, long', same) in
          rw e (ground arith)

  sid_ok_iff : (sid_ok rule tuple ≡ true) ↔ (has rule.mask m_sid ≡ true → SidMatches rule tuple)
  unfolding sid_ok
  sid_ok_iff = (
    λ h given. sid_same_iff.0 (ground arith),
    λ h. elim (Bool-cases (has rule.mask m_sid)) [
      | inl given ↦ rw given (sid_same_iff.1 (h given))
      | inr free ↦ rw free
    ],
  )

  time_ok_iff : (time_ok rule tuple ≡ true) ↔ (has rule.mask m_time ≡ true → TimeMatches rule tuple)
  unfolding time_ok
  time_ok_iff = ground arith

  -- For addresses of bytes, `SkRuleMatch` returns TRUE exactly when the rule is enabled and every
  -- condition that its mask gives holds of the tuple: equal scalars (with the ANY values as
  -- wildcards), ports in the closed intervals, addresses that agree on the prefix's bits in a known
  -- family, a user id equal to the SID, and a time in the validity window (0/0 is permanent).
  pub rule_match_iff :
      IsBytes tuple.local_addr
      → IsBytes tuple.remote_addr
      → IsBytes rule.local_addr
      → IsBytes rule.remote_addr
      → (rule_match rule tuple ≡ true) ↔ Matches rule tuple
  unfolding rule_match
  rule_match_iff bl br rl rr = (forward, backward)
    where
      forward : rule_match rule tuple ≡ true → Matches rule tuple
      forward h =
          let (live, scalars, ranges, sid, time) = all_pass (rule.enabled == 0) _ _ _ _ h in
          record {
            enabled = λ e. absurd (false≢true (sym live ∙ (==_iff _ _).1 e));
            scalars = scalar_ok_iff.0 scalars;
            ranges = (range_ok_iff bl br rl rr).0 ranges;
            sid = sid_ok_iff.0 sid;
            time = time_ok_iff.0 time;
          }

      backward : Matches rule tuple → rule_match rule tuple ≡ true
      backward h =
          let live : (rule.enabled == 0) ≡ false = ground (arith, h.enabled) in
          rw (
            live,
            scalar_ok_iff.1 h.scalars,
            (range_ok_iff bl br rl rr).1 h.ranges,
            sid_ok_iff.1 h.sid,
            time_ok_iff.1 h.time,
          )

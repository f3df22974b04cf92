-- ===== src/Control/Wire.antt =====
-- control/protocol.h and control/ioctl.c: the wire form of a rule in a request's buffer.
-- The buffer is a function from an offset to a byte; fields are little-endian and stand where the
-- compiler's natural alignment puts them.
pub mod Laws
use shinken_sentinel.Prelude.{
  ℕ, zero, suc, ◌+◌, ◌-◌, ◌*◌, ◌%◌, ◌^◌, List, [], ◌∷◌, Option, none, some, Bool, true, false, not,
  if◌then◌else◌, ltb, ◌==◌, bit_and, bit_or,
}
use shinken_sentinel.Rules.Types.{Rule, m_app_id}
use shinken_sentinel.Rules.Hash.{hash_app_path}
use shinken_sentinel.Rules.Store.{◌>>=◌}

abbrev pub Bytes : Type 0
Bytes = ℕ → ℕ

unfoldable pub u16_at : Bytes → ℕ → ℕ
u16_at m p = m p + 256 * m (p + 1)

unfoldable pub u32_at : Bytes → ℕ → ℕ
u32_at m p = u16_at m p + 2 ^ 16 * u16_at m (p + 2)

unfoldable pub u64_at : Bytes → ℕ → ℕ
u64_at m p = u32_at m p + 2 ^ 32 * u32_at m (p + 4)

unfoldable pub bytes_at : Bytes → ℕ → ℕ → List ℕ
bytes_at m p zero = []
bytes_at m p (suc n) = m p ∷ bytes_at m (p + 1) n

unfoldable pub wchars_at : Bytes → ℕ → ℕ → List ℕ
wchars_at m p zero = []
wchars_at m p (suc n) = u16_at m p ∷ wchars_at m (p + 2) n

-- The `SK_RULE` at an address, 176 bytes.
unfoldable pub rule_at : Bytes → ℕ → Rule
rule_at m p = record {
  rule_id = u64_at m p;
  priority = u32_at m (p + 8);
  mask = u32_at m (p + 12);
  action = u32_at m (p + 16);
  enabled = u32_at m (p + 20);
  family = u32_at m (p + 24);
  direction = u32_at m (p + 28);
  protocol = u32_at m (p + 32);
  layer_id = u32_at m (p + 36);
  if_index = u32_at m (p + 40);
  process_id = u32_at m (p + 44);
  app_id = u64_at m (p + 48);
  not_before = u64_at m (p + 56);
  not_after = u64_at m (p + 64);
  local_port_min = u32_at m (p + 72);
  local_port_max = u32_at m (p + 76);
  remote_port_min = u32_at m (p + 80);
  remote_port_max = u32_at m (p + 84);
  local_addr = bytes_at m (p + 88) 16;
  remote_addr = bytes_at m (p + 104) 16;
  local_prefix = m (p + 120);
  remote_prefix = m (p + 121);
  sid = bytes_at m (p + 122) 32;
  sid_length = u32_at m (p + 156);
  rate_tokens = u32_at m (p + 160);
  rate_interval_ms = u32_at m (p + 164);
  burst = u32_at m (p + 168);
}

-- `SK_RULE_WIRE`: the rule, then `pathChars` and `pathOffset`.
abbrev pub wire_bytes : ℕ
wire_bytes = 184

abbrev pub rule_path_max_chars : ℕ
rule_path_max_chars = 260

unfoldable pub path_chars : Bytes → ℕ → ℕ
path_chars m p = u32_at m (p + 176)

unfoldable pub path_offset : Bytes → ℕ → ℕ
path_offset m p = u32_at m (p + 180)

-- `skValidateWire`: the bytes that the wire takes, or `none` for STATUS_INVALID_PARAMETER, its one error.
unfoldable pub validate_wire : Bytes → ℕ → ℕ → Option ℕ
validate_wire m cur remaining =
    let need = path_offset m cur + path_chars m cur * 2 in
    if ltb remaining wire_bytes
    then none
    else if ltb rule_path_max_chars (path_chars m cur)
    then none
    else if path_chars m cur == 0
    then (if path_offset m cur == 0 then some wire_bytes else none)
    else if ltb (path_offset m cur) wire_bytes
    then none
    else if not (path_offset m cur % 2 == 0)
    then none
    else if ltb remaining need
    then none
    else some need

-- `skConvertWire`
unfoldable pub convert_wire : Bytes → ℕ → Rule
convert_wire m cur =
    let rule = rule_at m cur in
    if path_chars m cur == 0
    then record rule { app_id = 0; mask = bit_and rule.mask (2 ^ 32 - 1 - m_app_id) }
    else record rule {
      app_id = hash_app_path (wchars_at m (cur + path_offset m cur) (path_chars m cur));
      mask = bit_or rule.mask m_app_id;
    }

-- The loop of `skCmdReplaceRuleset`: the rules, and the bytes that are left after them.
unfoldable pub walk_wires : ℕ → Bytes → ℕ → ℕ → Option (List Rule × ℕ)
walk_wires zero m cur remaining = some ([], remaining)
walk_wires (suc count) m cur remaining = validate_wire m cur remaining >>= λ n.
    walk_wires count m (cur + n) (remaining - n) >>= λ r. some (convert_wire m cur ∷ r.0, r.1)

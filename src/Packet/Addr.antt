-- ===== src/Packet/Addr.antt =====
-- packet/packet_helpers.c, `SkPkAddrMatch`: whether two addresses share a prefix of bits.
pub mod Bits
pub mod Spec
use shinken_sentinel.Prelude.{
  ℕ, zero, suc, ◌+◌, ◌-◌, ◌*◌, ◌/◌, ◌%◌, ◌^◌, List, Option, none, some, Bool, true, false, ◌&&◌,
  if◌then◌else◌, ltb, ◌==◌, get_or, bit_and,
}

abbrev pub af_inet : ℕ
af_inet = 2

abbrev pub af_inet6 : ℕ
af_inet6 = 23

-- `width`, in bytes; `none` is the branch that returns FALSE for an unknown family.
abbrev pub addr_width : ℕ → Option ℕ
addr_width family =
    if family == af_inet then some 4 else if family == af_inet6 then some 16 else none

-- `for (i = 0; i < full; i++)`, `rounds` of it left from index `i`.
same_bytes : ℕ → ℕ → List ℕ → List ℕ → Bool
same_bytes zero i addr rule_addr = true
same_bytes (suc rounds) i addr rule_addr =
    get_or addr i 0 == get_or rule_addr i 0 && same_bytes rounds (i + 1) addr rule_addr

-- `(UINT8)(0xFFu << (8 - remBits))`
abbrev tail_mask : ℕ → ℕ
tail_mask rem_bits = 0xff * 2 ^ (8 - rem_bits) % 256

-- The comparison of the byte in which the prefix ends.
same_tail : ℕ → ℕ → ℕ → Bool
same_tail rem_bits a r =
    if rem_bits == 0 then true else bit_and a (tail_mask rem_bits) == bit_and r (tail_mask rem_bits)

-- The function from `if (prefix > width * 8)` on.
match_width : List ℕ → List ℕ → ℕ → ℕ → Bool
match_width addr rule_addr prefix width =
    let full = prefix / 8 in
    if ltb (width * 8) prefix
    then false
    else if prefix == 0
    then true
    else same_bytes full 0 addr rule_addr
      && same_tail (prefix % 8) (get_or addr full 0) (get_or rule_addr full 0)

-- `SkPkAddrMatch`
unfoldable pub addr_match : List ℕ → List ℕ → ℕ → ℕ → Bool
unfolding match_width same_bytes same_tail
addr_match addr rule_addr prefix family = elim (addr_width family) [
  | none ↦ false
  | some width ↦ match_width addr rule_addr prefix width
]

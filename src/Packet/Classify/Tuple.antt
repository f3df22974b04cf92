-- ===== src/Packet/Classify/Tuple.antt =====
-- packet/classify.c, SkClassifyBuildTuple: the tuple from the values and the metadata of the filter engine.
use shinken_sentinel.Prelude.{
  ℕ, ◌/◌, ◌%◌, ◌^◌, List, [], ◌∷◌, Option, none, some, Bool, ◌||◌, if◌then◌else◌, leb, ◌==◌,
  get_elem?,
}
use shinken_sentinel.Rules.Types.{dir_any, dir_in}
use shinken_sentinel.Rules.Types
use shinken_sentinel.Rules.Hash.{hash_app_path}
use shinken_sentinel.Packet.Addr.{af_inet, af_inet6}
use shinken_sentinel.Control.Wire.{Bytes, wchars_at}

-- A value of the filter engine, as each member of its union reads it.
pub record Value : Type 0 where
  pub uint8 : ℕ
  pub uint16 : ℕ
  pub uint32 : ℕ
  pub byte_array16 : Option (List ℕ)

-- `incomingValue` with its `valueCount` values.
abbrev pub Incoming : Type 0
Incoming = List Value

-- The metadata, each with whether `currentMetadataValues` has its bit; the path is a blob of `size` bytes
-- where the pointers to it are not NULL.
pub record Meta : Type 0 where
  pub has_process_id : Bool
  pub process_id : ℕ
  pub has_path : Bool
  pub path : Option (Bytes × ℕ)
  pub has_flow_handle : Bool
  pub flow_handle : ℕ

abbrev pub dir_out : ℕ
dir_out = 1

-- `skFieldU8` and `skFieldU16`
unfoldable pub u8_of : Option Value → ℕ
u8_of none = 0
u8_of (some v) = v.uint8

unfoldable pub u16_of : Option Value → ℕ
u16_of none = 0
u16_of (some v) = v.uint16

abbrev pub no_addr : List ℕ
no_addr = 0 ∷ 0 ∷ 0 ∷ 0 ∷ 0 ∷ 0 ∷ 0 ∷ 0 ∷ 0 ∷ 0 ∷ 0 ∷ 0 ∷ 0 ∷ 0 ∷ 0 ∷ 0 ∷ []

-- The four bytes of an IPv4 address, the highest first.
unfoldable pub addr_v4 : ℕ → List ℕ
addr_v4 v =
    v / 2 ^ 24 % 256
    ∷ v / 2 ^ 16 % 256
    ∷ v / 2 ^ 8 % 256
    ∷ v % 256
    ∷ 0
    ∷ 0
    ∷ 0
    ∷ 0
    ∷ 0
    ∷ 0
    ∷ 0
    ∷ 0
    ∷ 0
    ∷ 0
    ∷ 0
    ∷ 0
    ∷ []

abbrev addr_v6 : Option (List ℕ) → List ℕ
addr_v6 none = no_addr
addr_v6 (some bytes) = bytes

-- `skFieldAddr`, on the zeroed address of the tuple
unfoldable pub field_addr : ℕ → Option Value → List ℕ
field_addr family none = no_addr
field_addr family (some v) = if family == af_inet then addr_v4 v.uint32 else addr_v6 v.byte_array16

-- `skLayerFamily`; the layers 0, 2 and 4 of `SK_LAYER_ID` are those of IPv4.
unfoldable pub layer_family : ℕ → ℕ
layer_family layer = if layer == 0 || layer == 2 || layer == 4 then af_inet else af_inet6

-- The direction that the layer implies: the layers 0 and 1 connect, 2 and 3 accept.
unfoldable pub layer_direction : ℕ → ℕ
layer_direction layer =
    if layer == 0 || layer == 1
    then dir_out
    else if layer == 2 || layer == 3
    then dir_in
    else dir_any

unfoldable pub field : Option Incoming → ℕ → Option Value
field none i = none
field (some values) i = get_elem? values i

unfoldable pub process_of : Option Meta → ℕ
process_of none = 0
process_of (some meta) = if meta.has_process_id then meta.process_id % 2 ^ 32 else 0

unfoldable pub blob_hash : Option (Bytes × ℕ) → ℕ
blob_hash none = 0
blob_hash (some blob) = if leb 2 blob.1 then hash_app_path (wchars_at blob.0 0 (blob.1 / 2)) else 0

unfoldable pub app_of : Option Meta → ℕ
app_of none = 0
app_of (some meta) = if meta.has_path then blob_hash meta.path else 0

-- `SkClassifyBuildTuple`; the fields of the ALE layers are 2 and 6 for the addresses, 4 and 7 for the
-- ports, and 5 for the protocol.
unfoldable pub build_tuple : ℕ → ℕ → Option Incoming → Option Meta → Types.Tuple
build_tuple now layer values meta = record {
  family = layer_family layer;
  direction = layer_direction layer;
  protocol = u8_of (field values 5);
  layer_id = layer;
  if_index = 0;
  process_id = process_of meta;
  app_id = app_of meta;
  local_port = u16_of (field values 4);
  remote_port = u16_of (field values 7);
  local_addr = field_addr (layer_family layer) (field values 2);
  remote_addr = field_addr (layer_family layer) (field values 6);
  user_id = none;
  user_id_length = 0;
  now_utc_100ns = now;
}

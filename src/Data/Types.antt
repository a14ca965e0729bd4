-- ===== src/Data/Types.antt =====
-- datatype.go and pad.go: the interface of the AVP data types, their names, and the padding.
use diam_gw.Prelude.{ℕ, ◌+◌, ◌-◌, ◌%◌, ◌^◌, bit_and, List, [], ◌∷◌}
use diam_gw.Prelude.Int.{ℤ}
use Prim.Native.String.{String}

pub data TypeId : Type 0 where
  unknown_type address_type diameter_identity_type diameter_uri_type enumerated_type float32_type
        float64_type grouped_type ip_filter_rule_type ipv4_type integer32_type integer64_type
        octet_string_type qos_filter_rule_type time_type utf8_string_type unsigned32_type
        unsigned64_type ipv6_type :
      TypeId

pub TypeId-discrete : Discrete TypeId
TypeId-discrete = hlevel

-- The names under which the types are offered.
abbrev pub available : List (String × TypeId)
available =
    ("Address", address_type)
    ∷ ("DiameterIdentity", diameter_identity_type)
    ∷ ("DiameterURI", diameter_uri_type)
    ∷ ("Enumerated", enumerated_type)
    ∷ ("Float32", float32_type)
    ∷ ("Float64", float64_type)
    ∷ ("Grouped", grouped_type)
    ∷ ("IPFilterRule", ip_filter_rule_type)
    ∷ ("IPv4", ipv4_type)
    ∷ ("IPv6", ipv6_type)
    ∷ ("Integer32", integer32_type)
    ∷ ("Integer64", integer64_type)
    ∷ ("OctetString", octet_string_type)
    ∷ ("QoSFilterRule", qos_filter_rule_type)
    ∷ ("Time", time_type)
    ∷ ("UTF8String", utf8_string_type)
    ∷ ("Unsigned32", unsigned32_type)
    ∷ ("Unsigned64", unsigned64_type)
    ∷ []

-- A value of the interface `Type`, by its dynamic type. A string is the list of its bytes, a float
-- its bit pattern, a `Time` its Unix seconds, rounded down, and the nanoseconds above them; `time_pointer` is a
-- `*Time`.
pub data Value : Type 0 where
  unknown address diameter_identity diameter_uri grouped ip_filter_rule ipv4 ipv6 octet_string
        qos_filter_rule utf8_string :
      List ℕ → Value
  float32 float64 unsigned32 unsigned64 : ℕ → Value
  enumerated integer32 integer64 time_pointer : ℤ → Value
  time : ℤ → ℕ → Value

-- What the interface's methods answer on one value (`String` only prints, and is left out).
pub record Methods : Type 0 where
  pub serialize : List ℕ
  pub len : ℕ
  pub padding : ℕ
  pub type : TypeId

pub data DecodeError : Type 0 where
  unknown_data_type : TypeId → DecodeError
  not_enough_data invalid_address_type invalid_length_ipv4 invalid_length_ipv6 : DecodeError

-- `n + ((4 - n) & 3)` on 64-bit words.
unfoldable pub pad4 : ℕ → ℕ
pad4 n = (n + bit_and ((4 + 2 ^ 64 - n) % 2 ^ 64) 3) % 2 ^ 64

-- `pad4(l) - l`
unfoldable pub pad_of : ℕ → ℕ
unfolding pad4
pad_of l = (pad4 l + 2 ^ 64 - l) % 2 ^ 64

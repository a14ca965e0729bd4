-- ===== src/Data/Decoder.antt =====
-- decoder.go: the table of decoders, and the methods of a value by its dynamic type.
use diam_gw.Prelude.{ℕ, List, Option, none, some, Result, err}
use diam_gw.Data.Types.{
  TypeId, Value, Methods, DecodeError, unknown_data_type, time, time_pointer, octet_string,
  utf8_string, diameter_identity, diameter_uri, ip_filter_rule, qos_filter_rule, unknown, grouped,
  unsigned32, unsigned64, integer32, integer64, enumerated, float32, float64, address, ipv4, ipv6,
  unknown_type, address_type, diameter_identity_type, diameter_uri_type, enumerated_type,
  float32_type, float64_type, grouped_type, ip_filter_rule_type, ipv4_type, integer32_type,
  integer64_type, octet_string_type, time_type, utf8_string_type, unsigned32_type, unsigned64_type,
}
use diam_gw.Data.Octets.{
  decode_octet_string, decode_utf8_string, decode_diameter_identity, decode_diameter_uri,
  decode_ip_filter_rule, decode_unknown, decode_grouped, octet_string_methods, utf8_string_methods,
  diameter_identity_methods, diameter_uri_methods, ip_filter_rule_methods, qos_filter_rule_methods,
  unknown_methods, grouped_methods,
}
use diam_gw.Data.Numbers.{
  decode_time, time_methods, decode_unsigned32, decode_unsigned64, decode_integer32,
  decode_integer64, decode_enumerated, decode_float32, decode_float64, unsigned32_methods,
  unsigned64_methods, integer32_methods, integer64_methods, enumerated_methods, float32_methods,
  float64_methods,
}
use diam_gw.Data.Addresses.{
  decode_address, decode_ipv4, address_methods, ipv4_methods, ipv6_methods,
}

-- The map `Decoder`. It has no entry for QoSFilterRule and for IPv6.
unfoldable pub decoder : TypeId → Option (List ℕ → Result DecodeError Value)
unfolding decode_unknown decode_address decode_diameter_identity decode_diameter_uri
    decode_enumerated decode_float32 decode_float64 decode_grouped decode_ip_filter_rule decode_ipv4
    decode_integer32 decode_integer64 decode_octet_string decode_time decode_utf8_string
    decode_unsigned32 decode_unsigned64
decoder unknown_type = some decode_unknown
decoder address_type = some decode_address
decoder diameter_identity_type = some decode_diameter_identity
decoder diameter_uri_type = some decode_diameter_uri
decoder enumerated_type = some decode_enumerated
decoder float32_type = some decode_float32
decoder float64_type = some decode_float64
decoder grouped_type = some decode_grouped
decoder ip_filter_rule_type = some decode_ip_filter_rule
decoder ipv4_type = some decode_ipv4
decoder integer32_type = some decode_integer32
decoder integer64_type = some decode_integer64
decoder octet_string_type = some decode_octet_string
decoder time_type = some decode_time
decoder utf8_string_type = some decode_utf8_string
decoder unsigned32_type = some decode_unsigned32
decoder unsigned64_type = some decode_unsigned64
decoder _ = none

unfoldable pub decode : TypeId → List ℕ → Result DecodeError Value
unfolding decoder
decode t b = elim (decoder t) [ none ↦ err (unknown_data_type t) | some f ↦ f b ]

-- The dynamic dispatch of the interface. A pointer has the methods of what it points to.
unfoldable pub methods : Value → Methods
unfolding octet_string_methods utf8_string_methods diameter_identity_methods diameter_uri_methods
    ip_filter_rule_methods qos_filter_rule_methods unknown_methods grouped_methods
    unsigned32_methods unsigned64_methods integer32_methods integer64_methods enumerated_methods
    float32_methods float64_methods address_methods ipv4_methods ipv6_methods time_methods
methods (octet_string x) = octet_string_methods x
methods (utf8_string x) = utf8_string_methods x
methods (diameter_identity x) = diameter_identity_methods x
methods (diameter_uri x) = diameter_uri_methods x
methods (ip_filter_rule x) = ip_filter_rule_methods x
methods (qos_filter_rule x) = qos_filter_rule_methods x
methods (unknown x) = unknown_methods x
methods (grouped x) = grouped_methods x
methods (unsigned32 x) = unsigned32_methods x
methods (unsigned64 x) = unsigned64_methods x
methods (integer32 x) = integer32_methods x
methods (integer64 x) = integer64_methods x
methods (enumerated x) = enumerated_methods x
methods (float32 x) = float32_methods x
methods (float64 x) = float64_methods x
methods (address x) = address_methods x
methods (ipv4 x) = ipv4_methods x
methods (ipv6 x) = ipv6_methods x
methods (time t ns) = time_methods t
methods (time_pointer t) = time_methods t

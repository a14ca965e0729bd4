-- ===== src/Data/Octets.antt =====
-- The data types that are byte strings (octetstring.go, utf8string.go, diamident.go, diamuri.go,
-- ipfrule.go, qosfrule.go, unknown.go, group.go). A decoder copies its input; a list is its copy.
use diam_gw.Prelude.{ℕ, List, length, Result, ok}
use diam_gw.Data.Types.{
  Value, Methods, DecodeError, pad_of, octet_string, utf8_string, diameter_identity, diameter_uri,
  ip_filter_rule, qos_filter_rule, unknown, grouped, octet_string_type, utf8_string_type,
  diameter_identity_type, diameter_uri_type, ip_filter_rule_type, qos_filter_rule_type,
  unknown_type, grouped_type,
}

unfoldable pub decode_octet_string : List ℕ → Result DecodeError Value
decode_octet_string b = ok (octet_string b)

unfoldable pub octet_string_methods : List ℕ → Methods
octet_string_methods s = record {
  serialize = s;
  len = length s;
  padding = pad_of (length s);
  type = octet_string_type;
}

unfoldable pub decode_utf8_string : List ℕ → Result DecodeError Value
decode_utf8_string b = ok (utf8_string b)

unfoldable pub utf8_string_methods : List ℕ → Methods
utf8_string_methods s = record {
  serialize = s;
  len = length s;
  padding = pad_of (length s);
  type = utf8_string_type;
}

unfoldable pub decode_diameter_identity : List ℕ → Result DecodeError Value
decode_diameter_identity b = ok (diameter_identity b)

unfoldable pub diameter_identity_methods : List ℕ → Methods
diameter_identity_methods s = record {
  serialize = s;
  len = length s;
  padding = pad_of (length s);
  type = diameter_identity_type;
}

unfoldable pub decode_diameter_uri : List ℕ → Result DecodeError Value
decode_diameter_uri b = ok (diameter_uri b)

unfoldable pub diameter_uri_methods : List ℕ → Methods
diameter_uri_methods s = record {
  serialize = s;
  len = length s;
  padding = pad_of (length s);
  type = diameter_uri_type;
}

unfoldable pub decode_ip_filter_rule : List ℕ → Result DecodeError Value
decode_ip_filter_rule b = ok (ip_filter_rule b)

unfoldable pub ip_filter_rule_methods : List ℕ → Methods
ip_filter_rule_methods s = record {
  serialize = s;
  len = length s;
  padding = pad_of (length s);
  type = ip_filter_rule_type;
}

unfoldable pub decode_qos_filter_rule : List ℕ → Result DecodeError Value
decode_qos_filter_rule b = ok (qos_filter_rule b)

unfoldable pub qos_filter_rule_methods : List ℕ → Methods
qos_filter_rule_methods s = record {
  serialize = s;
  len = length s;
  padding = pad_of (length s);
  type = qos_filter_rule_type;
}

unfoldable pub decode_unknown : List ℕ → Result DecodeError Value
decode_unknown b = ok (unknown b)

unfoldable pub unknown_methods : List ℕ → Methods
unknown_methods s = record {
  serialize = s;
  len = length s;
  padding = pad_of (length s);
  type = unknown_type;
}

unfoldable pub decode_grouped : List ℕ → Result DecodeError Value
decode_grouped b = ok (grouped b)

unfoldable pub grouped_methods : List ℕ → Methods
grouped_methods s = record { serialize = s; len = length s; padding = 0; type = grouped_type }

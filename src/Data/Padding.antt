-- ===== src/Data/Padding.antt =====
-- The padding of every data type brings its payload to a multiple of four bytes.
use diam_gw.Prelude.{
  ℕ, ◌+◌, ◌-◌, ◌%◌, ◌^◌, ◌<◌, ◌≡◌, refl, ◌≢◌, List, [], length, length-drop, arith, bit_and_three,
}
use diam_gw.Data.Types.{
  Value, pad_of, time, time_pointer, octet_string, utf8_string, diameter_identity, diameter_uri,
  ip_filter_rule, qos_filter_rule, unknown, grouped, unsigned32, unsigned64, integer32, integer64,
  enumerated, float32, float64, address, ipv4, ipv6, grouped_type,
}
use diam_gw.Data.Addresses.{to4, to16, address_methods}
use diam_gw.Data.Decoder.{methods}

pub pad_of_lem : (n : ℕ) → n < 2 ^ 63 → pad_of n ≡ (4 - n % 4) % 4
unfolding pad_of
pad_of_lem n h = omega (arith, bit_and_three ((4 + 2 ^ 64 - n) % 2 ^ 64))

-- The bytes that a value holds.
abbrev pub raw : Value → List ℕ
raw (octet_string b) = b
raw (utf8_string b) = b
raw (diameter_identity b) = b
raw (diameter_uri b) = b
raw (ip_filter_rule b) = b
raw (qos_filter_rule b) = b
raw (unknown b) = b
raw (grouped b) = b
raw (address b) = b
raw (ipv4 b) = b
raw (ipv6 b) = b
raw _ = []

-- A Go slice has fewer than 2^62 bytes, on any machine there is.
abbrev pub IsSized : Value → Type 0
IsSized v = length (raw v) < 2 ^ 62

address_len-small : (b : List ℕ) → length b < 2 ^ 62 → (address_methods b).len < 2 ^ 63
unfolding address_methods to4 to16
address_len-small b h = ground (arith, length-drop 12 b)

-- The padding of every value but a Grouped is less than four bytes, and takes the length that the
-- value states to a multiple of four. (A slice of a value is shorter than 2^62.)
pub padding_aligns :
    (v : Value)
    → IsSized v
    → (methods v).type ≢ grouped_type
    → ((methods v).padding < 4) × (((methods v).len + (methods v).padding) % 4 ≡ 0)
unfolding methods
padding_aligns (octet_string b) h g = omega (arith, pad_of_lem (length b))
padding_aligns (utf8_string b) h g = omega (arith, pad_of_lem (length b))
padding_aligns (diameter_identity b) h g = omega (arith, pad_of_lem (length b))
padding_aligns (diameter_uri b) h g = omega (arith, pad_of_lem (length b))
padding_aligns (ip_filter_rule b) h g = omega (arith, pad_of_lem (length b))
padding_aligns (qos_filter_rule b) h g = omega (arith, pad_of_lem (length b))
padding_aligns (unknown b) h g = omega (arith, pad_of_lem (length b))
padding_aligns (grouped b) h g = absurd (g refl)
padding_aligns (address b) h g =
    omega (arith, pad_of_lem (address_methods b).len (address_len-small b h))
padding_aligns (ipv4 b) h g = omega arith
padding_aligns (ipv6 b) h g = omega arith
padding_aligns (unsigned32 b) h g = omega arith
padding_aligns (unsigned64 b) h g = omega arith
padding_aligns (integer32 b) h g = omega arith
padding_aligns (integer64 b) h g = omega arith
padding_aligns (enumerated b) h g = omega arith
padding_aligns (float32 b) h g = omega arith
padding_aligns (float64 b) h g = omega arith
padding_aligns (time b ns) h g = omega arith
padding_aligns (time_pointer b) h g = omega arith

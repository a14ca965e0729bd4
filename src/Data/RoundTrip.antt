-- ===== src/Data/RoundTrip.antt =====
-- What a value encodes to is decoded to that value, and which input a decoded value encodes back.
use diam_gw.Prelude.{
  ℕ, ◌+◌, ◌-◌, ◌%◌, ◌^◌, ◌≤◌, ◌<◌, ◌≡◌, refl, ap, ◌∙◌, ◌≢◌, ◌⊎◌, inl, inr, false, List, [], length,
  uint16, put_uint32, put_uint64, IsU32, IsU64, if◌then◌else◌, ltb, ok, arith, uint32-put_uint32,
  uint64-put_uint64,
}
use diam_gw.Prelude.Int.{
  ℤ, pos, negsuc, IsI32, IsI64, of_u32, of_u64, to_u32, to_u64, sub_ℕ, of_u32-to_u32, of_u64-to_u64,
  to_u32-lt, to_u64-lt,
}
use diam_gw.Data.Types.{
  Value, time, time_pointer, octet_string, utf8_string, diameter_identity, diameter_uri,
  ip_filter_rule, qos_filter_rule, unknown, grouped, unsigned32, unsigned64, integer32, integer64,
  enumerated, float32, float64, address, ipv4, ipv6,
}
use diam_gw.Data.Numbers.{decode_time, time_methods, rfc868_offset, rfc2030_offset}
use diam_gw.Data.Addresses.{decode_address, to4, to16, is_mapped, address_methods}
use diam_gw.Data.Decoder.{decode, methods}

-- The Unix seconds whose NTP seconds lie between the 20th of January 1968 and the 26th of February
-- 2104, where one 32-bit number stands for one of them.
abbrev pub InWindow : ℤ → Type 0
InWindow (pos n) = n < 4233462144
InWindow (negsuc n) = n < 61505152

-- The address family that a byte string of no IP address's length carries in front.
abbrev pub IsOtherFamily : List ℕ → Type 0
IsOtherFamily b = (2 < uint16 b) × (uint16 b < 65535) × (3 ≤ length b)

-- The values that a program builds from what their Go types mean.
abbrev pub IsValid : Value → Type 0
IsValid (unsigned32 n) = IsU32 n
IsValid (unsigned64 n) = IsU64 n
IsValid (integer32 z) = IsI32 z
IsValid (integer64 z) = IsI64 z
IsValid (enumerated z) = IsI32 z
IsValid (float32 n) = IsU32 n
IsValid (float64 n) = IsU64 n
IsValid (time t ns) = InWindow t × (ns ≡ 0)
IsValid (time_pointer t) = ⊥
IsValid (ipv4 b) = length b ≡ 4
IsValid (ipv6 b) = ⊥
IsValid (qos_filter_rule b) = ⊥
IsValid (address b) =
    (length b ≡ 4)
    ⊎ ((length b ≡ 16) × (is_mapped b ≡ false))
    ⊎ (IsOtherFamily b × (length b ≢ 4) × (length b ≢ 16))
IsValid v = Unit

-- The era of an NTP second is its top bit.
time_of : ℕ → ℤ
time_of w = if ltb w (2 ^ 31) then pos (w + rfc2030_offset) else sub_ℕ w rfc868_offset

decode_time-put_uint32 : (w : ℕ) → IsU32 w → decode_time (put_uint32 w) ≡ ok (time (time_of w) 0)
unfolding decode_time put_uint32 time_of
decode_time-put_uint32 w h = ground (arith, uint32-put_uint32 w [] h)

decode_time-serialize :
    (t : ℤ) → InWindow t → decode_time (time_methods t).serialize ≡ ok (time t 0)
unfolding time_methods time_of
decode_time-serialize (pos n) h =
    ground (arith, decode_time-put_uint32 ((n % 2 ^ 32 + rfc868_offset) % 2 ^ 32))
decode_time-serialize (negsuc n) h =
    ground (arith, decode_time-put_uint32 ((2 ^ 32 - 1 - n % 2 ^ 32 + rfc868_offset) % 2 ^ 32))

decode_address-serialize :
    (b : List ℕ)
    → IsValid (address b)
    → decode_address (address_methods b).serialize ≡ ok (address b)
unfolding decode_address address_methods to4 to16 uint16
decode_address-serialize b (inl v4) = ground arith
decode_address-serialize b (inr (inl (v6, unmapped))) = ground arith
decode_address-serialize b (inr (inr (family, n4, n16))) = ground arith

-- Decoding the encoding of a valid value, by the value's own type, gives the value back. Valid are numbers in the
-- range of their type, a Time of whole seconds between 1968 and 2104, an IPv4 of four bytes, and an Address that is
-- an IPv4 address of four bytes, an IPv6 address that holds no IPv4 address, or of another family and of no IP
-- address's length; and every value of the other types. Not valid are a Time with a fraction of a second, an IPv4
-- address in 16 bytes, and all values of QoSFilterRule, IPv6 and *Time.
pub decode-serialize :
    (v : Value) → IsValid v → decode (methods v).type (methods v).serialize ≡ ok v
unfolding decode methods put_uint32 put_uint64 to4
decode-serialize (octet_string b) h = refl
decode-serialize (utf8_string b) h = refl
decode-serialize (diameter_identity b) h = refl
decode-serialize (diameter_uri b) h = refl
decode-serialize (ip_filter_rule b) h = refl
decode-serialize (unknown b) h = refl
decode-serialize (grouped b) h = refl
decode-serialize (qos_filter_rule b) h = absurd h
decode-serialize (ipv6 b) h = absurd h
decode-serialize (time_pointer t) h = absurd h
decode-serialize (unsigned32 n) h = ap (λ k. ok (unsigned32 k)) (uint32-put_uint32 n [] h)
decode-serialize (unsigned64 n) h = ap (λ k. ok (unsigned64 k)) (uint64-put_uint64 n [] h)
decode-serialize (float32 n) h = ap (λ k. ok (float32 k)) (uint32-put_uint32 n [] h)
decode-serialize (float64 n) h = ap (λ k. ok (float64 k)) (uint64-put_uint64 n [] h)
decode-serialize (integer32 z) h =
    ap (λ k. ok (integer32 (of_u32 k))) (uint32-put_uint32 (to_u32 z) [] (to_u32-lt z))
    ∙ ap (λ k. ok (integer32 k)) (of_u32-to_u32 z h)
decode-serialize (enumerated z) h =
    ap (λ k. ok (enumerated (of_u32 k))) (uint32-put_uint32 (to_u32 z) [] (to_u32-lt z))
    ∙ ap (λ k. ok (enumerated k)) (of_u32-to_u32 z h)
decode-serialize (integer64 z) h =
    ap (λ k. ok (integer64 (of_u64 k))) (uint64-put_uint64 (to_u64 z) [] (to_u64-lt z))
    ∙ ap (λ k. ok (integer64 k)) (of_u64-to_u64 z h)
decode-serialize (time t ns) h = rw h.1 (decode_time-serialize t h.0)
decode-serialize (ipv4 b) h = ground arith
decode-serialize (address b) h = decode_address-serialize b h

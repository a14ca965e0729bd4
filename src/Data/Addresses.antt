-- ===== src/Data/Addresses.antt =====
-- address.go, ipv4.go and ipv6.go, with the two conversions of package net that they call.
use diam_gw.Prelude.{
  ℕ, ◌+◌, Bool, true, ◌&&◌, ◌||◌, Option, none, some, List, [], ◌∷◌, ◌++◌, length, take, drop,
  replicate, byte_at, uint16, if◌then◌else◌, ◌==◌, ltb, Result, ok, err,
}
use diam_gw.Data.Types.{
  Value, Methods, DecodeError, pad_of, address, ipv4, ipv6, address_type, ipv4_type, ipv6_type,
  not_enough_data, invalid_address_type, invalid_length_ipv4, invalid_length_ipv6,
}

all_zero : List ℕ → Bool
all_zero [] = true
all_zero (x ∷ xs) = x == 0 && all_zero xs

-- Whether sixteen bytes hold an IPv4 address, ::ffff:a.b.c.d.
unfoldable pub is_mapped : List ℕ → Bool
unfolding all_zero
is_mapped ip = all_zero (take 10 ip) && byte_at ip 10 == 0xff && byte_at ip 11 == 0xff

-- `net.IP.To4`
unfoldable pub to4 : List ℕ → Option (List ℕ)
unfolding is_mapped
to4 ip =
    if length ip == 4
    then some ip
    else if length ip == 16 && is_mapped ip
    then some (drop 12 ip)
    else none

-- `net.IP.To16`
unfoldable pub to16 : List ℕ → Option (List ℕ)
to16 ip =
    if length ip == 4
    then some (replicate 10 0 ++ (0xff ∷ 0xff ∷ ip))
    else if length ip == 16
    then some ip
    else none

-- The address families 1 and 2 are taken off; the bytes of any other keep theirs.
unfoldable pub decode_address : List ℕ → Result DecodeError Value
decode_address b =
    if ltb (length b) 3
    then err not_enough_data
    else if uint16 b == 0 || uint16 b == 65535
    then err invalid_address_type
    else if uint16 b == 1
    then (if length (drop 2 b) == 4 then ok (address (drop 2 b)) else err invalid_length_ipv4)
    else if uint16 b == 2
    then (if length (drop 2 b) == 16 then ok (address (drop 2 b)) else err invalid_length_ipv6)
    else ok (address b)

address_serialize : List ℕ → List ℕ
address_serialize addr = elim (to4 addr) [
  | some ip4 ↦ 0 ∷ 1 ∷ ip4
  | none ↦ elim (to16 addr) [ some ip6 ↦ 0 ∷ 2 ∷ addr | none ↦ addr ]
]

address_len : List ℕ → ℕ
address_len addr = elim (to4 addr) [
  | some ip4 ↦ length ip4 + 2
  | none ↦ elim (to16 addr) [ some ip6 ↦ length ip6 + 2 | none ↦ length addr ]
]

unfoldable pub address_methods : List ℕ → Methods
unfolding address_serialize address_len
address_methods addr = record {
  serialize = address_serialize addr;
  len = address_len addr;
  padding = pad_of (address_len addr);
  type = address_type;
}

unfoldable pub decode_ipv4 : List ℕ → Result DecodeError Value
decode_ipv4 b = if length b == 4 then ok (ipv4 b) else ok (ipv4 (replicate 4 0))

unfoldable pub ipv4_methods : List ℕ → Methods
ipv4_methods ip = record {
  serialize = elim (to4 ip) [ some ip4 ↦ ip4 | none ↦ ip ];
  len = 4;
  padding = 0;
  type = ipv4_type;
}

unfoldable pub decode_ipv6 : List ℕ → Result DecodeError Value
decode_ipv6 b = if length b == 16 then ok (ipv6 b) else ok (ipv6 (replicate 16 0))

unfoldable pub ipv6_methods : List ℕ → Methods
ipv6_methods ip = record {
  serialize = elim (to16 ip) [ some ip6 ↦ ip6 | none ↦ ip ];
  len = 16;
  padding = 0;
  type = ipv6_type;
}

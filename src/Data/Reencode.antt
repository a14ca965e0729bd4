-- ===== src/Data/Reencode.antt =====
-- Which input a decoded value encodes back, and which types have no decoder.
use diam_gw.Prelude.{
  ℕ, ◌+◌, ◌*◌, ◌<◌, ◌≡◌, ap, ◌≢◌, ◌↔◌, ◌⊎◌, inl, inr, true, false, List, [], ◌∷◌, length,
  length-drop, drop, All, uint16, uint32, put_uint32, IsByte, ok, arith, Bool-cases,
}
use diam_gw.Data.Types.{
  TypeId, Value, address, octet_string_type, utf8_string_type, diameter_identity_type,
  diameter_uri_type, ip_filter_rule_type, qos_filter_rule_type, unknown_type, grouped_type,
  unsigned32_type, unsigned64_type, integer32_type, integer64_type, enumerated_type, float32_type,
  float64_type, address_type, ipv4_type, ipv6_type, time_type,
}
use diam_gw.Data.Numbers.{decode_enumerated_lem}
use diam_gw.Data.Addresses.{decode_address, to4, to16, is_mapped, address_methods}
use diam_gw.Data.Decoder.{decode, methods}

-- The encodings of an Address that survive being decoded and encoded again: those of an IPv4
-- address, of an IPv6 address that holds no IPv4 address, and of another family where the bytes,
-- family included, have not the length of an IP address.
abbrev pub Reencodes : List ℕ → Type 0
Reencodes b =
    (uint16 b ≡ 1)
    ⊎ ((uint16 b ≡ 2) × (is_mapped (drop 2 b) ≡ false))
    ⊎ ((2 < uint16 b) × (length b ≢ 4) × (length b ≢ 16))

family_cases : (n : ℕ) → (n ≡ 0) ⊎ (n ≡ 1) ⊎ (n ≡ 2) ⊎ (2 < n)
family_cases n = omega arith

address_kept :
    (x y : ℕ) (c a : List ℕ)
    → IsByte x
    → IsByte y
    → decode_address (x ∷ y ∷ c) ≡ ok (address a)
    → Reencodes (x ∷ y ∷ c)
    → (address_methods a).serialize ≡ x ∷ y ∷ c
unfolding decode_address address_methods to4 to16 uint16
address_kept x y c a hx hy e (inl v4) = ground arith
address_kept x y c a hx hy e (inr (inl (v6, unmapped))) = ground arith
address_kept x y c a hx hy e (inr (inr (family, n4, n16))) = ground arith

-- A mapped IPv4 address of family 2 is encoded as one of family 1, in six bytes.
length-serialize_mapped :
    (a : List ℕ) → length a ≡ 16 → is_mapped a ≡ true → length (address_methods a).serialize ≡ 6
unfolding address_methods to4
length-serialize_mapped a n m = ground (arith, length-drop 12 a)

decode_family_two :
    (x y : ℕ) (c a : List ℕ)
    → decode_address (x ∷ y ∷ c) ≡ ok (address a)
    → x * 256 + y ≡ 2
    → (c ≡ a) × (length c ≡ 16)
unfolding decode_address uint16
decode_family_two x y c a e f = ground arith

mapped_clash :
    (x y : ℕ) (c a : List ℕ)
    → decode_address (x ∷ y ∷ c) ≡ ok (address a)
    → x * 256 + y ≡ 2
    → is_mapped c ≡ true
    → (address_methods a).serialize ≡ x ∷ y ∷ c
    → ⊥
mapped_clash x y c a e f m s =
    let (same, n) = decode_family_two x y c a e f in
    let short = length-serialize_mapped c n m in
    omega (arith, ap (λ l. length (address_methods l).serialize) same, short, ap length s, n)

address_only_kept :
    (x y : ℕ) (c a : List ℕ)
    → IsByte x
    → IsByte y
    → decode_address (x ∷ y ∷ c) ≡ ok (address a)
    → (address_methods a).serialize ≡ x ∷ y ∷ c
    → Reencodes (x ∷ y ∷ c)
unfolding decode_address address_methods to4 to16 uint16
address_only_kept x y c a hx hy e s = elim (family_cases (x * 256 + y)) [
  | inl f0 ↦ absurd (ground arith)
  | inr (inl f1) ↦ inl f1
  | inr (inr (inl f2)) ↦ elim (Bool-cases (is_mapped c)) [
    | inl mapped ↦ absurd (mapped_clash x y c a e f2 mapped s)
    | inr unmapped ↦ inr (inl (f2, unmapped))
  ]
  | inr (inr (inr f3)) ↦ inr (
      inr (
        f3,
        (λ n4. ground (arith, ap length s)),
        λ n16. ground (arith, ap length s, length-drop 12 (x ∷ y ∷ c)),
      ))
]

-- An Address decoded from bytes encodes to the same bytes exactly when they are one of these.
pub address-Reencodes :
    (b a : List ℕ)
    → All IsByte b
    → decode_address b ≡ ok (address a)
    → ((address_methods a).serialize ≡ b) ↔ Reencodes b
address-Reencodes [] a h e = absurd (short e)
  where
    short : decode_address [] ≡ ok (address a) → ⊥
    short q = unfold decode_address in cc
address-Reencodes (x ∷ []) a h e = absurd (short e)
  where
    short : decode_address (x ∷ []) ≡ ok (address a) → ⊥
    short q = unfold decode_address in cc
address-Reencodes (x ∷ y ∷ c) a h e =
    (address_only_kept x y c a h.0 h.1.0 e, address_kept x y c a h.0 h.1.0 e)

put_uint32-uint32 :
    (a b c d : ℕ)
    → All IsByte (a ∷ b ∷ c ∷ d ∷ [])
    → put_uint32 (uint32 (a ∷ b ∷ c ∷ d ∷ [])) ≡ a ∷ b ∷ c ∷ d ∷ []
unfolding put_uint32 uint32
put_uint32-uint32 a b c d h = ground arith

-- A value that a decoder returns has the type that was asked for.
pub type-decode : (t : TypeId) (b : List ℕ) (v : Value) → decode t b ≡ ok v → (methods v).type ≡ t
unfolding decode methods
type-decode unknown_type b v e = ground arith
type-decode address_type b v e = ground arith
type-decode diameter_identity_type b v e = ground arith
type-decode diameter_uri_type b v e = ground arith
type-decode enumerated_type b v e = ground (arith, decode_enumerated_lem b)
type-decode float32_type b v e = ground arith
type-decode float64_type b v e = ground arith
type-decode grouped_type b v e = ground arith
type-decode ip_filter_rule_type b v e = ground arith
type-decode ipv4_type b v e = ground arith
type-decode integer32_type b v e = ground arith
type-decode integer64_type b v e = ground arith
type-decode octet_string_type b v e = ground arith
type-decode qos_filter_rule_type b v e = ground arith
type-decode time_type b v e = ground arith
type-decode utf8_string_type b v e = ground arith
type-decode unsigned32_type b v e = ground arith
type-decode unsigned64_type b v e = ground arith
type-decode ipv6_type b v e = ground arith

-- ===== src/Data/Runs.antt =====
-- Runs of the data types on small values.
use diam_gw.Prelude.{◌≡◌, ◌≢◌, ◌↔◌, refl, [], ◌∷◌, All, arith, IsByte, uint16, uint32, ok}
use diam_gw.Prelude.Int.{pos}
use diam_gw.Data.Types.{octet_string, unsigned32, address, time, unsigned32_type, grouped_type}
use diam_gw.Data.Addresses.{decode_address, address_methods, to4}
use diam_gw.Data.Decoder.{decode, methods}
use diam_gw.Data.RoundTrip.{decode-serialize}
use diam_gw.Data.Reencode.{Reencodes, address-Reencodes}

octets_apart : (methods (octet_string (1 ∷ 2 ∷ 3 ∷ 4 ∷ 5 ∷ []))).type ≢ grouped_type
unfolding methods
octets_apart = λ e. cc

decoded : decode unsigned32_type (0 ∷ 0 ∷ 1 ∷ 2 ∷ []) ≡ ok (unsigned32 258)
unfolding decode uint32
decoded = refl

address_decoded : decode_address (0 ∷ 1 ∷ 10 ∷ 0 ∷ 0 ∷ 1 ∷ []) ≡ ok (address (10 ∷ 0 ∷ 0 ∷ 1 ∷ []))
unfolding decode_address uint16
address_decoded = refl

bytes : All IsByte (0 ∷ 1 ∷ 10 ∷ 0 ∷ 0 ∷ 1 ∷ [])
bytes = ground arith

decode-serialize_example :
    decode (methods (time (pos 1700000000) 0)).type (methods (time (pos 1700000000) 0)).serialize
    ≡ ok (time (pos 1700000000) 0)
decode-serialize_example = decode-serialize (time (pos 1700000000) 0) (omega arith, refl)

-- An IPv4 address.
address-Reencodes_example :
    ((address_methods (10 ∷ 0 ∷ 0 ∷ 1 ∷ [])).serialize ≡ 0 ∷ 1 ∷ 10 ∷ 0 ∷ 0 ∷ 1 ∷ [])
    ↔ Reencodes (0 ∷ 1 ∷ 10 ∷ 0 ∷ 0 ∷ 1 ∷ [])
address-Reencodes_example =
    address-Reencodes (0 ∷ 1 ∷ 10 ∷ 0 ∷ 0 ∷ 1 ∷ []) (10 ∷ 0 ∷ 0 ∷ 1 ∷ []) bytes address_decoded

-- An address of the family 3 (NSAP) whose two bytes and payload are four long is encoded as IPv4.
address_of_other_family :
    (address_methods (0 ∷ 3 ∷ 7 ∷ 8 ∷ [])).serialize ≡ 0 ∷ 1 ∷ 0 ∷ 3 ∷ 7 ∷ 8 ∷ []
unfolding address_methods to4
address_of_other_family = refl

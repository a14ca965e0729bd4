-- ===== src/Dra/ProtocolError.antt =====
-- dra/start.go: the error answer that sendProtocolError builds.
use diam_gw.Prelude.{ℕ, ◌+◌, List, ◌∷◌, ◌++◌, length, true, bit_and, bit_or, put_uint24, put_uint32}
use diam_gw.Dra.Header.{ParsedHeader, header_len}
use diam_gw.Dra.Avp.{avp_origin_host, avp_origin_realm}
use diam_gw.Dra.Rewrite.{encode_string_avp}

abbrev pub diameter_unable_to_deliver : ℕ
diameter_unable_to_deliver = 3002

abbrev pub diameter_realm_not_served : ℕ
diameter_realm_not_served = 3003

abbrev pub diameter_invalid_avp_value : ℕ
diameter_invalid_avp_value = 5004

abbrev pub diameter_unable_to_comply : ℕ
diameter_unable_to_comply = 5012

-- `rcAvp`
unfoldable pub result_code_avp : ℕ → List ℕ
unfolding put_uint32
result_code_avp result_code = 0 ∷ 0 ∷ 1 ∷ 12 ∷ 0x40 ∷ 0 ∷ 0 ∷ 12 ∷ put_uint32 result_code

unfoldable pub error_avps : List ℕ → List ℕ → ℕ → List ℕ
unfolding result_code_avp encode_string_avp
error_avps host realm result_code =
    result_code_avp result_code
    ++ (encode_string_avp avp_origin_host host true
        ++ encode_string_avp avp_origin_realm realm true)

-- The header of an answer of the given total length.
unfoldable pub error_header : ParsedHeader → ℕ → List ℕ
unfolding put_uint24 put_uint32
error_header req total =
    1
    ∷ (put_uint24 total
        ++ (bit_or (bit_and req.flags 0x40) 0x20
            ∷ (put_uint24 req.command_code
                ++ (put_uint32 req.application_id
                    ++ (put_uint32 req.hop_by_hop_id ++ put_uint32 req.end_to_end_id)))))

-- What is sent: the header and the AVPs.
unfoldable pub protocol_error : List ℕ → List ℕ → ParsedHeader → ℕ → List ℕ
unfolding error_header error_avps
protocol_error host realm req result_code =
    let avps = error_avps host realm result_code in
    error_header req (header_len + length avps) ++ avps

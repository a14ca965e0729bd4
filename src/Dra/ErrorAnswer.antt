-- ===== src/Dra/ErrorAnswer.antt =====
-- The error answer that the agent sends, as its receiver reads it.
use diam_gw.Prelude.{
  ℕ, ◌+◌, ◌*◌, ◌/◌, ◌%◌, ◌^◌, ◌<◌, ◌≡◌, refl, sym, ap, ◌∙◌, List, [], ◌∷◌, ◌++◌, length, All,
  bit_and, bit_or, bit_and-40, bit_or-shift, IsByte, IsU24, IsU32, drop, drop-append, put_uint32,
  put_uint24, slice, uint32-put_uint32, length-append, append-nil, arith,
}
use diam_gw.Dra.Outcome.{ok}
use diam_gw.Dra.Header.{ParsedHeader, header_view, parse_header}
use diam_gw.Dra.Avp.{RoutingView, extract_routing, avp_origin_host, avp_origin_realm, pad_up}
use diam_gw.Dra.Layout.{WireAvp, IsWireAvp, print_avp, print_vendor, or_uint24-put_uint24}
use diam_gw.Dra.Iterate.{print_avps, length-print_avps_mod}
use diam_gw.Dra.Routing.{payloads_of, last_or, extract_routing-print}
use diam_gw.Dra.Proxy.{agent_avp, agent_avp-IsWireAvp}
use diam_gw.Dra.Outgoing.{header_view-append, parse_header-long}
use diam_gw.Dra.ProtocolError.{result_code_avp, error_avps, error_header, protocol_error}

-- The header fields are those of a message: a byte, 24 and 32 bits.
pub record IsParsed (h : ParsedHeader) : Type 0 where
  pub flags_byte : IsByte h.flags
  pub command_24 : IsU24 h.command_code
  pub application_32 : IsU32 h.application_id
  pub hop_by_hop_32 : IsU32 h.hop_by_hop_id
  pub end_to_end_32 : IsU32 h.end_to_end_id

error_flags : (f : ℕ) → IsByte f → bit_or (bit_and f 0x40) 0x20 ≡ f / 64 % 2 * 64 + 32
error_flags f h = rw (bit_and-40 f h) (bit_or-shift 6 (f / 64 % 2) 32 (omega arith))

-- The header that an error answer of the given length has.
abbrev pub error_view : ParsedHeader → ℕ → ParsedHeader
error_view req total = record {
  version = 1;
  length = total;
  flags = req.flags / 64 % 2 * 64 + 32;
  command_code = req.command_code;
  application_id = req.application_id;
  hop_by_hop_id = req.hop_by_hop_id;
  end_to_end_id = req.end_to_end_id;
}

header_view-error_header :
    (req : ParsedHeader) (total : ℕ)
    → IsParsed req
    → IsU24 total
    → header_view (error_header req total) ≡ error_view req total
unfolding header_view error_header put_uint24 put_uint32 slice
header_view-error_header req total v n = λ i. record {
  version = 1;
  length = or_uint24-put_uint24 total n i;
  flags = error_flags req.flags v.flags_byte i;
  command_code = or_uint24-put_uint24 req.command_code v.command_24 i;
  application_id = uint32-put_uint32 req.application_id [] v.application_32 i;
  hop_by_hop_id = uint32-put_uint32 req.hop_by_hop_id [] v.hop_by_hop_32 i;
  end_to_end_id = uint32-put_uint32 req.end_to_end_id [] v.end_to_end_32 i;
}

abbrev result_code : ℕ → WireAvp
result_code code = record {
  code = 268;
  flags = 0x40;
  vendor = 0;
  payload = put_uint32 code;
  filler = [];
}

abbrev pub error_list : List ℕ → List ℕ → ℕ → List WireAvp
error_list host realm code =
    result_code code ∷ agent_avp avp_origin_host host ∷ agent_avp avp_origin_realm realm ∷ []

error_avps-print :
    (host realm : List ℕ) (code : ℕ)
    → error_avps host realm code ≡ print_avps (error_list host realm code)
unfolding error_avps print_avps result_code_avp print_avp print_vendor put_uint32 put_uint24
    agent_avp
error_avps-print host realm code =
    ap (λ t. result_code_avp code ++ (print_avp (agent_avp avp_origin_host host) ++ t))
      (sym (append-nil (print_avp (agent_avp avp_origin_realm realm))))

error_list-IsWireAvp :
    (host realm : List ℕ) (code : ℕ)
    → length host + 8 < 2 ^ 24
    → length realm + 8 < 2 ^ 24
    → All IsWireAvp (error_list host realm code)
unfolding pad_up put_uint32
error_list-IsWireAvp host realm code h r = (
  record {
    headed = record {
      code_32 = omega arith;
      flags_byte = omega arith;
      vendor_32 = omega arith;
      total_24 = omega arith;
    };
    filled = refl;
  },
  (
    agent_avp-IsWireAvp avp_origin_host host (omega arith) h,
    (agent_avp-IsWireAvp avp_origin_realm realm (omega arith) r, tt),
  ),
)

length-error_header : (req : ParsedHeader) (total : ℕ) → length (error_header req total) ≡ 20
unfolding error_header put_uint24 put_uint32
length-error_header req total = refl

from_error_list :
    (host realm header : List ℕ) (code : ℕ)
    → length header ≡ 20
    → length host + 8 < 2 ^ 24
    → length realm + 8 < 2 ^ 24
    → (rv : RoutingView) × (extract_routing (header ++ print_avps (error_list host realm code))
        ≡ ok rv)
      × (rv.origin_host ≡ host)
      × (rv.origin_realm ≡ realm)
      × (rv.destination_host ≡ [])
      × (rv.destination_realm ≡ [])
unfolding payloads_of last_or agent_avp
from_error_list host realm header code n h r =
    let (rv, e, oh, or, dh, dr, _, _) =
      extract_routing-print header (error_list host realm code) n
        (error_list-IsWireAvp host realm code h r) in
    (rv, e, oh, or, dh, dr)

-- The receiver of the agent's error answer reads from it: not a request, with the error bit, the proxiable bit of
-- the request, and the request's command code, application and both ids; the stated length is the length, a
-- multiple of four; the origin is the agent's; and the first AVP is the Result-Code. (The agent's names and
-- the answer fit their 24-bit lengths.)
pub parse_header-protocol_error :
    (host realm : List ℕ) (req : ParsedHeader) (code : ℕ)
    → IsParsed req
    → length host + 8 < 2 ^ 24
    → length realm + 8 < 2 ^ 24
    → 20 + length (error_avps host realm code) < 2 ^ 24
    → (parse_header (protocol_error host realm req code)
        ≡ ok (error_view req (length (protocol_error host realm req code))))
      × (length (protocol_error host realm req code) % 4 ≡ 0)
      × (drop 20 (protocol_error host realm req code) ≡ print_avps (error_list host realm code))
      × ((rv : RoutingView) × (extract_routing (protocol_error host realm req code) ≡ ok rv)
          × (rv.origin_host ≡ host)
          × (rv.origin_realm ≡ realm)
          × (rv.destination_host ≡ [])
          × (rv.destination_realm ≡ []))
unfolding protocol_error
parse_header-protocol_error host realm req code v h r fits =
    let body = error_avps host realm code in
    let total = 20 + length body in
    let header = error_header req total in
    let n = length-error_header req total in
    let printed = error_avps-print host realm code in
    let sized : length (header ++ body) ≡ total = omega (arith, length-append header body) in
    let dropped : drop 20 (header ++ body) ≡ body =
      ap (λ k. drop k (header ++ body)) (sym n) ∙ drop-append header body in
    (
      parse_header-long (header ++ body) (omega (arith, sized))
          ∙ ap ok (
              header_view-append header body (omega (arith, n))
              ∙ header_view-error_header req total v fits
              ∙ ap (error_view req) (sym sized)),
      omega (
        arith,
        sized,
        ap length printed,
        length-print_avps_mod (error_list host realm code)
            (error_list-IsWireAvp host realm code h r),
      ),
      dropped ∙ printed,
      rw printed (from_error_list host realm header code n h r),
    )

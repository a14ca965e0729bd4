-- ===== src/Dra/Runs.antt =====
-- Runs of the agent's functions on small messages.
use diam_gw.Prelude.{
  ℕ, ◌+◌, ◌≡◌, ◌≢◌, refl, List, [], ◌∷◌, ◌++◌, length, or_uint24, All, arith, ◌<◌, ◌^◌,
}
use diam_gw.Dra.Outcome.{Outcome, ok, err, panic, stuck, short_header, bad_avp_length}
use diam_gw.Dra.Header.{parse_header}
use diam_gw.Dra.Avp.{
  Avp, RoutingView, iterate_avps, avp_loop, read_avp, pad_up, extract_routing, avp_destination_host,
  avp_destination_realm,
}
use diam_gw.Dra.Rewrite.{rewrite_origin_host_realm}
use diam_gw.Dra.Layout.{WireAvp, IsWireAvp, print_avp, print_vendor}
use diam_gw.Dra.Iterate.{print_avps, iterate_avps-ne-stuck}
use diam_gw.Dra.Routing.{payloads_of, last_or, has_any}
use diam_gw.Dra.Proxy.{
  forwarded, replaced, appended, agent_avp, set_length, rewrite_origin_host_realm-print,
}
use diam_gw.Dra.Origin.{extract_routing-rewrite_origin_host_realm}
use diam_gw.Dra.Unpadded.{IsUnpadded, rewrite_origin_host_realm-panics}

abbrev header : List ℕ
header = 1 ∷ 0 ∷ 0 ∷ 44 ∷ 128 ∷ 0 ∷ 1 ∷ 24 ∷ 0 ∷ 0 ∷ 0 ∷ 0 ∷ 0 ∷ 0 ∷ 0 ∷ 7 ∷ 0 ∷ 0 ∷ 0 ∷ 9 ∷ []

-- An Origin-Host and a Session-Id.
abbrev origin : WireAvp
origin = record {
  code = 264;
  flags = 64;
  vendor = 0;
  payload = 104 ∷ 49 ∷ 46 ∷ 120 ∷ [];
  filler = [];
}

abbrev session : WireAvp
session = record {
  code = 263;
  flags = 64;
  vendor = 0;
  payload = 115 ∷ 51 ∷ [];
  filler = 0 ∷ 0 ∷ [];
}

-- The Session-Id without its two bytes of filler.
abbrev unpadded : WireAvp
unpadded = record { code = 263; flags = 64; vendor = 0; payload = 115 ∷ 51 ∷ []; filler = [] }

abbrev avps : List WireAvp
avps = origin ∷ session ∷ []

abbrev host : List ℕ
host = 100 ∷ 114 ∷ 97 ∷ []

abbrev realm : List ℕ
realm = 120 ∷ []

origin-IsWireAvp : IsWireAvp origin
unfolding pad_up
origin-IsWireAvp = record {
  headed = record {
    code_32 = omega arith;
    flags_byte = omega arith;
    vendor_32 = omega arith;
    total_24 = omega arith;
  };
  filled = refl;
}

session-IsWireAvp : IsWireAvp session
unfolding pad_up
session-IsWireAvp = record {
  headed = record {
    code_32 = omega arith;
    flags_byte = omega arith;
    vendor_32 = omega arith;
    total_24 = omega arith;
  };
  filled = refl;
}

unpadded-IsUnpadded : IsUnpadded unpadded
unfolding pad_up
unpadded-IsUnpadded = record {
  headed = record {
    code_32 = omega arith;
    flags_byte = omega arith;
    vendor_32 = omega arith;
    total_24 = omega arith;
  };
  short = omega arith;
  no_host = refl;
  no_realm = refl;
}

avps-IsWireAvp : All IsWireAvp avps
avps-IsWireAvp = (origin-IsWireAvp, (session-IsWireAvp, tt))

small : 20 + length (print_avps (forwarded host realm avps)) < 2 ^ 24
unfolding print_avps forwarded replaced appended payloads_of has_any print_avp print_vendor
    agent_avp pad_up
small = omega arith

rewrite_origin_host_realm-print_example :
    rewrite_origin_host_realm (header ++ print_avps avps) host realm
    ≡ ok (
        set_length header (20 + length (print_avps (forwarded host realm avps)))
        ++ print_avps (forwarded host realm avps))
rewrite_origin_host_realm-print_example =
    rewrite_origin_host_realm-print host realm header avps refl avps-IsWireAvp

extract_routing-rewrite_origin_host_realm_example :
    (out : List ℕ) × (rv : RoutingView) × (rewrite_origin_host_realm
        (header ++ print_avps avps)
        host
        realm
      ≡ ok out)
    × (extract_routing out ≡ ok rv)
    × (rv.origin_host ≡ host)
    × (rv.origin_realm ≡ realm)
    × (rv.destination_host ≡ last_or [] (payloads_of avp_destination_host avps))
    × (rv.destination_realm ≡ last_or [] (payloads_of avp_destination_realm avps))
extract_routing-rewrite_origin_host_realm_example =
    extract_routing-rewrite_origin_host_realm host realm header avps refl avps-IsWireAvp
      (omega arith) (omega arith)

-- A callback that keeps the codes.
abbrev keep_code : List ℕ → Avp → Outcome (List ℕ)
keep_code codes a = ok (a.code ∷ codes)

iterate_avps-ne-stuck_example : iterate_avps (header ++ 1 ∷ 2 ∷ 3 ∷ []) keep_code [] ≢ stuck
iterate_avps-ne-stuck_example =
    iterate_avps-ne-stuck keep_code (header ++ 1 ∷ 2 ∷ 3 ∷ []) [] (λ s a q. cc)

rewrite_origin_host_realm-panics_example :
    rewrite_origin_host_realm
      (header ++ (print_avps (origin ∷ []) ++ print_avp unpadded))
      host
      realm
    ≡ panic
rewrite_origin_host_realm-panics_example =
    rewrite_origin_host_realm-panics host realm header (origin ∷ []) unpadded refl
      (origin-IsWireAvp, tt) unpadded-IsUnpadded

-- Too short a header, and an AVP whose length passes the end of the message.
parse_header-short : parse_header (1 ∷ 0 ∷ 0 ∷ []) ≡ err short_header
unfolding parse_header
parse_header-short = refl

extract_routing-truncated :
    extract_routing (header ++ 0 ∷ 0 ∷ 1 ∷ 8 ∷ 64 ∷ 0 ∷ 0 ∷ 40 ∷ []) ≡ err bad_avp_length
unfolding extract_routing iterate_avps avp_loop read_avp or_uint24
extract_routing-truncated = refl

-- ===== src/Dra/NodeRuns.antt =====
-- Runs of an agent with two peers.
use mathlib.Core.List.{Memᴰ}
use diam_gw.Prelude.{
  ℕ, ◌+◌, ◌%◌, ◌^◌, ◌<◌, ◌≡◌, ◌⊎◌, refl, List, [], ◌∷◌, ◌++◌, length, drop, Bool, true, none,
  delete, put, arith, or_uint24, put_uint32, put_uint24, slice, uint32, str_eq,
}
use diam_gw.Dra.Outcome.{Outcome, ok}
use diam_gw.Dra.Header.{ParsedHeader, header_view, parse_header, is_request, set_hop_by_hop}
use diam_gw.Dra.Avp.{
  RoutingView, extract_routing, iterate_avps, avp_loop, read_avp, note_avp, pad_up,
}
use diam_gw.Dra.Rewrite.{
  rewrite_origin_host_realm, rewrite_avp, append_missing, fix_length, encode_string_avp,
}
use diam_gw.Dra.Peers.{
  Peer, same_peer, peer_registry_key, delete_key, register_peer, peer_by_host, peers_by_realm,
  read_message,
}
use diam_gw.Dra.Pending.{put_pending, without_sender, pick_in_realm, pick_peer, is_empty}
use diam_gw.Dra.ProtocolError.{protocol_error}
use diam_gw.Dra.Node.{
  DraNode, Surroundings, WatchdogCodec, new_dra_node, next_hop_by_hop, log, send,
  send_protocol_error, relay_to, relay_request, route_request, forward_request, forward_answer,
  peer_joins, dispatch, handle_message,
}
use diam_gw.Dra.Waiting.{Reachable, joins, handles, started, stepped, Reachable-Waiting}
use diam_gw.Dra.Invariant.{Waiting}
use diam_gw.Dra.Relay.{fresh_id, Relayed, Refused, forward_request_lem}
use diam_gw.Dra.Avp.{no_routing}
use diam_gw.Dra.Picking.{candidates, Decides, pick_peer-Decides}
use diam_gw.Dra.ProtocolError.{error_avps, result_code_avp}
use diam_gw.Dra.ErrorAnswer.{IsParsed, error_view, error_list, parse_header-protocol_error}
use diam_gw.Dra.Iterate.{print_avps}
use diam_gw.Dra.Layout.{WireAvp, IsWireAvp, print_avp, print_vendor}
use diam_gw.Dra.Routing.{payloads_of, has_any}
use diam_gw.Dra.Proxy.{forwarded, replaced, appended, agent_avp}
use diam_gw.Dra.Answering.{IsSendable, IsRouted, SentFor, forward_answer-forward_request}
use diam_gw.Dra.Framing.{IsFrame, read_message_accepts}
use diam_gw.Wire.Reader.{Reader, eof}
use diam_gw.Prelude.{Result, ◌↔◌}

abbrev alpha : Peer
alpha = record { id = 1; addr = 49 ∷ []; origin_host = 97 ∷ []; origin_realm = 120 ∷ [] }

abbrev beta : Peer
beta = record { id = 2; addr = 50 ∷ []; origin_host = 98 ∷ []; origin_realm = 121 ∷ [] }

abbrev up : Surroundings
up = record { by_host = alpha ∷ beta ∷ []; by_realm = alpha ∷ beta ∷ []; delivers = λ p m. true }

-- No watchdog message is sent here.
abbrev no_watchdog : WatchdogCodec
no_watchdog = record { unmarshal_dwr = λ m. none; marshal_dwa = λ h e o r. none }

-- A request with the ids 7 and 9 for the realm of `beta`.
abbrev request : List ℕ
request =
    1 ∷ 0 ∷ 0 ∷ 32 ∷ 192 ∷ 0 ∷ 1 ∷ 60 ∷ 1 ∷ 0 ∷ 0 ∷ 35 ∷ 0 ∷ 0 ∷ 0 ∷ 7 ∷ 0 ∷ 0 ∷ 0 ∷ 9 ∷ 0 ∷ 0 ∷ 1
    ∷ 27 ∷ 64 ∷ 0 ∷ 0 ∷ 9 ∷ 121 ∷ 0 ∷ 0 ∷ 0 ∷ []

abbrev host : List ℕ
host = 100 ∷ []

abbrev realm : List ℕ
realm = 122 ∷ []

node : DraNode
unfolding new_dra_node peer_joins
node = peer_joins beta (peer_joins alpha (new_dra_node host realm))

node_of : DraNode → Outcome (Bool × DraNode) → DraNode
node_of d (ok r) = r.1
node_of d _ = d

after : DraNode
unfolding node node_of
after = node_of node (handle_message no_watchdog up alpha request node)

-- The request is sent on and waits.
after_waits : handle_message no_watchdog up alpha request node ≡ ok (true, after)
unfolding after node_of node handle_message parse_header header_view or_uint24 slice uint32
    new_dra_node peer_joins register_peer peer_registry_key delete_key str_eq log dispatch
    is_request forward_request extract_routing iterate_avps avp_loop read_avp note_avp pad_up
    is_empty route_request pick_peer pick_in_realm without_sender same_peer peers_by_realm
    peer_by_host rewrite_origin_host_realm rewrite_avp append_missing fix_length encode_string_avp
    put_uint32 put_uint24 relay_request next_hop_by_hop set_hop_by_hop relay_to put_pending put
    delete send send_protocol_error protocol_error
after_waits = refl

reached : Reachable 1 (beta ∷ alpha ∷ []) after
unfolding node
reached =
    stepped 0 1 (beta ∷ alpha ∷ []) (beta ∷ alpha ∷ []) node after
      (stepped 0 0 (alpha ∷ []) (beta ∷ alpha ∷ []) (peer_joins alpha (new_dra_node host realm))
        node
        (stepped 0 0 [] (alpha ∷ []) (new_dra_node host realm)
          (peer_joins alpha (new_dra_node host realm)) (started host realm) (joins alpha _ refl))
        (joins beta _ refl))
      (handles no_watchdog up alpha request true after (Memᴰ.tail (Memᴰ.head refl)) after_waits)

Reachable-Waiting_example : Waiting 1 (beta ∷ alpha ∷ []) after
Reachable-Waiting_example = Reachable-Waiting 1 (beta ∷ alpha ∷ []) after (omega arith) reached

-- The same request, without the loop around its handling.
forwarded_node : DraNode
unfolding after
forwarded_node = after

forwards : forward_request up alpha request (header_view request) node ≡ ok forwarded_node
unfolding after node_of node handle_message parse_header header_view or_uint24 slice uint32
    new_dra_node peer_joins register_peer peer_registry_key delete_key str_eq log dispatch
    is_request forward_request extract_routing iterate_avps avp_loop read_avp note_avp pad_up
    is_empty route_request pick_peer pick_in_realm without_sender same_peer peers_by_realm
    peer_by_host rewrite_origin_host_realm rewrite_avp append_missing fix_length encode_string_avp
    put_uint32 put_uint24 relay_request next_hop_by_hop set_hop_by_hop relay_to put_pending put
    delete send send_protocol_error protocol_error forwarded_node
forwards = refl

forward_request_lem_example :
    Relayed up alpha (header_view request) node forwarded_node
    ⊎ Refused up alpha (header_view request) node forwarded_node
forward_request_lem_example =
    forward_request_lem up alpha request (header_view request) node forwarded_node forwards

-- The routing of that request.
abbrev view : RoutingView
view = record no_routing { destination_realm = 121 ∷ [] }

pick_peer-Decides_example :
    Decides
      (alpha ∷ beta ∷ [])
      (alpha ∷ beta ∷ [])
      view
      alpha
      (pick_peer (alpha ∷ beta ∷ []) (alpha ∷ beta ∷ []) view alpha 4).0
pick_peer-Decides_example = pick_peer-Decides (alpha ∷ beta ∷ []) (alpha ∷ beta ∷ []) view alpha 4

-- A third peer, of the same realm as the second.
abbrev gamma : Peer
gamma = record { id = 3; addr = 51 ∷ []; origin_host = 99 ∷ []; origin_realm = 121 ∷ [] }

two_candidates : candidates (121 ∷ []) (alpha ∷ beta ∷ gamma ∷ []) alpha ≡ beta ∷ gamma ∷ []
unfolding without_sender peers_by_realm same_peer str_eq
two_candidates = refl

abbrev parsed : ParsedHeader
parsed = record {
  version = 1;
  length = 32;
  flags = 192;
  command_code = 316;
  application_id = 16777251;
  hop_by_hop_id = 7;
  end_to_end_id = 9;
}

parsed-IsParsed : IsParsed parsed
parsed-IsParsed = record {
  flags_byte = omega arith;
  command_24 = omega arith;
  application_32 = omega arith;
  hop_by_hop_32 = omega arith;
  end_to_end_32 = omega arith;
}

short_answer : 20 + length (error_avps host realm 3002) < 2 ^ 24
unfolding error_avps result_code_avp encode_string_avp put_uint32 put_uint24 pad_up
short_answer = omega arith

parse_header-protocol_error_example :
    (parse_header (protocol_error host realm parsed 3002)
      ≡ ok (error_view parsed (length (protocol_error host realm parsed 3002))))
    × (length (protocol_error host realm parsed 3002) % 4 ≡ 0)
    × (drop 20 (protocol_error host realm parsed 3002) ≡ print_avps (error_list host realm 3002))
    × ((rv : RoutingView) × (extract_routing (protocol_error host realm parsed 3002) ≡ ok rv)
        × (rv.origin_host ≡ host)
        × (rv.origin_realm ≡ realm)
        × (rv.destination_host ≡ [])
        × (rv.destination_realm ≡ []))
parse_header-protocol_error_example =
    parse_header-protocol_error host realm parsed 3002 parsed-IsParsed (omega arith) (omega arith)
      short_answer

abbrev stream : Reader
stream = record { bytes = request ++ 1 ∷ 0 ∷ []; fault = eof }

abbrev left_over : Reader
left_over = record { bytes = 1 ∷ 0 ∷ []; fault = eof }

read_message_accepts_example : (read_message stream ≡ (Result.ok request, left_over)) ↔ (
    IsFrame request
    × (stream.bytes ≡ request ++ left_over.bytes)
    × (left_over.fault ≡ stream.fault))
read_message_accepts_example = read_message_accepts stream left_over request

-- That request by its header and its one AVP, and an answer to the id 1 with the AVP of a result.
abbrev asked : List ℕ
asked = 1 ∷ 0 ∷ 0 ∷ 32 ∷ 192 ∷ 0 ∷ 1 ∷ 60 ∷ 1 ∷ 0 ∷ 0 ∷ 35 ∷ 0 ∷ 0 ∷ 0 ∷ 7 ∷ 0 ∷ 0 ∷ 0 ∷ 9 ∷ []

abbrev answered : List ℕ
answered = 1 ∷ 0 ∷ 0 ∷ 32 ∷ 64 ∷ 0 ∷ 1 ∷ 60 ∷ 1 ∷ 0 ∷ 0 ∷ 35 ∷ 0 ∷ 0 ∷ 0 ∷ 1 ∷ 0 ∷ 0 ∷ 0 ∷ 9 ∷ []

abbrev to_realm : WireAvp
to_realm = record {
  code = 283;
  flags = 64;
  vendor = 0;
  payload = 121 ∷ [];
  filler = 0 ∷ 0 ∷ 0 ∷ [];
}

abbrev success : WireAvp
success = record { code = 268; flags = 64; vendor = 0; payload = 0 ∷ 0 ∷ 7 ∷ 209 ∷ []; filler = [] }

to_realm-IsWireAvp : IsWireAvp to_realm
unfolding pad_up
to_realm-IsWireAvp = record {
  headed = record {
    code_32 = omega arith;
    flags_byte = omega arith;
    vendor_32 = omega arith;
    total_24 = omega arith;
  };
  filled = refl;
}

success-IsWireAvp : IsWireAvp success
unfolding pad_up
success-IsWireAvp = record {
  headed = record {
    code_32 = omega arith;
    flags_byte = omega arith;
    vendor_32 = omega arith;
    total_24 = omega arith;
  };
  filled = refl;
}

request-IsSendable : IsSendable host realm asked (to_realm ∷ [])
unfolding print_avps forwarded replaced appended payloads_of has_any print_avp print_vendor
    agent_avp pad_up
request-IsSendable = record {
  twenty = refl;
  well_formed = (to_realm-IsWireAvp, tt);
  host_24 = omega arith;
  realm_24 = omega arith;
  fits = omega arith;
}

answer-IsSendable : IsSendable host realm answered (success ∷ [])
unfolding print_avps forwarded replaced appended payloads_of has_any print_avp print_vendor
    agent_avp pad_up
answer-IsSendable = record {
  twenty = refl;
  well_formed = (success-IsWireAvp, tt);
  host_24 = omega arith;
  realm_24 = omega arith;
  fits = omega arith;
}

routed : IsRouted up alpha node asked (to_realm ∷ []) beta
unfolding extract_routing iterate_avps avp_loop read_avp note_avp pad_up slice uint32 or_uint24
    print_avps print_avp print_vendor put_uint32 put_uint24 is_empty pick_peer pick_in_realm
    without_sender same_peer peers_by_realm peer_by_host str_eq node new_dra_node peer_joins log
    register_peer peer_registry_key delete_key
routed = record {
  sendable = request-IsSendable;
  view = view;
  read = refl;
  has_realm = refl;
  picked = refl;
}

forward_answer-forward_request_example :
    (d1 : DraNode) × (d2 : DraNode) × (out : List ℕ) × (back : List ℕ) × (forward_request up alpha
        (asked ++ print_avps (to_realm ∷ []))
        (header_view asked)
        node
      ≡ ok d1)
    × (forward_answer up beta (answered ++ print_avps (success ∷ [])) (header_view answered) d1
        ≡ ok d2)
    × (d2.sent ≡ node.sent ++ (beta, out) ∷ (alpha, back) ∷ [])
    × SentFor node.origin_host node.origin_realm asked (to_realm ∷ []) (fresh_id node) out
    × SentFor node.origin_host node.origin_realm answered
        (success ∷ [])
        (header_view asked).hop_by_hop_id
        back
    × (d2.pending ≡ delete (fresh_id node) node.pending)
unfolding node new_dra_node peer_joins log header_view slice uint32
forward_answer-forward_request_example =
    forward_answer-forward_request up alpha beta beta node asked (to_realm ∷ []) answered
      (success ∷ []) (λ p m. refl) routed answer-IsSendable (omega arith) refl

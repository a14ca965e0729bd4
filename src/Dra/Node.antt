-- ===== src/Dra/Node.antt =====
-- dra/node.go and dra/start.go: the agent's state, and what it does with the messages of a peer.
use diam_gw.Prelude.{
  ℕ, ◌+◌, ◌-◌, ltb, length, drop, not, ◌%◌, ◌^◌, List, [], ◌∷◌, ◌++◌, Bool, true, false, ◌==◌,
  if◌then◌else◌, Option, none, some,
}
use diam_gw.Dra.Outcome.{Outcome, Error, ok, err, panic, stuck, ◌>>=◌}
use diam_gw.Dra.Header.{ParsedHeader, is_request, parse_header, set_hop_by_hop}
use diam_gw.Dra.Avp.{RoutingView, extract_routing}
use diam_gw.Dra.Rewrite.{rewrite_origin_host_realm}
use diam_gw.Dra.Peers.{Peer, Registry, register_peer, remove_peer}
use diam_gw.Dra.Pending.{
  PendingEntry, PendingTable, put_pending, take_pending, forget_peer, pick_peer, is_empty,
}
use diam_gw.Dra.ProtocolError.{
  protocol_error, diameter_unable_to_deliver, diameter_realm_not_served, diameter_invalid_avp_value,
  diameter_unable_to_comply,
}

-- The lines that the node logs, by what is formatted into them.
pub data LogLine : Type 0 where
  request_unparsed request_not_rewritten answer_not_rewritten : Error → LogLine
  missing_destination_realm watchdog_not_answered : LogLine
  no_peer : List ℕ → List ℕ → LogLine
  request_not_sent answer_not_sent : List ℕ → LogLine
  request_forwarded : ℕ → List ℕ → List ℕ → List ℕ → LogLine
  no_pending_entry : ℕ → List ℕ → LogLine
  answer_forwarded : ℕ → List ℕ → List ℕ → LogLine
  bad_header : List ℕ → Error → LogLine
  disconnected : List ℕ → LogLine
  peer_up : List ℕ → List ℕ → LogLine

-- `origin_host` and `origin_realm` are those of the configuration. `rr_counter` is the package's
-- variable. `sent` is what was written to the peers, the latest last.
pub record DraNode : Type 0 where
  pub origin_host : List ℕ
  pub origin_realm : List ℕ
  pub peers : Registry
  pub pending : PendingTable
  pub hop_by_hop_seq : ℕ
  pub rr_counter : ℕ
  pub logs : List LogLine
  pub sent : List (Peer × List ℕ)

unfoldable pub new_dra_node : List ℕ → List ℕ → DraNode
new_dra_node host realm = record {
  origin_host = host;
  origin_realm = realm;
  peers = [];
  pending = [];
  hop_by_hop_seq = 0;
  rr_counter = 0;
  logs = [];
  sent = [];
}

-- The id that is assigned next is that of the sequence after the step.
unfoldable pub next_hop_by_hop : DraNode → ℕ × DraNode
next_hop_by_hop d =
    let id = (d.hop_by_hop_seq + 1) % 2 ^ 32 in (id, record d { hop_by_hop_seq = id })

-- The last 512 lines are kept.
unfoldable pub log : LogLine → DraNode → DraNode
log line d =
    let logs = d.logs ++ line ∷ [] in
    record d { logs = if ltb 512 (length logs) then drop (length logs - 512) logs else logs }

-- What the outside decides on while a message is handled: the orders in which the loops over the peers
-- visit them, and to which peers a write of the given bytes succeeds. A write that fails counts as not sent.
pub record Surroundings : Type 0 where
  pub by_host : List Peer
  pub by_realm : List Peer
  pub delivers : Peer → List ℕ → Bool

-- `p.Send(msg)`: whether it succeeded.
unfoldable pub send : Surroundings → Peer → List ℕ → DraNode → Bool × DraNode
send s p msg d =
    let sent_it = s.delivers p msg in
    (sent_it, record d { sent = if sent_it then d.sent ++ (p, msg) ∷ [] else d.sent })

unfoldable pub send_protocol_error : Surroundings → Peer → ParsedHeader → ℕ → DraNode → DraNode
unfolding send protocol_error
send_protocol_error s to req result_code d =
    (send s to (protocol_error d.origin_host d.origin_realm req result_code) d).1

-- From the recording of the request, under the new id, on: `out` is sent to the peer `to`.
unfoldable pub relay_to :
    Surroundings → Peer → ParsedHeader → RoutingView → Peer → List ℕ → ℕ → DraNode → DraNode
unfolding put_pending take_pending send send_protocol_error log
relay_to s from h rv to out id d =
    let d1 : DraNode = record d {
      pending =
          put_pending id
            (record {
              orig_peer = from;
              orig_hop_by_hop = h.hop_by_hop_id;
              orig_end_to_end = h.end_to_end_id;
              cmd_code = h.command_code;
            })
            d.pending;
    } in
    let (sent_it, d2) = send s to out d1 in
    let d3 = log (request_not_sent to.origin_host) d2 in
    if sent_it
    then log (request_forwarded h.command_code from.origin_host to.origin_host rv.destination_realm)
        d2
    else send_protocol_error s from h diameter_unable_to_deliver
        (record d3 { pending = (take_pending id d3.pending).1 })

-- From the assigning of a new id on.
unfoldable pub relay_request :
    Surroundings → Peer → ParsedHeader → RoutingView → Peer → List ℕ → DraNode → Outcome DraNode
unfolding next_hop_by_hop relay_to
relay_request s from h rv to rewritten d =
    let (id, d') = next_hop_by_hop d in
    set_hop_by_hop rewritten id >>= λ out. ok (relay_to s from h rv to out id d')

-- From the choice of the destination on.
unfoldable pub route_request :
    Surroundings → Peer → List ℕ → ParsedHeader → RoutingView → DraNode → Outcome DraNode
unfolding pick_peer send_protocol_error relay_request log
route_request s from msg h rv d =
    let (to, counter) = pick_peer s.by_host s.by_realm rv from d.rr_counter in
    let d' : DraNode = record d { rr_counter = counter } in
    elim to [
      | none ↦ ok (
          send_protocol_error s from h diameter_unable_to_deliver
            (log (no_peer rv.destination_realm rv.destination_host) d'))
      | some p ↦ elim (rewrite_origin_host_realm msg d.origin_host d.origin_realm) [
        | ok rewritten ↦ relay_request s from h rv p rewritten d'
        | err e ↦ ok (
            send_protocol_error s from h diameter_unable_to_comply
              (log (request_not_rewritten e) d'))
        | panic ↦ panic
        | stuck ↦ stuck
      ]
    ]

unfoldable pub forward_request :
    Surroundings → Peer → List ℕ → ParsedHeader → DraNode → Outcome DraNode
unfolding send_protocol_error route_request is_empty log
forward_request s from msg h d = elim (extract_routing msg) [
  | ok rv ↦
      if is_empty rv.destination_realm
      then ok
          (send_protocol_error s from h diameter_realm_not_served (log missing_destination_realm d))
      else route_request s from msg h rv d
  | err e ↦
      ok (send_protocol_error s from h diameter_invalid_avp_value (log (request_unparsed e) d))
  | panic ↦ panic
  | stuck ↦ stuck
]

-- From the entry found on.
unfoldable pub relay_answer :
    Surroundings → Peer → PendingEntry → List ℕ → ParsedHeader → DraNode → Outcome DraNode
unfolding send log
relay_answer s from entry msg h d =
    elim (rewrite_origin_host_realm msg d.origin_host d.origin_realm) [
      | ok rewritten ↦ set_hop_by_hop rewritten entry.orig_hop_by_hop >>= λ out.
          (let (sent_it, d') = send s entry.orig_peer out d in
            if sent_it
            then ok (
                log (answer_forwarded h.command_code from.origin_host entry.orig_peer.origin_host)
                  d')
            else ok (log (answer_not_sent entry.orig_peer.origin_host) d'))
      | err e ↦ ok (log (answer_not_rewritten e) d)
      | panic ↦ panic
      | stuck ↦ stuck
    ]

unfoldable pub forward_answer :
    Surroundings → Peer → List ℕ → ParsedHeader → DraNode → Outcome DraNode
unfolding take_pending relay_answer log
forward_answer s from msg h d =
    let (found, pending) = take_pending h.hop_by_hop_id d.pending in
    elim found [
      | none ↦ ok (log (no_pending_entry h.hop_by_hop_id from.origin_host) d)
      | some entry ↦ relay_answer s from entry msg h (record d { pending = pending })
    ]

-- What handleConnection does once the capabilities are exchanged, and when its loop has ended.
unfoldable pub peer_joins : Peer → DraNode → DraNode
unfolding register_peer log
peer_joins p d =
    log (peer_up p.origin_host p.origin_realm) (record d { peers = register_peer p d.peers })

unfoldable pub peer_leaves : Peer → DraNode → DraNode
unfolding forget_peer remove_peer log
peer_leaves p d =
    log (disconnected p.origin_host)
      (record d { pending = forget_peer p d.pending; peers = remove_peer p d.peers })

-- The watchdog messages of the generated package commands/base: the ids of a request that decodes,
-- and the answer, with the result DIAMETER_SUCCESS, that has the given ids, host and realm.
pub record WatchdogCodec : Type 0 where
  pub unmarshal_dwr : List ℕ → Option (ℕ × ℕ)
  pub marshal_dwa : ℕ → ℕ → List ℕ → List ℕ → Option (List ℕ)

-- Whether there was no error.
unfoldable pub handle_dwr : WatchdogCodec → Surroundings → Peer → List ℕ → DraNode → Bool × DraNode
unfolding send
handle_dwr codec s p msg d = elim (codec.unmarshal_dwr msg) [
  | none ↦ (false, d)
  | some ids ↦ elim (codec.marshal_dwa ids.0 ids.1 d.origin_host d.origin_realm) [
    | none ↦ (false, d)
    | some out ↦ send s p out d
  ]
]

unfoldable pub keep_watch : WatchdogCodec → Surroundings → Peer → List ℕ → DraNode → Bool × DraNode
unfolding handle_dwr log
keep_watch codec s p msg d =
    let (fine, d') = handle_dwr codec s p msg d in
    if fine then (true, d') else (false, log watchdog_not_answered d')

-- The `switch` of the loop of handleConnection: whether the loop goes on.
unfoldable pub dispatch :
    WatchdogCodec → Surroundings → Peer → List ℕ → ParsedHeader → DraNode → Outcome (Bool × DraNode)
unfolding is_request keep_watch
dispatch codec s p msg h d =
    let forwarding =
      if is_request h then forward_request s p msg h d else forward_answer s p msg h d in
    if h.command_code == 280
    then ok (if is_request h then keep_watch codec s p msg d else (true, d))
    else if h.command_code == 282
    then ok (not (is_request h), d)
    else (forwarding >>= λ d'. ok (true, d'))

-- The body of that loop, for a message that was read.
unfoldable pub handle_message :
    WatchdogCodec → Surroundings → Peer → List ℕ → DraNode → Outcome (Bool × DraNode)
unfolding dispatch log
handle_message codec s p msg d = elim (parse_header msg) [
  | ok h ↦ dispatch codec s p msg h d
  | err e ↦ ok (false, log (bad_header p.origin_host e) d)
  | panic ↦ panic
  | stuck ↦ stuck
]

-- ===== src/Dra/Relay.antt =====
-- What becomes of a request: it is forwarded to one other peer, or refused with an error answer.
use mathlib.Core.Path.{subst}
use diam_gw.Prelude.{
  ℕ, ◌+◌, ◌%◌, ◌^◌, ◌≡◌, ◌⊎◌, inl, inr, refl, List, [], ◌∷◌, ◌++◌, false, if◌then◌else◌, some,
  Bool-cases, arith, ap, put, delete, lookup,
}
use diam_gw.Dra.Outcome.{ok, Outcome-cases, ok_inj}
use diam_gw.Dra.Header.{ParsedHeader, set_hop_by_hop}
use diam_gw.Dra.Avp.{RoutingView, extract_routing}
use diam_gw.Dra.Rewrite.{rewrite_origin_host_realm}
use diam_gw.Dra.Peers.{Peer, same_peer}
use diam_gw.Dra.Pending.{PendingEntry, PendingTable, put_pending, take_pending, pick_peer, is_empty}
use diam_gw.Dra.Picking.{pick_peer-Decides}
use diam_gw.Dra.ProtocolError.{
  protocol_error, diameter_unable_to_deliver, diameter_realm_not_served, diameter_invalid_avp_value,
  diameter_unable_to_comply,
}
use diam_gw.Dra.Node.{
  DraNode, Surroundings, LogLine, next_hop_by_hop, send, send_protocol_error, log, relay_to,
  relay_request, route_request, forward_request,
}

-- The id that is assigned next.
abbrev pub fresh_id : DraNode → ℕ
fresh_id d = (d.hop_by_hop_seq + 1) % 2 ^ 32

abbrev pub entry_of : Peer → ParsedHeader → PendingEntry
entry_of from h = record {
  orig_peer = from;
  orig_hop_by_hop = h.hop_by_hop_id;
  orig_end_to_end = h.end_to_end_id;
  cmd_code = h.command_code;
}

module _ (s : Surroundings) (from : Peer) (h : ParsedHeader) (d d' : DraNode) where
  -- The request has gone to one other peer, and waits for its answer under the new id.
  pub record Relayed : Type 0 where
    pub to : Peer
    pub out : List ℕ
    pub other : same_peer to from ≡ false
    pub sent_on : d'.sent ≡ d.sent ++ (to, out) ∷ []
    pub waits : d'.pending ≡ put_pending (fresh_id d) (entry_of from h) d.pending
    pub counted : d'.hop_by_hop_seq ≡ fresh_id d
    pub peers_kept : d'.peers ≡ d.peers

  -- The sender has got one error answer, if it could be written, and nothing waits that did not.
  pub record Refused : Type 0 where
    pub code : ℕ
    pub told : d'.sent ≡ (
        if s.delivers from (protocol_error d.origin_host d.origin_realm h code)
        then d.sent ++ (from, protocol_error d.origin_host d.origin_realm h code) ∷ []
        else d.sent)
    pub left :
        ((d'.pending ≡ d.pending) × (d'.hop_by_hop_seq ≡ d.hop_by_hop_seq))
        ⊎ ((d'.pending ≡ delete (fresh_id d) d.pending) × (d'.hop_by_hop_seq ≡ fresh_id d))
    pub peers_kept : d'.peers ≡ d.peers

delete_again : {A : Type 0} (k : ℕ) (m : List (ℕ × A)) → delete k (delete k m) ≡ delete k m
unfolding delete
delete_again k [] = refl
delete_again k (e ∷ m) = ground (arith, delete_again k m)

pub lookup-put_pending :
    (k : ℕ) (e : PendingEntry) (t : PendingTable) → lookup k (put_pending k e t) ≡ some e
unfolding put_pending put lookup
lookup-put_pending k e t = ground arith

pub delete-put_pending :
    (k : ℕ) (e : PendingEntry) (t : PendingTable) → delete k (put_pending k e t) ≡ delete k t
unfolding put_pending put delete
delete-put_pending k e t = ground (arith, delete_again k t)

-- An entry that was put is taken again, and no other with it.
pub take_pending-put_pending :
    (k : ℕ) (e : PendingEntry) (t : PendingTable)
    → take_pending k (put_pending k e t) ≡ (some e, delete k t)
unfolding take_pending put_pending put lookup delete
take_pending-put_pending k e t = ground (arith, delete_again k t)

refused_at_once :
    (s : Surroundings) (from : Peer) (h : ParsedHeader) (d : DraNode) (code c : ℕ) (line : LogLine)
    → Refused s from h d
        (send_protocol_error s from h code (log line (record d { rr_counter = c })))
unfolding send_protocol_error send log
refused_at_once s from h d code c line = record {
  code = code;
  told = refl;
  left = inl (refl, refl);
  peers_kept = refl;
}

relay_to_lem :
    (s : Surroundings) (from : Peer) (h : ParsedHeader) (rv : RoutingView) (to : Peer)
    (out : List ℕ) (c : ℕ) (d : DraNode)
    → same_peer to from ≡ false
    → let d' =
        relay_to s from h rv to out
          (fresh_id d)
          (record d { rr_counter = c; hop_by_hop_seq = fresh_id d }) in
      Relayed s from h d d' ⊎ Refused s from h d d'
unfolding relay_to send send_protocol_error log
relay_to_lem s from h rv to out c d other = elim (Bool-cases (s.delivers to out)) [
  | inl fine ↦
      rw (fine, relay_to)
        (inl (record {
          to = to;
          out = out;
          other = other;
          sent_on = refl;
          waits = refl;
          counted = refl;
          peers_kept = refl;
        }))
  | inr lost ↦
      rw (lost, relay_to)
        (inr (record {
          code = diameter_unable_to_deliver;
          told = refl;
          left = inr (
            ap (λ r. r.1) (take_pending-put_pending (fresh_id d) (entry_of from h) d.pending),
            refl,
          );
          peers_kept = refl;
        }))
]

relay_request_lem :
    (s : Surroundings) (from : Peer) (h : ParsedHeader) (rv : RoutingView) (to : Peer)
    (rewritten : List ℕ) (c : ℕ) (d d' : DraNode)
    → same_peer to from ≡ false
    → relay_request s from h rv to rewritten (record d { rr_counter = c }) ≡ ok d'
    → Relayed s from h d d' ⊎ Refused s from h d d'
unfolding relay_request next_hop_by_hop
relay_request_lem s from h rv to rewritten c d d' other e =
    elim (Outcome-cases (set_hop_by_hop rewritten (fresh_id d))) [
      | inl (out, set) ↦
          subst (λ x. Relayed s from h d x ⊎ Refused s from h d x)
            (ok_inj (rw (relay_request, set) at e)) (relay_to_lem s from h rv to out c d other)
      | inr (inl (f, set)) ↦ absurd (let e' = rw (relay_request, set) at e in cc)
      | inr (inr (inl set)) ↦ absurd (let e' = rw (relay_request, set) at e in cc)
      | inr (inr (inr set)) ↦ absurd (let e' = rw (relay_request, set) at e in cc)
    ]

route_request_lem :
    (s : Surroundings) (from : Peer) (msg : List ℕ) (h : ParsedHeader) (rv : RoutingView)
    (d d' : DraNode)
    → route_request s from msg h rv d ≡ ok d'
    → Relayed s from h d d' ⊎ Refused s from h d d'
unfolding route_request
route_request_lem s from msg h rv d d' e =
    let counter = (pick_peer s.by_host s.by_realm rv from d.rr_counter).1 in
    elim (pick_peer-Decides s.by_host s.by_realm rv from d.rr_counter) [
      | inr (nobody, _) ↦
          subst (λ x. Relayed s from h d x ⊎ Refused s from h d x)
            (ok_inj (rw (route_request, nobody) at e))
            (inr (refused_at_once s from h d diameter_unable_to_deliver counter _))
      | inl (p, chosen, other, _) ↦
          elim (Outcome-cases (rewrite_origin_host_realm msg d.origin_host d.origin_realm)) [
            | inl (rewritten, done) ↦
                relay_request_lem s from h rv p rewritten counter d d' other
                  (rw (route_request, chosen, done) at e)
            | inr (inl (f, done)) ↦
                subst (λ x. Relayed s from h d x ⊎ Refused s from h d x)
                  (ok_inj (rw (route_request, chosen, done) at e))
                  (inr (refused_at_once s from h d diameter_unable_to_comply counter _))
            | inr (inr (inl done)) ↦ absurd (let e' = rw (route_request, chosen, done) at e in cc)
            | inr (inr (inr done)) ↦ absurd (let e' = rw (route_request, chosen, done) at e in cc)
          ]
    ]

-- A request whose handling does not panic is forwarded to one peer, never the sender, and then waits for its
-- answer under the next id with the sender and its own ids; or it is refused: the sender, if it can be written
-- to, gets one error answer, nothing else is sent, and no other request is forgotten than one under that id.
pub forward_request_lem :
    (s : Surroundings) (from : Peer) (msg : List ℕ) (h : ParsedHeader) (d d' : DraNode)
    → forward_request s from msg h d ≡ ok d'
    → Relayed s from h d d' ⊎ Refused s from h d d'
unfolding forward_request
forward_request_lem s from msg h d d' e = elim (Outcome-cases (extract_routing msg)) [
  | inl (rv, read) ↦ elim (Bool-cases (is_empty rv.destination_realm)) [
    | inl missing ↦
        subst (λ x. Relayed s from h d x ⊎ Refused s from h d x)
          (ok_inj (rw (forward_request, read, missing) at e))
          (inr (refused_at_once s from h d diameter_realm_not_served d.rr_counter _))
    | inr there ↦ route_request_lem s from msg h rv d d' (rw (forward_request, read, there) at e)
  ]
  | inr (inl (f, read)) ↦
      subst (λ x. Relayed s from h d x ⊎ Refused s from h d x)
        (ok_inj (rw (forward_request, read) at e))
        (inr (refused_at_once s from h d diameter_invalid_avp_value d.rr_counter _))
  | inr (inr (inl read)) ↦ absurd (let e' = rw (forward_request, read) at e in cc)
  | inr (inr (inr read)) ↦ absurd (let e' = rw (forward_request, read) at e in cc)
]

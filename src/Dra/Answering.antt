-- ===== src/Dra/Answering.antt =====
-- A request and its answer: the answer finds the way back to the sender of the request.
use mathlib.Core.Path.{subst}
use native.Mathlib.Nat.{mod-lt}
use diam_gw.Prelude.{
  ℕ, ◌+◌, ◌^◌, ◌≤◌, ◌<◌, ◌≡◌, refl, ap, ◌∙◌, List, [], ◌∷◌, ◌++◌, length, All, IsU32, true, false,
  some, Bool-cases, inl, inr, arith, delete, lookup, ltb, drop, append_assoc,
}
use diam_gw.Dra.Outcome.{ok, ok_inj}
use diam_gw.Dra.Header.{ParsedHeader, header_view, parse_header, set_hop_by_hop}
use diam_gw.Dra.Avp.{RoutingView, extract_routing}
use diam_gw.Dra.Rewrite.{rewrite_origin_host_realm}
use diam_gw.Dra.Layout.{WireAvp, IsWireAvp}
use diam_gw.Dra.Iterate.{print_avps}
use diam_gw.Dra.Proxy.{forwarded}
use diam_gw.Dra.Outgoing.{parse_header-rewrite_origin_host_realm, parse_header-set_hop_by_hop}
use diam_gw.Dra.Peers.{Peer}
use diam_gw.Dra.Pending.{PendingEntry, put_pending, take_pending, pick_peer, is_empty}
use diam_gw.Dra.Node.{
  DraNode, Surroundings, answer_forwarded, forward_request, forward_answer, relay_answer,
  relay_request, relay_to, route_request, log, send, next_hop_by_hop,
}
use diam_gw.Dra.Relay.{fresh_id, entry_of, lookup-put_pending, delete-put_pending}

-- A message over a header and well-formed AVPs that the agent of this host and realm can send on.
pub record IsSendable (host realm header : List ℕ) (avps : List WireAvp) : Type 0 where
  pub twenty : length header ≡ 20
  pub well_formed : All IsWireAvp avps
  pub host_24 : length host + 8 < 2 ^ 24
  pub realm_24 : length realm + 8 < 2 ^ 24
  pub fits : 20 + length (print_avps (forwarded host realm avps)) < 2 ^ 24

-- What the agent sends for a message: rewritten, and with another hop-by-hop id.
abbrev pub SentFor : List ℕ → List ℕ → List ℕ → List WireAvp → ℕ → List ℕ → Type 0
SentFor host realm header avps id out =
    (m : List ℕ) × (rewrite_origin_host_realm (header ++ print_avps avps) host realm ≡ ok m)
    × (set_hop_by_hop m id ≡ ok out)
    × (parse_header out
        ≡ ok (record (header_view header) { length = length m; hop_by_hop_id = id }))
    × (drop 20 out ≡ drop 20 m)

parse_header_ok :
    (b : List ℕ) (h : ParsedHeader) → parse_header b ≡ ok h → (20 ≤ length b) × (header_view b ≡ h)
unfolding parse_header
parse_header_ok b h e = elim (Bool-cases (ltb (length b) 20)) [
  | inl short ↦ absurd (let e' = rw (parse_header, short) at e in cc)
  | inr long ↦ (ground arith, ok_inj (rw (parse_header, long) at e))
]

sendable_lem :
    (host realm header : List ℕ) (avps : List WireAvp) (id : ℕ)
    → IsSendable host realm header avps
    → IsU32 id
    → (out : List ℕ) × SentFor host realm header avps id out
sendable_lem host realm header avps id v u =
    let (m, done, parsed, aligned) =
      parse_header-rewrite_origin_host_realm header host realm avps v.twenty v.well_formed v.host_24
        v.realm_24 v.fits in
    let (out, set, reparsed, kept) =
      parse_header-set_hop_by_hop m id (parse_header_ok m _ parsed).0 u in
    (
      out,
      (
        m,
        done,
        set,
        reparsed
            ∙ ap ok (
                ap {A = ParsedHeader} (λ x. record x { hop_by_hop_id = id })
                  (parse_header_ok m _ parsed).1),
        kept,
      ),
    )

module _ (s : Surroundings) (from : Peer) (d : DraNode) where
  -- The request that is over this header and these AVPs goes to the peer `to`.
  pub record IsRouted (header : List ℕ) (avps : List WireAvp) (to : Peer) : Type 0 where
    pub sendable : IsSendable d.origin_host d.origin_realm header avps
    pub view : RoutingView
    pub read : extract_routing (header ++ print_avps avps) ≡ ok view
    pub has_realm : is_empty view.destination_realm ≡ false
    pub picked : (pick_peer s.by_host s.by_realm view from d.rr_counter).0 ≡ some to

  forward_request_sends :
      (header : List ℕ) (avps : List WireAvp) (to : Peer)
      → ((p : Peer) (m : List ℕ) → s.delivers p m ≡ true)
      → IsRouted header avps to
      → (d' : DraNode) × (out : List ℕ) × (forward_request s from
            (header ++ print_avps avps)
            (header_view header)
            d
          ≡ ok d')
        × SentFor d.origin_host d.origin_realm header avps (fresh_id d) out
        × (d'.sent ≡ d.sent ++ (to, out) ∷ [])
        × (d'.pending ≡ put_pending (fresh_id d) (entry_of from (header_view header)) d.pending)
        × (d'.origin_host ≡ d.origin_host)
        × (d'.origin_realm ≡ d.origin_realm)
  unfolding forward_request route_request relay_request relay_to next_hop_by_hop send log
  forward_request_sends header avps to up v =
      let (out, sent_for) =
        sendable_lem d.origin_host d.origin_realm header avps (fresh_id d) v.sendable
          (mod-lt (d.hop_by_hop_seq + 1) (omega arith)) in
      let (m, done, set, _, _) = sent_for in
      (
        relay_to s from (header_view header) v.view to out (fresh_id d) (record d {
          rr_counter = (pick_peer s.by_host s.by_realm v.view from d.rr_counter).1;
          hop_by_hop_seq = fresh_id d;
        }),
        out,
        rw (forward_request, v.read, v.has_realm)
            (rw (route_request, v.picked, done) (rw (relay_request, set) refl)),
        sent_for,
        rw (relay_to, up to out) refl,
        rw (relay_to, up to out) refl,
        rw (relay_to, up to out) refl,
        rw (relay_to, up to out) refl,
      )

forward_answer_sends :
    (s : Surroundings) (from : Peer) (d : DraNode) (entry : PendingEntry) (header : List ℕ)
    (avps : List WireAvp)
    → ((p : Peer) (m : List ℕ) → s.delivers p m ≡ true)
    → IsSendable d.origin_host d.origin_realm header avps
    → IsU32 entry.orig_hop_by_hop
    → lookup (header_view header).hop_by_hop_id d.pending ≡ some entry
    → (d' : DraNode) × (out : List ℕ) × (forward_answer s from
          (header ++ print_avps avps)
          (header_view header)
          d
        ≡ ok d')
      × SentFor d.origin_host d.origin_realm header avps entry.orig_hop_by_hop out
      × (d'.sent ≡ d.sent ++ (entry.orig_peer, out) ∷ [])
      × (d'.pending ≡ delete (header_view header).hop_by_hop_id d.pending)
unfolding forward_answer relay_answer send log take_pending
forward_answer_sends s from d entry header avps up v u found =
    let h = header_view header in
    let (out, sent_for) =
      sendable_lem d.origin_host d.origin_realm header avps entry.orig_hop_by_hop v u in
    let (m, done, set, _, _) = sent_for in
    (
      log (answer_forwarded h.command_code from.origin_host entry.orig_peer.origin_host) (record d {
        pending = delete h.hop_by_hop_id d.pending;
        sent = d.sent ++ (entry.orig_peer, out) ∷ [];
      }),
      out,
      rw (forward_answer, take_pending, found)
          (rw (relay_answer, done, set)
            (rw (up entry.orig_peer out) (rw (take_pending, found) refl))),
      sent_for,
      refl,
      refl,
    )

-- A request that the agent sends on comes back answered: the message that the peer gets differs from the request in
-- origin, length and hop-by-hop id only, and whatever answer with that new id then comes in, from whichever peer,
-- goes to the sender of the request alone, with the hop-by-hop id of the request; after that the request waits no
-- more. (The writes succeed, and both messages are well-formed and fit their lengths.)
pub forward_answer-forward_request :
    (s : Surroundings) (from to by : Peer) (d : DraNode) (header : List ℕ) (avps : List WireAvp)
    (header' : List ℕ) (avps' : List WireAvp)
    → ((p : Peer) (m : List ℕ) → s.delivers p m ≡ true)
    → IsRouted s from d header avps to
    → IsSendable d.origin_host d.origin_realm header' avps'
    → IsU32 (header_view header).hop_by_hop_id
    → (header_view header').hop_by_hop_id ≡ fresh_id d
    → (d1 : DraNode) × (d2 : DraNode) × (out : List ℕ) × (back : List ℕ) × (forward_request s from
          (header ++ print_avps avps)
          (header_view header)
          d
        ≡ ok d1)
      × (forward_answer s by (header' ++ print_avps avps') (header_view header') d1 ≡ ok d2)
      × (d2.sent ≡ d.sent ++ (to, out) ∷ (from, back) ∷ [])
      × SentFor d.origin_host d.origin_realm header avps (fresh_id d) out
      × SentFor d.origin_host d.origin_realm header' avps' (header_view header).hop_by_hop_id back
      × (d2.pending ≡ delete (fresh_id d) d.pending)
forward_answer-forward_request s from to by d header avps header' avps' up v v' u same =
    let (d1, out, e1, f1, sent1, pending1, host1, realm1) =
      forward_request_sends s from d header avps to up v in
    let found : lookup (header_view header').hop_by_hop_id d1.pending
        ≡ some (entry_of from (header_view header)) =
      ap (λ k. lookup k d1.pending) same
      ∙ ap (lookup (fresh_id d)) pending1
      ∙ lookup-put_pending (fresh_id d) (entry_of from (header_view header)) d.pending in
    let (d2, back, e2, f2, sent2, pending2) =
      forward_answer_sends s by d1 (entry_of from (header_view header)) header' avps' up
        (rw (host1, realm1) v') u found in
    (
      d1,
      d2,
      out,
      back,
      e1,
      e2,
      sent2
          ∙ ap (λ t. t ++ (from, back) ∷ []) sent1
          ∙ append_assoc d.sent ((to, out) ∷ []) ((from, back) ∷ []),
      f1,
      subst (λ x. SentFor x d.origin_realm header' avps' (header_view header).hop_by_hop_id back)
          host1
          (subst
            (λ x. SentFor d1.origin_host x header' avps' (header_view header).hop_by_hop_id back)
            realm1 f2),
      pending2
          ∙ ap (λ k. delete k d1.pending) same
          ∙ ap (delete (fresh_id d)) pending1
          ∙ delete-put_pending (fresh_id d) (entry_of from (header_view header)) d.pending,
    )

-- ===== src/Dra/Waiting.antt =====
-- The requests that wait, in every agent that the messages of its peers can lead to.
use mathlib.Core.List.{Memᴰ}
use mathlib.Core.Path.{subst}
use diam_gw.Prelude.{
  ℕ, ◌+◌, ◌^◌, ◌≤◌, ◌<◌, ◌≡◌, inl, inr, refl, ap, List, [], ◌∷◌, All, Bool, true, if◌then◌else◌,
  none, Bool-cases, arith, lookup, keys, ◌==◌,
}
use diam_gw.Prelude.Counts.{count}
use diam_gw.Dra.Outcome.{Outcome, ok, ◌>>=◌, Outcome-cases, ok_inj}
use diam_gw.Dra.Header.{ParsedHeader, is_request, parse_header}
use diam_gw.Dra.Peers.{Peer}
use diam_gw.Dra.Pending.{PendingTable, without_sender}
use diam_gw.Dra.Node.{
  DraNode, Surroundings, WatchdogCodec, dispatch, handle_message, new_dra_node, forward_request,
  forward_answer, peer_joins, peer_leaves, log,
}
use diam_gw.Dra.Relay.{forward_request_lem, fresh_id}
use diam_gw.Dra.Kept.{
  IsAwaited, All-weaken, forget_peer-Awaited, count-keys-forget_peer, forward_answer_lem, IsStill,
  keep_watch-Still,
}
use diam_gw.Dra.Invariant.{Waiting, shrunk-Waiting, relayed-Waiting, refused-Waiting}

-- What one peer's message, arrival or departure makes of an agent. `live` are the peers whose loop runs;
-- the number counts the messages that came in.
pub data Step (n : ℕ) (live : List Peer) (d : DraNode) : ℕ → List Peer → DraNode → Type 0 where
  joins : (p : Peer) (d' : DraNode) → d' ≡ peer_joins p d → Step n live d n (p ∷ live) d'
  leaves :
      (p : Peer) (d' : DraNode) → d' ≡ peer_leaves p d → Step n live d n (without_sender p live) d'
  handles :
      (codec : WatchdogCodec) (s : Surroundings) (from : Peer) (msg : List ℕ) (goes_on : Bool)
      (d' : DraNode)
      → Memᴰ from live
      → handle_message codec s from msg d ≡ ok (goes_on, d')
      → Step n live d (n + 1) live d'

pub data Reachable : ℕ → List Peer → DraNode → Type 0 where
  started : (host realm : List ℕ) → Reachable 0 [] (new_dra_node host realm)
  stepped :
      (n n' : ℕ) (live live' : List Peer) (d d' : DraNode)
      → Reachable n live d
      → Step n live d n' live' d'
      → Reachable n' live' d'

-- Steps never undo the counting of messages.
Step-le : (n n' : ℕ) (live live' : List Peer) (d d' : DraNode) → Step n live d n' live' d' → n ≤ n'
Step-le n n' live live' d d' (joins p q e) = omega arith
Step-le n n' live live' d d' (leaves p q e) = omega arith
Step-le n n' live live' d d' (handles codec s from msg g q m e) = omega arith

still-Waiting :
    (n : ℕ) (live : List Peer) (d d' : DraNode)
    → Waiting n live d
    → IsStill d d'
    → Waiting (n + 1) live d'
still-Waiting n live d d' w (kept, seq) =
    shrunk-Waiting n (n + 1) 0 live d d' w (inl kept) (omega (arith, seq))
      (omega (arith, seq, w.seq_le))

forwarding-Waiting :
    (n : ℕ) (live : List Peer) (s : Surroundings) (from : Peer) (msg : List ℕ) (h : ParsedHeader)
    (d d' : DraNode)
    → n + 1 < 2 ^ 32
    → Memᴰ from live
    → Waiting n live d
    → (if is_request h then forward_request s from msg h d else forward_answer s from msg h d)
      ≡ ok d'
    → Waiting (n + 1) live d'
forwarding-Waiting n live s from msg h d d' u m w e = elim (Bool-cases (is_request h)) [
  | inl asks ↦ elim (forward_request_lem s from msg h d d' (rw asks at e)) [
    | inl r ↦ relayed-Waiting n live s from h d d' u m w r
    | inr r ↦ refused-Waiting n live s from h d d' u w r
  ]
  | inr tells ↦
      let (kept, seq) = forward_answer_lem s from msg h d d' (rw tells at e) in
      shrunk-Waiting n (n + 1) h.hop_by_hop_id live d d' w kept (omega (arith, seq))
        (omega (arith, seq, w.seq_le))
]

-- The node that a message leaves, of the pair that the handling of it gives.
left_node :
    {b b' : Bool} {d d' : DraNode}
    → ◌≡◌ {A = Outcome (Bool × DraNode)} (ok (b, d)) (ok (b', d'))
    → d ≡ d'
left_node e = ap (λ r. r.1) (ok_inj e)

module _ (n : ℕ) (live : List Peer) (codec : WatchdogCodec) (s : Surroundings) (from : Peer)
    (msg : List ℕ) (g : Bool) (d d' : DraNode) (u : n + 1 < 2 ^ 32) (m : Memᴰ from live)
    (w : Waiting n live d) where
  going_on-Waiting :
      (h : ParsedHeader)
      → ((if is_request h then forward_request s from msg h d else forward_answer s from msg h d)
          >>= λ x. (let r : Outcome (Bool × DraNode) = ok (true, x) in r))
        ≡ ok (g, d')
      → Waiting (n + 1) live d'
  going_on-Waiting h e =
      let forwarding =
        if is_request h then forward_request s from msg h d else forward_answer s from msg h d in
      elim (Outcome-cases forwarding) [
        | inl (x, f) ↦
            subst (Waiting (n + 1) live) (left_node (rw f at e))
              (forwarding-Waiting n live s from msg h d x u m w f)
        | inr (inl (y, f)) ↦ absurd (let e' = rw f at e in cc)
        | inr (inr (inl f)) ↦ absurd (let e' = rw f at e in cc)
        | inr (inr (inr f)) ↦ absurd (let e' = rw f at e in cc)
      ]

  dispatch-Waiting :
      (h : ParsedHeader) → dispatch codec s from msg h d ≡ ok (g, d') → Waiting (n + 1) live d'
  unfolding dispatch
  dispatch-Waiting h e = elim (Bool-cases (h.command_code == 280)) [
    | inl watchdog ↦ elim (Bool-cases (is_request h)) [
      | inl asks ↦
          subst (Waiting (n + 1) live) (left_node (rw (dispatch, watchdog, asks) at e))
            (still-Waiting n live d _ w (keep_watch-Still codec s from msg d))
      | inr tells ↦
          subst (Waiting (n + 1) live) (left_node (rw (dispatch, watchdog, tells) at e))
            (still-Waiting n live d _ w (refl, refl))
    ]
    | inr other ↦ elim (Bool-cases (h.command_code == 282)) [
      | inl leaving ↦
          subst (Waiting (n + 1) live) (left_node (rw (dispatch, other, leaving) at e))
            (still-Waiting n live d _ w (refl, refl))
      | inr traffic ↦ going_on-Waiting h (rw (dispatch, other, traffic) at e)
    ]
  ]

  handle_message-Waiting : handle_message codec s from msg d ≡ ok (g, d') → Waiting (n + 1) live d'
  unfolding handle_message log
  handle_message-Waiting e = elim (Outcome-cases (parse_header msg)) [
    | inl (h, p) ↦ dispatch-Waiting h (rw (handle_message, p) at e)
    | inr (inl (f, p)) ↦
        subst (Waiting (n + 1) live) (left_node (rw (handle_message, p) at e))
          (still-Waiting n live d _ w (refl, refl))
    | inr (inr (inl p)) ↦ absurd (let e' = rw (handle_message, p) at e in cc)
    | inr (inr (inr p)) ↦ absurd (let e' = rw (handle_message, p) at e in cc)
  ]

Step-Waiting :
    (n n' : ℕ) (live live' : List Peer) (d d' : DraNode)
    → n' < 2 ^ 32
    → Step n live d n' live' d'
    → Waiting n live d
    → Waiting n' live' d'
unfolding peer_joins peer_leaves log
Step-Waiting n n' live live' d d' u (joins p q e) w = rw e (record {
  seq_le = w.seq_le;
  awaited = All-weaken _ _ d.pending (λ e (lo, hi, m). (lo, hi, Memᴰ.tail m)) w.awaited;
  once = w.once;
})
Step-Waiting n n' live live' d d' u (leaves p q e) w = rw e (record {
  seq_le = w.seq_le;
  awaited = forget_peer-Awaited d.hop_by_hop_seq live p d.pending w.awaited;
  once = λ k. omega (arith, w.once k, count-keys-forget_peer k p d.pending);
})
Step-Waiting n n' live live' d d' u (handles codec s from msg g q m e) w =
    handle_message-Waiting n live codec s from msg g d q u m w e

-- In every agent that fewer than 2^32 messages lead to, each request that waits for an answer waits under an id of
-- its own that was assigned before, and for a peer whose loop still runs.
pub Reachable-Waiting :
    (n : ℕ) (live : List Peer) (d : DraNode) → n < 2 ^ 32 → Reachable n live d → Waiting n live d
unfolding new_dra_node keys count
Reachable-Waiting n live d u (started host realm) = record {
  seq_le = omega arith;
  awaited = tt;
  once = λ k. omega arith;
}
Reachable-Waiting n live d u (stepped m n' before live' c d' r s) =
    Step-Waiting m n before live c d u s
      (Reachable-Waiting m before c (omega (arith, Step-le m n before live c d s)) r)

above_absent :
    (seq k : ℕ) (live : List Peer) (t : PendingTable)
    → seq < k
    → All (IsAwaited seq live) t
    → lookup k t ≡ none
unfolding lookup
above_absent seq k live [] u a = refl
above_absent seq k live (e ∷ t) u ((lo, hi, m), a) = ground (arith, above_absent seq k live t u a)

-- There the next request is never recorded over one that waits: its id is assigned to none.
pub fresh_id-unused :
    (n : ℕ) (live : List Peer) (d : DraNode)
    → n + 1 < 2 ^ 32
    → Reachable n live d
    → lookup (fresh_id d) d.pending ≡ none
fresh_id-unused n live d u r =
    let w = Reachable-Waiting n live d (omega arith) r in
    above_absent d.hop_by_hop_seq (fresh_id d) live d.pending (omega (arith, w.seq_le)) w.awaited

-- ===== src/Dra/Pending.antt =====
-- dra/route.go: the requests that wait for an answer, and the choice of the peer that a request goes to.
use diam_gw.Prelude.{
  ℕ, ◌+◌, ◌%◌, ◌^◌, List, [], ◌∷◌, length, Bool, true, false, not, ◌==◌, if◌then◌else◌, Option,
  none, some, get_elem?, put, lookup, delete,
}
use diam_gw.Dra.Avp.{RoutingView}
use diam_gw.Dra.Peers.{Peer, same_peer, peer_by_host, peers_by_realm}

pub record PendingEntry : Type 0 where
  pub orig_peer : Peer
  pub orig_hop_by_hop : ℕ
  pub orig_end_to_end : ℕ
  pub cmd_code : ℕ

-- The map from the ids that the agent assigned.
abbrev pub PendingTable : Type 0
PendingTable = List (ℕ × PendingEntry)

unfoldable pub put_pending : ℕ → PendingEntry → PendingTable → PendingTable
unfolding put
put_pending hbh e t = put hbh e t

-- `take`
unfoldable pub take_pending : ℕ → PendingTable → Option PendingEntry × PendingTable
unfolding lookup delete
take_pending hbh t = elim (lookup hbh t) [ none ↦ (none, t) | some e ↦ (some e, delete hbh t) ]

-- The loop deletes the entries that it finds while it runs.
unfoldable pub forget_peer : Peer → PendingTable → PendingTable
unfolding same_peer
forget_peer p [] = []
forget_peer p (e ∷ t) =
    let rest = forget_peer p t in if same_peer e.1.orig_peer p then rest else e ∷ rest

-- `filtered`
unfoldable pub without_sender : Peer → List Peer → List Peer
unfolding same_peer
without_sender from [] = []
without_sender from (p ∷ candidates) =
    let rest = without_sender from candidates in if not (same_peer p from) then p ∷ rest else rest

-- The choice within the realm, and the counter after it.
unfoldable pub pick_in_realm : List ℕ → List Peer → Peer → ℕ → Option Peer × ℕ
unfolding without_sender peers_by_realm
pick_in_realm realm order from rr_counter =
    let filtered = without_sender from (peers_by_realm realm order) in
    let i = (rr_counter + 1) % 2 ^ 64 in
    if length filtered == 0
    then (none, rr_counter)
    else (get_elem? filtered (i % length filtered), i)

unfoldable pub is_empty : List ℕ → Bool
is_empty [] = true
is_empty (x ∷ xs) = false

-- `by_host` and `by_realm` are the orders in which the two loops visit the peers.
unfoldable pub pick_peer : List Peer → List Peer → RoutingView → Peer → ℕ → Option Peer × ℕ
unfolding pick_in_realm peer_by_host same_peer is_empty
pick_peer by_host by_realm rv from rr_counter =
    let in_realm = pick_in_realm rv.destination_realm by_realm from rr_counter in
    if is_empty rv.destination_host
    then in_realm
    else elim (peer_by_host rv.destination_host by_host) [
      | none ↦ in_realm
      | some p ↦ if not (same_peer p from) then (some p, rr_counter) else in_realm
    ]

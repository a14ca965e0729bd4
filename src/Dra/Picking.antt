-- ===== src/Dra/Picking.antt =====
-- The peer that pick_peer chooses for a request.
use native.Mathlib.Nat.{mod-lt}
use mathlib.Core.List.{Memᴰ}
use diam_gw.Prelude.{
  ℕ, zero, suc, ◌+◌, ◌%◌, ◌^◌, ◌<◌, ◌≡◌, ◌⊎◌, inl, inr, refl, ap, ◌∙◌, List, [], ◌∷◌, length, All,
  true, false, ◌==◌, Option, none, some, get_elem?, arith, Bool-cases, Option-cases, str_eq,
  str_eq_sound, str_eq_refl,
}
use diam_gw.Prelude.Rotations.{get_elem?-some}
use diam_gw.Dra.Avp.{RoutingView}
use diam_gw.Dra.Peers.{Peer, same_peer, peer_by_host, peers_by_realm}
use diam_gw.Dra.Pending.{without_sender, pick_in_realm, pick_peer, is_empty}

-- The peers that may be chosen within a realm.
abbrev pub candidates : List ℕ → List Peer → Peer → List Peer
candidates realm order from = without_sender from (peers_by_realm realm order)

-- A peer of the realm that was visited, and not the sender.
abbrev pub IsCandidate : List ℕ → List Peer → Peer → Peer → Type 0
IsCandidate realm order from p =
    Memᴰ p order × (p.origin_realm ≡ realm) × (same_peer p from ≡ false)

later :
    (realm : List ℕ) (q : Peer) (order : List Peer) (from p : Peer)
    → IsCandidate realm order from p
    → IsCandidate realm (q ∷ order) from p
later realm q order from p (m, r, s) = (Memᴰ.tail m, r, s)

first_or_later :
    (realm : List ℕ) (q : Peer) (order : List Peer) (from : Peer) (k : ℕ) (p : Peer)
    → q.origin_realm ≡ realm
    → same_peer q from ≡ false
    → ((k : ℕ)
        → get_elem? (candidates realm order from) k ≡ some p
        → IsCandidate realm order from p)
    → get_elem? (q ∷ candidates realm order from) k ≡ some p
    → IsCandidate realm (q ∷ order) from p
first_or_later realm q order from zero p r s rest h =
    let e : p ≡ q = cc in
    (Memᴰ.head e, ap (λ (x : Peer). x.origin_realm) e ∙ r, ap (λ x. same_peer x from) e ∙ s)
first_or_later realm q order from (suc k) p r s rest h = later realm q order from p (rest k h)

candidate_lem :
    (realm : List ℕ) (order : List Peer) (from : Peer) (k : ℕ) (p : Peer)
    → get_elem? (candidates realm order from) k ≡ some p
    → IsCandidate realm order from p
unfolding peers_by_realm without_sender
candidate_lem realm [] from k p h = absurd cc
candidate_lem realm (q ∷ order) from k p h = elim (Bool-cases (str_eq q.origin_realm realm)) [
  | inr other ↦ later realm q order from p (candidate_lem realm order from k p (rw (other) at h))
  | inl same ↦ elim (Bool-cases (same_peer q from)) [
    | inl sender ↦
        later realm q order from p
          (candidate_lem realm order from k p (rw (same, without_sender, sender) at h))
    | inr no_sender ↦
        first_or_later realm q order from k p (str_eq_sound q.origin_realm realm same) no_sender
          (λ j. candidate_lem realm order from j p) (rw (same, without_sender, no_sender) at h)
  ]
]

-- Without candidates, each peer of the realm that was visited is the sender.
no_candidate_lem :
    (realm : List ℕ) (order : List Peer) (from : Peer)
    → length (candidates realm order from) ≡ 0
    → All (λ (p : Peer). p.origin_realm ≡ realm → same_peer p from ≡ true) order
unfolding peers_by_realm without_sender
no_candidate_lem realm [] from h = tt
no_candidate_lem realm (q ∷ order) from h = elim (Bool-cases (str_eq q.origin_realm realm)) [
  | inr other ↦ (
    λ e. absurd (let f : str_eq q.origin_realm realm ≡ true = rw e (str_eq_refl realm) in cc),
    no_candidate_lem realm order from (rw (other) at h),
  )
  | inl same ↦ elim (Bool-cases (same_peer q from)) [
    | inl sender ↦
        (λ _. sender, no_candidate_lem realm order from (rw (same, without_sender, sender) at h))
    | inr no_sender ↦ absurd (omega (arith, (rw (same, without_sender, no_sender) at h)))
  ]
]

-- What a choice by realm comes to: a candidate, or nobody as there is none.
abbrev pub DecidesInRealm : List ℕ → List Peer → Peer → Option Peer → Type 0
DecidesInRealm realm order from chosen =
    ((p : Peer) × (chosen ≡ some p) × IsCandidate realm order from p)
    ⊎ ((chosen ≡ none) × All (λ (p : Peer). p.origin_realm ≡ realm → same_peer p from ≡ true) order)

pick_in_realm-Decides :
    (realm : List ℕ) (order : List Peer) (from : Peer) (c : ℕ)
    → DecidesInRealm realm order from (pick_in_realm realm order from c).0
unfolding pick_in_realm
pick_in_realm-Decides realm order from c =
    elim (Bool-cases (length (candidates realm order from) == 0)) [
      | inl empty ↦ rw empty (inr (refl, no_candidate_lem realm order from (ground arith)))
      | inr full ↦ rw full (
          let n = length (candidates realm order from) in
          let pos : 0 < n = ground arith in
          let (p, e) =
            get_elem?-some (candidates realm order from) ((c + 1) % 2 ^ 64 % n)
              (mod-lt ((c + 1) % 2 ^ 64) pos) in
          inl (p, e, candidate_lem realm order from ((c + 1) % 2 ^ 64 % n) p e))
    ]

peer_by_host_lem :
    (host : List ℕ) (order : List Peer) (p : Peer)
    → peer_by_host host order ≡ some p
    → Memᴰ p order × (p.origin_host ≡ host)
unfolding peer_by_host
peer_by_host_lem host [] p h = absurd cc
peer_by_host_lem host (q ∷ order) p h = elim (Bool-cases (str_eq q.origin_host host)) [
  | inl same ↦
      let e : some q ≡ some p = rw same at h in
      let e' : p ≡ q = cc in
      (Memᴰ.head e', ap (λ (x : Peer). x.origin_host) e' ∙ str_eq_sound q.origin_host host same)
  | inr other ↦ let (m, e) = peer_by_host_lem host order p (rw other at h) in (Memᴰ.tail m, e)
]

-- What a choice by host, and then by realm, comes to.
abbrev pub Decides : List Peer → List Peer → RoutingView → Peer → Option Peer → Type 0
Decides by_host by_realm rv from chosen =
    ((p : Peer) × (chosen ≡ some p)
      × (same_peer p from ≡ false)
      × ((Memᴰ p by_host × (p.origin_host ≡ rv.destination_host))
          ⊎ (Memᴰ p by_realm × (p.origin_realm ≡ rv.destination_realm))))
    ⊎ ((chosen ≡ none)
        × All (λ (p : Peer). p.origin_realm ≡ rv.destination_realm → same_peer p from ≡ true)
            by_realm)

by_realm-Decides :
    (by_host by_realm : List Peer) (rv : RoutingView) (from : Peer) (chosen : Option Peer)
    → DecidesInRealm rv.destination_realm by_realm from chosen
    → Decides by_host by_realm rv from chosen
by_realm-Decides by_host by_realm rv from chosen (inl (p, e, (m, r, s))) = inl (p, e, s, inr (m, r))
by_realm-Decides by_host by_realm rv from chosen (inr h) = inr h

-- The peer that is chosen is never the sender, and it bears the Destination-Host of the request, or is of its
-- Destination-Realm; or nobody is chosen, and each peer of that realm that was visited is the sender itself.
pub pick_peer-Decides :
    (by_host by_realm : List Peer) (rv : RoutingView) (from : Peer) (c : ℕ)
    → Decides by_host by_realm rv from (pick_peer by_host by_realm rv from c).0
unfolding pick_peer
pick_peer-Decides by_host by_realm rv from c =
    let in_realm =
      by_realm-Decides by_host by_realm rv from
        (pick_in_realm rv.destination_realm by_realm from c).0
        (pick_in_realm-Decides rv.destination_realm by_realm from c) in
    elim (Bool-cases (is_empty rv.destination_host)) [
      | inl no_host ↦ rw no_host in_realm
      | inr host ↦ elim (Option-cases (peer_by_host rv.destination_host by_host)) [
        | inl unknown ↦ rw (host, unknown) in_realm
        | inr (p, found) ↦ elim (Bool-cases (same_peer p from)) [
          | inl sender ↦ rw (host, found, sender) in_realm
          | inr other ↦
              rw (host, found, other)
                (inl (p, refl, other, inl (peer_by_host_lem rv.destination_host by_host p found)))
        ]
      ]
    ]

-- ===== src/Dra/Kept.antt =====
-- What an answer, a peer that leaves and other messages do to the requests that wait.
use mathlib.Core.List.{Memᴰ}
use diam_gw.Prelude.{
  ℕ, ◌≤◌, ◌≡◌, ◌⊎◌, inl, inr, refl, sym, ap, ◌∙◌, List, [], ◌∷◌, All, true, false, not,
  if◌then◌else◌, Bool-cases, Option-cases, arith, delete, lookup, keys, ◌==◌,
}
use diam_gw.Prelude.Counts.{count}
use diam_gw.Dra.Outcome.{ok, Outcome-cases, ok_inj}
use diam_gw.Dra.Header.{ParsedHeader, set_hop_by_hop}
use diam_gw.Dra.Rewrite.{rewrite_origin_host_realm}
use diam_gw.Dra.Peers.{Peer, same_peer}
use diam_gw.Dra.Pending.{PendingEntry, PendingTable, take_pending, forget_peer, without_sender}
use diam_gw.Dra.Node.{
  DraNode, Surroundings, forward_answer, relay_answer, log, send, WatchdogCodec, keep_watch,
  handle_dwr,
}

-- An entry that waits under an id that was assigned, for a peer whose loop runs.
abbrev pub IsAwaited : ℕ → List Peer → ℕ × PendingEntry → Type 0
IsAwaited seq live e = (1 ≤ e.0) × (e.0 ≤ seq) × Memᴰ e.1.orig_peer live

pub All-delete :
    (P : ℕ × PendingEntry → Type 0) (k : ℕ) (t : PendingTable) → All P t → All P (delete k t)
unfolding delete
All-delete P k [] a = tt
All-delete P k (e ∷ t) (h, a) =
    elim (k == e.0) as (λ b. All P (if b then delete k t else e ∷ delete k t)) [
      | true ↦ All-delete P k t a
      | false ↦ (h, All-delete P k t a)
    ]

pub All-weaken :
    (P Q : ℕ × PendingEntry → Type 0) (t : PendingTable)
    → ((e : ℕ × PendingEntry) → P e → Q e)
    → All P t
    → All Q t
All-weaken P Q [] f a = tt
All-weaken P Q (e ∷ t) f (h, a) = (f e h, All-weaken P Q t f a)

Mem-without_sender :
    (p q : Peer) (live : List Peer)
    → same_peer q p ≡ false
    → Memᴰ q live
    → Memᴰ q (without_sender p live)
unfolding without_sender
Mem-without_sender p q [] h m = elim m [ ]
Mem-without_sender p q (x ∷ live) h (Memᴰ.head e) =
    let h' : same_peer x p ≡ false = ap (λ (y : Peer). same_peer y p) (sym e) ∙ h in
    rw h' (Memᴰ.head e)
Mem-without_sender p q (x ∷ live) h (Memᴰ.tail m) =
    elim (same_peer x p)
      as (λ b. Memᴰ q (if not b then x ∷ without_sender p live else without_sender p live)) [
        | true ↦ Mem-without_sender p q live h m
        | false ↦ Memᴰ.tail (Mem-without_sender p q live h m)
      ]

pub forget_peer-Awaited :
    (seq : ℕ) (live : List Peer) (p : Peer) (t : PendingTable)
    → All (IsAwaited seq live) t
    → All (IsAwaited seq (without_sender p live)) (forget_peer p t)
unfolding forget_peer
forget_peer-Awaited seq live p [] a = tt
forget_peer-Awaited seq live p (e ∷ t) ((lo, hi, m), a) =
    elim (Bool-cases (same_peer e.1.orig_peer p)) [
      | inl gone ↦ rw (gone) (forget_peer-Awaited seq live p t a)
      | inr stays ↦ rw (stays) (
        (lo, hi, Mem-without_sender p e.1.orig_peer live stays m),
        forget_peer-Awaited seq live p t a,
      )
    ]

pub count-keys-forget_peer :
    (k : ℕ) (p : Peer) (t : PendingTable) → count k (keys (forget_peer p t)) ≤ count k (keys t)
unfolding forget_peer count keys
count-keys-forget_peer k p [] = omega arith
count-keys-forget_peer k p (e ∷ t) = ground (arith, count-keys-forget_peer k p t)

-- Sending an answer on changes nothing that waits.
relay_answer_lem :
    (s : Surroundings) (from : Peer) (entry : PendingEntry) (msg : List ℕ) (h : ParsedHeader)
    (d d' : DraNode)
    → relay_answer s from entry msg h d ≡ ok d'
    → (d'.pending ≡ d.pending) × (d'.hop_by_hop_seq ≡ d.hop_by_hop_seq)
unfolding relay_answer log send
relay_answer_lem s from entry msg h d d' e =
    elim (Outcome-cases (rewrite_origin_host_realm msg d.origin_host d.origin_realm)) [
      | inl (m, done) ↦ elim (Outcome-cases (set_hop_by_hop m entry.orig_hop_by_hop)) [
        | inl (out, set) ↦ elim (Bool-cases (s.delivers entry.orig_peer out)) [
          | inl fine ↦ same (ok_inj (rw (relay_answer, done, set, fine) at e))
          | inr lost ↦ same (ok_inj (rw (relay_answer, done, set, lost) at e))
        ]
        | inr (inl (f, set)) ↦ absurd (let e' = rw (relay_answer, done, set) at e in cc)
        | inr (inr (inl set)) ↦ absurd (let e' = rw (relay_answer, done, set) at e in cc)
        | inr (inr (inr set)) ↦ absurd (let e' = rw (relay_answer, done, set) at e in cc)
      ]
      | inr (inl (f, done)) ↦ same (ok_inj (rw (relay_answer, done) at e))
      | inr (inr (inl done)) ↦ absurd (let e' = rw (relay_answer, done) at e in cc)
      | inr (inr (inr done)) ↦ absurd (let e' = rw (relay_answer, done) at e in cc)
    ]
  where
    same :
        {d2 : DraNode}
        → d2 ≡ d'
        → (d'.pending ≡ d2.pending) × (d'.hop_by_hop_seq ≡ d2.hop_by_hop_seq)
    same r =
        (ap (λ (x : DraNode). x.pending) (sym r), ap (λ (x : DraNode). x.hop_by_hop_seq) (sym r))

-- An answer takes at most the entry that it is for.
pub forward_answer_lem :
    (s : Surroundings) (from : Peer) (msg : List ℕ) (h : ParsedHeader) (d d' : DraNode)
    → forward_answer s from msg h d ≡ ok d'
    → ((d'.pending ≡ d.pending) ⊎ (d'.pending ≡ delete h.hop_by_hop_id d.pending))
      × (d'.hop_by_hop_seq ≡ d.hop_by_hop_seq)
unfolding forward_answer take_pending log
forward_answer_lem s from msg h d d' e = elim (Option-cases (lookup h.hop_by_hop_id d.pending)) [
  | inl unknown ↦
      let r = ok_inj (rw (forward_answer, take_pending, unknown) at e) in
      (
        inl (ap (λ (x : DraNode). x.pending) (sym r)),
        ap (λ (x : DraNode). x.hop_by_hop_seq) (sym r),
      )
  | inr (entry, found) ↦
      let (kept, seq) =
        relay_answer_lem s from entry msg h
          (record d { pending = (take_pending h.hop_by_hop_id d.pending).1 }) d'
          (rw (forward_answer, take_pending, found) at e) in
      let taken : (take_pending h.hop_by_hop_id d.pending).1 ≡ delete h.hop_by_hop_id d.pending =
        rw (take_pending, found) refl in
      (inr (kept ∙ taken), seq)
]

-- Nothing that waits is changed.
abbrev pub IsStill : DraNode → DraNode → Type 0
IsStill d d' = (d'.pending ≡ d.pending) × (d'.hop_by_hop_seq ≡ d.hop_by_hop_seq)

pub keep_watch-Still :
    (codec : WatchdogCodec) (s : Surroundings) (from : Peer) (msg : List ℕ) (d : DraNode)
    → IsStill d (keep_watch codec s from msg d).1
unfolding keep_watch handle_dwr log send
keep_watch-Still codec s from msg d = elim (Option-cases (codec.unmarshal_dwr msg)) [
  | inl bad ↦ rw (keep_watch, handle_dwr, bad) (refl, refl)
  | inr (ids, read) ↦
      elim (Option-cases (codec.marshal_dwa ids.0 ids.1 d.origin_host d.origin_realm)) [
        | inl bad ↦ rw (keep_watch, handle_dwr, read, bad) (refl, refl)
        | inr (out, made) ↦ elim (Bool-cases (s.delivers from out)) [
          | inl fine ↦ rw (keep_watch, handle_dwr, read, made, fine) (refl, refl)
          | inr lost ↦ rw (keep_watch, handle_dwr, read, made, lost) (refl, refl)
        ]
      ]
]

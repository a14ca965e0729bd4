-- ===== src/Dra/Invariant.antt =====
-- The invariant of the requests that wait, and that forwarding and refusing a request keep it.
use mathlib.Core.List.{Memᴰ}
use mathlib.Core.Path.{subst}
use diam_gw.Prelude.{
  ℕ, ◌+◌, ◌^◌, ◌≤◌, ◌<◌, ◌≡◌, ◌⊎◌, inl, inr, sym, ◌∙◌, List, All, arith, delete, keys,
}
use diam_gw.Prelude.Counts.{count, count-keys-delete, count-keys-put}
use diam_gw.Dra.Header.{ParsedHeader}
use diam_gw.Dra.Peers.{Peer}
use diam_gw.Dra.Pending.{PendingTable, put_pending}
use diam_gw.Dra.Node.{DraNode, Surroundings}
use diam_gw.Dra.Relay.{Relayed, Refused, entry_of, fresh_id}
use diam_gw.Dra.Kept.{IsAwaited, All-delete, All-weaken}

pub record Waiting (n : ℕ) (live : List Peer) (d : DraNode) : Type 0 where
  pub seq_le : d.hop_by_hop_seq ≤ n
  pub awaited : All (IsAwaited d.hop_by_hop_seq live) d.pending
  pub once : (k : ℕ) → count k (keys d.pending) ≤ 1

later_id-Awaited :
    (seq seq' : ℕ) (live : List Peer) (t : PendingTable)
    → seq ≤ seq'
    → All (IsAwaited seq live) t
    → All (IsAwaited seq' live) t
later_id-Awaited seq seq' live t l a =
    All-weaken _ _ t (λ e (lo, hi, m). (lo, (let r : e.0 ≤ seq' = omega arith in r), m)) a

-- Nothing new waits, and no id is assigned again.
pub shrunk-Waiting :
    (n n' k : ℕ) (live : List Peer) (d d' : DraNode)
    → Waiting n live d
    → ((d'.pending ≡ d.pending) ⊎ (d'.pending ≡ delete k d.pending))
    → d.hop_by_hop_seq ≤ d'.hop_by_hop_seq
    → d'.hop_by_hop_seq ≤ n'
    → Waiting n' live d'
shrunk-Waiting n n' k live d d' w (inl e) lo hi = record {
  seq_le = hi;
  awaited = rw e (later_id-Awaited d.hop_by_hop_seq d'.hop_by_hop_seq live d.pending lo w.awaited);
  once = λ q. rw e (w.once q);
}
shrunk-Waiting n n' k live d d' w (inr e) lo hi = record {
  seq_le = hi;
  awaited = rw e (
      All-delete _ k d.pending
        (later_id-Awaited d.hop_by_hop_seq d'.hop_by_hop_seq live d.pending lo w.awaited));
  once = λ q. rw e (ground (arith, w.once q, count-keys-delete q k d.pending));
}

pub relayed-Waiting :
    (n : ℕ) (live : List Peer) (s : Surroundings) (from : Peer) (h : ParsedHeader) (d d' : DraNode)
    → n + 1 < 2 ^ 32
    → Memᴰ from live
    → Waiting n live d
    → Relayed s from h d d'
    → Waiting (n + 1) live d'
unfolding put_pending
relayed-Waiting n live s from h d d' u m w r =
    let next : fresh_id d ≡ d.hop_by_hop_seq + 1 = omega (arith, w.seq_le) in
    let seq : d'.hop_by_hop_seq ≡ d.hop_by_hop_seq + 1 = r.counted ∙ next in
    record {
      seq_le = omega (arith, seq, w.seq_le);
      awaited = subst (All (IsAwaited d'.hop_by_hop_seq live)) (sym r.waits) (
        (omega (arith, next), omega (arith, next, seq), m),
        All-delete _ (fresh_id d) d.pending (
            later_id-Awaited d.hop_by_hop_seq d'.hop_by_hop_seq live d.pending (omega (arith, seq))
              w.awaited),
      );
      once = λ q.
          subst (λ t. count q (keys t) ≤ 1) (sym r.waits)
            (ground (arith, w.once q, count-keys-put q (fresh_id d) (entry_of from h) d.pending));
    }

pub refused-Waiting :
    (n : ℕ) (live : List Peer) (s : Surroundings) (from : Peer) (h : ParsedHeader) (d d' : DraNode)
    → n + 1 < 2 ^ 32
    → Waiting n live d
    → Refused s from h d d'
    → Waiting (n + 1) live d'
refused-Waiting n live s from h d d' u w r = elim r.left [
  | inl (kept, seq) ↦
      shrunk-Waiting n (n + 1) 0 live d d' w (inl kept) (omega (arith, seq))
        (omega (arith, seq, w.seq_le))
  | inr (kept, seq) ↦
      let next : fresh_id d ≡ d.hop_by_hop_seq + 1 = omega (arith, w.seq_le) in
      shrunk-Waiting n (n + 1) (fresh_id d) live d d' w (inr kept) (omega (arith, seq, next))
        (omega (arith, seq, next, w.seq_le))
]

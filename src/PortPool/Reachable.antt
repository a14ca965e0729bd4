-- ===== src/PortPool/Reachable.antt =====
-- The pools that a program can come to: one that `new` made, and what a call makes of one.
use mathlib.Core.List.{Permᴰ}
use diam_gw.Prelude.{ℕ, ◌≡◌, ◌↔◌, refl, List, ok, ◌≤◌, arith, Option, none, some}
use diam_gw.Prelude.Int.{ℤ, pos, negsuc}
use diam_gw.PortPool.{Pool, Config, Owner, new, new_pool, out_of_range, acquire, release, stats}
use diam_gw.PortPool.Owned.{
  Owned, new_pool-Owned, acquire-Owned, release-Owned, sweep_quarantine-Owned,
}

-- A call, at any time, with any order of the visits.
pub data Step (p : Pool) : Pool → Type 0 where
  acquires :
      (now : ℕ) (order : List (ℕ × ℕ)) (owner : Owner) (q : Pool)
      → Permᴰ order p.quarantine
      → q ≡ (acquire now order owner p).1
      → Step p q
  releases : (now port : ℕ) (q : Pool) → q ≡ release now port p → Step p q
  reads :
      (now : ℕ) (order : List (ℕ × ℕ)) (q : Pool)
      → Permᴰ order p.quarantine
      → q ≡ (stats now order p).1
      → Step p q

pub data Reachable : Pool → Type 0 where
  made : (cfg : Config) (p : Pool) → new cfg ≡ ok p → Reachable p
  stepped : (p q : Pool) → Reachable p → Step p q → Reachable q

-- What the guards leave.
abbrev pub IsNew : Config → Pool → Type 0
IsNew cfg p =
    (ip : List ℕ) × (lo : ℕ) × (hi : ℕ) × (d : ℕ) × (cfg.source_ip ≡ some ip)
    × (cfg.min_port ≡ pos lo)
    × (cfg.max_port ≡ pos hi)
    × (cfg.quarantine_duration ≡ pos d)
    × (1 ≤ lo)
    × (lo ≤ hi)
    × (hi ≤ 65535)
    × (p ≡ new_pool ip lo hi d)

new_values :
    (ip : Option (List ℕ)) (lo hi d : ℤ) (p : Pool)
    → new (record { source_ip = ip; min_port = lo; max_port = hi; quarantine_duration = d }) ≡ ok p
    → IsNew (record { source_ip = ip; min_port = lo; max_port = hi; quarantine_duration = d }) p
unfolding new out_of_range
new_values none lo hi d p e = absurd cc
new_values (some ip) (negsuc lo) hi d p e = absurd (ground arith)
new_values (some ip) (pos lo) (negsuc hi) d p e = absurd (ground arith)
new_values (some ip) (pos lo) (pos hi) (negsuc d) p e = absurd (ground arith)
new_values (some ip) (pos lo) (pos hi) (pos d) p e =
    (ip, lo, hi, d, refl, refl, refl, refl, ground arith, ground arith, ground arith, ground arith)

-- `new` accepts a configuration just if it has a source address, the ports are in order and between 1 and
-- 65535, and the duration is not negative; the pool then has every port of the range free, in order.
pub new_accepts : (cfg : Config) (p : Pool) → (new cfg ≡ ok p) ↔ IsNew cfg p
unfolding new out_of_range
new_accepts cfg p = (
  new_values cfg.source_ip cfg.min_port cfg.max_port cfg.quarantine_duration p,
  λ (ip, lo, hi, d, e1, e2, e3, e4, h1, h2, h3, e). ground arith,
)

new-Owned : (cfg : Config) (p : Pool) → new cfg ≡ ok p → Owned p
new-Owned cfg p e =
    let (ip, lo, hi, d, _, _, _, _, _, h, _, is_new) = (new_accepts cfg p).0 e in
    rw is_new (new_pool-Owned ip lo hi d h)

Step-Owned : (p q : Pool) → Step p q → Owned p → Owned q
unfolding stats
Step-Owned p q (acquires now order owner q' r e) o = rw e (acquire-Owned now order owner p r o)
Step-Owned p q (releases now port q' e) o = rw e (release-Owned now port p o)
Step-Owned p q (reads now order q' r e) o = rw e (sweep_quarantine-Owned now order p r o)

-- In every pool that a program can come to, each port of the range is free, in use or in quarantine, in exactly
-- one of the three and once, and no other port is in any of them.
pub Reachable-Owned : (p : Pool) → Reachable p → Owned p
Reachable-Owned p (made cfg p' e) = new-Owned cfg p e
Reachable-Owned p (stepped p' q r s) = Step-Owned p' p s (Reachable-Owned p' r)

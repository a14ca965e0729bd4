-- ===== src/PortPool/Counting.antt =====
-- The numbers that `Stats` reports.
use mathlib.Core.List.{Permᴰ}
use diam_gw.Prelude.{ℕ, ◌+◌, ◌≡◌, List, length, arith}
use diam_gw.PortPool.{Pool, stats}
use diam_gw.PortPool.Owned.{Owned, sweep_quarantine-Owned}

-- The ports in use, in quarantine and free add up to the size of the range, and those reported as free are
-- the ones on the free list: the clamp at 0 is never reached.
pub stats_adds_up :
    (now : ℕ) (order : List (ℕ × ℕ)) (p : Pool)
    → Permᴰ order p.quarantine
    → Owned p
    → ((stats now order p).0.in_use + (stats now order p).0.quarantined + (stats now order p).0.free
        ≡ (stats now order p).0.total)
      × ((stats now order p).0.free ≡ length (stats now order p).1.free)
unfolding stats
stats_adds_up now order p r o =
    let o' = sweep_quarantine-Owned now order p r o in
    (omega (arith, o'.size), omega (arith, o'.size))

-- ===== src/Server/Accepting.antt =====
-- server/server.go: accepting connections up to the configured number, and their end.
use diam_gw.Prelude.{
  ℕ, ◌+◌, ◌-◌, ◌%◌, ◌^◌, ◌≤◌, ◌<◌, ◌≡◌, refl, List, [], ◌∷◌, ◌++◌, length, length-append,
  if◌then◌else◌, ltb, not, arith, ap, inl, inr, Bool-cases,
}

-- The counters, of 64 bits, and the connections whose `serve` runs, by their numbers.
pub record Accepted : Type 0 where
  pub serving : List ℕ
  pub active_connections : ℕ
  pub total_connections : ℕ
  pub errors : ℕ

unfoldable pub none_accepted : Accepted
none_accepted = record { serving = []; active_connections = 0; total_connections = 0; errors = 0 }

-- What the loop of Start does with a connection that it accepted.
unfoldable pub accept : ℕ → ℕ → Accepted → Accepted
accept max_connections conn s =
    if not (ltb s.active_connections max_connections)
    then record s { errors = (s.errors + 1) % 2 ^ 64 }
    else record s {
      serving = conn ∷ s.serving;
      active_connections = (s.active_connections + 1) % 2 ^ 64;
      total_connections = (s.total_connections + 1) % 2 ^ 64;
    }

-- `Add(^uint64(0))` at the end of `serve`, for the connection that stands between the others.
unfoldable pub serve_ends : List ℕ → List ℕ → Accepted → Accepted
serve_ends before after s = record s {
  serving = before ++ after;
  active_connections = (s.active_connections + (2 ^ 64 - 1)) % 2 ^ 64;
}

pub data Step (max_connections : ℕ) (s : Accepted) : Accepted → Type 0 where
  accepts :
      (conn : ℕ) (s' : Accepted) → s' ≡ accept max_connections conn s → Step max_connections s s'
  ends :
      (before after : List ℕ) (conn : ℕ) (s' : Accepted)
      → s.serving ≡ before ++ conn ∷ after
      → s' ≡ serve_ends before after s
      → Step max_connections s s'

pub data Reachable (max_connections : ℕ) : Accepted → Type 0 where
  started : Reachable max_connections none_accepted
  stepped :
      (s s' : Accepted)
      → Reachable max_connections s
      → Step max_connections s s'
      → Reachable max_connections s'

pub record Limited (max_connections : ℕ) (s : Accepted) : Type 0 where
  pub counted : s.active_connections ≡ length s.serving
  pub limited : length s.serving ≤ max_connections

Step-Limited : (n : ℕ) (s s' : Accepted) → n < 2 ^ 63 → Step n s s' → Limited n s → Limited n s'
unfolding accept serve_ends
Step-Limited n s s' u (accepts conn q e) b = elim (Bool-cases (ltb s.active_connections n)) [
  | inl room ↦
      rw (e, room)
        (record { counted = ground (arith, b.counted); limited = ground (arith, b.counted) })
  | inr full ↦ rw (e, full) (record { counted = b.counted; limited = b.limited })
]
Step-Limited n s s' u (ends before after conn q f e) b =
    let were = ap length f in
    let sizes = length-append before (conn ∷ after) in
    let left = length-append before after in
    rw e (record {
      counted = omega (arith, b.counted, b.limited, were, sizes, left);
      limited = omega (arith, b.limited, were, sizes, left);
    })

-- A server serves at most the configured number of connections at a time, and ActiveConnections is how many it
-- serves, in whatever order connections come and end. (The number is below 2^63.)
pub Reachable-Limited : (n : ℕ) (s : Accepted) → n < 2 ^ 63 → Reachable n s → Limited n s
unfolding none_accepted
Reachable-Limited n s u started = record { counted = refl; limited = omega arith }
Reachable-Limited n s u (stepped before s' r st) =
    Step-Limited n before s u st (Reachable-Limited n before u r)

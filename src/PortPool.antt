-- ===== src/PortPool.antt =====
-- pkg/portpool/portpool.go: the pool of source ports. A call is made under the pool's lock, so it is
-- one function of the pool; the clock's value at the call is an argument of it, and so is the order
-- in which a `range` visits the map of the ports in quarantine, which Go leaves open.
pub mod Sweep
pub mod Owned
pub mod Reachable
pub mod Acquiring
pub mod Releasing
pub mod Counting
mod Runs
use diam_gw.Prelude.{
  ℕ, zero, suc, ◌+◌, ◌-◌, ◌%◌, ◌^◌, ◌≡◌, List, [], ◌∷◌, ◌++◌, length, Option, none, some, Bool,
  true, false, not, ◌&&◌, ◌||◌, ltb, leb, ◌==◌, if◌then◌else◌, Result, ok, err,
}
unfoldable pub use diam_gw.Prelude.{keys, delete, put, lookup}
use diam_gw.Prelude.Int.{ℤ, pos, negsuc, ltb_int, to_nat}

-- An owner is a connection id, as its bytes.
abbrev pub Owner : Type 0
Owner = List ℕ

-- `source_ip` is none for nil; a duration is in nanoseconds.
pub record Config : Type 0 where
  pub source_ip : Option (List ℕ)
  pub min_port : ℤ
  pub max_port : ℤ
  pub quarantine_duration : ℤ

pub data ConfigError : Type 0 where
  source_ip_required min_port_out_of_range max_port_out_of_range min_port_above_max_port
        negative_quarantine :
      ConfigError

-- A pool keeps the numbers of a configuration that is valid, which are not negative.
pub record Pool : Type 0 where
  pub source_ip : List ℕ
  pub min_port : ℕ
  pub max_port : ℕ
  pub quarantine_duration : ℕ
  pub free : List ℕ
  pub in_use : List (ℕ × Owner)
  pub quarantine : List (ℕ × ℕ)
  pub failures : ℕ

-- The loop that fills the free list, of `n` rounds from `port` on.
unfoldable pub ports_from : ℕ → ℕ → List ℕ
ports_from port zero = []
ports_from port (suc n) = port ∷ ports_from (port + 1) n

unfoldable pub out_of_range : ℤ → Bool
out_of_range port = ltb_int port (pos 1) || ltb_int (pos 65535) port

unfoldable pub new_pool : List ℕ → ℕ → ℕ → ℕ → Pool
new_pool ip lo hi duration = record {
  source_ip = ip;
  min_port = lo;
  max_port = hi;
  quarantine_duration = duration;
  free = ports_from lo (hi + 1 - lo);
  in_use = [];
  quarantine = [];
  failures = 0;
}

unfoldable pub new : Config → Result ConfigError Pool
new cfg = elim cfg.source_ip [
  | none ↦ err source_ip_required
  | some ip ↦
      if out_of_range cfg.min_port
      then err min_port_out_of_range
      else if out_of_range cfg.max_port
      then err max_port_out_of_range
      else if ltb_int cfg.max_port cfg.min_port
      then err min_port_above_max_port
      else if ltb_int cfg.quarantine_duration (pos 0)
      then err negative_quarantine
      else ok
          (new_pool ip (to_nat cfg.min_port) (to_nat cfg.max_port) (to_nat cfg.quarantine_duration))
]

-- The body of the loop over the quarantine.
unfoldable pub sweep_entry : ℕ → Pool → ℕ × ℕ → Pool
sweep_entry now p e =
    if not (ltb now e.1)
    then record p { quarantine = delete e.0 p.quarantine; free = p.free ++ e.0 ∷ [] }
    else p

unfoldable pub sweep_loop : ℕ → Pool → List (ℕ × ℕ) → Pool
sweep_loop now p [] = p
sweep_loop now p (e ∷ order) = sweep_loop now (sweep_entry now p e) order

unfoldable pub sweep_quarantine : ℕ → List (ℕ × ℕ) → Pool → Pool
sweep_quarantine now order p = if length p.quarantine == 0 then p else sweep_loop now p order

unfoldable pub take_port : Owner → Pool → List ℕ → Option ℕ × Pool
take_port owner p [] = (none, record p { failures = (p.failures + 1) % 2 ^ 64 })
take_port owner p (port ∷ rest) =
    (some port, record p { free = rest; in_use = put port owner p.in_use })

-- `none` is ErrPoolExhausted.
unfoldable pub acquire : ℕ → List (ℕ × ℕ) → Owner → Pool → Option ℕ × Pool
acquire now order owner p = let q = sweep_quarantine now order p in take_port owner q q.free

unfoldable pub give_back : ℕ → ℕ → Pool → Pool
give_back now port p =
    if ltb 0 p.quarantine_duration
    then record p {
      in_use = delete port p.in_use;
      quarantine = put port (now + p.quarantine_duration) p.quarantine;
    }
    else record p { in_use = delete port p.in_use; free = p.free ++ port ∷ [] }

unfoldable pub release : ℕ → ℕ → Pool → Pool
release now port p = elim (lookup port p.in_use) [ none ↦ p | some owner ↦ give_back now port p ]

unfoldable pub contains : Pool → ℕ → Bool
contains p port = leb p.min_port port && leb port p.max_port

pub record Stats : Type 0 where
  pub source_ip : List ℕ
  pub min_port : ℕ
  pub max_port : ℕ
  pub total : ℕ
  pub in_use : ℕ
  pub quarantined : ℕ
  pub free : ℕ
  pub allocation_failures : ℕ

-- `free` is 0 where the difference would be negative.
unfoldable pub stats : ℕ → List (ℕ × ℕ) → Pool → Stats × Pool
stats now order p =
    let q = sweep_quarantine now order p in
    let total = q.max_port + 1 - q.min_port in
    (
      record {
        source_ip = q.source_ip;
        min_port = q.min_port;
        max_port = q.max_port;
        total = total;
        in_use = length q.in_use;
        quarantined = length q.quarantine;
        free = total - length q.in_use - length q.quarantine;
        allocation_failures = q.failures;
      },
      q,
    )

unfoldable pub in_use_owners : Pool → List (ℕ × Owner)
in_use_owners p = p.in_use

-- A net.TCPAddr.
unfoldable pub local_tcp_addr : Pool → ℕ → List ℕ × ℕ
local_tcp_addr p port = (p.source_ip, port)

-- ===== src/Client/Runs.antt =====
-- Runs of the pools of connections and agents.
use diam_gw.Prelude.{
  ℕ, ◌+◌, ◌≤◌, ◌<◌, ◌≡◌, ◌⊎◌, refl, List, [], ◌∷◌, Option, none, some, true, false, get_elem?,
  arith, str_eq,
}
use diam_gw.Prelude.Int.{pos}
use diam_gw.Client.State.{failed, dwr_sent, is_active}
use diam_gw.Client.Config.{DraConfig}
use diam_gw.Client.Connection.{Connection, Data, no_active_connections}
use diam_gw.Client.ConnectionPool.{ConnectionPool, is_healthy, send_at, send_loop, next_index}
use diam_gw.Client.ConnectionPool
use diam_gw.Client.DraPool.{
  DraPool, DraServer, group_of, find_pool, is_healthy_dra, count_healthy,
  count_healthy_dras_at_priority, first_healthy, move_to, check_and_update_priority,
}
use diam_gw.Client.DraPool
use diam_gw.Client.DraPool.{
  group_dras, DraPoolConfig, validate_dra_pool_config, validate_dras, name_seen,
}
use diam_gw.Client.Grouping.{with_priority, group_of-group_dras}
use diam_gw.Client.Rotation.{GoesTo, send_reaches}
use diam_gw.Client.Priority.{SomeHealthy, AllIll, check_and_update_priority_selects}

abbrev config : DraConfig
config = record {
  host = 100 ∷ [];
  port = pos 3868;
  local_addr = [];
  local_port_min = pos 0;
  local_port_max = pos 0;
  origin_host = 103 ∷ [];
  origin_realm = 114 ∷ [];
  product_name = 112 ∷ [];
  connection_count = pos 5;
  dwr_interval = pos 30;
  dwr_timeout = pos 10;
  max_dwr_failures = pos 3;
}

-- A parser that takes four characters for an address.
abbrev parse_four : List ℕ → Option (List ℕ)
parse_four (a ∷ b ∷ c ∷ d ∷ []) = some (a ∷ b ∷ c ∷ d ∷ [])
parse_four _ = none

abbrev down : Connection
down = record { id = 1 ∷ []; state = failed; queue = []; capacity = 2; cancelled = false }

abbrev up : Connection
up = record { id = 2 ∷ []; state = dwr_sent; queue = []; capacity = 2; cancelled = false }

abbrev pool : ConnectionPool
pool = record { connections = down ∷ up ∷ []; next_conn_idx = 4294967295; closed = false }

abbrev message : Data
message = 1 ∷ 2 ∷ []

send_reaches_example :
    ((k : ℕ) × (c : Connection) × (get_elem? pool.connections k ≡ some c)
      × (is_active c.state ≡ true)
      × GoesTo message pool.connections k c (
        (ConnectionPool.send true message pool).0,
        (ConnectionPool.send true message pool).1.connections,
      ))
    ⊎ (((ConnectionPool.send true message pool).0 ≡ some no_active_connections)
        × ((ConnectionPool.send true message pool).1.connections ≡ pool.connections)
        × ((k : ℕ) (c : Connection)
            → get_elem? pool.connections k ≡ some c
            → is_active c.state ≡ false))
send_reaches_example = send_reaches true message pool refl (omega arith) (omega arith)

abbrev near : DraServer
near = record { name = 97 ∷ []; priority = 1; weight = pos 100 }

abbrev far : DraServer
far = record { name = 98 ∷ []; priority = 2; weight = pos 100 }

abbrev dead : ConnectionPool
dead = record { connections = down ∷ []; next_conn_idx = 0; closed = false }

-- The first agent's connections are down, the second's are not.
abbrev agents : DraPool
agents = record {
  dra_pools = (97 ∷ [], dead) ∷ (98 ∷ [], pool) ∷ [];
  priority_groups = (1, near ∷ []) ∷ (2, far ∷ []) ∷ [];
  priority_rr = (1, 0) ∷ (2, 5) ∷ [];
  active_priority = 1;
  failover_count = 0;
}

fails_over : (check_and_update_priority agents).active_priority ≡ 2
unfolding check_and_update_priority first_healthy move_to count_healthy_dras_at_priority
    count_healthy is_healthy_dra find_pool is_healthy group_of is_active str_eq
fails_over = refl

check_and_update_priority_selects_example :
    (SomeHealthy agents agents.active_priority
      → (2 ≤ agents.active_priority) × SomeHealthy agents 2 × AllIll agents 1 2)
    × (¬ SomeHealthy agents agents.active_priority
        → ((agents.active_priority < 2)
            × (2 ≤ 10)
            × SomeHealthy agents 2
            × AllIll agents (agents.active_priority + 1) 2)
          ⊎ ((2 ≡ agents.active_priority) × AllIll agents (agents.active_priority + 1) 11))
check_and_update_priority_selects_example = check_and_update_priority_selects agents 2 fails_over

-- With the first agent up and the second, active, one down, the priority stays at the dead agent.
abbrev stranded : DraPool
stranded = record agents { dra_pools = (97 ∷ [], pool) ∷ (98 ∷ [], dead) ∷ []; active_priority = 2 }

stays_stranded : (check_and_update_priority stranded).active_priority ≡ 2
unfolding check_and_update_priority first_healthy move_to count_healthy_dras_at_priority
    count_healthy is_healthy_dra find_pool is_healthy group_of is_active str_eq
stays_stranded = refl

abbrev routed : DraPool
routed = record agents { active_priority = 2 }

group_of-group_dras_example :
    group_of 2 (group_dras [] (near ∷ far ∷ [])) ≡ with_priority 2 (near ∷ far ∷ [])
group_of-group_dras_example = group_of-group_dras 2 (near ∷ far ∷ [])

abbrev agents_config : DraPoolConfig
agents_config = record {
  dras = (97 ∷ [], pos 1) ∷ (98 ∷ [], pos 2) ∷ [];
  origin_host = 103 ∷ [];
  origin_realm = 114 ∷ [];
  connections_per_dra = pos 2;
}

agents_config-is_valid : validate_dra_pool_config agents_config ≡ none
unfolding validate_dra_pool_config validate_dras name_seen str_eq
agents_config-is_valid = refl

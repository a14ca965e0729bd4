-- ===== src/Client/DraPool.antt =====
-- client/dra_pool.go: the agents by priority, the choice of the active priority, and sending to an agent of it.
use diam_gw.Prelude.{
  ℕ, zero, suc, ◌+◌, ◌-◌, ◌%◌, ◌^◌, List, [], ◌∷◌, ◌++◌, length, Bool, true, false, ltb, ◌==◌,
  if◌then◌else◌, Option, none, some, get_elem?, str_eq,
}
use diam_gw.Prelude.Int.{ℤ}
use diam_gw.Client.Config.{is_empty, not_positive}
use diam_gw.Client.Connection.{Data, SendError}
use diam_gw.Client.ConnectionPool.{ConnectionPool, is_healthy}
use diam_gw.Client.ConnectionPool

-- What the routing reads of a DRAServerConfig; `validateDRAPoolConfig` saw to it that the priority is positive.
pub record DraServer : Type 0 where
  pub name : List ℕ
  pub priority : ℕ
  pub weight : ℤ

-- `dra_pools` is the map by name, `priority_groups` and `priority_rr` the maps by priority, as lists of entries.
pub record DraPool : Type 0 where
  pub dra_pools : List (List ℕ × ConnectionPool)
  pub priority_groups : List (ℕ × List DraServer)
  pub priority_rr : List (ℕ × ℕ)
  pub active_priority : ℕ
  pub failover_count : ℕ

unfoldable pub find_pool : List ℕ → List (List ℕ × ConnectionPool) → Option ConnectionPool
find_pool name [] = none
find_pool name (e ∷ pools) =
    let rest = find_pool name pools in if str_eq e.0 name then some e.1 else rest

-- What happens to the pool of a name is seen in its place.
unfoldable pub set_pool :
    List ℕ → ConnectionPool → List (List ℕ × ConnectionPool) → List (List ℕ × ConnectionPool)
set_pool name p [] = []
set_pool name p (e ∷ pools) =
    let rest = set_pool name p pools in if str_eq e.0 name then (e.0, p) ∷ rest else e ∷ rest

-- `priorityGroups[priority]`, empty where there is none.
unfoldable pub group_of : ℕ → List (ℕ × List DraServer) → List DraServer
group_of priority [] = []
group_of priority (e ∷ groups) =
    let rest = group_of priority groups in if e.0 == priority then e.1 else rest

-- `priorityGroups[dra.Priority] = append(priorityGroups[dra.Priority], dra)`
unfoldable pub add_to_group : DraServer → List (ℕ × List DraServer) → List (ℕ × List DraServer)
add_to_group dra [] = (dra.priority, dra ∷ []) ∷ []
add_to_group dra (e ∷ groups) =
    let rest = add_to_group dra groups in
    if e.0 == dra.priority then (e.0, e.1 ++ dra ∷ []) ∷ groups else e ∷ rest

-- The loop of NewDRAPool that groups the sorted agents.
unfoldable pub group_dras : List (ℕ × List DraServer) → List DraServer → List (ℕ × List DraServer)
unfolding add_to_group
group_dras groups [] = groups
group_dras groups (dra ∷ dras) = group_dras (add_to_group dra groups) dras

-- `p.draPools[name].IsHealthy()`; NewDRAPool gave every agent its pool.
unfoldable pub is_healthy_dra : List (List ℕ × ConnectionPool) → DraServer → Bool
unfolding find_pool is_healthy
is_healthy_dra pools dra = elim (find_pool dra.name pools) [
  | none ↦ false
  | some p ↦ is_healthy p.connections
]

unfoldable pub count_healthy : List (List ℕ × ConnectionPool) → List DraServer → ℕ
unfolding is_healthy_dra
count_healthy pools [] = 0
count_healthy pools (dra ∷ dras) =
    let rest = count_healthy pools dras in if is_healthy_dra pools dra then suc rest else rest

unfoldable pub count_healthy_dras_at_priority : DraPool → ℕ → ℕ
unfolding count_healthy group_of
count_healthy_dras_at_priority p priority =
    count_healthy p.dra_pools (group_of priority p.priority_groups)

-- The loops over priorities: the first of `fuel` priorities from `priority` on with a healthy agent.
unfoldable pub first_healthy : DraPool → ℕ → ℕ → Option ℕ
first_healthy p priority zero = none
first_healthy p priority (suc fuel) =
    let rest = first_healthy p (priority + 1) fuel in
    if ltb 0 (count_healthy_dras_at_priority p priority) then some priority else rest

-- `p.activePriority.Store(..)`, and the 32-bit count.
unfoldable pub move_to : DraPool → Option ℕ → DraPool
move_to p none = p
move_to p (some priority) = record p {
  active_priority = priority;
  failover_count = (p.failover_count + 1) % 2 ^ 32;
}

unfoldable pub check_and_update_priority : DraPool → DraPool
unfolding first_healthy move_to
check_and_update_priority p =
    let current = p.active_priority in
    if ltb 0 (count_healthy_dras_at_priority p current)
    then move_to p (first_healthy p 1 (current - 1))
    else move_to p (first_healthy p (current + 1) (10 - current))

pub data DraError : Type 0 where
  no_dras_at_priority all_dras_failed : ℕ → DraError
  dra_not_found dra_not_healthy : List ℕ → DraError
  pool_error : SendError → DraError

-- The cursor of a priority.
unfoldable pub cursor_of : ℕ → List (ℕ × ℕ) → ℕ
cursor_of priority [] = 0
cursor_of priority (e ∷ rr) =
    let rest = cursor_of priority rr in if e.0 == priority then e.1 else rest

unfoldable pub set_cursor : ℕ → ℕ → List (ℕ × ℕ) → List (ℕ × ℕ)
set_cursor priority n [] = []
set_cursor priority n (e ∷ rr) =
    let rest = set_cursor priority n rr in if e.0 == priority then (e.0, n) ∷ rest else e ∷ rest

-- One agent's turn: whether the message was sent, and the pools behind it.
unfoldable pub try_dra :
    Bool → Data → List (List ℕ × ConnectionPool) → DraServer → Bool × List (List ℕ × ConnectionPool)
unfolding find_pool set_pool is_healthy ConnectionPool.send
try_dra favours_queue bytes pools dra = elim (find_pool dra.name pools) [
  | none ↦ (false, pools)
  | some p ↦
      let (e, p') = ConnectionPool.send favours_queue bytes p in
      if is_healthy p.connections
      then (elim e [ none ↦ true | some _ ↦ false ], set_pool dra.name p' pools)
      else (false, pools)
]

-- The loop of `Send`, from its `i`th round on, with `fuel` rounds to go.
unfoldable pub dra_loop :
    Bool
    → Data
    → List DraServer
    → ℕ
    → List (List ℕ × ConnectionPool)
    → ℕ
    → ℕ
    → Bool × List (List ℕ × ConnectionPool)
dra_loop favours_queue bytes dras start pools i zero = (false, pools)
dra_loop favours_queue bytes dras start pools i (suc fuel) =
    let turn : Bool × List (List ℕ × ConnectionPool) =
      elim (get_elem? dras ((start + i) % 2 ^ 32 % length dras)) [
        | none ↦ (false, pools)
        | some dra ↦ try_dra favours_queue bytes pools dra
      ] in
    let rest = dra_loop favours_queue bytes dras start turn.1 (i + 1) fuel in
    if turn.0 then turn else rest

unfoldable pub send : Bool → Data → DraPool → Option DraError × DraPool
unfolding group_of cursor_of set_cursor dra_loop
send favours_queue bytes p =
    let dras = group_of p.active_priority p.priority_groups in
    let start = (cursor_of p.active_priority p.priority_rr + 1) % 2 ^ 32 in
    let result = dra_loop favours_queue bytes dras start p.dra_pools 0 (length dras) in
    let p' = record p {
      dra_pools = result.1;
      priority_rr = set_cursor p.active_priority start p.priority_rr;
    } in
    if length dras == 0
    then (some (no_dras_at_priority p.active_priority), p)
    else if result.0
    then (none, p')
    else (some (all_dras_failed p.active_priority), p')

unfoldable pub send_to_dra : Bool → List ℕ → Data → DraPool → Option DraError × DraPool
unfolding find_pool set_pool is_healthy ConnectionPool.send
send_to_dra favours_queue name bytes p = elim (find_pool name p.dra_pools) [
  | none ↦ (some (dra_not_found name), p)
  | some pool ↦
      let (e, pool') = ConnectionPool.send favours_queue bytes pool in
      if is_healthy pool.connections
      then (
        elim e [ none ↦ none | some x ↦ some (pool_error x) ],
        record p { dra_pools = set_pool name pool' p.dra_pools },
      )
      else (some (dra_not_healthy name), p)
]

-- `IsHealthy`
unfoldable pub is_healthy_pool : List (List ℕ × ConnectionPool) → Bool
unfolding is_healthy
is_healthy_pool [] = false
is_healthy_pool (e ∷ pools) =
    let rest = is_healthy_pool pools in if is_healthy e.1.connections then true else rest

-- What `validateDRAPoolConfig` reads of a DRAPoolConfig.
pub record DraPoolConfig : Type 0 where
  pub dras : List (List ℕ × ℤ)
  pub origin_host : List ℕ
  pub origin_realm : List ℕ
  pub connections_per_dra : ℤ

pub data PoolConfigError : Type 0 where
  no_dras_configured origin_host_required origin_realm_required connections_per_dra_not_positive :
      PoolConfigError
  duplicate_dra_name priority_not_positive : List ℕ → PoolConfigError

unfoldable pub name_seen : List ℕ → List (List ℕ) → Bool
name_seen name [] = false
name_seen name (x ∷ names) = let rest = name_seen name names in if str_eq x name then true else rest

-- The loop over the agents, with the names seen so far.
unfoldable pub validate_dras : List (List ℕ) → List (List ℕ × ℤ) → Option PoolConfigError
unfolding name_seen
validate_dras names [] = none
validate_dras names (dra ∷ dras) =
    let rest = validate_dras (dra.0 ∷ names) dras in
    if name_seen dra.0 names
    then some (duplicate_dra_name dra.0)
    else if not_positive dra.1
    then some (priority_not_positive dra.0)
    else rest

unfoldable pub validate_dra_pool_config : DraPoolConfig → Option PoolConfigError
unfolding validate_dras
validate_dra_pool_config c =
    if length c.dras == 0
    then some no_dras_configured
    else if is_empty c.origin_host
    then some origin_host_required
    else if is_empty c.origin_realm
    then some origin_realm_required
    else if not_positive c.connections_per_dra
    then some connections_per_dra_not_positive
    else validate_dras [] c.dras

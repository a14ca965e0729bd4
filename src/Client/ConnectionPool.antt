-- ===== src/Client/ConnectionPool.antt =====
-- client/connection_pool.go: the connections to one agent, used in turn.
use diam_gw.Prelude.{
  ℕ, zero, suc, ◌+◌, ◌%◌, ◌^◌, List, [], ◌∷◌, length, Bool, false, ◌||◌, if◌then◌else◌, Option,
  none, some, get_elem?, str_eq,
}
use diam_gw.Client.State.{is_active}
use diam_gw.Client.Connection.{
  Connection, Data, SendError, connection_not_found, pool_closed, no_active_connections,
}
use diam_gw.Client.Connection

pub record ConnectionPool : Type 0 where
  pub connections : List Connection
  pub next_conn_idx : ℕ
  pub closed : Bool

unfoldable pub is_healthy : List Connection → Bool
unfolding is_active
is_healthy [] = false
is_healthy (c ∷ conns) = is_active c.state || is_healthy conns

unfoldable pub count_active : List Connection → ℕ
unfolding is_active
count_active [] = 0
count_active (c ∷ conns) =
    let rest = count_active conns in if is_active c.state then suc rest else rest

unfoldable pub get_active_connections : List Connection → List Connection
unfolding is_active
get_active_connections [] = []
get_active_connections (c ∷ conns) =
    let rest = get_active_connections conns in if is_active c.state then c ∷ rest else rest

-- A connection is a pointer: what happens to it is seen in its place in the pool.
unfoldable pub set_elem : ℕ → Connection → List Connection → List Connection
set_elem i c [] = []
set_elem zero c (x ∷ conns) = c ∷ conns
set_elem (suc i) c (x ∷ conns) = x ∷ set_elem i c conns

-- Sending through the connection at one place.
unfoldable pub send_at :
    Bool → Data → List Connection → ℕ → Connection → Option SendError × List Connection
unfolding Connection.send
send_at favours_queue bytes conns idx c =
    let (e, c') = Connection.send favours_queue bytes c in (e, set_elem idx c' conns)

-- The loop of `Send`, from its `i`th round on, with `fuel` rounds to go. An index is below the length.
unfoldable pub send_loop :
    Bool → Data → List Connection → ℕ → ℕ → ℕ → Option SendError × List Connection
send_loop favours_queue bytes conns start i zero = (some no_active_connections, conns)
send_loop favours_queue bytes conns start i (suc fuel) =
    let idx = (start + i) % 2 ^ 32 % length conns in
    let rest = send_loop favours_queue bytes conns start (i + 1) fuel in
    elim (get_elem? conns idx) [
      | none ↦ rest
      | some c ↦ if is_active c.state then send_at favours_queue bytes conns idx c else rest
    ]

-- `nextConnIdx.Add(1)`, on 32 bits.
unfoldable pub next_index : ConnectionPool → ℕ
next_index p = (p.next_conn_idx + 1) % 2 ^ 32

-- `Send`. There is a connection at least, as the configuration was validated.
unfoldable pub send : Bool → Data → ConnectionPool → Option SendError × ConnectionPool
unfolding send_loop next_index
send favours_queue bytes p =
    let n = length p.connections in
    let (e, conns) = send_loop favours_queue bytes p.connections (next_index p % n) 0 n in
    if p.closed
    then (some pool_closed, p)
    else (e, record p { connections = conns; next_conn_idx = next_index p })

-- `SendRoundRobin`
unfoldable pub send_round_robin : Bool → Data → ConnectionPool → Option SendError × ConnectionPool
unfolding send_at next_index send
send_round_robin favours_queue bytes p =
    let idx = next_index p % length p.connections in
    let p' = record p { next_conn_idx = next_index p } in
    let fallback = send favours_queue bytes p' in
    if p.closed then (some pool_closed, p) else elim (get_elem? p.connections idx) [
      | none ↦ fallback
      | some c ↦
          if is_active c.state
          then (let (e, conns) = send_at favours_queue bytes p.connections idx c in
              (e, record p' { connections = conns }))
          else fallback
    ]

unfoldable pub send_to_first :
    Bool → List ℕ → Data → List Connection → Option SendError × List Connection
unfolding Connection.send
send_to_first favours_queue id bytes [] = (some (connection_not_found id), [])
send_to_first favours_queue id bytes (c ∷ conns) =
    let (e, c') = Connection.send favours_queue bytes c in
    let (e', conns') = send_to_first favours_queue id bytes conns in
    if str_eq c.id id then (e, c' ∷ conns) else (e', c ∷ conns')

-- `SendToConnection`
unfoldable pub send_to_connection :
    Bool → List ℕ → Data → ConnectionPool → Option SendError × ConnectionPool
unfolding send_to_first
send_to_connection favours_queue id bytes p =
    let (e, conns) = send_to_first favours_queue id bytes p.connections in
    if p.closed then (some pool_closed, p) else (e, record p { connections = conns })

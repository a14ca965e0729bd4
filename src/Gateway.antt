-- ===== src/Gateway.antt =====
-- gateway/gateway.go: the sessions of the gateway and their counters.
pub mod Balance
mod Runs
use diam_gw.Prelude.{
  ℕ, ◌+◌, ◌-◌, ◌%◌, ◌^◌, List, [], ◌∷◌, Bool, true, false, not, ◌==◌, if◌then◌else◌, Option, none,
  some, ltb, keys, put, lookup, delete, Result, ok, err,
}
use diam_gw.Prelude.Int.{ℤ, pos, ltb_int}

-- A `*Session`, by the connection that it answers to; `created_at` is in nanoseconds.
pub record Session : Type 0 where
  pub conn : ℕ
  pub created_at : ℕ

-- The map of the sessions and the counters that follow it, of 64 bits each. `storing` and `deleting` are the calls of
-- StoreSession and DeleteSession that have changed the map, and have released its lock, but have not
-- counted that yet.
pub record Sessions : Type 0 where
  pub table : List (ℕ × Session)
  pub active : ℕ
  pub created : ℕ
  pub completed : ℕ
  pub expired : ℕ
  pub timeout_errors : ℕ
  pub storing : ℕ
  pub deleting : ℕ

unfoldable pub no_sessions : Sessions
no_sessions = record {
  table = [];
  active = 0;
  created = 0;
  completed = 0;
  expired = 0;
  timeout_errors = 0;
  storing = 0;
  deleting = 0;
}

-- `Add(1)` and `Add(^uint64(0))` on a counter.
abbrev pub up : ℕ → ℕ
up n = (n + 1) % 2 ^ 64

abbrev pub down : ℕ → ℕ
down n = (n + (2 ^ 64 - 1)) % 2 ^ 64

-- StoreSession: the section under the lock, and the counting behind it for a session that is new.
unfoldable pub store_session : ℕ → Session → Sessions → Sessions
unfolding put lookup
store_session hop_by_hop s g =
    let exists : Bool = elim (lookup hop_by_hop g.table) [ none ↦ false | some old ↦ true ] in
    record g {
      table = put hop_by_hop s g.table;
      storing = if exists then g.storing else g.storing + 1;
    }

unfoldable pub count_stored : Sessions → Sessions
count_stored g = record g { active = up g.active; created = up g.created; storing = g.storing - 1 }

unfoldable pub find_session : ℕ → Sessions → Option Session
unfolding lookup
find_session hop_by_hop g = lookup hop_by_hop g.table

-- DeleteSession: what it returns and the section under the lock, and the counting behind it.
unfoldable pub delete_session : ℕ → Sessions → Bool × Sessions
unfolding lookup delete
delete_session hop_by_hop g = elim (lookup hop_by_hop g.table) [
  | none ↦ (false, g)
  | some s ↦ (true, record g { table = delete hop_by_hop g.table; deleting = g.deleting + 1 })
]

unfoldable pub count_deleted : Sessions → Sessions
count_deleted g = record g {
  active = down g.active;
  completed = up g.completed;
  deleting = g.deleting - 1;
}

-- `now.Sub(session.CreatedAt) > timeout`
unfoldable pub is_expired : ℕ → ℕ → Session → Bool
is_expired now timeout s = ltb (s.created_at + timeout) now

-- The loop of cleanupExpiredSessions. A visit touches its own key and adds to counters, so that the
-- order of the visits does not matter.
unfoldable pub cleanup_loop : ℕ → ℕ → List (ℕ × Session) → Sessions → Sessions
unfolding is_expired
cleanup_loop now timeout [] g = record g { table = [] }
cleanup_loop now timeout (e ∷ table) g =
    let rest = cleanup_loop now timeout table g in
    if is_expired now timeout e.1
    then record rest {
      active = down rest.active;
      timeout_errors = up rest.timeout_errors;
      expired = up rest.expired;
    }
    else record rest { table = e ∷ rest.table }

unfoldable pub cleanup_expired_sessions : ℕ → ℕ → Sessions → Sessions
unfolding cleanup_loop
cleanup_expired_sessions now timeout g = cleanup_loop now timeout g.table g

-- What ValidateGatewayConfig reads and sets of a configuration; a nil one is none.
pub record GatewayConfig : Type 0 where
  pub origin_host : List ℕ
  pub origin_realm : List ℕ
  pub has_dra_pool_config : Bool
  pub session_timeout : ℤ

pub data GatewayConfigError : Type 0 where
  config_nil origin_host_required origin_realm_required dra_pool_config_required :
      GatewayConfigError

abbrev pub missing : List ℕ → Bool
missing [] = true
missing (x ∷ xs) = false

unfoldable pub validate_gateway_config :
    Option GatewayConfig → Result GatewayConfigError GatewayConfig
validate_gateway_config none = err config_nil
validate_gateway_config (some c) =
    if missing c.origin_host
    then err origin_host_required
    else if missing c.origin_realm
    then err origin_realm_required
    else if not c.has_dra_pool_config
    then err dra_pool_config_required
    else if ltb_int (pos 0) c.session_timeout
    then ok c
    else ok (record c { session_timeout = pos 30000000000 })

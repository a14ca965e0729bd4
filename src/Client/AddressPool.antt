-- ===== src/Client/AddressPool.antt =====
-- client/address_pool.go: one connection for each remote address. Callers, lifecycle managers and the
-- health checker run interleaved: each is a task, and a step of one is what it does in one access to
-- what they share.
use diam_gw.Prelude.{
  ℕ, ◌+◌, ◌-◌, ◌%◌, ◌^◌, List, [], ◌∷◌, Bool, true, false, not, ◌&&◌, ◌||◌, ◌==◌, if◌then◌else◌,
  Option, none, some, put, lookup, delete, keys, Result, ok, err,
}
use diam_gw.Prelude.Int.{ℤ, pos, ltb_int}

-- Addresses are numbered; `valid_address` is net.SplitHostPort without an error.
pub record Setting : Type 0 where
  pub valid_address : ℕ → Bool
  pub idle_timeout : ℤ
  pub max_conn_lifetime : ℤ

-- A ManagedConnection and the Connection in it: IsActive, and whether its own context is cancelled and
-- `Close` was called.
pub record ManagedConnection : Type 0 where
  pub address : ℕ
  pub is_active : Bool
  pub cancelled : Bool
  pub closed : Bool

-- How a call of `Send` ends.
pub data SendOutcome : Type 0 where
  sent pool_closed invalid_address not_established not_found context_done : SendOutcome
  connection_closed not_sent : SendOutcome

-- A call of `Send`: the address, and how long the message is.
pub record Call : Type 0 where
  pub remote : ℕ
  pub bytes : ℕ

-- Managed connections and the channels of `establishing` are numbered as they are made. A channel is
-- `filled` where its buffer holds the nil, and `shut` where it was closed. `outcomes` lists how calls
-- ended, the latest first. Once a goroutine panics the program has `crashed`.
pub record AddressPool : Type 0 where
  pub connections : List (ℕ × ℕ)
  pub managed : ℕ → ManagedConnection
  pub next_managed : ℕ
  pub establishing : List (ℕ × ℕ)
  pub establishing_mu : Bool
  pub filled : ℕ → Bool
  pub shut : ℕ → Bool
  pub next_channel : ℕ
  pub cancelled : Bool
  pub closed : Bool
  pub active_connections : ℕ
  pub total_connections : ℕ
  pub failed_establishments : ℕ
  pub messages_sent : ℕ
  pub bytes_sent : ℕ
  pub connections_closed : ℕ
  pub idle_timeouts : ℕ
  pub max_lifetime_expirations : ℕ
  pub outcomes : List (Call × SendOutcome)
  pub crashed : Bool

-- What the lifecycle manager's select takes: the context, a tick of the idle timer with the time since
-- the last activity, or the end of the lifetime.
pub data Tick : Type 0 where
  context_tick lifetime_tick : Tick
  idle_tick : ℤ → Tick

-- What the select of a caller that waits takes: the channel, or the end of its own or the pool's context.
pub data WaitCase : Type 0 where
  channel_case caller_case pool_case : WaitCase

-- What the outside answers: whether the start of a connection or the sending succeeds, and which cases
-- the two selects take.
pub record Outside : Type 0 where
  pub fine : Bool
  pub wait_case : WaitCase
  pub tick : Tick

-- Where a goroutine stands, named for what it does next. Those from `looks_again` to `claims` hold
-- establishingMu.
pub data Task : Type 0 where
  sends looks_up wants_lock looks_again claims retrieves : Call → Task
  checks checks_again transmits : Call → ℕ → Task
  waits establishes counts_failure closes_failed : Call → ℕ → Task
  adds counts_active counts_total : Call → ℕ → ℕ → Task
  discards : Call → ℕ → ℕ → ℕ → Task
  forgets : Call → ℕ → Option ℕ → Task
  sends_nil closes_channel : ℕ → Task
  counts_message counts_bytes : Call → Task
  lives : ℕ → Task
  removes : ℕ → Task
  uncounts counts_closed : Task
  health_check closes_pool cancels_pool : Task
  checks_health cancels_each : List ℕ → Task

unfoldable pub update {ℓ} : {A : Type ℓ} → ℕ → A → (ℕ → A) → ℕ → A
update k a f x = if x == k then a else f x

-- An access that never waits.
abbrev pub go : AddressPool → List Task → Option (AddressPool × List Task)
go p ts = some (p, ts)

-- The call of `Send` returns.
unfoldable pub ends : Call → SendOutcome → AddressPool → Option (AddressPool × List Task)
ends c o p = go (record p { outcomes = (c, o) ∷ p.outcomes }) []

-- The context of a managed connection is cancelled with the pool's.
unfoldable pub is_done : AddressPool → ℕ → Bool
is_done p id = p.cancelled || (p.managed id).cancelled

-- `mc.cancel()`
unfoldable pub cancel : ℕ → AddressPool → AddressPool
unfolding update
cancel id p = record p {
  managed = update id (record (p.managed id) { cancelled = true }) p.managed;
}

-- `Close` of the connection: on one that is closed already it closes its channels again, and panics.
unfoldable pub close_connection : ℕ → AddressPool → AddressPool
unfolding update
close_connection id p = if (p.managed id).closed then record p { crashed = true } else record p {
  managed = update id (record (p.managed id) { is_active = false; closed = true }) p.managed;
}

-- The entry of establishing, or a new one.
unfoldable pub claim : Call → AddressPool → Option (AddressPool × List Task)
unfolding lookup put
claim c p = elim (lookup c.remote p.establishing) [
  | some ch ↦ go (record p { establishing_mu = false }) (waits c ch ∷ [])
  | none ↦
      go
        (record p {
          establishing = put c.remote p.next_channel p.establishing;
          establishing_mu = false;
          next_channel = p.next_channel + 1;
        })
        (establishes c p.next_channel ∷ [])
]

-- `establishConnection` up to the start of the lifecycle manager.
unfoldable pub establish :
    Setting → Outside → Call → ℕ → AddressPool → Option (AddressPool × List Task)
unfolding update
establish s o c ch p =
    if s.valid_address c.remote && o.fine
    then go
        (record p {
          managed =
              update p.next_managed
                (record { address = c.remote; is_active = true; cancelled = false; closed = false })
                p.managed;
          next_managed = p.next_managed + 1;
        })
        (adds c ch p.next_managed ∷ lives p.next_managed ∷ [])
    else go p (forgets c ch none ∷ [])

-- Its section under connectionsMu.
unfoldable pub add : Call → ℕ → ℕ → AddressPool → Option (AddressPool × List Task)
unfolding lookup put
add c ch id p = elim (lookup c.remote p.connections) [
  | some existing ↦ go p (discards c ch id existing ∷ [])
  | none ↦
      go (record p { connections = put c.remote id p.connections }) (counts_active c ch id ∷ [])
]

-- The end of getOrCreateConnection for the call that established.
unfoldable pub forget : Call → ℕ → Option ℕ → AddressPool → Option (AddressPool × List Task)
unfolding delete
forget c ch r p =
    if p.establishing_mu
    then none
    else go (record p { establishing = delete c.remote p.establishing })
        (elim r [ none ↦ counts_failure c ch ∷ [] | some id ↦ transmits c id ∷ sends_nil ch ∷ [] ])

-- `<-waitCh`, and the contexts.
unfoldable pub wait : Outside → Call → ℕ → AddressPool → Option (AddressPool × List Task)
unfolding ends
wait o c ch p = elim o.wait_case [
  | caller_case ↦ ends c context_done p
  | pool_case ↦ if p.cancelled then ends c pool_closed p else none
  | channel_case ↦
      if p.filled ch
      then go (record p { filled = λ x. if x == ch then false else p.filled x }) (retrieves c ∷ [])
      else if p.shut ch
      then go p (retrieves c ∷ [])
      else none
]

-- A round of the loop of startLifecycleManager.
unfoldable pub live : Setting → Outside → ℕ → AddressPool → Option (AddressPool × List Task)
unfolding is_done cancel close_connection
live s o id p =
    let remove = removes (p.managed id).address ∷ [] in
    elim o.tick [
      | context_tick ↦ if is_done p id then go (close_connection id p) remove else none
      | idle_tick since ↦
          if ltb_int (pos 0) s.idle_timeout && not (ltb_int since s.idle_timeout)
          then go (cancel id (record p { idle_timeouts = (p.idle_timeouts + 1) % 2 ^ 64 })) remove
          else go p (lives id ∷ [])
      | lifetime_tick ↦
          if ltb_int (pos 0) s.max_conn_lifetime
          then go
              (cancel id
                (record p { max_lifetime_expirations = (p.max_lifetime_expirations + 1) % 2 ^ 64 }))
              remove
          else go p (lives id ∷ [])
    ]

-- The connections that a snapshot of the map holds.
unfoldable pub snapshot : List (ℕ × ℕ) → List ℕ
snapshot [] = []
snapshot (e ∷ m) = e.1 ∷ snapshot m

-- The next step of a task: the pool after it, and what the task goes on with or starts; none where
-- it waits.
unfoldable pub run : Setting → Outside → Task → AddressPool → Option (AddressPool × List Task)
unfolding ends is_done cancel close_connection claim establish add forget wait live lookup delete
    snapshot
run s o (sends c) p =
    if p.closed
    then ends c pool_closed p
    else if s.valid_address c.remote
    then go p (looks_up c ∷ [])
    else ends c invalid_address p
run s o (looks_up c) p = elim (lookup c.remote p.connections) [
  | some id ↦ go p (checks c id ∷ [])
  | none ↦ go p (wants_lock c ∷ [])
]
run s o (checks c id) p =
    if (p.managed id).is_active then go p (transmits c id ∷ []) else go p (wants_lock c ∷ [])
run s o (wants_lock c) p =
    if p.establishing_mu
    then none
    else go (record p { establishing_mu = true }) (looks_again c ∷ [])
run s o (looks_again c) p = elim (lookup c.remote p.connections) [
  | some id ↦ go p (checks_again c id ∷ [])
  | none ↦ go p (claims c ∷ [])
]
run s o (checks_again c id) p =
    if (p.managed id).is_active
    then go (record p { establishing_mu = false }) (transmits c id ∷ [])
    else go p (claims c ∷ [])
run s o (claims c) p = claim c p
run s o (waits c ch) p = wait o c ch p
run s o (retrieves c) p = elim (lookup c.remote p.connections) [
  | some id ↦ go p (transmits c id ∷ [])
  | none ↦ ends c not_found p
]
run s o (establishes c ch) p = establish s o c ch p
run s o (adds c ch id) p = add c ch id p
run s o (discards c ch id existing) p =
    go (close_connection id (cancel id p)) (forgets c ch (some existing) ∷ [])
run s o (counts_active c ch id) p =
    go (record p { active_connections = (p.active_connections + 1) % 2 ^ 64 })
      (counts_total c ch id ∷ [])
run s o (counts_total c ch id) p =
    go (record p { total_connections = (p.total_connections + 1) % 2 ^ 64 })
      (forgets c ch (some id) ∷ [])
run s o (forgets c ch r) p = forget c ch r p
run s o (counts_failure c ch) p =
    go (record p { failed_establishments = (p.failed_establishments + 1) % 2 ^ 64 })
      (closes_failed c ch ∷ [])
run s o (closes_failed c ch) p =
    ends c not_established (record p { shut = λ x. x == ch || p.shut x })
run s o (sends_nil ch) p =
    go (record p { filled = λ x. x == ch || p.filled x }) (closes_channel ch ∷ [])
run s o (closes_channel ch) p = go (record p { shut = λ x. x == ch || p.shut x }) []
run s o (transmits c id) p =
    if (p.managed id).is_active
    then if o.fine then go p (counts_message c ∷ []) else ends c not_sent p
    else ends c connection_closed p
run s o (counts_message c) p =
    go (record p { messages_sent = (p.messages_sent + 1) % 2 ^ 64 }) (counts_bytes c ∷ [])
run s o (counts_bytes c) p =
    ends c sent (record p { bytes_sent = (p.bytes_sent + c.bytes) % 2 ^ 64 })
run s o (lives id) p = live s o id p
run s o (removes a) p = go (record p { connections = delete a p.connections }) (uncounts ∷ [])
run s o uncounts p =
    go (record p { active_connections = (p.active_connections + 2 ^ 64 - 1) % 2 ^ 64 })
      (counts_closed ∷ [])
run s o counts_closed p =
    go (record p { connections_closed = (p.connections_closed + 1) % 2 ^ 64 }) []
run s o health_check p = go p (checks_health (snapshot p.connections) ∷ [])
run s o (checks_health []) p = go p []
run s o (checks_health (id ∷ ids)) p =
    go (if (p.managed id).is_active then p else cancel id p) (checks_health ids ∷ [])
run s o closes_pool p =
    if p.closed then go p [] else go (record p { closed = true }) (cancels_pool ∷ [])
run s o cancels_pool p =
    go (record p { cancelled = true }) (cancels_each (snapshot p.connections) ∷ [])
run s o (cancels_each []) p = go p []
run s o (cancels_each (id ∷ ids)) p = go (cancel id p) (cancels_each ids ∷ [])

-- NewAddressConnectionPool, for a valid configuration.
unfoldable pub new_address_pool : AddressPool
new_address_pool = record {
  connections = [];
  managed = λ id. record { address = 0; is_active = false; cancelled = false; closed = false };
  next_managed = 0;
  establishing = [];
  establishing_mu = false;
  filled = λ ch. false;
  shut = λ ch. false;
  next_channel = 0;
  cancelled = false;
  closed = false;
  active_connections = 0;
  total_connections = 0;
  failed_establishments = 0;
  messages_sent = 0;
  bytes_sent = 0;
  connections_closed = 0;
  idle_timeouts = 0;
  max_lifetime_expirations = 0;
  outcomes = [];
  crashed = false;
}

unfoldable pub get_connection : ℕ → AddressPool → Option ℕ
unfolding lookup
get_connection remote p = lookup remote p.connections

unfoldable pub list_connections : AddressPool → List ℕ
unfolding keys
list_connections p = keys p.connections

pub data ReceiveError : Type 0 where
  not_establishing not_found_any : ReceiveError

-- GetReceiveChan: the connection whose channel it returns.
unfoldable pub get_receive_chan : ℕ → AddressPool → Result ReceiveError ℕ
unfolding lookup get_connection
get_receive_chan remote p = elim (lookup remote p.establishing) [
  | none ↦ err not_establishing
  | some ch ↦ elim (get_connection remote p) [ none ↦ err not_found_any | some id ↦ ok id ]
]

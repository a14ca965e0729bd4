-- ===== src/Client/Lifecycle.antt =====
-- client/connection.go: opening, losing and reopening a connection. Goroutines run interleaved: each
-- is a task, and a step of one is what it does under one lock or in one atomic access.
use diam_gw.Prelude.{
  ℕ, ◌+◌, ◌%◌, ◌^◌, List, [], ◌∷◌, Bool, true, false, not, ◌&&◌, ◌||◌, ◌==◌, if◌then◌else◌, Option,
  none, some,
}
use diam_gw.Prelude.Int.{ℤ, of_u32, ltb_int}
use diam_gw.Client.State.{
  ConnectionState, disconnected, connecting, cer_sent, open_state, dwr_sent, failed, reconnecting,
  closed_state, is_active,
}

-- Whether the configuration has the callbacks AcquireLocalAddr and ReleaseLocalAddr.
pub record LinkConfig : Type 0 where
  pub acquires : Bool
  pub gives_back : Bool
  pub max_dwr_failures : ℤ

-- `conn` tells whether c.conn is set, `bound` is the port of boundLocalAddr, and `watchdog` tells whether
-- the ticker is. `acquired` and `released` list the calls of the two callbacks, the latest first.
pub record Lifecycle : Type 0 where
  pub state : ConnectionState
  pub conn : Bool
  pub bound : Option ℕ
  pub generation : ℕ
  pub watchdog : Bool
  pub dwr_failures : ℕ
  pub is_reconnecting : Bool
  pub reconnect_requested : Bool
  pub reconnect_disabled : Bool
  pub cancelled : Bool
  pub acquired : List ℕ
  pub released : List ℕ

unfoldable pub new_connection : Bool → Lifecycle
new_connection disabled = record {
  state = disconnected;
  conn = false;
  bound = none;
  generation = 0;
  watchdog = false;
  dwr_failures = 0;
  is_reconnecting = false;
  reconnect_requested = false;
  reconnect_disabled = disabled;
  cancelled = false;
  acquired = [];
  released = [];
}

-- Who called `connect`: Start, or the loop of `reconnect`.
pub data Caller : Type 0 where
  starter looper : Caller

-- What comes behind a call of `close`: in `connect`, in handleFailure, with whether it reconnects, and
-- in `Close`.
pub data After : Type 0 where
  then_fail : Caller → After
  then_schedule : Bool → After
  then_finish : After

-- Where a goroutine stands, named for what it does next.
pub data Task : Type 0 where
  connects acquires_port marks_failed greets awaits_cea opens resets watches returns : Caller → Task
  dials returns_port installs : Caller → Option ℕ → Task
  stops_watchdog takes_down : After → Task
  releases : After → ℕ → Task
  fails : Task
  fails_in : ConnectionState → Task
  breaks : Bool → Task
  schedules awaits_delay retries finishes closes cancels : Task
  sends_dwr counts_failure resets_failures : Task
  marks_dwr misses_dwa gets_dwa loses_read : ℕ → Task

-- What the outside answers: the port that is acquired, none for an error; whether the dial, the
-- handshake and the wait for the delay succeed.
pub record Outside : Type 0 where
  pub port : Option ℕ
  pub fine : Bool

-- setState
unfoldable pub set_state : ConnectionState → Lifecycle → Lifecycle
set_state s l = record l { state = s }

unfoldable pub next_generation : Lifecycle → ℕ
next_generation l = (l.generation + 1) % 2 ^ 64

-- The call of ReleaseLocalAddr, if there are an address and the callback.
unfoldable pub give_back : LinkConfig → Option ℕ → Lifecycle → Lifecycle
give_back cfg none l = l
give_back cfg (some p) l = record l {
  released = if cfg.gives_back then p ∷ l.released else l.released;
}

unfoldable pub behind : After → List Task
behind (then_fail c) = marks_failed c ∷ []
behind (then_schedule b) = if b then schedules ∷ [] else []
behind then_finish = finishes ∷ []

-- The section of `close` under its lock.
unfoldable pub take_down : Lifecycle → Lifecycle
unfolding next_generation
take_down l = record l {
  conn = false;
  generation = if l.conn then next_generation l else l.generation;
  bound = none;
}

unfoldable pub after_take_down : Option ℕ → After → List Task
unfolding behind
after_take_down none a = behind a
after_take_down (some p) a = releases a p ∷ []

unfoldable pub schedule_reconnect : Lifecycle → Lifecycle × List Task
schedule_reconnect l =
    if l.is_reconnecting
    then (record l { reconnect_requested = true }, [])
    else (record l { is_reconnecting = true }, awaits_delay ∷ [])

-- `finishReconnect(success)`, and whether it is finished.
unfoldable pub finish_reconnect : Bool → Lifecycle → Bool × Lifecycle
unfolding is_active
finish_reconnect success l =
    if not success || is_active l.state && not l.reconnect_requested
    then (true, record l { is_reconnecting = false; reconnect_requested = false })
    else (false, record l { reconnect_requested = false })

-- What a caller does with an error of `connect`, and without one.
unfoldable pub not_connected : Caller → List Task
not_connected starter = fails ∷ []
not_connected looper = awaits_delay ∷ []

unfoldable pub connected : Caller → Lifecycle → Lifecycle × List Task
unfolding finish_reconnect
connected starter l = (l, [])
connected looper l =
    let (finished, l') = finish_reconnect true l in
    if finished then (l', []) else (l', awaits_delay ∷ [])

-- The first guard of handleFailure, of the state and whether the context is done, and the second.
unfoldable pub fail_guard : ConnectionState → Bool → List Task
fail_guard closed_state cancelled = []
fail_guard s cancelled = if cancelled then [] else fails_in s ∷ []

unfoldable pub is_down : ConnectionState → Bool
is_down failed = true
is_down reconnecting = true
is_down _ = false

unfoldable pub conn_guard : ConnectionState → Lifecycle → List Task
unfolding is_down
conn_guard s l = if not l.conn && is_down s then [] else breaks (not l.reconnect_disabled) ∷ []

-- The guard of sendDWR, with the generation that the request is sent in.
unfoldable pub send_dwr : Lifecycle → List Task
unfolding is_active
send_dwr l = if is_active l.state then marks_dwr l.generation ∷ [] else fails ∷ []

-- handleDWRFailure; the counter is an `int32`.
unfoldable pub handle_dwr_failure : LinkConfig → Lifecycle → Lifecycle × List Task
handle_dwr_failure cfg l =
    let n = (l.dwr_failures + 1) % 2 ^ 32 in
    (
      record l { dwr_failures = n },
      if ltb_int (of_u32 n) cfg.max_dwr_failures then [] else fails ∷ [],
    )

-- handleDWA up to the reset of the counter, of whether the answer decodes and tells success.
unfoldable pub handle_dwa : Bool → Lifecycle → Lifecycle × List Task
unfolding set_state
handle_dwa success l =
    if success then (set_state open_state l, resets_failures ∷ []) else (l, counts_failure ∷ [])

-- The next step of a task: the connection after it, and what the task goes on with or starts.
unfoldable pub run : LinkConfig → Outside → Task → Lifecycle → Lifecycle × List Task
unfolding set_state next_generation give_back behind take_down after_take_down schedule_reconnect
    finish_reconnect not_connected connected fail_guard conn_guard is_active send_dwr
    handle_dwr_failure handle_dwa
run cfg o (connects c) l = (set_state connecting l, acquires_port c ∷ [])
run cfg o (acquires_port c) l =
    if cfg.acquires
    then elim o.port [
      | none ↦ (l, marks_failed c ∷ [])
      | some p ↦ (record l { acquired = p ∷ l.acquired }, dials c (some p) ∷ [])
    ]
    else (l, dials c none ∷ [])
run cfg o (dials c la) l = if o.fine then (l, installs c la ∷ []) else (l, returns_port c la ∷ [])
run cfg o (returns_port c la) l = (give_back cfg la l, marks_failed c ∷ [])
run cfg o (marks_failed c) l = (set_state failed l, not_connected c)
run cfg o (installs c la) l =
    (record l { conn = true; bound = la; generation = next_generation l }, greets c ∷ [])
run cfg o (greets c) l = (set_state cer_sent l, awaits_cea c ∷ [])
run cfg o (awaits_cea c) l =
    if o.fine then (l, opens c ∷ []) else (l, stops_watchdog (then_fail c) ∷ [])
run cfg o (opens c) l = (set_state open_state l, resets c ∷ [])
run cfg o (resets c) l = (record l { dwr_failures = 0 }, watches c ∷ [])
run cfg o (watches c) l = (record l { watchdog = true }, returns c ∷ [])
run cfg o (returns c) l = connected c l
run cfg o (stops_watchdog a) l = (record l { watchdog = false }, takes_down a ∷ [])
run cfg o (takes_down a) l = (take_down l, after_take_down l.bound a)
run cfg o (releases a p) l = (give_back cfg (some p) l, behind a)
run cfg o fails l = (l, fail_guard l.state l.cancelled)
run cfg o (fails_in s) l = (l, conn_guard s l)
run cfg o (breaks b) l = (set_state failed l, stops_watchdog (then_schedule b) ∷ [])
run cfg o schedules l = schedule_reconnect l
run cfg o awaits_delay l =
    if l.cancelled && not o.fine then (l, finishes ∷ []) else (l, retries ∷ [])
run cfg o retries l = (set_state reconnecting l, connects looper ∷ [])
run cfg o finishes l = ((finish_reconnect false l).1, [])
run cfg o closes l = (set_state closed_state l, cancels ∷ [])
run cfg o cancels l = (record l { cancelled = true }, stops_watchdog then_finish ∷ [])
run cfg o sends_dwr l = (l, send_dwr l)
run cfg o (marks_dwr g) l = (set_state dwr_sent l, [])
run cfg o (misses_dwa g) l = if l.generation == g then (l, counts_failure ∷ []) else (l, [])
run cfg o counts_failure l = handle_dwr_failure cfg l
run cfg o (gets_dwa g) l = if l.generation == g then handle_dwa o.fine l else (l, [])
run cfg o resets_failures l = (record l { dwr_failures = 0 }, [])
run cfg o (loses_read g) l =
    if not l.cancelled && l.generation == g then (l, fails ∷ []) else (l, [])

-- ===== src/Client/Reconnecting.antt =====
-- A connection has at most one loop that reconnects it.
use diam_gw.Prelude.{
  ℕ, ◌+◌, ◌≤◌, ◌≡◌, refl, sym, ◌∙◌, ap, List, [], ◌∷◌, Bool, false, if◌then◌else◌, Option, none,
  some, arith,
}
use diam_gw.Prelude.Totals.{total, total-middle}
use diam_gw.Client.State.{is_active}
use diam_gw.Client.Lifecycle.{send_dwr, handle_dwr_failure, handle_dwa}
use diam_gw.Client.Lifecycle.{
  LinkConfig, Lifecycle, new_connection, Caller, starter, looper, After, then_fail, then_schedule,
  then_finish, Task, Outside, run, connects, acquires_port, marks_failed, greets, awaits_cea, opens,
  resets, watches, returns, dials, returns_port, installs, stops_watchdog, takes_down, releases,
  fails, fails_in, breaks, schedules, awaits_delay, retries, finishes, closes, cancels, sends_dwr,
  counts_failure, resets_failures, marks_dwr, misses_dwa, gets_dwa, loses_read, give_back, behind,
  take_down, after_take_down, schedule_reconnect, finish_reconnect, not_connected, connected,
  conn_guard, set_state, next_generation, is_down,
}
use diam_gw.Client.Interleaving.{
  System, IsEvent, watchdog_tick, answer, no_answer, read_error, other_error, close_call, Step,
  runs, starts, Reachable, started, stepped, total-fail_guard,
}

abbrev of_loop : Caller → ℕ
of_loop starter = 0
of_loop looper = 1

abbrev of_loop_after : After → ℕ
of_loop_after (then_fail c) = of_loop c
of_loop_after _ = 0

abbrev of_close : After → ℕ
of_close then_finish = 1
of_close _ = 0

-- Whether a task is the loop of `reconnect`.
unfoldable pub loops : Task → ℕ
loops (connects c) = of_loop c
loops (acquires_port c) = of_loop c
loops (marks_failed c) = of_loop c
loops (greets c) = of_loop c
loops (awaits_cea c) = of_loop c
loops (opens c) = of_loop c
loops (resets c) = of_loop c
loops (watches c) = of_loop c
loops (returns c) = of_loop c
loops (dials c la) = of_loop c
loops (returns_port c la) = of_loop c
loops (installs c la) = of_loop c
loops (stops_watchdog a) = of_loop_after a
loops (takes_down a) = of_loop_after a
loops (releases a p) = of_loop_after a
loops awaits_delay = 1
loops retries = 1
loops _ = 0

-- Whether a task is on its way to end the loop as the connection is closed.
unfoldable pub ends : Task → ℕ
ends (stops_watchdog a) = of_close a
ends (takes_down a) = of_close a
ends (releases a p) = of_close a
ends finishes = 1
ends _ = 0

abbrev bit : Bool → ℕ
bit b = if b then 1 else 0

-- What the step of a task does to the number of loops, while the connection is not being closed.
record Counted (l l' : Lifecycle) (t : Task) (ts : List Task) : Type 0 where
  no_end : total ends ts ≡ 0
  moved : total loops ts + bit l.is_reconnecting ≡ loops t + bit l'.is_reconnecting

behind-Counted :
    (a : After)
    → of_close a ≡ 0
    → (total ends (behind a) ≡ 0) × (total loops (behind a) ≡ of_loop_after a)
unfolding total ends loops behind
behind-Counted (then_fail c) h = ground arith
behind-Counted (then_schedule b) h = ground arith
behind-Counted then_finish h = ground arith

after_take_down-Counted :
    (o : Option ℕ) (a : After)
    → of_close a ≡ 0
    → (total ends (after_take_down o a) ≡ 0) × (total loops (after_take_down o a) ≡ of_loop_after a)
unfolding total ends loops after_take_down
after_take_down-Counted none a h = behind-Counted a h
after_take_down-Counted (some p) a h = ground arith

-- A context that is done stays so.
run-open :
    (cfg : LinkConfig) (o : Outside) (t : Task) (l : Lifecycle)
    → (run cfg o t l).0.cancelled ≡ false
    → l.cancelled ≡ false
unfolding run send_dwr handle_dwr_failure handle_dwa give_back take_down schedule_reconnect
    finish_reconnect not_connected connected set_state next_generation is_active
run-open cfg o (connects c) l u = ground arith
run-open cfg o (acquires_port c) l u = ground arith
run-open cfg o (marks_failed starter) l u = ground arith
run-open cfg o (marks_failed looper) l u = ground arith
run-open cfg o (greets c) l u = ground arith
run-open cfg o (awaits_cea c) l u = ground arith
run-open cfg o (opens c) l u = ground arith
run-open cfg o (resets c) l u = ground arith
run-open cfg o (watches c) l u = ground arith
run-open cfg o (returns starter) l u = ground arith
run-open cfg o (returns looper) l u = ground arith
run-open cfg o (dials c la) l u = ground arith
run-open cfg o (returns_port c none) l u = ground arith
run-open cfg o (returns_port c (some q)) l u = ground arith
run-open cfg o (installs c la) l u = ground arith
run-open cfg o (stops_watchdog a) l u = ground arith
run-open cfg o (takes_down a) l u = ground arith
run-open cfg o (releases a q) l u = ground arith
run-open cfg o fails l u = ground arith
run-open cfg o (fails_in s) l u = ground arith
run-open cfg o (breaks b) l u = ground arith
run-open cfg o schedules l u = ground arith
run-open cfg o awaits_delay l u = ground arith
run-open cfg o retries l u = ground arith
run-open cfg o finishes l u = ground arith
run-open cfg o closes l u = ground arith
run-open cfg o cancels l u = ground arith
run-open cfg o sends_dwr l u = ground arith
run-open cfg o (marks_dwr g) l u = ground arith
run-open cfg o (misses_dwa g) l u = ground arith
run-open cfg o counts_failure l u = ground arith
run-open cfg o (gets_dwa g) l u = ground arith
run-open cfg o (loses_read g) l u = ground arith
run-open cfg o resets_failures l u = ground arith

run-Counted :
    (cfg : LinkConfig) (o : Outside) (t : Task) (l : Lifecycle)
    → (run cfg o t l).0.cancelled ≡ false
    → ends t ≡ 0
    → loops t ≤ bit l.is_reconnecting
    → Counted l (run cfg o t l).0 t (run cfg o t l).1
unfolding run send_dwr handle_dwr_failure handle_dwa total ends loops give_back behind take_down
    schedule_reconnect finish_reconnect not_connected connected conn_guard set_state next_generation
    is_down is_active
run-Counted cfg o (connects c) l u e h = ground arith
run-Counted cfg o (acquires_port c) l u e h = ground arith
run-Counted cfg o (marks_failed starter) l u e h = ground arith
run-Counted cfg o (marks_failed looper) l u e h = ground arith
run-Counted cfg o (greets c) l u e h = ground arith
run-Counted cfg o (awaits_cea c) l u e h = ground arith
run-Counted cfg o (opens c) l u e h = ground arith
run-Counted cfg o (resets c) l u e h = ground arith
run-Counted cfg o (watches c) l u e h = ground arith
run-Counted cfg o (returns starter) l u e h = ground arith
run-Counted cfg o (returns looper) l u e h = ground arith
run-Counted cfg o (dials c la) l u e h = ground arith
run-Counted cfg o (returns_port c none) l u e h = ground arith
run-Counted cfg o (returns_port c (some q)) l u e h = ground arith
run-Counted cfg o (installs c la) l u e h = ground arith
run-Counted cfg o (stops_watchdog a) l u e h = ground arith
run-Counted cfg o (takes_down a) l u e h = ground (arith, after_take_down-Counted l.bound a e)
run-Counted cfg o (releases a q) l u e h = ground (arith, behind-Counted a e)
run-Counted cfg o fails l u e h = ground (
  arith,
  total-fail_guard ends l.state l.cancelled (λ s. refl),
  total-fail_guard loops l.state l.cancelled (λ s. refl),
)
run-Counted cfg o (fails_in s) l u e h = ground arith
run-Counted cfg o (breaks b) l u e h = ground arith
run-Counted cfg o schedules l u e h = ground arith
run-Counted cfg o awaits_delay l u e h = ground arith
run-Counted cfg o retries l u e h = ground arith
run-Counted cfg o finishes l u e h = ground arith
run-Counted cfg o closes l u e h = ground arith
run-Counted cfg o cancels l u e h = ground arith
run-Counted cfg o sends_dwr l u e h = ground arith
run-Counted cfg o (marks_dwr g) l u e h = ground arith
run-Counted cfg o (misses_dwa g) l u e h = ground arith
run-Counted cfg o counts_failure l u e h = ground arith
run-Counted cfg o (gets_dwa g) l u e h = ground arith
run-Counted cfg o (loses_read g) l u e h = ground arith
run-Counted cfg o resets_failures l u e h = ground arith

-- While the connection is not closed, the loops that run are as many as the flag says, and none is being ended.
pub record Looped (s : System) : Type 0 where
  pub as_flagged : total loops s.tasks ≡ bit s.life.is_reconnecting
  pub none_ends : total ends s.tasks ≡ 0

event-Counted : (t : Task) → IsEvent t → (loops t ≡ 0) × (ends t ≡ 0)
unfolding loops ends
event-Counted t watchdog_tick = (refl, refl)
event-Counted t (answer g) = (refl, refl)
event-Counted t (no_answer g) = (refl, refl)
event-Counted t (read_error g) = (refl, refl)
event-Counted t other_error = (refl, refl)
event-Counted t close_call = (refl, refl)

Step-Looped :
    (cfg : LinkConfig) (s s' : System)
    → Step cfg s s'
    → (s.life.cancelled ≡ false → Looped s)
    → s'.life.cancelled ≡ false
    → Looped s'
unfolding total
Step-Looped cfg s s' (runs before after t o q e f) h u =
    let closed : (run cfg o t s.life).0.cancelled ≡ false =
      sym (ap (λ (x : System). x.life.cancelled) f) ∙ u in
    let w = h (run-open cfg o t s.life closed) in
    let were = ap (total loops) e in
    let ended = ap (total ends) e in
    let split = total-middle loops before (t ∷ []) after in
    let split_ends = total-middle ends before (t ∷ []) after in
    let c =
      run-Counted cfg o t s.life closed (omega (arith, ended, split_ends, w.none_ends))
        (omega (arith, were, split, w.as_flagged)) in
    rw f (record {
      as_flagged = omega (
        arith,
        total-middle loops before (run cfg o t s.life).1 after,
        c.moved,
        were,
        split,
        w.as_flagged,
      );
      none_ends = omega (
        arith,
        total-middle ends before (run cfg o t s.life).1 after,
        c.no_end,
        ended,
        split_ends,
        w.none_ends,
      );
    })
Step-Looped cfg s s' (starts t q e f) h u =
    let w = h (sym (ap (λ (x : System). x.life.cancelled) f) ∙ u) in
    let (no_loop, no_end) = event-Counted t e in
    rw f (record {
      as_flagged = omega (arith, no_loop, w.as_flagged);
      none_ends = omega (arith, no_end, w.none_ends);
    })

-- As long as a connection is not closed, exactly one goroutine reconnects it where the flag `reconnecting` is set, and
-- none where it is not, however the goroutines interleave.
pub Reachable-Looped :
    (cfg : LinkConfig) (s : System) → Reachable cfg s → s.life.cancelled ≡ false → Looped s
unfolding total new_connection loops ends
Reachable-Looped cfg s (started disabled) u = record { as_flagged = refl; none_ends = refl }
Reachable-Looped cfg s (stepped before s' r st) u =
    Step-Looped cfg before s st (Reachable-Looped cfg before r) u

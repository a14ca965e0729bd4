-- ===== src/Client/LifecycleRuns.antt =====
-- Runs of a connection that acquires its source ports.
use diam_gw.Prelude.{
  ℕ, ◌+◌, ◌≤◌, ◌==◌, ◌≡◌, refl, List, [], ◌∷◌, ◌++◌, true, false, some, if◌then◌else◌, arith,
  replicate,
}
use diam_gw.Prelude.Int.{pos}
use diam_gw.Prelude.Counts.{count}
use diam_gw.Prelude.Totals.{total}
use diam_gw.Client.State.{open_state, is_active}
use diam_gw.Client.Lifecycle.{
  LinkConfig, new_connection, connects, starter, looper, loses_read, awaits_cea, awaits_delay,
  Outside, run, set_state, next_generation, give_back, behind, take_down, after_take_down,
  schedule_reconnect, finish_reconnect, not_connected, connected, fail_guard, send_dwr,
  handle_dwr_failure, handle_dwa, conn_guard, is_down,
}
use diam_gw.Client.Interleaving.{
  System, starts, read_error, Reachable, started, stepped, holds, is_port, Reachable-released,
}
use diam_gw.Client.Reconnecting.{Looped, Reachable-Looped}
use diam_gw.Client.Recovery.{
  play, play_first, yes, no, attempts, IsOpenOn, refused, unanswered, play-attempts, play-Reachable,
}
use diam_gw.Client.Backoff.{BackoffConfig}
use diam_gw.Client.LocalBind.{
  DialAnswer, dial_connected, dial_in_use, scan_ports, Tells, scan_ports-Tells,
}

abbrev cfg : LinkConfig
cfg = record { acquires = true; gives_back = true; max_dwr_failures = pos 3 }

abbrev begun : System
begun = record { life = new_connection false; tasks = connects starter ∷ [] }

-- Start with the port 5000, and a connection that is accepted.
abbrev good_start : List Outside
good_start = replicate 10 (yes 5000)

opened : System
unfolding play
opened = play cfg good_start begun

opened-Reachable : Reachable cfg opened
unfolding opened
opened-Reachable = play-Reachable cfg good_start begun (started false)

-- A read loop of the given generation ends.
lose : ℕ → System → System
lose g s = record s { tasks = loses_read g ∷ s.tasks }

lose-Reachable : (g : ℕ) (s : System) → Reachable cfg s → Reachable cfg (lose g s)
unfolding lose
lose-Reachable g s r = stepped s _ r (starts (loses_read g) _ (read_error g) refl)

-- The socket is lost, and again while the loop waits for the CEA over the next one, from the port 5001.
abbrev until_cea : List Outside
until_cea = replicate 15 (yes 5001)

abbrev until_requested : List Outside
until_requested = replicate 8 (yes 0)

redialled : System
unfolding opened play lose
redialled = play cfg until_cea (lose 1 opened)

lost_twice : System
unfolding redialled lose play
lost_twice = play cfg until_requested (lose 3 redialled)

lost_twice-Reachable : Reachable cfg lost_twice
unfolding lost_twice redialled
lost_twice-Reachable = play-Reachable cfg until_requested (lose 3 redialled) (
    lose-Reachable 3 redialled
      (play-Reachable cfg until_cea (lose 1 opened) (lose-Reachable 1 opened opened-Reachable)))

-- The loop still waits for the CEA, though the socket is gone; the failure was noted as a request to reconnect.
lost_twice_waits :
    (lost_twice.tasks ≡ awaits_cea looper ∷ [])
    × (lost_twice.life.conn ≡ false)
    × (lost_twice.life.reconnect_requested ≡ true)
    × (lost_twice.life.released ≡ 5001 ∷ 5000 ∷ [])
unfolding lost_twice redialled lose opened play play_first run send_dwr handle_dwr_failure
    handle_dwa set_state next_generation give_back behind take_down after_take_down
    schedule_reconnect finish_reconnect not_connected connected fail_guard conn_guard is_down
    is_active new_connection
lost_twice_waits = (refl, refl, refl, refl)

-- The handshake times out; the next two attempts, from the ports 5002 and 5003, are accepted.
abbrev timed_out : List Outside
timed_out = replicate 4 (no 0)

abbrev accepted_twice : List Outside
accepted_twice = replicate 12 (yes 5002) ++ replicate 12 (yes 5003)

overwritten : System
unfolding lost_twice play
overwritten = play cfg accepted_twice (play cfg timed_out lost_twice)

-- The request made the loop dial over an open connection: nothing holds the port 5002 any more, and it was never given
-- back.
overwritten_leaks :
    (overwritten.tasks ≡ [])
    × (overwritten.life.state ≡ open_state)
    × (overwritten.life.bound ≡ some 5003)
    × (overwritten.life.acquired ≡ 5003 ∷ 5002 ∷ 5001 ∷ 5000 ∷ [])
    × (overwritten.life.released ≡ 5001 ∷ 5000 ∷ [])
unfolding overwritten lost_twice redialled lose opened play play_first run send_dwr
    handle_dwr_failure handle_dwa set_state next_generation give_back behind take_down
    after_take_down schedule_reconnect finish_reconnect not_connected connected fail_guard
    conn_guard is_down is_active new_connection
overwritten_leaks = (refl, refl, refl, refl, refl)

Reachable-released_example :
    count 5001 lost_twice.life.released
      + total (holds 5001) lost_twice.tasks
      + is_port 5001 lost_twice.life.bound
    ≤ count 5001 lost_twice.life.acquired
Reachable-released_example = Reachable-released cfg lost_twice 5001 lost_twice-Reachable

still_open : lost_twice.life.cancelled ≡ false
unfolding lost_twice redialled lose opened play play_first run send_dwr handle_dwr_failure
    handle_dwa set_state next_generation give_back behind take_down after_take_down
    schedule_reconnect finish_reconnect not_connected connected fail_guard conn_guard is_down
    is_active new_connection
still_open = refl

Reachable-Looped_example : Looped lost_twice
Reachable-Looped_example = Reachable-Looped cfg lost_twice lost_twice-Reachable still_open

-- The connection after the first step.
abbrev dialling : System
dialling = record {
  life = (run cfg (yes 5000) (connects starter) begun.life).0;
  tasks = [] ++ ((run cfg (yes 5000) (connects starter) begun.life).1 ++ []);
}

play-attempts_example : IsOpenOn 5002 (
    play cfg
      (attempts (refused 5000 ∷ unanswered 5001 ∷ []) 5002)
      (record { life = new_connection false; tasks = awaits_delay ∷ [] }))
unfolding new_connection
play-attempts_example =
    play-attempts cfg (refused 5000 ∷ unanswered 5001 ∷ []) 5002 (new_connection false) refl refl
      refl

-- Delays from two seconds to five, of which the factor makes seven.
abbrev delays : BackoffConfig
delays = record { reconnect_interval = pos 2000000000; max_reconnect_delay = pos 5000000000 }

-- The port 5001 alone is not in use.
one_free : ℕ → DialAnswer
one_free p = if p == 5001 then dial_connected else dial_in_use

scan_ports-Tells_example : Tells one_free 5000 5002 (scan_ports one_free 5000 5002 7).0
scan_ports-Tells_example = scan_ports-Tells one_free 5000 5002 7 (omega arith)

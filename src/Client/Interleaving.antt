-- ===== src/Client/Interleaving.antt =====
-- The goroutines of a connection, and the ports that they hold between the two callbacks.
use diam_gw.Prelude.{
  ℕ, ◌+◌, ◌≤◌, ◌≡◌, refl, ap, List, [], ◌∷◌, ◌++◌, Bool, ◌==◌, if◌then◌else◌, Option, none, some,
  arith,
}
use diam_gw.Prelude.Counts.{count}
use diam_gw.Prelude.Totals.{total, total-middle}
use diam_gw.Client.State.{
  ConnectionState, disconnected, connecting, cer_sent, open_state, dwr_sent, failed, reconnecting,
  closed_state, is_active,
}
use diam_gw.Client.Lifecycle.{
  LinkConfig, Lifecycle, new_connection, starter, looper, After, then_fail, then_schedule,
  then_finish, Task, Outside, run, connects, acquires_port, marks_failed, greets, awaits_cea, opens,
  resets, watches, returns, dials, returns_port, installs, stops_watchdog, takes_down, releases,
  fails, fails_in, breaks, schedules, awaits_delay, retries, finishes, closes, cancels, sends_dwr,
  counts_failure, resets_failures, marks_dwr, misses_dwa, gets_dwa, loses_read, give_back, behind,
  take_down, after_take_down, schedule_reconnect, finish_reconnect, not_connected, connected,
  fail_guard, send_dwr, handle_dwr_failure, handle_dwa, conn_guard, set_state, next_generation,
  is_down,
}

-- A connection and its goroutines.
pub record System : Type 0 where
  pub life : Lifecycle
  pub tasks : List Task

-- What starts from outside: a tick of the watchdog, its answer or the lack of one, an error of a read loop or
-- of another part, and a call of `Close`.
pub data IsEvent : Task → Type 0 where
  watchdog_tick : IsEvent sends_dwr
  answer : (g : ℕ) → IsEvent (gets_dwa g)
  no_answer : (g : ℕ) → IsEvent (misses_dwa g)
  read_error : (g : ℕ) → IsEvent (loses_read g)
  other_error : IsEvent fails
  close_call : IsEvent closes

-- Any one of the goroutines does its next step, or another starts.
pub data Step (cfg : LinkConfig) (s : System) : System → Type 0 where
  runs :
      (before after : List Task) (t : Task) (o : Outside) (s' : System)
      → s.tasks ≡ before ++ t ∷ after
      → s' ≡ record {
        life = (run cfg o t s.life).0;
        tasks = before ++ ((run cfg o t s.life).1 ++ after);
      }
      → Step cfg s s'
  starts :
      (t : Task) (s' : System) → IsEvent t → s' ≡ record s { tasks = t ∷ s.tasks } → Step cfg s s'

pub data Reachable (cfg : LinkConfig) : System → Type 0 where
  started :
      (disabled : Bool)
      → Reachable cfg (record { life = new_connection disabled; tasks = connects starter ∷ [] })
  stepped : (s s' : System) → Reachable cfg s → Step cfg s s' → Reachable cfg s'

-- Whether a port is the one that may be there.
unfoldable pub is_port : ℕ → Option ℕ → ℕ
is_port p none = 0
is_port p (some q) = if p == q then 1 else 0

-- Whether a task is about to use, or to give back, the port.
unfoldable pub holds : ℕ → Task → ℕ
holds p (dials c la) = is_port p la
holds p (returns_port c la) = is_port p la
holds p (installs c la) = is_port p la
holds p (releases a q) = is_port p (some q)
holds p _ = 0

-- The port is not given back more often than it was acquired, and not while something still has it.
abbrev pub accounted : ℕ → Lifecycle → ℕ → ℕ
accounted p l n = count p l.released + n + is_port p l.bound

-- A weight that the tasks of handleFailure and those behind `close` do not have.
pub total-fail_guard :
    (weight : Task → ℕ) (s : ConnectionState) (b : Bool)
    → ((s : ConnectionState) → weight (fails_in s) ≡ 0)
    → total weight (fail_guard s b) ≡ 0
unfolding fail_guard total
total-fail_guard weight disconnected b h = ground (arith, h disconnected)
total-fail_guard weight connecting b h = ground (arith, h connecting)
total-fail_guard weight cer_sent b h = ground (arith, h cer_sent)
total-fail_guard weight open_state b h = ground (arith, h open_state)
total-fail_guard weight dwr_sent b h = ground (arith, h dwr_sent)
total-fail_guard weight failed b h = ground (arith, h failed)
total-fail_guard weight reconnecting b h = ground (arith, h reconnecting)
total-fail_guard weight closed_state b h = refl

holds-after_take_down :
    (p : ℕ) (o : Option ℕ) (a : After) → total (holds p) (after_take_down o a) ≡ is_port p o
unfolding total holds is_port after_take_down behind
holds-after_take_down p none (then_fail c) = refl
holds-after_take_down p none (then_schedule b) = ground arith
holds-after_take_down p none then_finish = refl
holds-after_take_down p (some q) a = ground arith

run-accounted :
    (cfg : LinkConfig) (o : Outside) (t : Task) (p : ℕ) (l : Lifecycle)
    → accounted p (run cfg o t l).0 (total (holds p) (run cfg o t l).1) + count p l.acquired
      ≤ accounted p l (holds p t) + count p (run cfg o t l).0.acquired
unfolding run send_dwr handle_dwr_failure handle_dwa total holds is_port count give_back behind
    take_down after_take_down schedule_reconnect finish_reconnect not_connected connected fail_guard
    conn_guard set_state next_generation is_down is_active
run-accounted cfg o (connects c) p l = ground arith
run-accounted cfg o (acquires_port c) p l = ground arith
run-accounted cfg o (marks_failed starter) p l = ground arith
run-accounted cfg o (marks_failed looper) p l = ground arith
run-accounted cfg o (greets c) p l = ground arith
run-accounted cfg o (awaits_cea c) p l = ground arith
run-accounted cfg o (opens c) p l = ground arith
run-accounted cfg o (resets c) p l = ground arith
run-accounted cfg o (watches c) p l = ground arith
run-accounted cfg o (returns starter) p l = ground arith
run-accounted cfg o (returns looper) p l = ground arith
run-accounted cfg o (dials c la) p l = ground arith
run-accounted cfg o (returns_port c none) p l = ground arith
run-accounted cfg o (returns_port c (some q)) p l = ground arith
run-accounted cfg o (installs c la) p l = ground arith
run-accounted cfg o (stops_watchdog a) p l = ground arith
run-accounted cfg o (takes_down a) p l = omega (arith, holds-after_take_down p l.bound a)
run-accounted cfg o (releases (then_fail c) q) p l = ground arith
run-accounted cfg o (releases (then_schedule b) q) p l = ground arith
run-accounted cfg o (releases then_finish q) p l = ground arith
run-accounted cfg o fails p l =
    omega (arith, total-fail_guard (holds p) l.state l.cancelled (λ s. refl))
run-accounted cfg o (fails_in s) p l = ground arith
run-accounted cfg o (breaks b) p l = ground arith
run-accounted cfg o schedules p l = ground arith
run-accounted cfg o awaits_delay p l = ground arith
run-accounted cfg o retries p l = ground arith
run-accounted cfg o finishes p l = ground arith
run-accounted cfg o closes p l = ground arith
run-accounted cfg o cancels p l = ground arith
run-accounted cfg o sends_dwr p l = ground arith
run-accounted cfg o (marks_dwr g) p l = ground arith
run-accounted cfg o (misses_dwa g) p l = ground arith
run-accounted cfg o counts_failure p l = ground arith
run-accounted cfg o (gets_dwa g) p l = ground arith
run-accounted cfg o (loses_read g) p l = ground arith
run-accounted cfg o resets_failures p l = ground arith

-- Every port is given back at most as often as it was acquired, counting as given back what a task or
-- the connection still has.
abbrev pub Accounted : System → Type 0
Accounted s = (p : ℕ) → accounted p s.life (total (holds p) s.tasks) ≤ count p s.life.acquired

holds-event : (p : ℕ) (t : Task) → IsEvent t → holds p t ≡ 0
unfolding holds
holds-event p t watchdog_tick = refl
holds-event p t (answer g) = refl
holds-event p t (no_answer g) = refl
holds-event p t (read_error g) = refl
holds-event p t other_error = refl
holds-event p t close_call = refl

Step-Accounted : (cfg : LinkConfig) (s s' : System) → Step cfg s s' → Accounted s → Accounted s'
unfolding total
Step-Accounted cfg s s' (runs before after t o q e f) h = λ p. rw f (
    omega (
      arith,
      h p,
      ap (total (holds p)) e,
      total-middle (holds p) before (t ∷ []) after,
      total-middle (holds p) before (run cfg o t s.life).1 after,
      run-accounted cfg o t p s.life,
    ))
Step-Accounted cfg s s' (starts t q e f) h = λ p. rw f (omega (arith, h p, holds-event p t e))

Reachable-Accounted : (cfg : LinkConfig) (s : System) → Reachable cfg s → Accounted s
unfolding total new_connection count holds is_port
Reachable-Accounted cfg s (started disabled) = λ p. omega arith
Reachable-Accounted cfg s (stepped before s' r st) =
    Step-Accounted cfg before s st (Reachable-Accounted cfg before r)

-- However the goroutines of a connection interleave, no port is given back more often than it was acquired; and a
-- port that a connection still holds, or that a goroutine is dialling with or giving back, has not been.
pub Reachable-released :
    (cfg : LinkConfig) (s : System) (p : ℕ)
    → Reachable cfg s
    → count p s.life.released + total (holds p) s.tasks + is_port p s.life.bound
      ≤ count p s.life.acquired
Reachable-released cfg s p r = Reachable-Accounted cfg s r p

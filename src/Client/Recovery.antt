-- ===== src/Client/Recovery.antt =====
-- The loop of `reconnect`, left to itself: it goes on over failed attempts and ends with an open connection.
use diam_gw.Prelude.{ℕ, ◌≡◌, refl, List, [], ◌∷◌, ◌++◌, true, false, some}
use diam_gw.Client.State.{open_state, is_active}
use diam_gw.Client.Lifecycle.{
  LinkConfig, Lifecycle, looper, Task, Outside, run, awaits_delay, set_state, next_generation,
  give_back, finish_reconnect, not_connected, connected, send_dwr, handle_dwr_failure, handle_dwa,
  take_down, after_take_down, behind,
}
use mathlib.Core.Path.{subst}
use diam_gw.Client.Interleaving.{System, runs, Reachable, stepped}

-- The first task does its next step.
unfoldable pub play_first : LinkConfig → Outside → List Task → Lifecycle → System
play_first cfg o [] l = record { life = l; tasks = [] }
play_first cfg o (t ∷ ts) l = record { life = (run cfg o t l).0; tasks = (run cfg o t l).1 ++ ts }

unfoldable pub play : LinkConfig → List Outside → System → System
unfolding play_first
play cfg [] s = s
play cfg (o ∷ os) s = play cfg os (play_first cfg o s.tasks s.life)

abbrev pub yes : ℕ → Outside
yes p = record { port = some p; fine = true }

abbrev pub no : ℕ → Outside
no p = record { port = some p; fine = false }

-- What the outside answers to an attempt that gets the port but is not connected, and to one that is.
abbrev pub refused_attempt : ℕ → List Outside
refused_attempt p = yes p ∷ yes p ∷ yes p ∷ yes p ∷ no p ∷ yes p ∷ yes p ∷ []

-- What it answers to one that is connected, but on whose handshake no answer comes.
abbrev pub unanswered_attempt : ℕ → List Outside
unanswered_attempt p =
    yes p
    ∷ yes p
    ∷ yes p
    ∷ yes p
    ∷ yes p
    ∷ yes p
    ∷ yes p
    ∷ no p
    ∷ yes p
    ∷ yes p
    ∷ yes p
    ∷ yes p
    ∷ []

-- How an attempt on a port fails.
pub data Failure : Type 0 where
  refused unanswered : ℕ → Failure

abbrev pub failed_attempt : Failure → List Outside
failed_attempt (refused p) = refused_attempt p
failed_attempt (unanswered p) = unanswered_attempt p

abbrev pub good_attempt : ℕ → List Outside
good_attempt p =
    yes p
    ∷ yes p
    ∷ yes p
    ∷ yes p
    ∷ yes p
    ∷ yes p
    ∷ yes p
    ∷ yes p
    ∷ yes p
    ∷ yes p
    ∷ yes p
    ∷ yes p
    ∷ []

unfoldable pub attempts : List Failure → ℕ → List Outside
attempts [] p = good_attempt p
attempts (f ∷ failures) p = failed_attempt f ++ attempts failures p

-- A connection that is open over a socket bound to the port, with the watchdog running.
pub record IsOpenOn (p : ℕ) (s : System) : Type 0 where
  pub is_open : s.life.state ≡ open_state
  pub has_conn : s.life.conn ≡ true
  pub bound_to : s.life.bound ≡ some p
  pub watched : s.life.watchdog ≡ true
  pub no_failures : s.life.dwr_failures ≡ 0
  pub loop_over : s.life.is_reconnecting ≡ false
  pub no_task : s.tasks ≡ []

finished_lem :
    (l : Lifecycle)
    → l.state ≡ open_state
    → l.reconnect_requested ≡ false
    → connected looper l ≡ (record l { is_reconnecting = false; reconnect_requested = false }, [])
unfolding connected finish_reconnect is_active
finished_lem l s r = rw (s, r) refl

-- Whatever number of attempts fail before, on whatever ports, because the dial is refused or because no answer comes
-- to the handshake, an attempt in which both succeed ends the loop with the connection open on the port that it
-- acquired, and the watchdog starts afresh. (Ports are acquired from the port source, the connection is not closed, no
-- failure was queued, and no other goroutine interferes, so that none is queued meanwhile.)
pub play-attempts :
    (cfg : LinkConfig) (failures : List Failure) (p : ℕ) (l : Lifecycle)
    → cfg.acquires ≡ true
    → l.cancelled ≡ false
    → l.reconnect_requested ≡ false
    → IsOpenOn p (play cfg (attempts failures p) (record { life = l; tasks = awaits_delay ∷ [] }))
unfolding play play_first attempts run send_dwr handle_dwr_failure handle_dwa set_state
    next_generation give_back not_connected take_down after_take_down behind
play-attempts cfg [] p l a u r =
    rw (a, u)
      (rw
        (finished_lem
          (record l {
            state = open_state;
            conn = true;
            bound = some p;
            generation = next_generation l;
            watchdog = true;
            dwr_failures = 0;
            cancelled = false;
            acquired = p ∷ l.acquired;
          })
          refl r)
        (record {
          is_open = refl;
          has_conn = refl;
          bound_to = refl;
          watched = refl;
          no_failures = refl;
          loop_over = refl;
          no_task = refl;
        }))
play-attempts cfg (refused q ∷ failures) p l a u r =
    rw (a, u) (play-attempts cfg failures p _ a refl r)
play-attempts cfg (unanswered q ∷ failures) p l a u r =
    rw (a, u) (play-attempts cfg failures p _ a refl r)

-- What is played is one of the ways in which the goroutines can interleave.
pub play-Reachable :
    (cfg : LinkConfig) (os : List Outside) (s : System)
    → Reachable cfg s
    → Reachable cfg (play cfg os s)
unfolding play play_first
play-Reachable cfg [] s r = r
play-Reachable cfg (o ∷ os) s r =
    play-Reachable cfg os (play_first cfg o s.tasks s.life) (first s.tasks refl)
  where
    first : (ts : List Task) → s.tasks ≡ ts → Reachable cfg (play_first cfg o ts s.life)
    first [] e = subst (Reachable cfg) (λ i. record { life = s.life; tasks = e i }) r
    first (t ∷ ts) e = stepped s _ r (runs [] ts t o _ e refl)

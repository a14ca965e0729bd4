-- ===== src/Client/AddressRuns.antt =====
-- Runs of the address-keyed pool: two callers for one address, and an entry that is no longer active.
use diam_gw.Prelude.{
  false, ◌≤◌, ◌≡◌, ◌⊎◌, refl, List, [], ◌∷◌, ◌++◌, true, some, arith, put, lookup, delete,
}
use diam_gw.Prelude.Int.{pos}
use diam_gw.Prelude.Totals.{total}
use diam_gw.Client.AddressPool.{
  Setting, Outside, context_tick, channel_case, Call, AddressPool, new_address_pool, Task, sends,
  waits, establishes, retrieves, run, ends, claim,
}
use diam_gw.Client.SingleFlight.{
  System, send_call, runs, starts, Reachable, started, stepped, Single, Reachable-Single,
}
use diam_gw.Client.Waiters.{waits_on, will_close, Reachable-waits}
use diam_gw.Client.Stale.{play, IsStale, EndsIn, Crashes, play-stale}

abbrev setting : Setting
setting = record { valid_address = λ a. true; idle_timeout = pos 0; max_conn_lifetime = pos 0 }

abbrev outside : Outside
outside = record { fine = true; wait_case = channel_case; tick = context_tick }

abbrev call : Call
call = record { remote = 7; bytes = 20 }

runs_first :
    {p p' : AddressPool} {t : Task} {ts rest : List Task}
    → Reachable setting (record { pool = p; tasks = t ∷ rest })
    → p.crashed ≡ false
    → run setting outside t p ≡ some (p', ts)
    → Reachable setting (record { pool = p'; tasks = ts ++ rest })
runs_first {p = p} {p' = p'} {t = t} {ts = ts} {rest = rest} r u e =
    stepped _ _ r u (runs [] rest t outside p' ts _ refl e refl)

calls :
    {p : AddressPool} {rest : List Task}
    → Reachable setting (record { pool = p; tasks = rest })
    → p.crashed ≡ false
    → Reachable setting (record { pool = p; tasks = sends call ∷ rest })
calls r u = stepped _ _ r u (starts (sends call) _ (send_call call) refl)

-- One caller establishes, and the other waits for it.
abbrev dialling : System
dialling = record {
  pool = record new_address_pool { establishing = (7, 0) ∷ []; next_channel = 1 };
  tasks = waits call 0 ∷ establishes call 0 ∷ [];
}

dialling-Reachable : Reachable setting dialling
unfolding run ends claim new_address_pool lookup put delete
dialling-Reachable =
    let first =
      runs_first
        (runs_first
          (runs_first (runs_first (runs_first (calls started refl) refl refl) refl refl) refl refl)
          refl refl)
        refl refl in
    runs_first
      (runs_first
        (runs_first (runs_first (runs_first (calls first refl) refl refl) refl refl) refl refl) refl
        refl)
      refl refl

Reachable-Single_example : Single dialling
Reachable-Single_example = Reachable-Single setting dialling dialling-Reachable

waited_on : 1 ≤ total (waits_on 0) dialling.tasks
unfolding total waits_on
waited_on = omega arith

Reachable-waits_example :
    (1 ≤ total (will_close 0) dialling.tasks)
    ⊎ ((p' : AddressPool) × (run setting outside (waits call 0) dialling.pool
          ≡ some (p', retrieves call ∷ [])))
Reachable-waits_example =
    Reachable-waits setting dialling outside call 0 dialling-Reachable refl waited_on

-- The connection 0 of the address 7 failed.
abbrev stale : AddressPool
stale = record new_address_pool {
  connections = (7, 0) ∷ [];
  next_managed = 1;
  active_connections = 1;
  total_connections = 1;
}

stale-IsStale : IsStale setting call 0 stale
unfolding new_address_pool lookup
stale-IsStale = record {
  running = refl;
  open_pool = refl;
  valid = refl;
  entry = refl;
  inactive = refl;
  earlier = refl;
  unlocked = refl;
  alone = refl;
}

play-stale_example : EndsIn (play 30 setting outside (sends call ∷ []) stale) (Crashes call stale)
play-stale_example = play-stale setting outside call 0 stale stale-IsStale refl refl

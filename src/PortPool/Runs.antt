-- ===== src/PortPool/Runs.antt =====
-- Runs of the pool over three ports, with a quarantine of 60.
use mathlib.Core.List.{Permᴰ}
use diam_gw.Prelude.{
  ℕ, ◌≤◌, ◌<◌, ◌≡◌, ◌≢◌, ◌↔◌, ◌⊎◌, refl, [], ◌∷◌, none, some, true, ok, err, arith,
}
use diam_gw.Prelude.Int.{pos}
use diam_gw.PortPool.{
  Pool, Config, Owner, new, new_pool, ports_from, out_of_range, acquire, release, take_port,
  sweep_quarantine, sweep_loop, sweep_entry, give_back, lookup, put, delete, contains,
  min_port_above_max_port,
}
use diam_gw.PortPool.Owned.{Owned}
use diam_gw.PortPool.Reachable.{Reachable, acquires, made, stepped, Reachable-Owned}
use diam_gw.PortPool.Acquiring.{acquire_gives, acquire_exhausted}
use diam_gw.PortPool.Releasing.{Before, no_call, acquired, acquire-release}

abbrev config : Config
config = record {
  source_ip = some (10 ∷ 0 ∷ 0 ∷ 1 ∷ []);
  min_port = pos 5000;
  max_port = pos 5002;
  quarantine_duration = pos 60;
}

abbrev owner : Owner
owner = 99 ∷ []

abbrev fresh : Pool
fresh = record {
  source_ip = 10 ∷ 0 ∷ 0 ∷ 1 ∷ [];
  min_port = 5000;
  max_port = 5002;
  quarantine_duration = 60;
  free = 5000 ∷ 5001 ∷ 5002 ∷ [];
  in_use = [];
  quarantine = [];
  failures = 0;
}

-- After one port was given out.
abbrev lent : Pool
lent = record fresh { free = 5001 ∷ 5002 ∷ []; in_use = (5000, owner) ∷ [] }

fresh-is_new : new config ≡ ok fresh
unfolding new new_pool ports_from out_of_range
fresh-is_new = refl

lent-is_next : lent ≡ (acquire 100 [] owner fresh).1
unfolding acquire take_port sweep_quarantine put delete
lent-is_next = refl

fresh-Reachable : Reachable fresh
fresh-Reachable = made config fresh fresh-is_new

lent-Reachable : Reachable lent
lent-Reachable =
    stepped fresh lent fresh-Reachable (acquires 100 [] owner lent Permᴰ.nil lent-is_next)

Reachable-Owned_example : Owned lent
Reachable-Owned_example = Reachable-Owned lent lent-Reachable

gives : (acquire 200 [] owner lent).0 ≡ some 5001
unfolding acquire take_port sweep_quarantine
gives = refl

acquire_gives_example :
    (contains lent 5001 ≡ true)
    × (lookup 5001 lent.in_use ≡ none)
    × ((until : ℕ) → lookup 5001 lent.quarantine ≡ some until → until ≤ 200)
    × (lookup 5001 (acquire 200 [] owner lent).1.in_use ≡ some owner)
acquire_gives_example =
    acquire_gives 200 [] owner lent 5001 Permᴰ.nil (Reachable-Owned lent lent-Reachable) gives

acquire_exhausted_example : ((acquire 200 [] owner lent).0 ≡ none) ↔ (
    (port : ℕ)
    → contains lent port ≡ true
    → ((holder : Owner) × (lookup port lent.in_use ≡ some holder))
      ⊎ ((until : ℕ) × (lookup port lent.quarantine ≡ some until) × (200 < until)))
acquire_exhausted_example =
    acquire_exhausted 200 [] owner lent Permᴰ.nil (Reachable-Owned lent lent-Reachable)

held : lookup 5000 lent.in_use ≡ some owner
unfolding lookup
held = refl

parked : (release 300 5000 lent).quarantine ≡ (5000, 360) ∷ []
unfolding release give_back put delete lookup
parked = refl

one_entry : Permᴰ ((5000, 360) ∷ []) (release 300 5000 lent).quarantine
one_entry = rw parked (Permᴰ.cons refl Permᴰ.nil)

-- Another port is given out and released in between.
abbrev in_between : Pool
in_between = (acquire 310 ((5000, 360) ∷ []) owner (release 300 5000 lent)).1

in_between-Before : Before 360 (release 300 5000 lent) in_between
in_between-Before = acquired 310 ((5000, 360) ∷ []) owner _ _ no_call (omega arith) one_entry refl

still_one_entry : Permᴰ ((5000, 360) ∷ []) in_between.quarantine
unfolding acquire take_port sweep_quarantine sweep_loop sweep_entry release give_back put delete
    lookup
still_one_entry = Permᴰ.cons refl Permᴰ.nil

acquire-release_example : (acquire 359 ((5000, 360) ∷ []) owner in_between).0 ≢ some 5000
acquire-release_example =
    acquire-release 300 359 5000 ((5000, 360) ∷ []) owner owner lent in_between
      (Reachable-Owned lent lent-Reachable) held (omega arith) in_between-Before still_one_entry
      (omega arith)

-- Once its time is over, the port is given out behind those that were free.
abbrev waiting : Pool
waiting = record fresh {
  free = [];
  in_use = (5001, owner) ∷ (5002, owner) ∷ [];
  quarantine = (5000, 360) ∷ [];
}

early : (acquire 359 ((5000, 360) ∷ []) owner waiting).0 ≡ none
unfolding acquire take_port sweep_quarantine sweep_loop sweep_entry
early = refl

in_time : (acquire 360 ((5000, 360) ∷ []) owner waiting).0 ≡ some 5000
unfolding acquire take_port sweep_quarantine sweep_loop sweep_entry
in_time = refl

refused : new (record config { min_port = pos 6000 }) ≡ err min_port_above_max_port
unfolding new out_of_range
refused = refl

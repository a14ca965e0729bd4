-- ===== src/PortPool/Releasing.antt =====
-- What `Release` does with a port, and what it keeps from being given out.
use mathlib.Core.List.{Permᴰ}
use diam_gw.Prelude.{
  ℕ, ◌+◌, ◌≤◌, ◌<◌, ◌≡◌, ◌≢◌, refl, ap, ◌∙◌, inl, inr, List, [], ◌∷◌, some, arith, Option-cases,
}
use diam_gw.Prelude.Counts.{count, lookup-some, lookup-delete_other}
use diam_gw.PortPool.{
  Pool, Owner, put, lookup, keys, give_back, release, acquire, stats, sweep_quarantine, take_port,
}
use diam_gw.PortPool.Owned.{Owned, place_le, acquire-Owned, release-Owned, sweep_quarantine-Owned}
use diam_gw.PortPool.Sweep.{still, lookup-sweep_quarantine}
use diam_gw.PortPool.Acquiring.{acquire_gives}

gives_back :
    (now port : ℕ) (p : Pool)
    → 0 < p.quarantine_duration
    → lookup port (give_back now port p).quarantine ≡ some (now + p.quarantine_duration)
unfolding give_back put lookup
gives_back now port p long = ground arith

parked :
    (now port : ℕ) (holder : Owner) (p : Pool)
    → lookup port p.in_use ≡ some holder
    → 0 < p.quarantine_duration
    → lookup port (release now port p).quarantine ≡ some (now + p.quarantine_duration)
unfolding release lookup
parked now port holder p held long = rw (held, release) (gives_back now port p long)

-- The pools that calls made before a time come to.
pub data Before (limit : ℕ) (p : Pool) : Pool → Type 0 where
  no_call : Before limit p p
  acquired :
      (now : ℕ) (order : List (ℕ × ℕ)) (owner : Owner) (q q' : Pool)
      → Before limit p q
      → now < limit
      → Permᴰ order q.quarantine
      → q' ≡ (acquire now order owner q).1
      → Before limit p q'
  released :
      (now port : ℕ) (q q' : Pool)
      → Before limit p q
      → now < limit
      → q' ≡ release now port q
      → Before limit p q'
  read :
      (now : ℕ) (order : List (ℕ × ℕ)) (q q' : Pool)
      → Before limit p q
      → now < limit
      → Permᴰ order q.quarantine
      → q' ≡ (stats now order q).1
      → Before limit p q'

-- The port stays in quarantine.
pub record Parked (limit port : ℕ) (p : Pool) : Type 0 where
  pub owned : Owned p
  pub until_limit : lookup port p.quarantine ≡ some limit

still_parked : (now limit : ℕ) → now < limit → still now (some limit) ≡ some limit
unfolding still
still_parked now limit h = ground arith

sweep-Parked :
    (now limit port : ℕ) (order : List (ℕ × ℕ)) (p : Pool)
    → now < limit
    → Permᴰ order p.quarantine
    → Parked limit port p
    → Parked limit port (sweep_quarantine now order p)
sweep-Parked now limit port order p h r k = record {
  owned = sweep_quarantine-Owned now order p r k.owned;
  until_limit =
      lookup-sweep_quarantine now port order p r k.owned
      ∙ ap (still now) k.until_limit
      ∙ still_parked now limit h;
}

take_port-quarantine :
    (owner : Owner) (p : Pool) (free : List ℕ)
    → (take_port owner p free).1.quarantine ≡ p.quarantine
unfolding take_port
take_port-quarantine owner p [] = refl
take_port-quarantine owner p (x ∷ free) = refl

acquire-Parked :
    (now limit port : ℕ) (order : List (ℕ × ℕ)) (owner : Owner) (p : Pool)
    → now < limit
    → Permᴰ order p.quarantine
    → Parked limit port p
    → Parked limit port (acquire now order owner p).1
unfolding acquire
acquire-Parked now limit port order owner p h r k =
    let q = sweep_quarantine now order p in
    record {
      owned = acquire-Owned now order owner p r k.owned;
      until_limit =
          ap (lookup port) (take_port-quarantine owner q q.free)
          ∙ (sweep-Parked now limit port order p h r k).until_limit;
    }

apart : {limit : ℕ} (port : ℕ) (p : Pool) → Parked limit port p → 1 ≤ count port (keys p.in_use) → ⊥
apart {limit} port p k used =
    omega (arith, used, place_le p port k.owned, lookup-some port p.quarantine limit k.until_limit)

give_back-lookup :
    (now limit port other : ℕ) (p : Pool)
    → lookup port p.quarantine ≡ some limit
    → port ≢ other
    → lookup port (give_back now other p).quarantine ≡ some limit
unfolding give_back put lookup
give_back-lookup now limit port other p e ne =
    ground (arith, e, ne, lookup-delete_other port other p.quarantine ne)

-- A port in quarantine is not in use, so that a second `Release` of it does nothing.
release-Parked :
    (now limit port other : ℕ) (p : Pool)
    → Parked limit port p
    → Parked limit port (release now other p)
unfolding release give_back put
release-Parked now limit port other p k = record {
  owned = release-Owned now other p k.owned;
  until_limit = elim (Option-cases (lookup other p.in_use)) [
    | inl unused ↦ rw (unused, release) k.until_limit
    | inr (holder, held) ↦
        rw (held, release)
          (give_back-lookup now limit port other p k.until_limit
            (λ e. apart port p k (rw e (lookup-some other p.in_use holder held))))
  ];
}

Before-Parked :
    (limit port : ℕ) (p q : Pool) → Before limit p q → Parked limit port p → Parked limit port q
unfolding stats
Before-Parked limit port p q no_call k = k
Before-Parked limit port p q (acquired now order owner q' q'' b h r e) k =
    rw e (acquire-Parked now limit port order owner q' h r (Before-Parked limit port p q' b k))
Before-Parked limit port p q (released now other q' q'' b h e) k =
    rw e (release-Parked now limit port other q' (Before-Parked limit port p q' b k))
Before-Parked limit port p q (read now order q' q'' b h r e) k =
    rw e (sweep-Parked now limit port order q' h r (Before-Parked limit port p q' b k))

-- Where the pool has a quarantine, a port that was held and is released is not given out by any `Acquire` before
-- the duration has passed, whatever calls are made between the two, at times before that as well.
pub acquire-release :
    (now later port : ℕ) (order : List (ℕ × ℕ)) (holder owner : Owner) (p q : Pool)
    → Owned p
    → lookup port p.in_use ≡ some holder
    → 0 < p.quarantine_duration
    → Before (now + p.quarantine_duration) (release now port p) q
    → Permᴰ order q.quarantine
    → later < now + p.quarantine_duration
    → (acquire later order owner q).0 ≢ some port
acquire-release now later port order holder owner p q o held long calls r soon = λ e.
    let limit = now + p.quarantine_duration in
    let k = Before-Parked limit port (release now port p) q calls (record {
      owned = release-Owned now port p o;
      until_limit = parked now port holder p held long;
    }) in
    let (_, _, over, _) = acquire_gives later order owner q port r k.owned e in
    omega (arith, over limit k.until_limit)

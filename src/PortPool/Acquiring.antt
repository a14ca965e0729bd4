-- ===== src/PortPool/Acquiring.antt =====
-- Which port `Acquire` gives out, and when it gives out none.
use mathlib.Core.List.{Permᴰ}
use diam_gw.Prelude.{
  ℕ, suc, ◌≤◌, ◌<◌, ◌≡◌, ◌↔◌, ◌⊎◌, refl, sym, ap, ◌∙◌, inl, inr, List, [], ◌∷◌, Option, none, some,
  true, arith, Option-cases, ◌≢◌, ==-refl,
}
use diam_gw.PortPool.{
  Pool, Owner, keys, put, lookup, sweep_quarantine, take_port, acquire, contains,
}
use diam_gw.Prelude.Counts.{count, count-cons, lookup-none, lookup-absent}
use diam_gw.PortPool.Owned.{Owned, place_le, sweep_quarantine-Owned}
use diam_gw.PortPool.Sweep.{still, lookup-sweep_quarantine, in_use-sweep_quarantine}

-- The port at the front of the free list is in the range, and nowhere else.
front_alone :
    (p : Pool) (x : ℕ) (rest : List ℕ)
    → p.free ≡ x ∷ rest
    → Owned p
    → (count x (keys p.in_use) ≡ 0) × (count x (keys p.quarantine) ≡ 0) × (contains p x ≡ true)
front_alone p x rest e o =
    let front : count x p.free ≡ suc (count x rest) =
      ap (count x) e ∙ count-cons x x rest ∙ (rw (==-refl x) (omega arith)) in
    ground (arith, front, place_le p x o, o.place x)

took :
    (owner : Owner) (p : Pool) (free : List ℕ) (port : ℕ)
    → p.free ≡ free
    → Owned p
    → (take_port owner p free).0 ≡ some port
    → (lookup port p.in_use ≡ none)
      × (lookup port p.quarantine ≡ none)
      × (contains p port ≡ true)
      × (lookup port (take_port owner p free).1.in_use ≡ some owner)
unfolding take_port put lookup
took owner p [] port e o h = absurd cc
took owner p (x ∷ rest) port e o h =
    let alone = front_alone p x rest e o in
    let same : x ≡ port = cc in
    rw (← same) (
      lookup-absent x p.in_use alone.0,
      lookup-absent x p.quarantine alone.1,
      alone.2,
      ground arith,
    )

took-none :
    (owner : Owner) (p : Pool) (free : List ℕ) → (take_port owner p free).0 ≡ none → free ≡ []
unfolding take_port
took-none owner p [] h = refl
took-none owner p (x ∷ rest) h = absurd cc

still-none : (now until : ℕ) → still now (some until) ≡ none → until ≤ now
unfolding still
still-none now until h = ground arith

still-some :
    (now until : ℕ) (o : Option ℕ) → still now o ≡ some until → (o ≡ some until) × (now < until)
unfolding still
still-some now until none h = absurd cc
still-some now until (some u) h = ground arith

contains-sweep_quarantine :
    (now : ℕ) (order : List (ℕ × ℕ)) (p : Pool) (port : ℕ)
    → contains (sweep_quarantine now order p) port ≡ contains p port
unfolding contains
contains-sweep_quarantine now order p port =
    let (_, _, lo, hi) = in_use-sweep_quarantine now order p in rw (lo, hi)

-- `Acquire` gives out a port of the range that nobody holds and whose time in quarantine, if it was
-- there, is over; the port is then recorded for the owner.
pub acquire_gives :
    (now : ℕ) (order : List (ℕ × ℕ)) (owner : Owner) (p : Pool) (port : ℕ)
    → Permᴰ order p.quarantine
    → Owned p
    → (acquire now order owner p).0 ≡ some port
    → (contains p port ≡ true)
      × (lookup port p.in_use ≡ none)
      × ((until : ℕ) → lookup port p.quarantine ≡ some until → until ≤ now)
      × (lookup port (acquire now order owner p).1.in_use ≡ some owner)
unfolding acquire
acquire_gives now order owner p port r o h =
    let q = sweep_quarantine now order p in
    let (not_used, not_parked, inside, held) =
      took owner q q.free port refl (sweep_quarantine-Owned now order p r o) h in
    (
      sym (contains-sweep_quarantine now order p port) ∙ inside,
      ap (lookup port) (sym (in_use-sweep_quarantine now order p).0) ∙ not_used,
      λ until e. still-none now until (
          ap (still now) (sym e) ∙ sym (lookup-sweep_quarantine now port order p r o) ∙ not_parked),
      held,
    )

-- A port of the range that is neither held nor parked is free.
left_free :
    (p : Pool) (port : ℕ)
    → Owned p
    → contains p port ≡ true
    → lookup port p.in_use ≡ none
    → lookup port p.quarantine ≡ none
    → p.free ≢ []
unfolding count
left_free p port o c u k = λ e. ground (
  arith,
  o.place port,
  ap (count port) e,
  lookup-none port p.in_use u,
  lookup-none port p.quarantine k,
)

swept_free :
    (now : ℕ) (order : List (ℕ × ℕ)) (owner : Owner) (p : Pool) (port : ℕ)
    → Permᴰ order p.quarantine
    → Owned p
    → (acquire now order owner p).0 ≡ none
    → contains p port ≡ true
    → lookup port p.in_use ≡ none
    → still now (lookup port p.quarantine) ≢ none
unfolding acquire
swept_free now order owner p port r o h c u = λ k.
    let q = sweep_quarantine now order p in
    left_free q port (sweep_quarantine-Owned now order p r o)
      (contains-sweep_quarantine now order p port ∙ c)
      (ap (lookup port) (in_use-sweep_quarantine now order p).0 ∙ u)
      (lookup-sweep_quarantine now port order p r o ∙ k) (took-none owner q q.free h)

-- `Acquire` fails just if each port of the range is held, or in quarantine with its time still to
-- come.
pub acquire_exhausted :
    (now : ℕ) (order : List (ℕ × ℕ)) (owner : Owner) (p : Pool)
    → Permᴰ order p.quarantine
    → Owned p
    → ((acquire now order owner p).0 ≡ none) ↔ (
        (port : ℕ)
        → contains p port ≡ true
        → ((holder : Owner) × (lookup port p.in_use ≡ some holder))
          ⊎ ((until : ℕ) × (lookup port p.quarantine ≡ some until) × (now < until)))
acquire_exhausted now order owner p r o = (fails, all_taken)
  where
    fails :
        (acquire now order owner p).0 ≡ none
        → (port : ℕ) → contains p port ≡ true
        → ((holder : Owner) × (lookup port p.in_use ≡ some holder))
          ⊎ ((until : ℕ) × (lookup port p.quarantine ≡ some until) × (now < until))
    fails h port c = elim (Option-cases (lookup port p.in_use)) [
      | inr held ↦ inl held
      | inl unused ↦ elim (Option-cases (still now (lookup port p.quarantine))) [
        | inr (until, e) ↦ inr (
          until,
          (still-some now until (lookup port p.quarantine) e).0,
          (still-some now until (lookup port p.quarantine) e).1,
        )
        | inl over ↦ absurd (swept_free now order owner p port r o h c unused over)
      ]
    ]

    all_taken :
        ((port : ℕ)
          → contains p port ≡ true
          → ((holder : Owner) × (lookup port p.in_use ≡ some holder))
            ⊎ ((until : ℕ) × (lookup port p.quarantine ≡ some until) × (now < until)))
        → (acquire now order owner p).0 ≡ none
    all_taken all = elim (Option-cases (acquire now order owner p).0) [
      | inl n ↦ n
      | inr (port, e) ↦
          let (inside, unused, over, _) = acquire_gives now order owner p port r o e in
          elim (all port inside) [
            | inl (holder, held) ↦ absurd cc
            | inr (until, parked, later) ↦ absurd (omega (arith, over until parked))
          ]
    ]

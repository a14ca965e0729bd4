-- ===== src/Client/Priority.antt =====
-- Which priority the priority manager makes the active one.
use diam_gw.Prelude.{
  ℕ, zero, suc, ◌+◌, ◌-◌, ◌≤◌, ◌<◌, ◌≡◌, ◌⊎◌, refl, sym, ap, inl, inr, Option, none, some, ltb,
  arith, Bool-cases, lt→ltb, ltb→lt, List, [], ◌∷◌, true, get_elem?, Option-cases, ◌↔◌,
}
use diam_gw.Client.State.{is_active}
use diam_gw.Client.Connection.{Connection}
use diam_gw.Client.ConnectionPool.{ConnectionPool, is_healthy}
use diam_gw.Client.DraPool.{
  DraPool, DraServer, find_pool, group_of, is_healthy_dra, count_healthy,
  count_healthy_dras_at_priority, first_healthy, move_to, check_and_update_priority,
}

-- No priority from `a` up to `b`, itself left out, has a healthy agent.
abbrev pub NoneBetween : DraPool → ℕ → ℕ → Type 0
NoneBetween p a b = (r : ℕ) → a ≤ r → r < b → count_healthy_dras_at_priority p r ≡ 0

NoneBetween-cons :
    (p : DraPool) (a b : ℕ)
    → count_healthy_dras_at_priority p a ≡ 0
    → NoneBetween p (a + 1) b
    → NoneBetween p a b
NoneBetween-cons p a b h rest r l u = elim (Bool-cases (ltb a r)) [
  | inl later ↦ rest r (omega (arith, ltb→lt a r later)) u
  | inr same ↦ let e : r ≡ a = ground arith in rw e h
]

first_healthy-none : (p : DraPool) (a n : ℕ) → first_healthy p a n ≡ none → NoneBetween p a (a + n)
unfolding first_healthy
first_healthy-none p a zero h = λ r l u. absurd (omega arith)
first_healthy-none p a (suc n) h =
    let skipped : count_healthy_dras_at_priority p a ≡ 0 = ground arith in
    let rest : first_healthy p (a + 1) n ≡ none = ground arith in
    let later = first_healthy-none p (a + 1) n rest in
    NoneBetween-cons p a (a + suc n) skipped (λ r l u. later r l (omega arith))

first_healthy-some :
    (p : DraPool) (a n q : ℕ)
    → first_healthy p a n ≡ some q
    → (a ≤ q) × (q < a + n) × (0 < count_healthy_dras_at_priority p q) × NoneBetween p a q
unfolding first_healthy
first_healthy-some p a zero q h = absurd cc
first_healthy-some p a (suc n) q h =
    elim (Bool-cases (ltb 0 (count_healthy_dras_at_priority p a))) [
      | inl found ↦
          let e : a ≡ q = ground arith in
          rw (← e) (omega arith, omega arith, ltb→lt _ _ found, λ r l u. absurd (omega arith))
      | inr skipped ↦
          let rest : first_healthy p (a + 1) n ≡ some q = ground arith in
          let (l, u, healthy, none_before) = first_healthy-some p (a + 1) n q rest in
          (omega arith, omega arith, healthy, NoneBetween-cons p a q (ground arith) none_before)
    ]

-- The priority after the move.
moved :
    (p : DraPool) (o : Option ℕ) (q : ℕ)
    → (move_to p o).active_priority ≡ q
    → (o ≡ some q) ⊎ ((o ≡ none) × (p.active_priority ≡ q))
unfolding move_to
moved p none q e = inr (refl, e)
moved p (some x) q e = inl (ap some e)

back :
    (p : DraPool) (q : ℕ)
    → (check_and_update_priority p).active_priority ≡ q
    → 0 < count_healthy_dras_at_priority p p.active_priority
    → (q ≤ p.active_priority) × (0 < count_healthy_dras_at_priority p q) × NoneBetween p 1 q
unfolding check_and_update_priority
back p q e h =
    elim (moved p (first_healthy p 1 (p.active_priority - 1)) q (rw (lt→ltb 0 _ h) at e)) [
      | inl found ↦
          let (_, u, healthy, none_before) =
            first_healthy-some p 1 (p.active_priority - 1) q found in
          (omega arith, healthy, none_before)
      | inr (absent, same) ↦
          let none_before = first_healthy-none p 1 (p.active_priority - 1) absent in
          rw (← same) (omega arith, h, λ r l u. none_before r l (omega arith))
    ]

down :
    (p : DraPool) (q : ℕ)
    → (check_and_update_priority p).active_priority ≡ q
    → count_healthy_dras_at_priority p p.active_priority ≡ 0
    → ((p.active_priority < q)
        × (q ≤ 10)
        × (0 < count_healthy_dras_at_priority p q)
        × NoneBetween p (p.active_priority + 1) q)
      ⊎ ((q ≡ p.active_priority) × NoneBetween p (p.active_priority + 1) 11)
unfolding check_and_update_priority
down p q e h =
    elim (moved p (first_healthy p (p.active_priority + 1) (10 - p.active_priority)) q
      (rw h at e)) [
        | inl found ↦
            let (l, u, healthy, none_before) =
              first_healthy-some p (p.active_priority + 1) (10 - p.active_priority) q found in
            inl (omega arith, omega arith, healthy, none_before)
        | inr (absent, same) ↦
            let none_before =
              first_healthy-none p (p.active_priority + 1) (10 - p.active_priority) absent in
            inr (sym same, λ r l u. none_before r l (omega arith))
      ]

-- One of the connections is active.
abbrev pub HasActive : List Connection → Type 0
HasActive conns =
    (k : ℕ) × (c : Connection) × (get_elem? conns k ≡ some c) × (is_active c.state ≡ true)

-- An agent is healthy where its pool has an active connection.
abbrev pub Healthy : DraPool → DraServer → Type 0
Healthy p dra =
    (pool : ConnectionPool) × (find_pool dra.name p.dra_pools ≡ some pool)
    × HasActive pool.connections

-- Some agent of a priority is healthy.
abbrev pub SomeHealthy : DraPool → ℕ → Type 0
SomeHealthy p r =
    (i : ℕ) × (dra : DraServer) × (get_elem? (group_of r p.priority_groups) i ≡ some dra)
    × Healthy p dra

is_healthy-HasActive : (conns : List Connection) → is_healthy conns ≡ true → HasActive conns
unfolding is_healthy
is_healthy-HasActive [] h = absurd cc
is_healthy-HasActive (c ∷ conns) h = elim (Bool-cases (is_active c.state)) [
  | inl active ↦ (0, c, refl, active)
  | inr idle ↦
      let (k, c', here, active) = is_healthy-HasActive conns (rw idle at h) in
      (suc k, c', here, active)
]

HasActive-is_healthy :
    (conns : List Connection) (k : ℕ) (c : Connection)
    → get_elem? conns k ≡ some c
    → is_active c.state ≡ true
    → is_healthy conns ≡ true
unfolding is_healthy
HasActive-is_healthy [] k c here active = absurd cc
HasActive-is_healthy (x ∷ conns) zero c here active =
    let same : x ≡ c = cc in rw (same, active) refl
HasActive-is_healthy (x ∷ conns) (suc k) c here active = elim (Bool-cases (is_active x.state)) [
  | inl first ↦ rw (first) refl
  | inr other ↦ rw (other) (HasActive-is_healthy conns k c here active)
]

is_healthy_dra-Healthy :
    (p : DraPool) (dra : DraServer) → is_healthy_dra p.dra_pools dra ≡ true → Healthy p dra
unfolding is_healthy_dra
is_healthy_dra-Healthy p dra h = elim (Option-cases (find_pool dra.name p.dra_pools)) [
  | inl absent ↦ absurd (ground (arith, absent))
  | inr (pool, found) ↦ (pool, found, is_healthy-HasActive pool.connections (ground (arith, found)))
]

Healthy-is_healthy_dra :
    (p : DraPool) (dra : DraServer) → Healthy p dra → is_healthy_dra p.dra_pools dra ≡ true
unfolding is_healthy_dra
Healthy-is_healthy_dra p dra (pool, found, (k, c, here, active)) =
    rw (is_healthy_dra, found) (HasActive-is_healthy pool.connections k c here active)

count_healthy-some :
    (p : DraPool) (dras : List DraServer)
    → 0 < count_healthy p.dra_pools dras
    → (i : ℕ) × (dra : DraServer) × (get_elem? dras i ≡ some dra) × Healthy p dra
unfolding count_healthy
count_healthy-some p [] h = absurd (omega arith)
count_healthy-some p (dra ∷ dras) h = elim (Bool-cases (is_healthy_dra p.dra_pools dra)) [
  | inl healthy ↦ (0, dra, refl, is_healthy_dra-Healthy p dra healthy)
  | inr ill ↦
      let (i, dra', here, healthy) = count_healthy-some p dras (ground (arith, h, ill)) in
      (suc i, dra', here, healthy)
]

some-count_healthy :
    (p : DraPool) (dras : List DraServer) (i : ℕ) (dra : DraServer)
    → get_elem? dras i ≡ some dra
    → is_healthy_dra p.dra_pools dra ≡ true
    → 0 < count_healthy p.dra_pools dras
unfolding count_healthy
some-count_healthy p [] i dra here h = absurd cc
some-count_healthy p (x ∷ dras) zero dra here h =
    let same : x ≡ dra = cc in rw (same, h) (omega arith)
some-count_healthy p (x ∷ dras) (suc i) dra here h =
    ground (arith, some-count_healthy p dras i dra here h)

counted : (p : DraPool) (r : ℕ) → (0 < count_healthy_dras_at_priority p r) ↔ SomeHealthy p r
unfolding count_healthy_dras_at_priority
counted p r = (
  count_healthy-some p (group_of r p.priority_groups),
  λ (i, dra, here, healthy).
      some-count_healthy p (group_of r p.priority_groups) i dra here
        (Healthy-is_healthy_dra p dra healthy),
)

-- No priority from `a` up to `b`, itself left out, has a healthy agent.
abbrev pub AllIll : DraPool → ℕ → ℕ → Type 0
AllIll p a b = (r : ℕ) → a ≤ r → r < b → ¬ SomeHealthy p r

ill : (p : DraPool) (r : ℕ) → count_healthy_dras_at_priority p r ≡ 0 → ¬ SomeHealthy p r
ill p r e h = omega (arith, e, (counted p r).1 h)

NoneBetween-AllIll : (p : DraPool) (a b : ℕ) → NoneBetween p a b → AllIll p a b
NoneBetween-AllIll p a b none_there r l u = ill p r (none_there r l u)

-- An agent is healthy where one of the connections of its pool is active. Where the active priority has a healthy
-- agent, the new one is the highest (the smallest number from 1 on) that has one. Where it has none, the new one
-- is the next lower priority up to 10 that has one, or, if there is none, the active one stays: priorities above
-- it are not looked at.
pub check_and_update_priority_selects :
    (p : DraPool) (q : ℕ)
    → (check_and_update_priority p).active_priority ≡ q
    → (SomeHealthy p p.active_priority → (q ≤ p.active_priority) × SomeHealthy p q × AllIll p 1 q)
      × (¬ SomeHealthy p p.active_priority
          → ((p.active_priority < q)
              × (q ≤ 10)
              × SomeHealthy p q
              × AllIll p (p.active_priority + 1) q)
            ⊎ ((q ≡ p.active_priority) × AllIll p (p.active_priority + 1) 11))
check_and_update_priority_selects p q e = (goes_back, goes_down)
  where
    goes_back :
        SomeHealthy p p.active_priority → (q ≤ p.active_priority) × SomeHealthy p q × AllIll p 1 q
    goes_back h =
        let (l, healthy, rest) = back p q e ((counted p p.active_priority).1 h) in
        (l, (counted p q).0 healthy, NoneBetween-AllIll p 1 q rest)

    goes_down :
        ¬ SomeHealthy p p.active_priority
        → ((p.active_priority < q)
            × (q ≤ 10)
            × SomeHealthy p q
            × AllIll p (p.active_priority + 1) q)
          ⊎ ((q ≡ p.active_priority) × AllIll p (p.active_priority + 1) 11)
    goes_down h =
        let a = p.active_priority in
        elim (down p q e (elim (Bool-cases (ltb 0 (count_healthy_dras_at_priority p a))) [
          | inl some_healthy ↦ absurd (h ((counted p a).0 (ltb→lt 0 _ some_healthy)))
          | inr none_healthy ↦ ground (arith, none_healthy)
        ])) [
          | inl (l, u, healthy, rest) ↦
              inl (l, u, (counted p q).0 healthy, NoneBetween-AllIll p (a + 1) q rest)
          | inr (same, rest) ↦ inr (same, NoneBetween-AllIll p (a + 1) 11 rest)
        ]

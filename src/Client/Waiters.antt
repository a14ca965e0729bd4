-- ===== src/Client/Waiters.antt =====
-- The callers of the address-keyed pool that wait for another to establish a connection.
use diam_gw.Prelude.{
  ℕ, ◌+◌, ◌≤◌, ◌≡◌, ◌⊎◌, refl, inl, inr, List, [], ◌∷◌, ◌++◌, false, ◌&&◌, ◌==◌, ltb, ltb→lt,
  if◌then◌else◌, none, some, arith, lookup, delete, Option-cases, Bool-cases,
}
use diam_gw.Prelude.Totals.{total, total-middle}
use diam_gw.Prelude.Counts.{lookup-delete_same, lookup-delete_other, lookup-put}
use diam_gw.Client.AddressPool.{
  Setting, Outside, channel_case, Call, AddressPool, new_address_pool, Task, sends, claims,
  retrieves, waits, establishes, counts_failure, closes_failed, adds, counts_active, counts_total,
  discards, forgets, sends_nil, closes_channel, run, ends, is_done, cancel, close_connection, claim,
  establish, add, forget, wait, live,
}
use diam_gw.Client.SingleFlight.{
  System, IsEvent, send_call, health_tick, close_call, Step, runs, starts, turns, ends_context,
  Reachable, started, stepped, total-of_middle,
}

-- Whether a task establishes a connection to the address, for the waiters on the channel.
unfoldable pub dials_for : ℕ → ℕ → Task → ℕ
dials_for k x (establishes c ch) = if k == c.remote && x == ch then 1 else 0
dials_for k x (adds c ch id) = if k == c.remote && x == ch then 1 else 0
dials_for k x (counts_active c ch id) = if k == c.remote && x == ch then 1 else 0
dials_for k x (counts_total c ch id) = if k == c.remote && x == ch then 1 else 0
dials_for k x (discards c ch id old) = if k == c.remote && x == ch then 1 else 0
dials_for k x (forgets c ch r) = if k == c.remote && x == ch then 1 else 0
dials_for k x _ = 0

-- Whether a task is yet to close the channel.
unfoldable pub will_close : ℕ → Task → ℕ
will_close x (establishes c ch) = if x == ch then 1 else 0
will_close x (adds c ch id) = if x == ch then 1 else 0
will_close x (counts_active c ch id) = if x == ch then 1 else 0
will_close x (counts_total c ch id) = if x == ch then 1 else 0
will_close x (discards c ch id old) = if x == ch then 1 else 0
will_close x (forgets c ch r) = if x == ch then 1 else 0
will_close x (counts_failure c ch) = if x == ch then 1 else 0
will_close x (closes_failed c ch) = if x == ch then 1 else 0
will_close x (sends_nil ch) = if x == ch then 1 else 0
will_close x (closes_channel ch) = if x == ch then 1 else 0
will_close x _ = 0

-- Whether a task waits on the channel.
unfoldable pub waits_on : ℕ → Task → ℕ
waits_on x (waits c ch) = if x == ch then 1 else 0
waits_on x _ = 0

abbrev is_shut : ℕ → AddressPool → ℕ
is_shut x p = if p.shut x then 1 else 0

dials_for-le : (k x : ℕ) (t : Task) → dials_for k x t ≤ will_close x t
unfolding dials_for will_close
dials_for-le k x (establishes c ch) = ground arith
dials_for-le k x _ = ground arith

total_dials_for-le : (k x : ℕ) (ts : List Task) → total (dials_for k x) ts ≤ total (will_close x) ts
unfolding total
total_dials_for-le k x [] = omega arith
total_dials_for-le k x (t ∷ ts) = omega (arith, dials_for-le k x t, total_dials_for-le k x ts)

-- A channel stays closed, and a task that is to close it goes on to, or has closed it.
run-will_close :
    (s : Setting) (o : Outside) (t : Task) (p p' : AddressPool) (ts : List Task) (x : ℕ)
    → run s o t p ≡ some (p', ts)
    → (is_shut x p ≤ is_shut x p') × (will_close x t ≤ total (will_close x) ts + is_shut x p')
unfolding run ends is_done cancel close_connection claim establish add forget wait live total
    will_close
run-will_close s o (sends c) p p' ts x e = ground arith
run-will_close s o _ p p' ts x e = ground arith

-- Who begins to wait on a channel has found it in the map.
run-waits_on :
    (s : Setting) (o : Outside) (t : Task) (p p' : AddressPool) (ts : List Task) (x : ℕ)
    → run s o t p ≡ some (p', ts)
    → 1 ≤ total (waits_on x) ts
    → (k : ℕ) × (lookup k p.establishing ≡ some x)
unfolding run ends is_done cancel close_connection claim establish add forget wait live total
    waits_on
run-waits_on s o (sends c) p p' ts x e h = absurd (ground arith)
run-waits_on s o (claims c) p p' ts x e h = (c.remote, ground arith)
run-waits_on s o _ p p' ts x e h = absurd (ground arith)

lookup-delete :
    (k a : ℕ) (m : List (ℕ × ℕ)) → lookup k (delete a m) ≡ (if k == a then none else lookup k m)
lookup-delete k a m = ground (arith, lookup-delete_other k a m, lookup-delete_same k m)

-- An entry of the map after a step is new with its goroutine, or it was there.
run-dials_for :
    (s : Setting) (o : Outside) (t : Task) (p p' : AddressPool) (ts : List Task) (k x : ℕ)
    → run s o t p ≡ some (p', ts)
    → lookup k p'.establishing ≡ some x
    → (1 ≤ total (dials_for k x) ts)
      ⊎ ((lookup k p.establishing ≡ some x) × (dials_for k x t ≤ total (dials_for k x) ts))
unfolding run ends is_done cancel close_connection claim establish add forget wait live total
    dials_for
run-dials_for s o (sends c) p p' ts k x e h = inr (ground arith, ground arith)
run-dials_for s o (claims c) p p' ts k x e h =
    elim (Option-cases (lookup c.remote p.establishing)) [
      | inl new ↦ elim (Bool-cases (k == c.remote)) [
        | inl here ↦ inl (ground (arith, lookup-put k c.remote p.next_channel p.establishing))
        | inr other ↦
            inr (ground (arith, lookup-put k c.remote p.next_channel p.establishing), ground arith)
      ]
      | inr (ch, old) ↦ inr (ground arith, ground arith)
    ]
run-dials_for s o (forgets c ch r) p p' ts k x e h = inr (
  ground (arith, lookup-delete k c.remote p.establishing),
  ground (arith, lookup-delete k c.remote p.establishing),
)
run-dials_for s o _ p p' ts k x e h = inr (ground arith, ground arith)

-- An address is in the map with the channel of the goroutine that establishes, and a channel that is
-- waited on is closed or to be closed.
pub record Served (q : System) : Type 0 where
  pub named : (k x : ℕ) → lookup k q.pool.establishing ≡ some x → 1 ≤ total (dials_for k x) q.tasks
  pub served :
      (x : ℕ) → 1 ≤ total (waits_on x) q.tasks → 1 ≤ total (will_close x) q.tasks + is_shut x q.pool

event-weights : (t : Task) (k x : ℕ) → IsEvent t → (waits_on x t ≡ 0) × (dials_for k x t ≡ 0)
unfolding waits_on dials_for
event-weights t k x (send_call c) = (refl, refl)
event-weights t k x health_tick = (refl, refl)
event-weights t k x close_call = (refl, refl)

le_of_ltb : (a b : ℕ) → ltb a b ≡ false → b ≤ a
le_of_ltb a b h = ground arith

module _ (s : Setting) (q : System) (before after : List Task) (t : Task) (o : Outside) where
  module _ (p' : AddressPool) (ts : List Task) (e : q.tasks ≡ before ++ t ∷ after) where
    runs-named_entries :
        run s o t q.pool ≡ some (p', ts)
        → Served q
        → (k x : ℕ) → lookup k p'.establishing ≡ some x
        → 1 ≤ total (dials_for k x) (before ++ (ts ++ after))
    runs-named_entries r h k x l = elim (run-dials_for s o t q.pool p' ts k x r l) [
      | inl new ↦ omega (arith, new, total-middle (dials_for k x) before ts after)
      | inr (there, stays) ↦ omega (
        arith,
        h.named k x there,
        stays,
        total-middle (dials_for k x) before ts after,
        total-of_middle (dials_for k x) q.tasks before after t e,
      )
    ]

    runs-Served :
        run s o t q.pool ≡ some (p', ts)
        → Served q
        → (x : ℕ) → 1 ≤ total (waits_on x) (before ++ (ts ++ after))
        → 1 ≤ total (will_close x) (before ++ (ts ++ after)) + is_shut x p'
    runs-Served r h x w =
        let was : 1 ≤ total (will_close x) q.tasks + is_shut x q.pool =
          elim (Bool-cases (ltb 0 (total (waits_on x) ts))) [
            | inl begins ↦
                let (k, there) = run-waits_on s o t q.pool p' ts x r (ltb→lt 0 _ begins) in
                omega (arith, h.named k x there, total_dials_for-le k x q.tasks)
            | inr waited ↦ h.served x (
                omega (
                  arith,
                  w,
                  le_of_ltb 0 (total (waits_on x) ts) waited,
                  total-middle (waits_on x) before ts after,
                  total-of_middle (waits_on x) q.tasks before after t e,
                ))
          ] in
        let (stays, goes_on) = run-will_close s o t q.pool p' ts x r in
        omega (
          arith,
          was,
          stays,
          goes_on,
          total-middle (will_close x) before ts after,
          total-of_middle (will_close x) q.tasks before after t e,
        )

Step-Served : (s : Setting) (q q' : System) → Step s q q' → Served q → Served q'
unfolding total
Step-Served s q q' (runs before after t o p' ts x e r f) h = rw f (record {
  named = runs-named_entries s q before after t o p' ts e r h;
  served = runs-Served s q before after t o p' ts e r h;
})
Step-Served s q q' (starts t x ev f) h = rw f (record {
  named = λ k y l. omega (arith, h.named k y l, event-weights t k y ev);
  served = λ y w. omega (arith, h.served y (omega (arith, w, event-weights t 0 y ev)));
})
Step-Served s q q' (turns id up called x f) h = rw f (record { named = h.named; served = h.served })
Step-Served s q q' (ends_context x f) h = rw f (record { named = h.named; served = h.served })

Reachable-Served : (s : Setting) (q : System) → Reachable s q → Served q
unfolding total new_address_pool lookup
Reachable-Served s q started = record {
  named = λ k x l. absurd cc;
  served = λ x w. absurd (omega arith);
}
Reachable-Served s q (stepped before after r up st) =
    Step-Served s before q st (Reachable-Served s before r)

-- However the goroutines of the pool interleave, a caller that waits for another to establish a connection
-- does not wait in vain: some goroutine has yet to close the channel that it waits on, or the channel
-- lets it go on.
pub Reachable-waits :
    (s : Setting) (q : System) (o : Outside) (c : Call) (ch : ℕ)
    → Reachable s q
    → o.wait_case ≡ channel_case
    → 1 ≤ total (waits_on ch) q.tasks
    → (1 ≤ total (will_close ch) q.tasks)
      ⊎ ((p' : AddressPool) × (run s o (waits c ch) q.pool ≡ some (p', retrieves c ∷ [])))
unfolding run wait
Reachable-waits s q o c ch r listens w = elim (Bool-cases (q.pool.shut ch)) [
  | inr open_yet ↦ inl (ground (arith, (Reachable-Served s q r).served ch))
  | inl closed ↦ inr (elim (Bool-cases (q.pool.filled ch)) [
    | inl full ↦ (
      record q.pool { filled = λ x. if x == ch then false else q.pool.filled x },
      rw (listens, full) refl,
    )
    | inr empty ↦ (q.pool, rw (listens, empty, closed) refl)
  ])
]

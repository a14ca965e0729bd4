-- ===== src/Client/SingleFlight.antt =====
-- The goroutines of the address-keyed pool, and the one that may dial an address.
use diam_gw.Prelude.{
  false, ℕ, ◌+◌, ◌≤◌, ◌≡◌, refl, ap, List, [], ◌∷◌, ◌++◌, Bool, true, ◌||◌, ◌==◌, if◌then◌else◌,
  some, arith, keys,
}
use diam_gw.Prelude.Totals.{total, total-middle}
use diam_gw.Prelude.Counts.{count, count-keys-put, count-keys-delete, lookup-none}
use diam_gw.Client.AddressPool.{
  Setting, Outside, Call, AddressPool, new_address_pool, Task, sends, looks_again, claims,
  checks_again, establishes, adds, counts_active, counts_total, discards, forgets, health_check,
  closes_pool, run, ends, is_done, cancel, close_connection, claim, establish, add, forget, wait,
  live, update,
}

-- A pool and its goroutines.
pub record System : Type 0 where
  pub pool : AddressPool
  pub tasks : List Task

-- What starts from outside: a call of `Send` or `Close`, and a tick of the health checker.
pub data IsEvent : Task → Type 0 where
  send_call : (c : Call) → IsEvent (sends c)
  health_tick : IsEvent health_check
  close_call : IsEvent closes_pool

-- Any one of the goroutines does its next step, or another starts; a connection fails or comes up, with
-- its callback for failures or without it; or the context that the pool was given is cancelled.
pub data Step (s : Setting) (q : System) : System → Type 0 where
  runs :
      (before after : List Task) (t : Task) (o : Outside) (p' : AddressPool) (ts : List Task)
      → (q' : System) → q.tasks ≡ before ++ t ∷ after
      → run s o t q.pool ≡ some (p', ts)
      → q' ≡ record { pool = p'; tasks = before ++ (ts ++ after) }
      → Step s q q'
  starts :
      (t : Task) (q' : System) → IsEvent t → q' ≡ record q { tasks = t ∷ q.tasks } → Step s q q'
  turns :
      (id : ℕ) (up called : Bool) (q' : System)
      → q' ≡ record q {
        pool = record q.pool {
          managed =
              update id
                (record (q.pool.managed id) {
                  is_active = up;
                  cancelled = called || (q.pool.managed id).cancelled;
                })
                q.pool.managed;
        };
      }
      → Step s q q'
  ends_context :
      (q' : System) → q' ≡ record q { pool = record q.pool { cancelled = true } } → Step s q q'

pub data Reachable (s : Setting) : System → Type 0 where
  started : Reachable s (record { pool = new_address_pool; tasks = [] })
  stepped : (q q' : System) → Reachable s q → q.pool.crashed ≡ false → Step s q q' → Reachable s q'

-- Whether a task holds establishingMu.
unfoldable pub in_section : Task → ℕ
in_section (looks_again c) = 1
in_section (claims c) = 1
in_section (checks_again c id) = 1
in_section _ = 0

-- Whether a task establishes a connection to the address.
unfoldable pub dials : ℕ → Task → ℕ
dials k (establishes c ch) = if k == c.remote then 1 else 0
dials k (adds c ch id) = if k == c.remote then 1 else 0
dials k (counts_active c ch id) = if k == c.remote then 1 else 0
dials k (counts_total c ch id) = if k == c.remote then 1 else 0
dials k (discards c ch id old) = if k == c.remote then 1 else 0
dials k (forgets c ch r) = if k == c.remote then 1 else 0
dials k _ = 0

abbrev locked : AddressPool → ℕ
locked p = if p.establishing_mu then 1 else 0

run-in_section :
    (s : Setting) (o : Outside) (t : Task) (p p' : AddressPool) (ts : List Task)
    → run s o t p ≡ some (p', ts)
    → in_section t ≤ locked p
    → total in_section ts + locked p ≡ in_section t + locked p'
unfolding run ends is_done cancel close_connection claim establish add forget wait live total
    in_section
run-in_section s o (sends c) p p' ts e h = ground arith
run-in_section s o (claims c) p p' ts e h = ground arith
run-in_section s o (forgets c ch r) p p' ts e h = ground arith
run-in_section s o _ p p' ts e h = ground arith

-- A call that establishes has put its address in the map; and the other way round.
run-dials :
    (s : Setting) (o : Outside) (t : Task) (p p' : AddressPool) (ts : List Task) (k : ℕ)
    → run s o t p ≡ some (p', ts)
    → dials k t ≤ count k (keys p.establishing)
    → count k (keys p.establishing) ≤ 1
    → (total (dials k) ts + count k (keys p.establishing)
        ≡ dials k t + count k (keys p'.establishing))
      × (count k (keys p'.establishing) ≤ 1)
unfolding run ends is_done cancel close_connection claim establish add forget wait live total dials
run-dials s o (claims c) p p' ts k e h once = ground (
  arith,
  count-keys-put k c.remote p.next_channel p.establishing,
  lookup-none c.remote p.establishing,
)
run-dials s o (forgets c ch r) p p' ts k e h once =
    ground (arith, count-keys-delete k c.remote p.establishing)
run-dials s o _ p p' ts k e h once = ground arith

-- At most one goroutine holds establishingMu, and one establishes a connection to an address; it does
-- just as long as the map has the address.
pub record Single (q : System) : Type 0 where
  pub section : total in_section q.tasks ≡ locked q.pool
  pub alone : (k : ℕ) → total (dials k) q.tasks ≡ count k (keys q.pool.establishing)
  pub once : (k : ℕ) → count k (keys q.pool.establishing) ≤ 1

-- What a task weighs is part of what all weigh.
pub total-of_middle :
    (weight : Task → ℕ) (ts before after : List Task) (t : Task)
    → ts ≡ before ++ t ∷ after
    → total weight ts ≡ total weight before + weight t + total weight after
unfolding total
total-of_middle weight ts before after t e =
    omega (arith, ap (total weight) e, total-middle weight before (t ∷ []) after)

event-in_section : (t : Task) → IsEvent t → in_section t ≡ 0
unfolding in_section
event-in_section t (send_call c) = refl
event-in_section t health_tick = refl
event-in_section t close_call = refl

event-dials : (t : Task) (k : ℕ) → IsEvent t → dials k t ≡ 0
unfolding dials
event-dials t k (send_call c) = refl
event-dials t k health_tick = refl
event-dials t k close_call = refl

Step-Single : (s : Setting) (q q' : System) → Step s q q' → Single q → Single q'
unfolding total
Step-Single s q q' (runs before after t o p' ts x e r f) h =
    let dial = λ (k : ℕ).
      run-dials s o t q.pool p' ts k r
        (omega (arith, h.alone k, total-of_middle (dials k) q.tasks before after t e)) (h.once k) in
    rw f (record {
      section = omega (
        arith,
        h.section,
        total-of_middle in_section q.tasks before after t e,
        total-middle in_section before ts after,
        run-in_section s o t q.pool p' ts r
            (omega (arith, h.section, total-of_middle in_section q.tasks before after t e)),
      );
      alone = λ k. omega (
        arith,
        h.alone k,
        total-of_middle (dials k) q.tasks before after t e,
        total-middle (dials k) before ts after,
        (dial k).0,
      );
      once = λ k. (dial k).1;
    })
Step-Single s q q' (starts t x ev f) h = rw f (record {
  section = omega (arith, h.section, event-in_section t ev);
  alone = λ k. omega (arith, h.alone k, event-dials t k ev);
  once = h.once;
})
Step-Single s q q' (turns id up called x f) h =
    rw f (record { section = h.section; alone = h.alone; once = h.once })
Step-Single s q q' (ends_context x f) h =
    rw f (record { section = h.section; alone = h.alone; once = h.once })

pub Reachable-Single : (s : Setting) (q : System) → Reachable s q → Single q
unfolding total new_address_pool count keys
Reachable-Single s q started = record { section = refl; alone = λ k. refl; once = λ k. omega arith }
Reachable-Single s q (stepped before after r up st) =
    Step-Single s before q st (Reachable-Single s before r)

-- ===== src/Gateway/Balance.antt =====
-- The counters of the gateway's sessions follow the map of the sessions.
use diam_gw.Prelude.{
  ℕ, suc, ◌+◌, ◌%◌, ◌^◌, ◌≤◌, ◌<◌, ◌≡◌, refl, inl, inr, List, [], ◌∷◌, length, keys, put, lookup,
  delete, arith, Option-cases, Bool-cases,
}
use diam_gw.Prelude.Counts.{
  count, count-keys-put, count-keys-delete, length-delete, length-put, lookup-none, lookup-some,
}
use diam_gw.Gateway.{
  Session, Sessions, no_sessions, store_session, count_stored, delete_session, count_deleted,
  is_expired, cleanup_loop, cleanup_expired_sessions,
}

-- One step of a call, or of the cleaning, at any time.
pub data Step (g : Sessions) : Sessions → Type 0 where
  stores : (k : ℕ) (s : Session) (g' : Sessions) → g' ≡ store_session k s g → Step g g'
  counts_stored : (g' : Sessions) → 0 < g.storing → g' ≡ count_stored g → Step g g'
  deletes : (k : ℕ) (g' : Sessions) → g' ≡ (delete_session k g).1 → Step g g'
  counts_deleted : (g' : Sessions) → 0 < g.deleting → g' ≡ count_deleted g → Step g g'
  cleans :
      (now timeout : ℕ) (g' : Sessions) → g' ≡ cleanup_expired_sessions now timeout g → Step g g'

pub data Reachable : Sessions → Type 0 where
  started : Reachable no_sessions
  stepped : (g g' : Sessions) → Reachable g → Step g g' → Reachable g'

-- Up to what is not counted yet, `active` is the number of sessions, and the sessions created are those that are there,
-- were completed or expired; all of it modulo 2^64.
pub record Balanced (g : Sessions) : Type 0 where
  pub once : (k : ℕ) → count k (keys g.table) ≤ 1
  pub active_at : (g.active + g.storing) % 2 ^ 64 ≡ (length g.table + g.deleting) % 2 ^ 64
  pub created_at :
      (g.created + g.storing) % 2 ^ 64
      ≡ (length g.table + g.completed + g.deleting + g.expired) % 2 ^ 64

length-replace :
    (k : ℕ) (s : Session) (m : List (ℕ × Session)) → length (put k s m) ≡ suc (length (delete k m))
unfolding put
length-replace k s m = refl

stored-Balanced : (k : ℕ) (s : Session) (g : Sessions) → Balanced g → Balanced (store_session k s g)
unfolding store_session
stored-Balanced k s g b = elim (Option-cases (lookup k g.table)) [
  | inl absent ↦
      let longer = length-put k s g.table (lookup-none k g.table absent) in
      rw (store_session, absent)
        (record {
          once = λ q. ground (arith, b.once q, count-keys-put q k s g.table);
          active_at = omega (arith, b.active_at, longer);
          created_at = omega (arith, b.created_at, longer);
        })
  | inr (old, there) ↦
      let same : length (put k s g.table) ≡ length g.table = omega (
        arith,
        length-replace k s g.table,
        length-delete k g.table (omega (arith, b.once k, lookup-some k g.table old there)),
      ) in
      rw (store_session, there)
        (record {
          once = λ q. ground (arith, b.once q, count-keys-put q k s g.table);
          active_at = omega (arith, b.active_at, same);
          created_at = omega (arith, b.created_at, same);
        })
]

deleted-Balanced : (k : ℕ) (g : Sessions) → Balanced g → Balanced (delete_session k g).1
unfolding delete_session
deleted-Balanced k g b = elim (Option-cases (lookup k g.table)) [
  | inl absent ↦ rw (delete_session, absent) b
  | inr (old, there) ↦
      let shorter =
        length-delete k g.table (omega (arith, b.once k, lookup-some k g.table old there)) in
      rw (delete_session, there)
        (record {
          once = λ q. ground (arith, b.once q, count-keys-delete q k g.table);
          active_at = omega (arith, b.active_at, shorter);
          created_at = omega (arith, b.created_at, shorter);
        })
]

-- What the cleaning of a table leaves of it and of the counters.
record Cleaned (g g' : Sessions) (table : List (ℕ × Session)) : Type 0 where
  kept : (k : ℕ) → count k (keys g'.table) ≤ count k (keys table)
  active_with : (g'.active + length table) % 2 ^ 64 ≡ (g.active + length g'.table) % 2 ^ 64
  expired_with : (g'.expired + length g'.table) % 2 ^ 64 ≡ (g.expired + length table) % 2 ^ 64
  same_created : g'.created ≡ g.created
  same_completed : g'.completed ≡ g.completed
  same_storing : g'.storing ≡ g.storing
  same_deleting : g'.deleting ≡ g.deleting

cleanup_loop-Cleaned :
    (now timeout : ℕ) (table : List (ℕ × Session)) (g : Sessions)
    → Cleaned g (cleanup_loop now timeout table g) table
unfolding cleanup_loop count keys
cleanup_loop-Cleaned now timeout [] g = record {
  kept = λ k. omega arith;
  active_with = refl;
  expired_with = refl;
  same_created = refl;
  same_completed = refl;
  same_storing = refl;
  same_deleting = refl;
}
cleanup_loop-Cleaned now timeout (e ∷ table) g =
    let c = cleanup_loop-Cleaned now timeout table g in
    elim (Bool-cases (is_expired now timeout e.1)) [
      | inl old ↦
          rw (cleanup_loop, old)
            (record {
              kept = λ k. ground (arith, c.kept k);
              active_with = omega (arith, c.active_with);
              expired_with = omega (arith, c.expired_with);
              same_created = c.same_created;
              same_completed = c.same_completed;
              same_storing = c.same_storing;
              same_deleting = c.same_deleting;
            })
      | inr young ↦
          rw (cleanup_loop, young)
            (record {
              kept = λ k. ground (arith, c.kept k);
              active_with = omega (arith, c.active_with);
              expired_with = omega (arith, c.expired_with);
              same_created = c.same_created;
              same_completed = c.same_completed;
              same_storing = c.same_storing;
              same_deleting = c.same_deleting;
            })
    ]

cleaned-Balanced :
    (now timeout : ℕ) (g : Sessions)
    → Balanced g
    → Balanced (cleanup_expired_sessions now timeout g)
unfolding cleanup_expired_sessions
cleaned-Balanced now timeout g b =
    let c = cleanup_loop-Cleaned now timeout g.table g in
    record {
      once = λ k. omega (arith, c.kept k, b.once k);
      active_at = omega (arith, c.active_with, c.same_storing, c.same_deleting, b.active_at);
      created_at = omega (
        arith, c.expired_with, c.same_created, c.same_completed, c.same_storing, c.same_deleting,
        b.created_at,
      );
    }

Step-Balanced : (g g' : Sessions) → Step g g' → Balanced g → Balanced g'
unfolding count_stored count_deleted
Step-Balanced g g' (stores k s q e) b = rw e (stored-Balanced k s g b)
Step-Balanced g g' (counts_stored q h e) b = rw e (record {
  once = b.once;
  active_at = omega (arith, b.active_at);
  created_at = omega (arith, b.created_at);
})
Step-Balanced g g' (deletes k q e) b = rw e (deleted-Balanced k g b)
Step-Balanced g g' (counts_deleted q h e) b = rw e (record {
  once = b.once;
  active_at = omega (arith, b.active_at);
  created_at = omega (arith, b.created_at);
})
Step-Balanced g g' (cleans now timeout q e) b = rw e (cleaned-Balanced now timeout g b)

-- However the calls that store and delete sessions interleave with each other and with the cleaning, a key has one
-- session at most, and up to the calls that have not counted yet, and modulo 2^64, ActiveSessions is the number of the
-- sessions, and SessionsCreated that of those that are there, were completed or expired.
pub Reachable-Balanced : (g : Sessions) → Reachable g → Balanced g
unfolding no_sessions count keys
Reachable-Balanced g started = record {
  once = λ k. omega arith;
  active_at = refl;
  created_at = refl;
}
Reachable-Balanced g (stepped before g' r s) =
    Step-Balanced before g s (Reachable-Balanced before r)

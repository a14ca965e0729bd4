-- ===== src/PortPool/Owned.antt =====
-- The invariant of the pool, and that every call keeps it.
use mathlib.Core.List.{Permᴰ}
use diam_gw.Prelude.{
  zero, suc, ℕ, ◌+◌, ◌-◌, ◌≤◌, ◌≡◌, refl, ap, inl, inr, List, [], ◌∷◌, length, ◌&&◌, ltb, leb, ◌==◌,
  if◌then◌else◌, arith, length-append, Bool-cases, Option-cases,
}
use diam_gw.PortPool.{
  Pool, Owner, keys, put, lookup, sweep_entry, sweep_loop, sweep_quarantine, take_port, acquire,
  give_back, release, contains, new_pool, ports_from,
}
use diam_gw.Prelude.Counts.{
  count, count-last, count-one, count-keys-delete, count-keys-put, length-delete, length-put,
  count-cons, lookup-some, count-keys-Permᴰ,
}

-- The ports that are filled in are each in the list once.
count-ports_from :
    (q a n : ℕ) → count q (ports_from a n) ≡ (if leb a q && ltb q (a + n) then 1 else 0)
unfolding count ports_from
count-ports_from q a zero = ground arith
count-ports_from q a (suc n) = ground (arith, count-ports_from q (a + 1) n)

length-ports_from : (a n : ℕ) → length (ports_from a n) ≡ n
unfolding ports_from
length-ports_from a zero = refl
length-ports_from a (suc n) = ap suc (length-ports_from (a + 1) n)

-- Every port of the range is free, or in use, or in quarantine: in one of the three, and once; and no other
-- port is in any.
pub record Owned (p : Pool) : Type 0 where
  pub place :
      (q : ℕ)
      → count q p.free + count q (keys p.in_use) + count q (keys p.quarantine)
        ≡ (if contains p q then 1 else 0)
  pub size : length p.free + length p.in_use + length p.quarantine ≡ p.max_port + 1 - p.min_port

pub place_le :
    (p : Pool) (q : ℕ)
    → Owned p
    → count q p.free + count q (keys p.in_use) + count q (keys p.quarantine) ≤ 1
place_le p q o = ground (arith, o.place q)

pub new_pool-Owned :
    (ip : List ℕ) (lo hi duration : ℕ) → lo ≤ hi → Owned (new_pool ip lo hi duration)
unfolding new_pool contains keys count
new_pool-Owned ip lo hi duration h = record {
  place = λ q. ground (arith, count-ports_from q lo (hi + 1 - lo));
  size = omega (arith, length-ports_from lo (hi + 1 - lo));
}

pub sweep_entry-Owned :
    (now : ℕ) (p : Pool) (e : ℕ × ℕ)
    → Owned p
    → 1 ≤ count e.0 (keys p.quarantine)
    → Owned (sweep_entry now p e)
unfolding sweep_entry contains
sweep_entry-Owned now p e o h = elim (Bool-cases (ltb now e.1)) [
  | inl early ↦ rw early o
  | inr late ↦ rw late (record {
    place = λ q. ground (
      arith,
      o.place q,
      count-last q e.0 p.free,
      count-one q e.0,
      count-keys-delete q e.0 p.quarantine,
      place_le p q o,
    );
    size = omega (
      arith,
      o.size,
      length-append p.free (e.0 ∷ []),
      length-delete e.0 p.quarantine (omega (arith, place_le p e.0 o)),
    );
  })
]

-- The entries that the loop has not visited yet are in the quarantine.
abbrev pub IsWithin : List (ℕ × ℕ) → Pool → Type 0
IsWithin order p = (q : ℕ) → count q (keys order) ≤ count q (keys p.quarantine)

pub sweep_entry-IsWithin :
    (now : ℕ) (p : Pool) (e : ℕ × ℕ) (order : List (ℕ × ℕ))
    → Owned p
    → IsWithin (e ∷ order) p
    → IsWithin order (sweep_entry now p e)
unfolding sweep_entry keys count
sweep_entry-IsWithin now p e order o w q =
    ground (arith, w q, place_le p q o, count-keys-delete q e.0 p.quarantine)

pub first_within :
    (p : Pool) (e : ℕ × ℕ) (order : List (ℕ × ℕ))
    → IsWithin (e ∷ order) p
    → 1 ≤ count e.0 (keys p.quarantine)
unfolding keys count
first_within p e order w = ground (arith, w e.0)

pub sweep_loop-Owned :
    (now : ℕ) (p : Pool) (order : List (ℕ × ℕ))
    → Owned p
    → IsWithin order p
    → Owned (sweep_loop now p order)
unfolding sweep_loop
sweep_loop-Owned now p [] o w = o
sweep_loop-Owned now p (e ∷ order) o w =
    sweep_loop-Owned now (sweep_entry now p e) order
      (sweep_entry-Owned now p e o (first_within p e order w))
      (sweep_entry-IsWithin now p e order o w)

pub sweep_quarantine-Owned :
    (now : ℕ) (order : List (ℕ × ℕ)) (p : Pool)
    → Permᴰ order p.quarantine
    → Owned p
    → Owned (sweep_quarantine now order p)
unfolding sweep_quarantine
sweep_quarantine-Owned now order p r o = elim (Bool-cases (length p.quarantine == 0)) [
  | inl nothing ↦ rw nothing o
  | inr entries ↦
      rw entries (sweep_loop-Owned now p order o (λ q. omega (arith, count-keys-Permᴰ q r)))
]

take_port-Owned :
    (owner : Owner) (p : Pool) (free : List ℕ)
    → p.free ≡ free
    → Owned p
    → Owned (take_port owner p free).1
unfolding take_port contains
take_port-Owned owner p [] e o = record { place = o.place; size = o.size }
take_port-Owned owner p (port ∷ rest) e o = record { place = λ q. placed q; size = sized }
  where
    front : (q : ℕ) → count q p.free ≡ count q (port ∷ rest)
    front q = ap (count q) e

    fresh : count port (keys p.in_use) ≡ 0
    fresh = ground (arith, front port, place_le p port o, count-cons port port rest)

    placed :
        (q : ℕ)
        → count q rest + count q (keys (put port owner p.in_use)) + count q (keys p.quarantine)
          ≡ (if leb p.min_port q && leb q p.max_port then 1 else 0)
    placed q = ground (
      arith,
      o.place q,
      front q,
      place_le p q o,
      count-cons q port rest,
      count-keys-put q port owner p.in_use,
    )

    sized :
        length rest + length (put port owner p.in_use) + length p.quarantine
        ≡ p.max_port + 1 - p.min_port
    sized = omega (arith, o.size, ap length e, length-put port owner p.in_use fresh)

-- Each call keeps the invariant. (The order of the visits is one of the quarantine's entries.)
pub acquire-Owned :
    (now : ℕ) (order : List (ℕ × ℕ)) (owner : Owner) (p : Pool)
    → Permᴰ order p.quarantine
    → Owned p
    → Owned (acquire now order owner p).1
unfolding acquire
acquire-Owned now order owner p r o =
    let q = sweep_quarantine now order p in
    take_port-Owned owner q q.free refl (sweep_quarantine-Owned now order p r o)

give_back-Owned :
    (now port : ℕ) (p : Pool)
    → 1 ≤ count port (keys p.in_use)
    → Owned p
    → Owned (give_back now port p)
unfolding give_back contains
give_back-Owned now port p h o = elim (Bool-cases (ltb 0 p.quarantine_duration)) [
  | inl parked ↦ rw parked (record {
    place = λ q. ground (
      arith,
      o.place q,
      place_le p q o,
      count-keys-delete q port p.in_use,
      count-keys-put q port (now + p.quarantine_duration) p.quarantine,
    );
    size = omega (
      arith,
      o.size,
      place_le p port o,
      length-delete port p.in_use (omega (arith, h, place_le p port o)),
      length-put port (now + p.quarantine_duration) p.quarantine
          (omega (arith, h, place_le p port o)),
    );
  })
  | inr direct ↦ rw direct (record {
    place = λ q. ground (
      arith,
      o.place q,
      place_le p q o,
      count-keys-delete q port p.in_use,
      count-last q port p.free,
      count-one q port,
    );
    size = omega (
      arith,
      o.size,
      length-delete port p.in_use (omega (arith, h, place_le p port o)),
      length-append p.free (port ∷ []),
    );
  })
]

pub release-Owned : (now port : ℕ) (p : Pool) → Owned p → Owned (release now port p)
unfolding release
release-Owned now port p o = elim (Option-cases (lookup port p.in_use)) [
  | inl absent ↦ rw (absent, release) o
  | inr (owner, held) ↦
      rw (held, release) (give_back-Owned now port p (lookup-some port p.in_use owner held) o)
]

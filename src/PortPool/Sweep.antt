-- ===== src/PortPool/Sweep.antt =====
-- What the sweep leaves in quarantine.
use mathlib.Core.List.{Permᴰ}
use diam_gw.Prelude.{
  ℕ, ◌≤◌, ◌≡◌, refl, ap, ◌∙◌, inl, inr, List, [], ◌∷◌, length, Option, none, some, ◌&&◌, ltb, ◌==◌,
  if◌then◌else◌, arith, Bool-cases, Option-cases, not, ==-eq,
}
use diam_gw.PortPool.{Pool, keys, lookup, sweep_entry, sweep_loop, sweep_quarantine}
use diam_gw.Prelude.Counts.{
  count, count-keys-Permᴰ, lookup-delete_same, lookup-delete_other, lookup-some,
}
use diam_gw.PortPool.Owned.{
  Owned, place_le, IsWithin, sweep_entry-IsWithin, sweep_entry-Owned, first_within,
}

-- What is left of an entry once its time has come.
unfoldable pub still : ℕ → Option ℕ → Option ℕ
still now none = none
still now (some until) = if ltb now until then some until else none

-- Two orders of the same entries, whose keys differ, hold the same.
lookup-Permᴰ :
    {A : Type 0} (q : ℕ) {xs ys : List (ℕ × A)}
    → Permᴰ xs ys
    → ((k : ℕ) → count k (keys xs) ≤ 1)
    → lookup q xs ≡ lookup q ys
unfolding lookup keys count
lookup-Permᴰ q Permᴰ.nil h = refl
lookup-Permᴰ q (Permᴰ.cons {a} {b} e p) h =
    ground (arith, ap (λ x. x.0) e, ap (λ x. x.1) e, lookup-Permᴰ q p, h)
lookup-Permᴰ q (Permᴰ.swap {a} {b} e f) h =
    ground (arith, ap (λ x. x.0) e, ap (λ x. x.1) e, ap (λ x. x.0) f, ap (λ x. x.1) f, h q)
lookup-Permᴰ q (Permᴰ.trans p r) h =
    lookup-Permᴰ q p h ∙ lookup-Permᴰ q r (λ k. omega (arith, h k, count-keys-Permᴰ k p))

-- The entries that are still to be visited are as they stand in the quarantine.
abbrev IsSame : List (ℕ × ℕ) → Pool → Type 0
IsSame order p = (q : ℕ) → 1 ≤ count q (keys order) → lookup q order ≡ lookup q p.quarantine

sweep_entry-IsSame :
    (now : ℕ) (p : Pool) (e : ℕ × ℕ) (order : List (ℕ × ℕ))
    → Owned p
    → IsWithin (e ∷ order) p
    → IsSame (e ∷ order) p
    → IsSame order (sweep_entry now p e)
unfolding sweep_entry keys count lookup
sweep_entry-IsSame now p e order o w same q h =
    ground (arith, w q, place_le p q o, same q, lookup-delete_other q e.0 p.quarantine)

sweep_entry-lookup :
    (now q : ℕ) (p : Pool) (e : ℕ × ℕ)
    → lookup q (sweep_entry now p e).quarantine
      ≡ (if q == e.0 && not (ltb now e.1) then none else lookup q p.quarantine)
unfolding sweep_entry
sweep_entry-lookup now q p e =
    ground (arith, lookup-delete_other q e.0 p.quarantine, lookup-delete_same e.0 p.quarantine)

sweep_loop-lookup :
    (now q : ℕ) (p : Pool) (order : List (ℕ × ℕ))
    → Owned p
    → IsWithin order p
    → IsSame order p
    → lookup q (sweep_loop now p order).quarantine ≡ (
        if ltb 0 (count q (keys order))
        then still now (lookup q p.quarantine)
        else lookup q p.quarantine)
unfolding sweep_loop keys count lookup still
sweep_loop-lookup now q p [] o w same = refl
sweep_loop-lookup now q p (e ∷ order) o w same = ground (
  arith,
  sweep_loop-lookup now q (sweep_entry now p e) order
      (sweep_entry-Owned now p e o (first_within p e order w))
      (sweep_entry-IsWithin now p e order o w) (sweep_entry-IsSame now p e order o w same),
  sweep_entry-lookup now q p e,
  same q,
  w q,
  place_le p q o,
)

empty_still : (now q : ℕ) (m : List (ℕ × ℕ)) → length m ≡ 0 → lookup q m ≡ still now (lookup q m)
unfolding lookup still
empty_still now q [] e = refl
empty_still now q (x ∷ m) e = absurd (omega arith)

absent_still :
    (now q : ℕ) (m : List (ℕ × ℕ)) → count q (keys m) ≡ 0 → lookup q m ≡ still now (lookup q m)
unfolding still
absent_still now q m e = elim (Option-cases (lookup q m)) [
  | inl n ↦ rw n
  | inr (a, s) ↦ absurd (omega (arith, lookup-some q m a s))
]

-- A sweep takes out of the quarantine the ports whose time has come, and those alone.
pub lookup-sweep_quarantine :
    (now q : ℕ) (order : List (ℕ × ℕ)) (p : Pool)
    → Permᴰ order p.quarantine
    → Owned p
    → lookup q (sweep_quarantine now order p).quarantine ≡ still now (lookup q p.quarantine)
unfolding sweep_quarantine
lookup-sweep_quarantine now q order p r o = elim (Bool-cases (length p.quarantine == 0)) [
  | inl nothing ↦ rw nothing (empty_still now q p.quarantine (==-eq _ _ nothing))
  | inr entries ↦ rw entries (
      ground (
        arith,
        sweep_loop-lookup now q p order o (λ k. omega (arith, count-keys-Permᴰ k r))
            (λ k _. lookup-Permᴰ k r (λ j. omega (arith, place_le p j o, count-keys-Permᴰ j r))),
        count-keys-Permᴰ q r,
        absent_still now q p.quarantine,
      ))
]

pub in_use-sweep_loop :
    (now : ℕ) (p : Pool) (order : List (ℕ × ℕ))
    → ((sweep_loop now p order).in_use ≡ p.in_use)
      × ((sweep_loop now p order).failures ≡ p.failures)
      × ((sweep_loop now p order).min_port ≡ p.min_port)
      × ((sweep_loop now p order).max_port ≡ p.max_port)
unfolding sweep_loop sweep_entry
in_use-sweep_loop now p [] = (refl, refl, refl, refl)
in_use-sweep_loop now p (e ∷ order) =
    ground (arith, in_use-sweep_loop now (sweep_entry now p e) order)

pub in_use-sweep_quarantine :
    (now : ℕ) (order : List (ℕ × ℕ)) (p : Pool)
    → ((sweep_quarantine now order p).in_use ≡ p.in_use)
      × ((sweep_quarantine now order p).failures ≡ p.failures)
      × ((sweep_quarantine now order p).min_port ≡ p.min_port)
      × ((sweep_quarantine now order p).max_port ≡ p.max_port)
unfolding sweep_quarantine
in_use-sweep_quarantine now order p = ground (arith, in_use-sweep_loop now p order)

-- ===== src/Prelude/Rotations.antt =====
-- Places in a list, and a rotation over them.
use native.Mathlib.Nat.{mod-eq_of_lt, add-mod_right}
use diam_gw.Prelude.{
  ℕ, zero, suc, ◌+◌, ◌-◌, ◌%◌, ◌<◌, ◌≡◌, refl, ap, ◌∙◌, inl, inr, List, [], ◌∷◌, length, ltb, some,
  arith, get_elem?, Bool-cases, ltb→lt,
}

-- Whatever place the rotation starts at, it comes to each other in fewer rounds than there are places.
pub rotation_reaches :
    (start k n : ℕ) → start < n → k < n → (j : ℕ) × (j < n) × ((start + j) % n ≡ k)
rotation_reaches start k n s h = elim (Bool-cases (ltb k start)) [
  | inl below ↦ (
    k + n - start,
    omega (arith, ltb→lt k start below),
    ap (λ x. x % n) (omega (arith, ltb→lt k start below)) ∙ add-mod_right k n ∙ mod-eq_of_lt h,
  )
  | inr above ↦ (k - start, omega arith, ap (λ x. x % n) (ground arith) ∙ mod-eq_of_lt h)
]

pub get_elem?-lt :
    {A : Type 0} (xs : List A) (k : ℕ) (c : A) → get_elem? xs k ≡ some c → k < length xs
get_elem?-lt [] k c h = absurd cc
get_elem?-lt (x ∷ xs) zero c h = omega arith
get_elem?-lt (x ∷ xs) (suc k) c h = omega (arith, get_elem?-lt xs k c h)

pub get_elem?-some {ℓ} :
    {A : Type ℓ} (xs : List A) (k : ℕ) → k < length xs → (a : A) × (get_elem? xs k ≡ some a)
get_elem?-some [] k h = absurd (omega arith)
get_elem?-some (x ∷ xs) zero h = (x, refl)
get_elem?-some (x ∷ xs) (suc k) h = get_elem?-some xs k (omega arith)

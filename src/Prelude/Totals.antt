-- ===== src/Prelude/Totals.antt =====
-- What the elements of a list weigh together.
use Prim.Native.Nat.{ℕ, ◌+◌}
use mathlib.Core.Path.{◌≡◌}
use mathlib.Core.List.{List, [], ◌∷◌, ◌++◌}
use native.Mathlib.Omega.{arith}

module _ {ℓ} {A : Type ℓ} where
  unfoldable pub total : (A → ℕ) → List A → ℕ
  total weight [] = 0
  total weight (t ∷ ts) = weight t + total weight ts

  pub total-append :
      (weight : A → ℕ) (xs ys : List A)
      → total weight (xs ++ ys) ≡ total weight xs + total weight ys
  unfolding total
  total-append weight [] ys = omega arith
  total-append weight (x ∷ xs) ys = omega (arith, total-append weight xs ys)

  pub total-middle :
      (weight : A → ℕ) (before mid after : List A)
      → total weight (before ++ (mid ++ after))
        ≡ total weight before + total weight mid + total weight after
  total-middle weight before mid after =
      omega (arith, total-append weight before (mid ++ after), total-append weight mid after)

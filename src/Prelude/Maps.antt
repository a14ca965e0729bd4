-- ===== src/Prelude/Maps.antt =====
-- Go maps from numbers: looking up, setting and deleting a key.
use Prim.Native.Nat.{ℕ}
use mathlib.Core.List.{List, [], ◌∷◌}
use mathlib.Core.Option.{Option, none, some}
use diam_gw.Prelude.Tests.{◌==◌, if◌then◌else◌}

-- A Go map from numbers, as the list of its entries; a key has one entry at most.
unfoldable pub keys {ℓ} : {A : Type ℓ} → List (ℕ × A) → List ℕ
keys [] = []
keys (e ∷ m) = e.0 ∷ keys m

-- `delete(m, k)`
unfoldable pub delete {ℓ} : {A : Type ℓ} → ℕ → List (ℕ × A) → List (ℕ × A)
delete k [] = []
delete k (e ∷ m) = let rest = delete k m in if k == e.0 then rest else e ∷ rest

-- `m[k] = a`
unfoldable pub put {ℓ} : {A : Type ℓ} → ℕ → A → List (ℕ × A) → List (ℕ × A)
put k a m = (k, a) ∷ delete k m

-- `m[k]`
unfoldable pub lookup {ℓ} : {A : Type ℓ} → ℕ → List (ℕ × A) → Option A
lookup k [] = none
lookup k (e ∷ m) = let rest = lookup k m in if k == e.0 then some e.1 else rest

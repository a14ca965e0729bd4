-- ===== src/Prelude/Counts.antt =====
-- How often a number occurs in a list and among the keys of a map.
use mathlib.Core.List.{Permᴰ}
use diam_gw.Prelude.{
  ℕ, suc, ◌+◌, ◌≤◌, ◌≡◌, ◌≢◌, refl, ap, ◌∙◌, inl, inr, List, [], ◌∷◌, ◌++◌, length, none, some,
  ◌==◌, if◌then◌else◌, arith, Option-cases, Bool-cases,
}
use diam_gw.Prelude.{keys, delete, put, lookup}

unfoldable pub count : ℕ → List ℕ → ℕ
count q [] = 0
count q (x ∷ xs) = let rest = count q xs in if q == x then suc rest else rest

pub count-append : (q : ℕ) (xs ys : List ℕ) → count q (xs ++ ys) ≡ count q xs + count q ys
unfolding count
count-append q [] ys = omega arith
count-append q (x ∷ xs) ys = ground (arith, count-append q xs ys)

pub count-last : (q p : ℕ) (xs : List ℕ) → count q (xs ++ p ∷ []) ≡ count q xs + count q (p ∷ [])
count-last q p xs = count-append q xs (p ∷ [])

pub count-one : (q p : ℕ) → count q (p ∷ []) ≡ (if q == p then 1 else 0)
unfolding count
count-one q p = refl

pub count-cons : (q p : ℕ) (xs : List ℕ) → count q (p ∷ xs) ≡ (if q == p then 1 else 0) + count q xs
unfolding count
count-cons q p xs = ground arith

module _ {ℓ} {A : Type ℓ} where
  pub count-keys-delete_same : (k : ℕ) (m : List (ℕ × A)) → count k (keys (delete k m)) ≡ 0
  unfolding count keys delete
  count-keys-delete_same k [] = refl
  count-keys-delete_same k (e ∷ m) = ground (arith, count-keys-delete_same k m)

  pub count-keys-delete_other :
      (q k : ℕ) (m : List (ℕ × A)) → q ≢ k → count q (keys (delete k m)) ≡ count q (keys m)
  unfolding count keys delete
  count-keys-delete_other q k [] h = refl
  count-keys-delete_other q k (e ∷ m) h = ground (arith, count-keys-delete_other q k m h)

  pub count-keys-delete :
      (q k : ℕ) (m : List (ℕ × A))
      → count q (keys (delete k m)) ≡ (if q == k then 0 else count q (keys m))
  unfolding count keys delete
  count-keys-delete q k [] = ground arith
  count-keys-delete q k (e ∷ m) = ground (arith, count-keys-delete q k m)

  pub count-keys-put :
      (q k : ℕ) (a : A) (m : List (ℕ × A))
      → count q (keys (put k a m)) ≡ (if q == k then 1 else count q (keys m))
  unfolding put keys count
  count-keys-put q k a m = ground (arith, count-keys-delete q k m)

  pub delete_absent : (k : ℕ) (m : List (ℕ × A)) → count k (keys m) ≡ 0 → delete k m ≡ m
  unfolding count keys delete
  delete_absent k [] h = refl
  delete_absent k (e ∷ m) h = ground (arith, delete_absent k m)

  pub length-delete :
      (k : ℕ) (m : List (ℕ × A)) → count k (keys m) ≡ 1 → suc (length (delete k m)) ≡ length m
  unfolding count keys delete
  length-delete k [] h = absurd (omega arith)
  length-delete k (e ∷ m) h = ground (arith, length-delete k m, delete_absent k m)

  pub length-put :
      (k : ℕ) (a : A) (m : List (ℕ × A))
      → count k (keys m) ≡ 0
      → length (put k a m) ≡ suc (length m)
  unfolding put
  length-put k a m h = ap (λ n. suc (length n)) (delete_absent k m h)

  pub lookup-none : (k : ℕ) (m : List (ℕ × A)) → lookup k m ≡ none → count k (keys m) ≡ 0
  unfolding count keys lookup
  lookup-none k [] h = refl
  lookup-none k (e ∷ m) h = ground (arith, lookup-none k m)

  pub lookup-some : (k : ℕ) (m : List (ℕ × A)) (a : A) → lookup k m ≡ some a → 1 ≤ count k (keys m)
  unfolding count keys lookup
  lookup-some k [] a h = absurd cc
  lookup-some k (e ∷ m) a h = ground (arith, lookup-some k m a)

  pub lookup-absent : (k : ℕ) (m : List (ℕ × A)) → count k (keys m) ≡ 0 → lookup k m ≡ none
  lookup-absent k m h = elim (Option-cases (lookup k m)) [
    | inl n ↦ n
    | inr (a, s) ↦ absurd (omega (arith, lookup-some k m a s))
  ]

  pub lookup-delete_other :
      (q k : ℕ) (m : List (ℕ × A)) → q ≢ k → lookup q (delete k m) ≡ lookup q m
  unfolding lookup delete
  lookup-delete_other q k [] h = refl
  lookup-delete_other q k (e ∷ m) h = ground (arith, lookup-delete_other q k m h)

  pub lookup-put :
      (q k : ℕ) (a : A) (m : List (ℕ × A))
      → lookup q (put k a m) ≡ (if q == k then some a else lookup q m)
  unfolding put lookup
  lookup-put q k a m = elim (Bool-cases (q == k)) [
    | inl same ↦ rw (same) refl
    | inr other ↦ rw (other) (lookup-delete_other q k m (λ e. absurd (ground arith)))
  ]

  pub lookup-delete_same : (k : ℕ) (m : List (ℕ × A)) → lookup k (delete k m) ≡ none
  unfolding lookup delete
  lookup-delete_same k [] = refl
  lookup-delete_same k (e ∷ m) = ground (arith, lookup-delete_same k m)

  pub count-keys-Permᴰ :
      (q : ℕ) {xs ys : List (ℕ × A)} → Permᴰ xs ys → count q (keys xs) ≡ count q (keys ys)
  unfolding count keys
  count-keys-Permᴰ q Permᴰ.nil = refl
  count-keys-Permᴰ q (Permᴰ.cons e p) = ground (arith, ap (λ x. x.0) e, count-keys-Permᴰ q p)
  count-keys-Permᴰ q (Permᴰ.swap e f) = ground (arith, ap (λ x. x.0) e, ap (λ x. x.0) f)
  count-keys-Permᴰ q (Permᴰ.trans p r) = count-keys-Permᴰ q p ∙ count-keys-Permᴰ q r

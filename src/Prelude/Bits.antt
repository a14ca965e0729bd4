-- ===== src/Prelude/Bits.antt =====
-- `&` and `|` at variables: masks of a byte or of low bits, and the joining of disjoint fields.
use Prim.Native.Nat.{
  ℕ, zero, suc, ◌+◌, ◌*◌, ◌/◌, ◌%◌, ◌^◌, ◌≤◌, ◌<◌, min, max, bit_and, bit_or, digits,
  bit_and-bitwise, bit_or-bitwise,
}
use mathlib.Core.Path.{◌≡◌, refl, sym, ap, ◌∙◌}
use mathlib.Core.Bool.{Bool, true, ◌&&◌}
use native.Mathlib.Nat.{pow-suc, mul_assoc}
use native.Mathlib.Omega.{arith}
use diam_gw.Prelude.Tests.{◌==◌, ==-eq}

-- Whether a test holds of every number below a bound, which evaluation finds out.
holds_below : (ℕ → Bool) → ℕ → Bool
holds_below test zero = true
holds_below test (suc top) = holds_below test top && test top

holds_below_at :
    (test : ℕ → Bool) (top i : ℕ) → i < top → holds_below test top ≡ true → test i ≡ true
unfolding holds_below
holds_below_at test zero i below h = absurd (omega arith)
holds_below_at test (suc top) i below h = ground (arith, holds_below_at test top i)

-- A byte masked with one of its four high bits.
pub bit_and-80 : (b : ℕ) → b < 256 → bit_and b 0x80 ≡ b / 128 * 128
unfolding holds_below
bit_and-80 b h = ==-eq _ _ (holds_below_at (λ x. bit_and x 0x80 == x / 128 * 128) 256 b h refl)

pub bit_and-40 : (b : ℕ) → b < 256 → bit_and b 0x40 ≡ b / 64 % 2 * 64
unfolding holds_below
bit_and-40 b h = ==-eq _ _ (holds_below_at (λ x. bit_and x 0x40 == x / 64 % 2 * 64) 256 b h refl)

pub bit_and-20 : (b : ℕ) → b < 256 → bit_and b 0x20 ≡ b / 32 % 2 * 32
unfolding holds_below
bit_and-20 b h = ==-eq _ _ (holds_below_at (λ x. bit_and x 0x20 == x / 32 % 2 * 32) 256 b h refl)

pub bit_and-10 : (b : ℕ) → b < 256 → bit_and b 0x10 ≡ b / 16 % 2 * 16
unfolding holds_below
bit_and-10 b h = ==-eq _ _ (holds_below_at (λ x. bit_and x 0x10 == x / 16 % 2 * 16) 256 b h refl)

-- Both operations run through the binary digits of the first number on fuel: more fuel than that
-- number changes nothing, so that one round takes off one digit.
module _ (rest : ℕ → ℕ) (join : ℕ → ℕ → ℕ) where
  more_fuel :
      (x y less more : ℕ)
      → x ≤ less
      → less ≤ more
      → digits rest join more x y ≡ digits rest join less x y
  more_fuel zero y zero zero h k = refl
  more_fuel zero y zero (suc more) h k = refl
  more_fuel zero y (suc less) zero h k = absurd (omega arith)
  more_fuel zero y (suc less) (suc more) h k = refl
  more_fuel (suc x) y zero more h k = absurd (omega arith)
  more_fuel (suc x) y (suc less) zero h k = absurd (omega arith)
  more_fuel (suc x) y (suc less) (suc more) h k =
      rw (more_fuel (suc x / 2) (y / 2) less more (omega arith) (omega arith))

  lowest_digit :
      (x y : ℕ)
      → digits rest join (suc x) (suc x) y
        ≡ join (suc x % 2) (y % 2) + 2 * digits rest join (suc x / 2) (suc x / 2) (y / 2)
  lowest_digit x y =
      omega (arith, more_fuel (suc x / 2) (y / 2) (suc x / 2) x (omega arith) (omega arith))

or_lowest : (x y : ℕ) → bit_or x y ≡ max (x % 2) (y % 2) + 2 * bit_or (x / 2) (y / 2)
or_lowest zero y = omega (arith, bit_or-bitwise 0 y, bit_or-bitwise 0 (y / 2))
or_lowest (suc x) y =
    bit_or-bitwise (suc x) y
    ∙ lowest_digit (λ d. d) max x y
    ∙ ap (λ r. max (suc x % 2) (y % 2) + 2 * r) (sym (bit_or-bitwise (suc x / 2) (y / 2)))

and_lowest : (x y : ℕ) → bit_and x y ≡ min (x % 2) (y % 2) + 2 * bit_and (x / 2) (y / 2)
and_lowest zero y = omega (arith, bit_and-bitwise 0 y, bit_and-bitwise 0 (y / 2))
and_lowest (suc x) y =
    bit_and-bitwise (suc x) y
    ∙ lowest_digit (λ d. zero) min x y
    ∙ ap (λ r. min (suc x % 2) (y % 2) + 2 * r) (sym (bit_and-bitwise (suc x / 2) (y / 2)))

and_nothing : (bound x : ℕ) → x ≤ bound → bit_and x 0 ≡ 0
and_nothing bound zero h = refl
and_nothing zero (suc x) h = absurd (omega arith)
and_nothing (suc bound) (suc x) h =
    omega (arith, and_lowest (suc x) 0, and_nothing bound (suc x / 2) (omega arith))

-- A mask of two ones.
pub bit_and_three : (a : ℕ) → bit_and a 3 ≡ a % 4
bit_and_three a =
    omega (
      arith,
      and_lowest a 3,
      and_lowest (a / 2) 1,
      and_nothing (a / 2 / 2) (a / 2 / 2) (omega arith),
    )

or_nothing : (bound x : ℕ) → x ≤ bound → bit_or x 0 ≡ x
or_nothing bound zero h = refl
or_nothing zero (suc x) h = absurd (omega arith)
or_nothing (suc bound) (suc x) h =
    omega (arith, or_lowest (suc x) 0, or_nothing bound (suc x / 2) (omega arith))

-- `x << k | y` is a sum where `y` has at most `k` bits.
pub bit_or-shift : (k x y : ℕ) → y < 2 ^ k → bit_or (x * 2 ^ k) y ≡ x * 2 ^ k + y
bit_or-shift zero x zero h = omega (arith, or_nothing (x * 2 ^ 0) (x * 2 ^ 0) (omega arith))
bit_or-shift zero x (suc y) h = absurd (omega arith)
bit_or-shift (suc k) x y h =
    rw pow-suc (rw (← mul_assoc) (shifted (x * 2 ^ k) (bit_or-shift k x (y / 2) half)))
  where
    half : y / 2 < 2 ^ k
    half = omega (arith, pow-suc 2 k)

    shifted : (a : ℕ) → bit_or a (y / 2) ≡ a + y / 2 → bit_or (a * 2) y ≡ a * 2 + y
    shifted a e = ground (arith, or_lowest (a * 2) y)

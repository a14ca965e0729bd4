-- ===== src/Prelude/Bytes.antt =====
-- encoding/binary's big-endian words over byte strings, and the 24-bit fields of Diameter headers.
use Prim.Native.Nat.{ℕ, zero, suc, ◌+◌, ◌-◌, ◌*◌, ◌/◌, ◌%◌, ◌^◌, ◌≤◌, ◌<◌, bit_or}
use mathlib.Core.Path.{◌≡◌, refl}
use native.Mathlib.Nat.{zero-add, suc-add}
use mathlib.Core.List.{List, [], ◌∷◌, ◌++◌}
use native.Mathlib.Omega.{arith}
use diam_gw.Prelude.Lists.{length, length-drop, take, drop}
use diam_gw.Prelude.Bits.{bit_or-shift}

abbrev pub IsByte : ℕ → Type 0
IsByte b = b < 256

abbrev pub IsU24 : ℕ → Type 0
IsU24 n = n < 2 ^ 24

abbrev pub IsU32 : ℕ → Type 0
IsU32 n = n < 2 ^ 32

abbrev pub IsU64 : ℕ → Type 0
IsU64 n = n < 2 ^ 64

-- `b[lo:hi]`
unfoldable pub slice : List ℕ → ℕ → ℕ → List ℕ
slice b lo hi = take (hi - lo) (drop lo b)

-- `b[i]`; every read in the code stands behind a test of the length.
abbrev pub byte_at : List ℕ → ℕ → ℕ
byte_at [] i = 0
byte_at (x ∷ xs) zero = x
byte_at (x ∷ xs) (suc i) = byte_at xs i

-- `binary.BigEndian.Uint16(b)`, of the first two bytes.
unfoldable pub uint16 : List ℕ → ℕ
uint16 b = byte_at b 0 * 2 ^ 8 + byte_at b 1

-- `binary.BigEndian.Uint32(b)`, of the first four bytes.
unfoldable pub uint32 : List ℕ → ℕ
uint32 b = byte_at b 0 * 2 ^ 24 + byte_at b 1 * 2 ^ 16 + byte_at b 2 * 2 ^ 8 + byte_at b 3

-- `binary.BigEndian.Uint64(b)`, of the first eight bytes.
unfoldable pub uint64 : List ℕ → ℕ
unfolding uint32
uint64 b = uint32 b * 2 ^ 32 + uint32 (drop 4 b)

-- `binary.BigEndian.PutUint32` into four fresh bytes.
unfoldable pub put_uint32 : ℕ → List ℕ
put_uint32 n = (n / 2 ^ 24 % 256) ∷ (n / 2 ^ 16 % 256) ∷ (n / 2 ^ 8 % 256) ∷ (n % 256) ∷ []

-- `binary.BigEndian.PutUint64` into eight fresh bytes.
unfoldable pub put_uint64 : ℕ → List ℕ
unfolding put_uint32
put_uint64 n = put_uint32 (n / 2 ^ 32) ++ put_uint32 (n % 2 ^ 32)

-- `byte(n >> 16), byte(n >> 8), byte(n)`
unfoldable pub put_uint24 : ℕ → List ℕ
put_uint24 n = (n / 2 ^ 16 % 256) ∷ (n / 2 ^ 8 % 256) ∷ (n % 256) ∷ []

-- `uint32(x)<<16 | uint32(y)<<8 | uint32(z)`
unfoldable pub or_uint24 : ℕ → ℕ → ℕ → ℕ
or_uint24 x y z = bit_or (bit_or (x * 2 ^ 16) (y * 2 ^ 8)) z

pub or_uint24-sum : (x y z : ℕ) → IsByte y → IsByte z → or_uint24 x y z ≡ x * 2 ^ 16 + y * 2 ^ 8 + z
unfolding or_uint24
or_uint24-sum x y z hy hz =
    ground (arith, bit_or-shift 16 x (y * 2 ^ 8) (omega arith), bit_or-shift 8 (x * 2 ^ 8 + y) z hz)

pub uint32-put_uint32 : (n : ℕ) (rest : List ℕ) → IsU32 n → uint32 (put_uint32 n ++ rest) ≡ n
unfolding uint32 put_uint32
uint32-put_uint32 n rest h = omega arith

pub uint64-put_uint64 : (n : ℕ) (rest : List ℕ) → IsU64 n → uint64 (put_uint64 n ++ rest) ≡ n
unfolding uint64 put_uint64
uint64-put_uint64 n rest h = omega arith

pub byte_at-append : (xs ys : List ℕ) (i : ℕ) → byte_at (xs ++ ys) (length xs + i) ≡ byte_at ys i
byte_at-append [] ys i = rw zero-add
byte_at-append (x ∷ xs) ys i = rw suc-add (byte_at-append xs ys i)

pub drop-append_add : (xs ys : List ℕ) (i : ℕ) → drop (length xs + i) (xs ++ ys) ≡ drop i ys
drop-append_add [] ys i = rw zero-add
drop-append_add (x ∷ xs) ys i = rw suc-add (drop-append_add xs ys i)

pub slice-append :
    (xs ys : List ℕ) (i j : ℕ) → slice (xs ++ ys) (length xs + i) (length xs + j) ≡ slice ys i j
unfolding slice
slice-append xs ys i j =
    let width : length xs + j - (length xs + i) ≡ j - i = omega arith in
    rw width (rw (drop-append_add xs ys i))

-- What lies in the front of a list does not depend on what follows it.
pub byte_at-append_left :
    (xs ys : List ℕ) (i : ℕ) → i < length xs → byte_at (xs ++ ys) i ≡ byte_at xs i
byte_at-append_left [] ys i h = absurd (omega arith)
byte_at-append_left (x ∷ xs) ys zero h = refl
byte_at-append_left (x ∷ xs) ys (suc i) h = byte_at-append_left xs ys i (omega arith)

take-append_left : (n : ℕ) (xs ys : List ℕ) → n ≤ length xs → take n (xs ++ ys) ≡ take n xs
take-append_left zero xs ys h = refl
take-append_left (suc n) [] ys h = absurd (omega arith)
take-append_left (suc n) (x ∷ xs) ys h = rw (take-append_left n xs ys (omega arith))

drop-append_left : (n : ℕ) (xs ys : List ℕ) → n ≤ length xs → drop n (xs ++ ys) ≡ drop n xs ++ ys
drop-append_left zero xs ys h = refl
drop-append_left (suc n) [] ys h = absurd (omega arith)
drop-append_left (suc n) (x ∷ xs) ys h = drop-append_left n xs ys (omega arith)

pub slice-append_left :
    (xs ys : List ℕ) (i j : ℕ) → i ≤ j → j ≤ length xs → slice (xs ++ ys) i j ≡ slice xs i j
unfolding slice
slice-append_left xs ys i j h k =
    rw (drop-append_left i xs ys (omega arith))
      (take-append_left (j - i) (drop i xs) ys (omega (arith, length-drop i xs)))

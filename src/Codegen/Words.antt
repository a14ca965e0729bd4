-- ===== src/Codegen/Words.antt =====
-- Laws of the text functions on words: texts without blanks and the characters that the files use.
use diam_gw.Prelude.{
  ℕ, zero, suc, ◌+◌, ◌-◌, ◌*◌, ◌/◌, ◌%◌, ◌^◌, ◌<◌, ◌≡◌, refl, ap, ◌∙◌, [], ◌∷◌, ◌++◌, length, drop,
  Bool, true, false, not, ◌&&◌, ◌||◌, ◌==◌, ltb, leb, if◌then◌else◌, Option, none, some, arith,
  str_eq, Bool-cases, inl, inr, str_eq_refl, length-append, take-append, drop-append, lt→ltb,
}
use diam_gw.Codegen.Strings.{
  Text, codes, is_space, trim_left, trim_right, trim_space, has_suffix, trim_suffix, fields,
  cons_first, contains_char, is_digit, digits_from, parse_digits, parse_uint, cut, index,
  has_prefix, without_comment,
}

-- An ASCII character, neither a blank nor one of `= { } / ;`.
unfoldable pub is_plain : ℕ → Bool
unfolding is_space
is_plain c =
    ltb c 128 && not (is_space c || c == b'=' || c == b'{' || c == b'}' || c == b'/' || c == b';')

unfoldable pub all_plain : Text → Bool
unfolding is_plain
all_plain [] = true
all_plain (c ∷ s) = is_plain c && all_plain s

-- A word is not empty.
unfoldable pub is_word : Text → Bool
unfolding all_plain
is_word [] = false
is_word (c ∷ s) = all_plain (c ∷ s)

pub trim_right-last :
    (blank : ℕ → Bool) (xs : Text) (c : ℕ)
    → blank c ≡ false
    → trim_right blank (xs ++ c ∷ []) ≡ xs ++ c ∷ []
unfolding trim_right
trim_right-last blank [] c h = rw h refl
trim_right-last blank (x ∷ []) c h = rw h refl
trim_right-last blank (x ∷ y ∷ xs) c h = rw (trim_right-last blank (y ∷ xs) c h) refl

-- A line between two characters that are no blanks.
pub trim_space-line :
    (x : ℕ) (xs : Text) (c : ℕ)
    → is_space x ≡ false
    → is_space c ≡ false
    → trim_space (x ∷ (xs ++ c ∷ [])) ≡ x ∷ (xs ++ c ∷ [])
unfolding trim_space trim_left
trim_space-line x xs c hx hc = rw hx (trim_right-last is_space (x ∷ xs) c hc)

plain-space : (c : ℕ) → is_plain c ≡ true → is_space c ≡ false
unfolding is_plain
plain-space c h = ground arith

trim_right-plain : (w : Text) → all_plain w ≡ true → trim_right is_space w ≡ w
unfolding trim_right all_plain
trim_right-plain [] h = refl
trim_right-plain (c ∷ []) h = ground (arith, plain-space c)
trim_right-plain (c ∷ d ∷ w) h = rw (trim_right-plain (d ∷ w) (ground arith)) refl

pub trim_space-word : (w : Text) → is_word w ≡ true → trim_space w ≡ w
unfolding trim_space trim_left is_word all_plain
trim_space-word [] h = absurd cc
trim_space-word (c ∷ w) h =
    rw (plain-space c (ground arith)) (trim_right-plain (c ∷ w) (ground arith))

-- A value behind the equals sign and a blank.
pub trim_space-value : (w : Text) → is_word w ≡ true → trim_space (32 ∷ w) ≡ w
unfolding trim_space trim_left is_space
trim_space-value w h = trim_space-word w h

pub trim_suffix-append : (e s : Text) → trim_suffix e (s ++ e) ≡ s
unfolding trim_suffix has_suffix
trim_suffix-append e s =
    let size : length (s ++ e) - length e ≡ length s = omega (arith, length-append s e) in
    let fits : leb (length e) (length (s ++ e)) ≡ true = ground (arith, length-append s e) in
    rw (size, fits, drop-append s e, str_eq_refl e) (take-append s e)

has_suffix-plain :
    (x : ℕ) (w : Text)
    → is_plain x ≡ false
    → all_plain w ≡ true
    → str_eq (drop (length w - 1) w) (x ∷ []) ≡ false
unfolding all_plain str_eq
has_suffix-plain x [] h a = refl
has_suffix-plain x (c ∷ []) h a = ground arith
has_suffix-plain x (c ∷ d ∷ w) h a =
    let step : suc (suc (length w)) - 1 ≡ suc (length (d ∷ w) - 1) = omega arith in
    rw step (has_suffix-plain x (d ∷ w) h (ground arith))

pub trim_suffix-word :
    (x : ℕ) (w : Text) → is_plain x ≡ false → is_word w ≡ true → trim_suffix (x ∷ []) w ≡ w
unfolding trim_suffix has_suffix is_word
trim_suffix-word x [] h a = absurd cc
trim_suffix-word x (c ∷ w) h a = rw (has_suffix-plain x (c ∷ w) h a) (ground arith)

pub contains_char-append :
    (x : ℕ) (s t : Text) → contains_char x (s ++ t) ≡ (contains_char x s || contains_char x t)
unfolding contains_char
contains_char-append x [] t = refl
contains_char-append x (c ∷ s) t = ground (arith, contains_char-append x s t)

pub contains_char-plain :
    (x : ℕ) (w : Text) → is_plain x ≡ false → all_plain w ≡ true → contains_char x w ≡ false
unfolding contains_char all_plain
contains_char-plain x [] h a = refl
contains_char-plain x (c ∷ w) h a = ground (arith, contains_char-plain x w h)

pub word-all_plain : (w : Text) → is_word w ≡ true → all_plain w ≡ true
unfolding is_word
word-all_plain [] h = absurd cc
word-all_plain (c ∷ w) h = h

fields-cons :
    (c d : ℕ) (s : Text)
    → is_plain c ≡ true
    → is_plain d ≡ true
    → fields (c ∷ d ∷ s) ≡ cons_first c (fields (d ∷ s))
unfolding fields
fields-cons c d s hc hd = rw (plain-space c hc, plain-space d hd) refl

fields-blank : (c : ℕ) (s : Text) → is_plain c ≡ true → fields (c ∷ 32 ∷ s) ≡ (c ∷ []) ∷ fields s
unfolding fields is_space
fields-blank c s h = rw (plain-space c h) refl

fields-one : (c : ℕ) → is_plain c ≡ true → fields (c ∷ []) ≡ (c ∷ []) ∷ []
unfolding fields
fields-one c h = rw (plain-space c h) refl

-- A word and a blank.
pub fields-word : (w s : Text) → is_word w ≡ true → fields (w ++ 32 ∷ s) ≡ w ∷ fields s
unfolding is_word all_plain
fields-word [] s h = absurd cc
fields-word (c ∷ []) s h = fields-blank c s (ground arith)
fields-word (c ∷ d ∷ w) s h =
    rw
      (
        fields-cons c d (w ++ 32 ∷ s) (ground arith) (ground arith),
        fields-word (d ∷ w) s (ground arith),
      )
      refl

pub fields-last_word : (w : Text) → is_word w ≡ true → fields w ≡ w ∷ []
unfolding is_word all_plain
fields-last_word [] h = absurd cc
fields-last_word (c ∷ []) h = fields-one c (ground arith)
fields-last_word (c ∷ d ∷ w) h =
    rw (fields-cons c d w (ground arith) (ground arith), fields-last_word (d ∷ w) (ground arith))
      refl

-- The decimal digits of a number; a number has fewer digits than its successor.
unfoldable pub digits : ℕ → ℕ → Text
digits zero n = []
digits (suc fuel) n =
    let rest = digits fuel (n / 10) in
    if ltb n 10 then (48 + n) ∷ [] else rest ++ (48 + n % 10) ∷ []

unfoldable pub print_number : ℕ → Text
unfolding digits
print_number n = digits (suc n) n

digits_from-last :
    (m n : ℕ) (s : Text) (d : ℕ)
    → digits_from m s ≡ some n
    → d < 10
    → digits_from m (s ++ (48 + d) ∷ []) ≡ some (n * 10 + d)
unfolding digits_from is_digit
digits_from-last m n [] d h small = ground arith
digits_from-last m n (c ∷ s) d h small = ground (arith, digits_from-last (m * 10 + (c - 48)) n s d)

some_digits : (n : ℕ) (o : Option ℕ) → o ≡ some (n / 10 * 10 + n % 10) → o ≡ some n
some_digits n o h = h ∙ ap some (omega arith)

digits_from-digits : (fuel n : ℕ) → n < fuel → digits_from 0 (digits fuel n) ≡ some n
unfolding digits digits_from is_digit
digits_from-digits zero n h = absurd (omega arith)
digits_from-digits (suc fuel) n h = elim (Bool-cases (ltb n 10)) [
  | inl small ↦ rw small (ground arith)
  | inr large ↦ rw large (
      some_digits n _ (
        digits_from-last 0 (n / 10) (digits fuel (n / 10)) (n % 10)
          (digits_from-digits fuel (n / 10) (ground arith)) (omega arith)))
]

all_plain-append :
    (s t : Text) → all_plain s ≡ true → all_plain t ≡ true → all_plain (s ++ t) ≡ true
unfolding all_plain
all_plain-append [] t h k = k
all_plain-append (c ∷ s) t h k = ground (arith, all_plain-append s t)

digit-plain : (d : ℕ) → d < 10 → is_plain (48 + d) ≡ true
unfolding is_plain is_space
digit-plain d h = ground arith

digits-all_plain : (fuel n : ℕ) → all_plain (digits fuel n) ≡ true
unfolding digits all_plain is_plain is_space
digits-all_plain zero n = refl
digits-all_plain (suc fuel) n = elim (Bool-cases (ltb n 10)) [
  | inl small ↦ rw small (ground (arith, digit-plain n))
  | inr large ↦ rw large (
      all_plain-append (digits fuel (n / 10)) ((48 + n % 10) ∷ []) (digits-all_plain fuel (n / 10))
        (ground (arith, digit-plain (n % 10))))
]

is_word-last : (s : Text) (c : ℕ) → all_plain (s ++ c ∷ []) ≡ true → is_word (s ++ c ∷ []) ≡ true
unfolding is_word
is_word-last [] c h = h
is_word-last (d ∷ s) c h = h

digits-is_word : (fuel n : ℕ) → is_word (digits (suc fuel) n) ≡ true
unfolding digits is_word all_plain
digits-is_word fuel n = elim (Bool-cases (ltb n 10)) [
  | inl small ↦ rw small (ground (arith, digit-plain n))
  | inr large ↦ rw large (
      is_word-last (digits fuel (n / 10)) (48 + n % 10) (
        all_plain-append (digits fuel (n / 10)) ((48 + n % 10) ∷ [])
          (digits-all_plain fuel (n / 10)) (ground (arith, digit-plain (n % 10)))))
]

pub print_number-is_word : (n : ℕ) → is_word (print_number n) ≡ true
unfolding print_number
print_number-is_word n = digits-is_word n n

parse_digits-word : (w : Text) → is_word w ≡ true → parse_digits w ≡ digits_from 0 w
unfolding parse_digits is_word
parse_digits-word [] h = absurd cc
parse_digits-word (c ∷ w) h = refl

digits_from-print : (n : ℕ) → digits_from 0 (print_number n) ≡ some n
unfolding print_number
digits_from-print n = digits_from-digits (suc n) n (omega arith)

-- A number that fits is read back from its digits.
pub parse_uint-print_number :
    (bits n : ℕ) → n < 2 ^ bits → parse_uint bits (print_number n) ≡ some n
unfolding parse_uint
parse_uint-print_number bits n h =
    rw
      (
        parse_digits-word (print_number n) (print_number-is_word n),
        digits_from-print n,
        lt→ltb n (2 ^ bits) h,
      )
      refl

plain-equals : (c : ℕ) → is_plain c ≡ true → (c == b'=') ≡ false
unfolding is_plain is_space
plain-equals c h = ground arith

-- Cutting at the equals sign behind a word.
pub cut-word :
    (w s : Text) → all_plain w ≡ true → cut b'=' (w ++ 32 ∷ b'=' ∷ s) ≡ some (w ++ 32 ∷ [], s)
unfolding cut all_plain
cut-word [] s h = refl
cut-word (c ∷ w) s h = rw (plain-equals c (ground arith), cut-word w s (ground arith)) refl

trim_right-blank : (w : Text) → all_plain w ≡ true → trim_right is_space (w ++ 32 ∷ []) ≡ w
unfolding trim_right all_plain is_space
trim_right-blank [] h = refl
trim_right-blank (c ∷ []) h = rw (plain-space c (ground arith)) refl
trim_right-blank (c ∷ d ∷ w) h = rw (trim_right-blank (d ∷ w) (ground arith)) refl

pub trim_space-key : (w : Text) → is_word w ≡ true → trim_space (w ++ 32 ∷ []) ≡ w
unfolding trim_space trim_left is_word all_plain
trim_space-key [] h = absurd cc
trim_space-key (c ∷ w) h =
    rw (plain-space c (ground arith)) (trim_right-blank (c ∷ w) (ground arith))

-- A text without a slash has no comment.
index-comment : (s : Text) → contains_char b'/' s ≡ false → index (codes "//") s ≡ none
unfolding index has_prefix contains_char
index-comment [] h = refl
index-comment (c ∷ s) h = ground (arith, index-comment s)

pub without_comment_lem : (s : Text) → contains_char b'/' s ≡ false → without_comment s ≡ s
unfolding without_comment
without_comment_lem s h = rw (without_comment, index-comment s h) refl

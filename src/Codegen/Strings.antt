-- ===== src/Codegen/Strings.antt =====
-- What codegen/parser.go uses of Go's packages strings and strconv, on texts of ASCII characters.
use Prim.Native.Char.{code}
use Prim.Native.String.{String}
use diam_gw.Prelude.{
  ℕ, ◌+◌, ◌-◌, ◌*◌, ◌^◌, List, [], ◌∷◌, ◌++◌, length, take, drop, Bool, true, false, ◌&&◌, ◌||◌,
  ◌==◌, ltb, leb, if◌then◌else◌, Option, none, some, str_eq,
}
use diam_gw.Prelude.Int.{ℤ, pos, negsuc}

abbrev pub Text : Type 0
Text = List ℕ

-- The characters of a literal.
abbrev pub codes : String → Text
codes String.[] = []
codes (String.◌∷◌ c s) = code c ∷ codes s

unfoldable pub is_space : ℕ → Bool
is_space c = c == 32 || leb 9 c && leb c 13

-- Of the cut set `"';`
unfoldable pub is_quote : ℕ → Bool
is_quote c = c == 34 || c == 39 || c == 59

unfoldable pub trim_left : (ℕ → Bool) → Text → Text
trim_left blank [] = []
trim_left blank (c ∷ s) = let rest = trim_left blank s in if blank c then rest else c ∷ s

abbrev pub cons_unless : (ℕ → Bool) → ℕ → Text → Text
cons_unless blank c [] = if blank c then [] else c ∷ []
cons_unless blank c (d ∷ s) = c ∷ d ∷ s

unfoldable pub trim_right : (ℕ → Bool) → Text → Text
trim_right blank [] = []
trim_right blank (c ∷ s) = cons_unless blank c (trim_right blank s)

unfoldable pub trim_space : Text → Text
unfolding trim_left trim_right is_space
trim_space s = trim_right is_space (trim_left is_space s)

-- `strings.Trim(s, "\"';")`
unfoldable pub trim_quotes : Text → Text
unfolding trim_left trim_right is_quote
trim_quotes s = trim_right is_quote (trim_left is_quote s)

unfoldable pub has_prefix : Text → Text → Bool
has_prefix [] s = true
has_prefix (x ∷ p) [] = false
has_prefix (x ∷ p) (y ∷ s) = x == y && has_prefix p s

unfoldable pub has_suffix : Text → Text → Bool
unfolding str_eq
has_suffix e s = leb (length e) (length s) && str_eq (drop (length s - length e) s) e

unfoldable pub trim_suffix : Text → Text → Text
unfolding has_suffix
trim_suffix e s = if has_suffix e s then take (length s - length e) s else s

unfoldable pub trim_prefix : Text → Text → Text
unfolding has_prefix
trim_prefix p s = if has_prefix p s then drop (length p) s else s

abbrev pub succ_index : Option ℕ → Option ℕ
succ_index none = none
succ_index (some i) = some (i + 1)

-- The first place of a text in another.
unfoldable pub index : Text → Text → Option ℕ
unfolding has_prefix
index e [] = if has_prefix e [] then some 0 else none
index e (c ∷ s) = let rest = index e s in if has_prefix e (c ∷ s) then some 0 else succ_index rest

-- What stands before the place where a comment begins, trimmed.
unfoldable pub without_comment : Text → Text
unfolding index trim_space
without_comment s = elim (index (codes "//") s) [ none ↦ s | some i ↦ trim_space (take i s) ]

abbrev pub cons_first : ℕ → List Text → List Text
cons_first c [] = (c ∷ []) ∷ []
cons_first c (w ∷ ws) = (c ∷ w) ∷ ws

-- `strings.Split(s, sep)`, for one character.
unfoldable pub split : ℕ → Text → List Text
split sep [] = [] ∷ []
split sep (c ∷ s) = let rest = split sep s in if c == sep then [] ∷ rest else cons_first c rest

abbrev pub before_cut : ℕ → Option (Text × Text) → Option (Text × Text)
before_cut c none = none
before_cut c (some (a, b)) = some (c ∷ a, b)

-- `strings.SplitN(s, sep, 2)`, for one character: the two parts, or none where there is one only.
unfoldable pub cut : ℕ → Text → Option (Text × Text)
cut sep [] = none
cut sep (c ∷ s) = let rest = cut sep s in if c == sep then some ([], s) else before_cut c rest

abbrev pub starts_blank : Text → Bool
starts_blank [] = true
starts_blank (c ∷ s) = is_space c

unfoldable pub fields : Text → List Text
unfolding is_space
fields [] = []
fields (c ∷ s) =
    let rest = fields s in
    if is_space c then rest else if starts_blank s then (c ∷ []) ∷ rest else cons_first c rest

unfoldable pub contains_char : ℕ → Text → Bool
contains_char x [] = false
contains_char x (c ∷ s) = c == x || contains_char x s

unfoldable pub to_upper : ℕ → ℕ
to_upper c = if leb 97 c && leb c 122 then c - 32 else c

unfoldable pub is_digit : ℕ → Bool
is_digit c = leb 48 c && leb c 57

-- The number that decimal digits write, behind those read before.
unfoldable pub digits_from : ℕ → Text → Option ℕ
unfolding is_digit
digits_from n [] = some n
digits_from n (c ∷ s) =
    let rest = digits_from (n * 10 + (c - 48)) s in if is_digit c then rest else none

abbrev pub below : ℕ → Option ℕ → Option ℕ
below m none = none
below m (some n) = if ltb n m then some n else none

unfoldable pub parse_digits : Text → Option ℕ
unfolding digits_from
parse_digits [] = none
parse_digits (c ∷ s) = digits_from 0 (c ∷ s)

-- `strconv.ParseUint(s, 10, bits)`, none for an error.
unfoldable pub parse_uint : ℕ → Text → Option ℕ
unfolding parse_digits
parse_uint bits s = below (2 ^ bits) (parse_digits s)

abbrev pub minus : ℕ → ℤ
minus n = if n == 0 then pos 0 else negsuc (n - 1)

abbrev pub signed : (ℕ → ℤ) → Option ℕ → Option ℤ
signed f none = none
signed f (some n) = some (f n)

-- `strconv.Atoi(s)`, none for an error.
unfoldable pub atoi : Text → Option ℤ
unfolding parse_digits
atoi [] = none
atoi (c ∷ s) =
    if c == 45
    then signed minus (below (2 ^ 63 + 1) (parse_digits s))
    else signed pos (below (2 ^ 63) (parse_digits (if c == 43 then s else c ∷ s)))

unfoldable pub join : List Text → Text
join [] = []
join (w ∷ ws) = w ++ join ws

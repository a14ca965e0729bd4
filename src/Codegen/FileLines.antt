-- ===== src/Codegen/FileLines.antt =====
-- The lines of a file of constants and AVPs, as ParseFile reads them.
use diam_gw.Prelude.{ℕ, ◌+◌, ◌≡◌, ◌∙◌, refl, List, [], ◌∷◌, ◌++◌, true, false, str_eq, arith}
use diam_gw.Codegen.Strings.{Text, codes, is_space, trim_space, has_prefix}
use diam_gw.Codegen.Defs.{AvpDefinition, ProtoParser, ok}
use diam_gw.Codegen.Words.{
  is_word, is_plain, all_plain, word-all_plain, print_number, print_number-is_word, trim_space-line,
}
use diam_gw.Codegen.Blocks.{store_avp}
use diam_gw.Codegen.Files.{
  no_block, avp_block, count_char, count_lines, is_balanced, next_block, parse_block, end_round,
  file_round, parse_lines,
}
use diam_gw.Codegen.Printing.{print_line, print_bool, print_header, print_avp, IsPrintable}
use diam_gw.Codegen.AvpLines.{trim_space-header, parse_avp-print_avp, print_bool-is_word}

count_char-append : (x : ℕ) (s t : Text) → count_char x (s ++ t) ≡ count_char x s + count_char x t
unfolding count_char
count_char-append x [] t = omega arith
count_char-append x (c ∷ s) t = omega (arith, count_char-append x s t)

count_char-plain : (x : ℕ) (w : Text) → is_plain x ≡ false → all_plain w ≡ true → count_char x w ≡ 0
unfolding count_char all_plain
count_char-plain x [] h a = refl
count_char-plain x (c ∷ w) h a = ground (arith, count_char-plain x w h)

count_lines-append :
    (x : ℕ) (ls : List Text) (l : Text)
    → count_lines x (ls ++ l ∷ []) ≡ count_lines x ls + count_char x l
unfolding count_lines
count_lines-append x [] l = omega arith
count_lines-append x (m ∷ ls) l = omega (arith, count_lines-append x ls l)

-- A line that begins nothing, and is not left out.
abbrev IsInner : Text → Type 0
IsInner l =
    (str_eq l [] ≡ false)
    × (has_prefix (codes "//") l ≡ false)
    × (has_prefix (codes "syntax") l ≡ false)
    × (has_prefix (codes "package ") l ≡ false)
    × (has_prefix (codes "option go_package") l ≡ false)
    × (has_prefix (codes "const ") l ≡ false)
    × (has_prefix (codes "avp ") l ≡ false)
    × (has_prefix (codes "command ") l ≡ false)
    × (has_prefix (codes "enum ") l ≡ false)

-- A block that one brace has opened.
abbrev IsOpen : List Text → Type 0
IsOpen ls = (count_lines b'{' ls ≡ 1) × (count_lines b'}' ls ≡ 0)

abbrev HasNoBraces : Text → Type 0
HasNoBraces l = (count_char b'{' l ≡ 0) × (count_char b'}' l ≡ 0)

IsOpen-append : (ls : List Text) (l : Text) → IsOpen ls → HasNoBraces l → IsOpen (ls ++ l ∷ [])
IsOpen-append ls l o n =
    omega (arith, o, n, count_lines-append b'{' ls l, count_lines-append b'}' ls l)

file_round-inner :
    (ls : List Text) (l : Text) (p : ProtoParser)
    → IsInner l
    → file_round avp_block ls l p ≡ end_round avp_block (ls ++ l ∷ []) p
unfolding file_round next_block
file_round-inner ls l p (e, c, s, k, o, t, a, m, n) = rw (e, c, s, k, o, t, a, m, n) refl

end_round-open :
    (ls : List Text) (p : ProtoParser)
    → IsOpen ls
    → end_round avp_block ls p ≡ ok (avp_block, ls, p)
unfolding end_round is_balanced
end_round-open ls p (opens, closes) = rw (opens, closes) refl

-- A line of a property, in a block that is open.
parse_lines-inner :
    (x : ℕ) (line : Text) (ls rest : List Text) (p : ProtoParser)
    → is_space x ≡ false
    → IsInner (x ∷ (line ++ codes ";"))
    → HasNoBraces (x ∷ (line ++ codes ";"))
    → IsOpen ls
    → parse_lines avp_block ls ((x ∷ (line ++ codes ";")) ∷ rest) p
      ≡ parse_lines avp_block (ls ++ (x ∷ (line ++ codes ";")) ∷ []) rest p
unfolding parse_lines is_space
parse_lines-inner x line ls rest p s i n o =
    rw
      (
        trim_space-line x line b';' s refl,
        file_round-inner ls (x ∷ (line ++ codes ";")) p i,
        end_round-open (ls ++ (x ∷ (line ++ codes ";")) ∷ []) p
            (IsOpen-append ls (x ∷ (line ++ codes ";")) o n),
      )
      refl

-- Neither a key nor a value has braces.
HasNoBraces-line :
    (key value : Text) → HasNoBraces key → is_word value ≡ true → HasNoBraces (print_line key value)
unfolding count_char is_plain is_space
HasNoBraces-line key value n w = omega (
  arith,
  n,
  count_char-append b'{' (key ++ value) (codes ";"),
  count_char-append b'{' key value,
  count_char-append b'}' (key ++ value) (codes ";"),
  count_char-append b'}' key value,
  count_char-plain b'{' value refl (word-all_plain value w),
  count_char-plain b'}' value refl (word-all_plain value w),
)

IsOpen-header : (name : Text) → is_word name ≡ true → IsOpen (print_header name ∷ [])
unfolding count_lines count_char is_plain is_space
IsOpen-header name w = omega (
  arith,
  count_char-append b'{' name (codes " {"),
  count_char-append b'}' name (codes " {"),
  count_char-plain b'{' name refl (word-all_plain name w),
  count_char-plain b'}' name refl (word-all_plain name w),
)

-- The first line.
parse_lines-header :
    (name : Text) (rest : List Text) (p : ProtoParser)
    → is_word name ≡ true
    → parse_lines no_block [] (print_header name ∷ rest) p
      ≡ parse_lines avp_block (print_header name ∷ []) rest p
unfolding parse_lines file_round next_block has_prefix str_eq
parse_lines-header name rest p w =
    rw (trim_space-header name, end_round-open (print_header name ∷ []) p (IsOpen-header name w))
      refl

is_balanced-closing : (ls : List Text) → IsOpen ls → is_balanced (ls ++ codes "}" ∷ []) ≡ true
unfolding is_balanced count_char
is_balanced-closing ls o =
    ground
      (arith, o, count_lines-append b'{' ls (codes "}"), count_lines-append b'}' ls (codes "}"))

-- The last line.
parse_lines-closing :
    (ls rest : List Text) (p p' : ProtoParser)
    → IsOpen ls
    → parse_block avp_block (ls ++ codes "}" ∷ []) p ≡ ok p'
    → parse_lines avp_block ls (codes "}" ∷ rest) p ≡ parse_lines no_block [] rest p'
unfolding parse_lines file_round next_block end_round has_prefix str_eq trim_space is_space
parse_lines-closing ls rest p p' o e = rw (is_balanced-closing ls o, e) refl

-- A block of an AVP, with what follows it.
pub parse_lines-print_avp :
    (a : AvpDefinition) (rest : List Text) (p : ProtoParser)
    → IsPrintable a
    → parse_lines no_block [] (print_avp a ++ rest) p ≡ parse_lines no_block [] rest (store_avp a p)
unfolding print_avp count_char str_eq has_prefix is_space parse_block
parse_lines-print_avp a rest p h =
    let header = print_header a.name in
    let code = print_line (codes "code = ") (print_number a.code) in
    let type = print_line (codes "type = ") a.type_name in
    let must = print_line (codes "must = ") (print_bool a.must) in
    let encrypt = print_line (codes "may_encrypt = ") (print_bool a.may_encrypt) in
    let vendor = print_line (codes "vendor_id = ") (print_number a.vendor_id) in
    let inner : IsInner code = (refl, refl, refl, refl, refl, refl, refl, refl, refl) in
    let n0 =
      HasNoBraces-line (codes "code = ") (print_number a.code) (refl, refl)
        (print_number-is_word a.code) in
    let n1 = HasNoBraces-line (codes "type = ") a.type_name (refl, refl) h.type_is_word in
    let n2 =
      HasNoBraces-line (codes "must = ") (print_bool a.must) (refl, refl)
        (print_bool-is_word a.must) in
    let n3 =
      HasNoBraces-line (codes "may_encrypt = ") (print_bool a.may_encrypt) (refl, refl)
        (print_bool-is_word a.may_encrypt) in
    let n4 =
      HasNoBraces-line (codes "vendor_id = ") (print_number a.vendor_id) (refl, refl)
        (print_number-is_word a.vendor_id) in
    let o0 = IsOpen-header a.name h.name_is_word in
    let o1 = IsOpen-append (header ∷ []) code o0 n0 in
    let o2 = IsOpen-append (header ∷ code ∷ []) type o1 n1 in
    let o3 = IsOpen-append (header ∷ code ∷ type ∷ []) must o2 n2 in
    let o4 = IsOpen-append (header ∷ code ∷ type ∷ must ∷ []) encrypt o3 n3 in
    let o5 = IsOpen-append (header ∷ code ∷ type ∷ must ∷ encrypt ∷ []) vendor o4 n4 in
    parse_lines-header a.name _ p h.name_is_word
    ∙ parse_lines-inner b'c' (codes "ode = " ++ print_number a.code) _ _ p refl inner n0 o0
    ∙ parse_lines-inner b't' (codes "ype = " ++ a.type_name) _ _ p refl
        (refl, refl, refl, refl, refl, refl, refl, refl, refl) n1 o1
    ∙ parse_lines-inner b'm' (codes "ust = " ++ print_bool a.must) _ _ p refl
        (refl, refl, refl, refl, refl, refl, refl, refl, refl) n2 o2
    ∙ parse_lines-inner b'm' (codes "ay_encrypt = " ++ print_bool a.may_encrypt) _ _ p refl
        (refl, refl, refl, refl, refl, refl, refl, refl, refl) n3 o3
    ∙ parse_lines-inner b'v' (codes "endor_id = " ++ print_number a.vendor_id) _ _ p refl
        (refl, refl, refl, refl, refl, refl, refl, refl, refl) n4 o4
    ∙ parse_lines-closing _ rest p (store_avp a p) o5 (parse_avp-print_avp a p h)

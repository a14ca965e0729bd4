-- ===== src/Codegen/RoundTrip.antt =====
-- What is written into a file of constants and AVPs is read back.
use diam_gw.Prelude.{ℕ, ◌^◌, ◌<◌, ◌≡◌, ◌∙◌, refl, List, [], ◌∷◌, ◌++◌, true, false, str_eq, All}
use diam_gw.Codegen.Strings.{Text, codes, is_space, has_prefix, trim_prefix, contains_char}
use diam_gw.Codegen.Defs.{ProtoParser, ok, find_text, put_text}
use diam_gw.Codegen.Words.{
  is_word, is_plain, word-all_plain, print_number, print_number-is_word, trim_space-line, cut-word,
  trim_space-key, trim_space-value, without_comment_lem, contains_char-append, contains_char-plain,
  trim_suffix-append, parse_uint-print_number,
}
use diam_gw.Codegen.Blocks.{parse_const}
use diam_gw.Codegen.Files.{no_block, file_round, parse_lines, parse_file}
use diam_gw.Codegen.Printing.{
  Declaration, constant, avp, print_declaration, print_file, IsWritable, declare, declare_all,
}
use diam_gw.Codegen.Lookups.{
  last_avp, last_constant, definition_of, InObjects, or_else, definition_of-declare_all,
  find_text-declare_all, declare_all-Keeps,
}
use diam_gw.Codegen.FileLines.{parse_lines-print_avp}

-- What stands in the line of a constant between the first word and the semicolon.
abbrev binding : Text → ℕ → Text
binding name n = name ++ (codes " = " ++ print_number n)

contains_char-binding :
    (name : Text) (n : ℕ)
    → is_word name ≡ true
    → contains_char b'/' (binding name n ++ codes ";") ≡ false
unfolding contains_char is_plain is_space
contains_char-binding name n w =
    rw
      (
        contains_char-append b'/' (binding name n) (codes ";"),
        contains_char-append b'/' name (codes " = " ++ print_number n),
        contains_char-plain b'/' name refl (word-all_plain name w),
        contains_char-append b'/' (codes " = ") (print_number n),
        contains_char-plain b'/' (print_number n) refl
            (word-all_plain (print_number n) (print_number-is_word n)),
      )
      refl

parse_const-binding :
    (name : Text) (n : ℕ) (p : ProtoParser)
    → is_word name ≡ true
    → n < 2 ^ 64
    → parse_const (codes "const " ++ (binding name n ++ codes ";")) p
      ≡ ok (record p { consts = put_text name n p.consts })
unfolding parse_const trim_prefix has_prefix
parse_const-binding name n p w h =
    rw
      (
        parse_const,
        without_comment_lem (binding name n ++ codes ";") (contains_char-binding name n w),
        trim_suffix-append (codes ";") (binding name n),
        cut-word name (32 ∷ print_number n) (word-all_plain name w),
        trim_space-value (print_number n) (print_number-is_word n),
        parse_uint-print_number 64 n h,
        trim_space-key name w,
      )
      refl

parse_lines-constant :
    (name : Text) (n : ℕ) (rest : List Text) (p : ProtoParser)
    → is_word name ≡ true
    → n < 2 ^ 64
    → parse_lines no_block [] (print_declaration (constant name n) ++ rest) p
      ≡ parse_lines no_block [] rest (record p { consts = put_text name n p.consts })
unfolding parse_lines file_round has_prefix str_eq print_declaration is_space
parse_lines-constant name n rest p w h =
    rw
      (
        trim_space-line b'c' (codes "onst " ++ binding name n) b';' refl refl,
        parse_const-binding name n p w h,
      )
      refl

parse_lines-declaration :
    (d : Declaration) (rest : List Text) (p : ProtoParser)
    → IsWritable d
    → parse_lines no_block [] (print_declaration d ++ rest) p
      ≡ parse_lines no_block [] rest (declare d p)
unfolding print_declaration declare
parse_lines-declaration (constant name n) rest p h = parse_lines-constant name n rest p h.0 h.1
parse_lines-declaration (avp a) rest p h = parse_lines-print_avp a rest p h

parse_lines-nil : (p : ProtoParser) → parse_lines no_block [] [] p ≡ ok p
unfolding parse_lines
parse_lines-nil p = refl

parse_lines-print_file :
    (ds : List Declaration) (p : ProtoParser)
    → All IsWritable ds
    → parse_lines no_block [] (print_file ds) p ≡ ok (declare_all ds p)
unfolding print_file declare_all
parse_lines-print_file [] p h = parse_lines-nil p
parse_lines-print_file (d ∷ ds) p h =
    parse_lines-declaration d (print_file ds) p h.0 ∙ parse_lines-print_file ds (declare d p) h.1

-- A file of constants and AVPs that are not grouped, written line by line, is read without an error. What the
-- parser then has under a name is the last AVP of that name in the file, with all its properties, and the last
-- constant, with its value; under a name that the file does not have it is what the parser had before. Nothing
-- but the constants, the map of AVPs and the objects changes. (Names are ASCII words, and the map of the parser
-- leads to objects that it has.)
pub parse_file-print_file :
    (ds : List Declaration) (p : ProtoParser)
    → All IsWritable ds
    → InObjects p
    → (q : ProtoParser) × (parse_file (print_file ds) p ≡ ok q)
      × ((name : Text) → definition_of name q ≡ or_else (last_avp name ds) (definition_of name p))
      × ((name : Text)
          → find_text name q.consts ≡ or_else (last_constant name ds) (find_text name p.consts))
      × (q ≡ record p { consts = q.consts; avps = q.avps; objects = q.objects })
unfolding parse_file
parse_file-print_file ds p h u = (
  declare_all ds p,
  parse_lines-print_file ds p h,
  λ name. definition_of-declare_all name ds p u,
  λ name. find_text-declare_all name ds p,
  declare_all-Keeps ds p,
)

-- ===== src/Codegen/Files.antt =====
-- codegen/parser.go: ParseFile, over the lines of a file.
use diam_gw.Prelude.{ℕ, ◌+◌, List, [], ◌∷◌, ◌++◌, Bool, ◌||◌, ◌==◌, if◌then◌else◌, str_eq}
use diam_gw.Codegen.Strings.{
  Text, codes, trim_space, trim_quotes, has_prefix, trim_suffix, split, fields,
}
use diam_gw.Codegen.Defs.{ProtoParser, Parsed, ok, ◌>>=◌}
use diam_gw.Codegen.Blocks.{parse_avp_block, parse_command_block, parse_enum_block, parse_const}

-- `currentBlock`
pub data Block : Type 0 where
  no_block avp_block command_block enum_block : Block

-- How often a character stands in the lines.
unfoldable pub count_char : ℕ → Text → ℕ
count_char x [] = 0
count_char x (c ∷ s) = (if c == x then 1 else 0) + count_char x s

unfoldable pub count_lines : ℕ → List Text → ℕ
unfolding count_char
count_lines x [] = 0
count_lines x (l ∷ ls) = count_char x l + count_lines x ls

-- The depth of the braces is zero.
unfoldable pub is_balanced : List Text → Bool
unfolding count_lines
is_balanced lines = count_lines b'{' lines == count_lines b'}' lines

unfoldable pub set_package : Text → ProtoParser → ProtoParser
unfolding fields trim_suffix
set_package line p = elim (fields line) [
  | [] ↦ p
  | key ∷ words ↦ elim words [
    | [] ↦ p
    | word ∷ rest ↦ record p { proto_package = trim_suffix (codes ";") word }
  ]
]

abbrev pub last_of : Text → List Text → Text
last_of w [] = w
last_of w (v ∷ vs) = last_of v vs

unfoldable pub set_go_package : Text → ProtoParser → ProtoParser
unfolding split trim_space trim_quotes
set_go_package line p = elim (split b'=' line) [
  | [] ↦ p
  | key ∷ values ↦ elim values [
    | [] ↦ p
    | value ∷ rest ↦ record p {
      go_package = trim_quotes (trim_space value);
      package_name = last_of [] (split b'/' (trim_quotes (trim_space value)));
    }
  ]
]

-- The block that a line begins, or goes on with.
unfoldable pub next_block : Block → List Text → Text → Block × List Text
unfolding has_prefix
next_block block lines line =
    if has_prefix (codes "avp ") line
    then (avp_block, line ∷ [])
    else if has_prefix (codes "command ") line
    then (command_block, line ∷ [])
    else if has_prefix (codes "enum ") line
    then (enum_block, line ∷ [])
    else elim block [ no_block ↦ (no_block, lines) | b ↦ (b, lines ++ line ∷ []) ]

unfoldable pub parse_block : Block → List Text → ProtoParser → Parsed ProtoParser
parse_block no_block lines p = ok p
parse_block avp_block lines p = parse_avp_block lines p
parse_block command_block lines p = parse_command_block lines p
parse_block enum_block lines p = parse_enum_block lines p

-- The end of a round: a block whose braces are closed is parsed.
unfoldable pub end_round :
    Block → List Text → ProtoParser → Parsed (Block × List Text × ProtoParser)
unfolding is_balanced parse_block
end_round no_block lines p = ok (no_block, lines, p)
end_round block lines p =
    if is_balanced lines
    then (parse_block block lines p >>= λ p'. ok (no_block, [], p'))
    else ok (block, lines, p)

-- A round of the loop, for a line that is trimmed.
unfoldable pub file_round :
    Block → List Text → Text → ProtoParser → Parsed (Block × List Text × ProtoParser)
unfolding str_eq has_prefix set_package set_go_package next_block end_round
file_round block lines line p =
    if str_eq line [] || has_prefix (codes "//") line || has_prefix (codes "syntax") line
    then ok (block, lines, p)
    else if has_prefix (codes "package ") line
    then ok (block, lines, set_package line p)
    else if has_prefix (codes "option go_package") line
    then ok (block, lines, set_go_package line p)
    else if has_prefix (codes "const ") line
    then (parse_const line p >>= λ p'. ok (block, lines, p'))
    else let (block', lines') = next_block block lines line in end_round block' lines' p

unfoldable pub parse_lines : Block → List Text → List Text → ProtoParser → Parsed ProtoParser
unfolding trim_space file_round
parse_lines block lines [] p = ok p
parse_lines block lines (line ∷ rest) p =
    file_round block lines (trim_space line) p >>= λ r. parse_lines r.0 r.1 rest r.2

-- ParseFile, for a file that opens and whose lines the scanner reads without an error.
unfoldable pub parse_file : List Text → ProtoParser → Parsed ProtoParser
unfolding parse_lines
parse_file lines p = parse_lines no_block [] lines p

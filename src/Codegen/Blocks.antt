-- ===== src/Codegen/Blocks.antt =====
-- codegen/parser.go: the blocks of an AVP, a command and an enumeration, and constants.
use diam_gw.Prelude.{
  ◌+◌, ◌-◌, List, [], ◌∷◌, ◌++◌, length, take, drop, Bool, false, ◌||◌, if◌then◌else◌, Option, none,
  some, str_eq,
}
use Prim.Native.String.{String}
use diam_gw.Data.Types.{TypeId, available}
use diam_gw.Codegen.Strings.{
  Text, codes, trim_space, has_prefix, has_suffix, index, without_comment, trim_suffix, trim_prefix,
  split, cut, fields, contains_char, parse_uint,
}
use diam_gw.Codegen.Defs.{
  AvpDefinition, CommandDefinition, EnumDefinition, ProtoParser, Parsed, ok, err, ◌>>=◌,
  empty_block, invalid_declaration, invalid_const, invalid_code, invalid_vendor_id,
  invalid_application_id, invalid_const_value, invalid_enum_value, put_text, new_object,
}
use diam_gw.Codegen.Fields.{
  placeholder, generate_abbreviation, parse_field_definition, parse_grouped_fields,
}

-- `models_base.Available[value]`
unfoldable pub type_named : Text → List (String × TypeId) → Option TypeId
unfolding str_eq
type_named value [] = none
type_named value (e ∷ m) =
    let rest = type_named value m in if str_eq value (codes e.0) then some e.1 else rest

-- A line `key = value`, trimmed.
abbrev pub trimmed : Option (Text × Text) → Option (Text × Text)
trimmed none = none
trimmed (some (a, b)) = some (trim_space a, trim_space b)

-- The `switch` on the key of a line of an AVP.
unfoldable pub set_property : Text → Text → AvpDefinition → Parsed AvpDefinition
unfolding str_eq
set_property key value avp =
    if str_eq key (codes "code")
    then elim (parse_uint 32 value) [
      | none ↦ err (invalid_code avp.name)
      | some n ↦ ok (record avp { code = n })
    ]
    else if str_eq key (codes "type")
    then ok (record avp {
      type_name = value;
      type = elim (type_named value available) [ none ↦ avp.type | some t ↦ t ];
    })
    else if str_eq key (codes "must")
    then ok (record avp { must = str_eq value (codes "true") })
    else if str_eq key (codes "may_encrypt")
    then ok (record avp { may_encrypt = str_eq value (codes "true") })
    else if str_eq key (codes "vendor_id")
    then elim (parse_uint 32 value) [
      | none ↦ err (invalid_vendor_id avp.name)
      | some n ↦ ok (record avp { vendor_id = n })
    ]
    else ok avp

-- A line outside a grouped block.
unfoldable pub avp_line : Text → AvpDefinition → Parsed AvpDefinition
unfolding trim_suffix cut set_property
avp_line line avp = elim (trimmed (cut b'=' (trim_suffix (codes ";") line))) [
  | none ↦ ok avp
  | some kv ↦ set_property kv.0 kv.1 avp
]

-- Where the loop stands: outside a grouped block, or in one with the lines collected.
pub data AvpMode : Type 0 where
  outside : AvpMode
  grouped : List Text → AvpMode

-- A round of the loop over the lines of the block.
unfoldable pub avp_round :
    AvpMode → AvpDefinition → Text → ProtoParser → Parsed (AvpMode × AvpDefinition × ProtoParser)
unfolding avp_line has_prefix str_eq parse_grouped_fields
avp_round mode avp line p =
    if str_eq line [] || has_prefix (codes "//") line
    then ok (mode, avp, p)
    else if has_prefix (codes "grouped {") line
    then ok (grouped [], avp, p)
    else elim mode [
      | outside ↦ (avp_line line avp >>= λ avp'. ok (outside, avp', p))
      | grouped lines ↦
          if str_eq line (codes "}")
          then (parse_grouped_fields avp lines p >>= λ r. ok (outside, r.0, r.1))
          else ok (grouped (lines ++ line ∷ []), avp, p)
    ]

unfoldable pub avp_lines :
    AvpMode → AvpDefinition → List Text → ProtoParser → Parsed (AvpDefinition × ProtoParser)
unfolding trim_space avp_round
avp_lines mode avp [] p = ok (avp, p)
avp_lines mode avp (line ∷ lines) p =
    avp_round mode avp (trim_space line) p >>= λ r. avp_lines r.0 r.1 lines r.2

-- A part of a definition on a single line.
unfoldable pub expand_part : Text → List Text
unfolding trim_space str_eq has_prefix
expand_part text =
    let part = trim_space text in
    if str_eq part []
    then []
    else if str_eq part (codes "grouped {") || str_eq part (codes "grouped { }")
    then codes "grouped {" ∷ codes "}" ∷ []
    else if has_prefix (codes "grouped {") part
    then part ∷ []
    else (part ++ codes ";") ∷ []

unfoldable pub expand_parts : List Text → List Text
unfolding expand_part
expand_parts [] = []
expand_parts (part ∷ parts) = expand_part part ++ expand_parts parts

-- A definition on a single line, as several; other lines stay.
unfoldable pub expand_single : List Text → List Text
unfolding trim_space index has_suffix split expand_parts
expand_single (text ∷ []) =
    let line = trim_space text in
    elim (index (codes "{") line) [
      | none ↦ text ∷ []
      | some i ↦
          if has_suffix (codes "}") line
          then (trim_space (take i line) ++ codes " {")
            ∷ (expand_parts
                  (split b';' (trim_space (take (length line - 1 - (i + 1)) (drop (i + 1) line))))
                ++ codes "}" ∷ [])
          else text ∷ []
    ]
expand_single lines = lines

-- The name in the first line of a block.
unfoldable pub declared_name : Text → Parsed Text
unfolding trim_space fields trim_suffix
declared_name line = elim (fields (trim_space line)) [
  | [] ↦ err (invalid_declaration (trim_space line))
  | key ∷ words ↦ elim words [
    | [] ↦ err (invalid_declaration (trim_space line))
    | word ∷ rest ↦ ok (trim_space (trim_suffix (codes "{") word))
  ]
]

unfoldable pub store_avp : AvpDefinition → ProtoParser → ProtoParser
unfolding new_object put_text
store_avp avp p = let (i, p') = new_object avp p in record p' { avps = put_text avp.name i p'.avps }

unfoldable pub parse_avp : List Text → ProtoParser → Parsed ProtoParser
unfolding declared_name avp_lines store_avp
parse_avp [] p = err empty_block
parse_avp (first ∷ lines) p = declared_name first >>= λ name.
    avp_lines outside (record (placeholder name) { type_name = [] }) lines p >>= λ r.
    ok (store_avp r.0 r.1)

unfoldable pub parse_avp_block : List Text → ProtoParser → Parsed ProtoParser
unfolding expand_single parse_avp
parse_avp_block lines p = parse_avp (expand_single lines) p

-- The lines of a block but the last.
unfoldable pub all_but_last : List Text → List Text
all_but_last [] = []
all_but_last (l ∷ []) = []
all_but_last (l ∷ m ∷ ls) = l ∷ all_but_last (m ∷ ls)

-- Whether a line of a block says something.
unfoldable pub is_blank_line : Text → Bool
unfolding str_eq has_prefix
is_blank_line line = str_eq line [] || has_prefix (codes "//") line

-- The `switch` on a property of a command.
unfoldable pub set_command : Text → Text → CommandDefinition → Parsed CommandDefinition
unfolding str_eq
set_command key value cmd =
    if str_eq key (codes "code")
    then elim (parse_uint 32 value) [
      | none ↦ err (invalid_code cmd.name)
      | some n ↦ ok (record cmd { code = n })
    ]
    else if str_eq key (codes "application_id")
    then elim (parse_uint 32 value) [
      | none ↦ err (invalid_application_id cmd.name)
      | some n ↦ ok (record cmd { application_id = n })
    ]
    else if str_eq key (codes "request")
    then ok (record cmd { request = str_eq value (codes "true") })
    else if str_eq key (codes "proxiable")
    then ok (record cmd { proxiable = str_eq value (codes "true") })
    else ok cmd

-- A line of a command's block that is not blank.
unfoldable pub command_line :
    Text → CommandDefinition → ProtoParser → Parsed (CommandDefinition × ProtoParser)
unfolding without_comment trim_suffix cut contains_char parse_field_definition set_command
command_line text cmd p =
    let line = trim_suffix (codes ";") (without_comment text) in
    elim (trimmed (cut b'=' line)) [
      | none ↦ ok (cmd, p)
      | some kv ↦
          if contains_char b' ' kv.0
          then parse_field_definition cmd line p
          else (set_command kv.0 kv.1 cmd >>= λ cmd'. ok (cmd', p))
    ]

unfoldable pub command_lines :
    CommandDefinition → List Text → ProtoParser → Parsed (CommandDefinition × ProtoParser)
unfolding trim_space is_blank_line command_line
command_lines cmd [] p = ok (cmd, p)
command_lines cmd (line ∷ lines) p =
    (if is_blank_line (trim_space line) then ok (cmd, p) else command_line (trim_space line) cmd p)
    >>= λ r. command_lines r.0 lines r.1

unfoldable pub parse_command_block : List Text → ProtoParser → Parsed ProtoParser
unfolding declared_name command_lines all_but_last generate_abbreviation
parse_command_block [] p = err empty_block
parse_command_block (first ∷ lines) p = declared_name first >>= λ name.
    command_lines
      (record {
        name = name;
        abbreviation = [];
        code = 0;
        application_id = 0;
        request = false;
        proxiable = false;
        package_name = [];
        fields = [];
      })
      (all_but_last lines) p
    >>= λ r. ok (record r.1 {
      commands =
          r.1.commands
          ++ record r.0 {
            abbreviation = generate_abbreviation name;
            package_name = r.1.package_name;
          }
            ∷ [];
    })

unfoldable pub parse_const : Text → ProtoParser → Parsed ProtoParser
unfolding trim_prefix without_comment trim_suffix cut put_text
parse_const text p =
    let line = trim_suffix (codes ";") (without_comment (trim_prefix (codes "const ") text)) in
    elim (trimmed (cut b'=' line)) [
      | none ↦ err (invalid_const line)
      | some kv ↦ elim (parse_uint 64 kv.1) [
        | none ↦ err (invalid_const_value kv.0)
        | some n ↦ ok (record p { consts = put_text kv.0 n p.consts })
      ]
    ]

-- A line of an enumeration that is not blank.
unfoldable pub enum_line : Text → EnumDefinition → Parsed EnumDefinition
unfolding without_comment trim_suffix cut put_text
enum_line text e = elim (trimmed (cut b'=' (trim_suffix (codes ";") (without_comment text)))) [
  | none ↦ ok e
  | some kv ↦ elim (parse_uint 32 kv.1) [
    | none ↦ err (invalid_enum_value e.name kv.0)
    | some n ↦ ok (record e { values = put_text kv.0 n e.values })
  ]
]

unfoldable pub enum_lines : EnumDefinition → List Text → Parsed EnumDefinition
unfolding trim_space is_blank_line enum_line
enum_lines e [] = ok e
enum_lines e (line ∷ lines) =
    (if is_blank_line (trim_space line) then ok e else enum_line (trim_space line) e) >>= λ e'.
    enum_lines e' lines

unfoldable pub parse_enum_block : List Text → ProtoParser → Parsed ProtoParser
unfolding declared_name enum_lines all_but_last put_text
parse_enum_block [] p = err empty_block
parse_enum_block (first ∷ lines) p = declared_name first >>= λ name.
    enum_lines (record { name = name; values = [] }) (all_but_last lines) >>= λ e.
    ok (record p { enums = put_text name e p.enums })

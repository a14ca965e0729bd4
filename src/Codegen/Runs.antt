-- ===== src/Codegen/Runs.antt =====
-- Runs of the parser of definitions.
use diam_gw.Prelude.{
  ℕ, ◌≡◌, inl, inr, refl, List, [], ◌∷◌, true, false, some, arith, str_eq, str_eq_sound, Bool-cases,
  sym, get_elem?,
}
use diam_gw.Data.Types.{diameter_identity_type}
use diam_gw.Codegen.Strings.{Text, codes, parse_uint}
use diam_gw.Codegen.Defs.{
  AvpField, AvpDefinition, ProtoParser, new_proto_parser, ok, err, panic, invalid_code, find_text,
}
use diam_gw.Codegen.Words.{is_word, is_plain}
use diam_gw.Codegen.Fields.{no_field, placeholder, parse_field_definition}
use diam_gw.Codegen.Blocks.{
  type_named, store_avp, parse_avp_block, parse_command_block, set_property,
}
use diam_gw.Codegen.Files.{parse_file}
use diam_gw.Codegen.Printing.{Declaration, constant, avp, print_file, IsPrintable}
use diam_gw.Codegen.Lookups.{last_avp, last_constant, definition_of, InObjects, or_else}
use diam_gw.Codegen.RoundTrip.{parse_file-print_file}
use diam_gw.Codegen.Resolve.{resolve_avp_references}
use diam_gw.Codegen.Resolving.{
  WellNamed, ResolvedCommands, ResolvedFields, bare, fields_of,
  resolve_avp_references-ResolvedFields,
}

abbrev origin_host : AvpDefinition
origin_host = record {
  name = codes "Origin-Host";
  code = 264;
  type = diameter_identity_type;
  type_name = codes "DiameterIdentity";
  must = true;
  may_encrypt = false;
  vendor_id = 0;
  grouped_fields = [];
}

origin_host-IsPrintable : IsPrintable origin_host
unfolding is_word is_plain type_named
origin_host-IsPrintable = record {
  name_is_word = refl;
  type_is_word = refl;
  type_is = refl;
  code_fits = omega arith;
  vendor_fits = omega arith;
  not_grouped = refl;
}

abbrev declarations : List Declaration
declarations = constant (codes "S6A_APPLICATION_ID") 16777251 ∷ avp origin_host ∷ []

S6a-is_word : is_word (codes "S6A_APPLICATION_ID") ≡ true
unfolding is_word is_plain
S6a-is_word = refl

no_entry : InObjects new_proto_parser
unfolding find_text new_proto_parser
no_entry name i e = absurd cc

parse_file-print_file_example :
    (q : ProtoParser) × (parse_file (print_file declarations) new_proto_parser ≡ ok q)
    × ((name : Text)
        → definition_of name q
          ≡ or_else (last_avp name declarations) (definition_of name new_proto_parser))
    × ((name : Text)
        → find_text name q.consts
          ≡ or_else (last_constant name declarations) (find_text name new_proto_parser.consts))
    × (q ≡ record new_proto_parser { consts = q.consts; avps = q.avps; objects = q.objects })
parse_file-print_file_example =
    parse_file-print_file declarations new_proto_parser
      ((S6a-is_word, omega arith), (origin_host-IsPrintable, tt)) no_entry

-- A field whose equals sign has no blanks around it.
no_blanks :
    parse_command_block
      (codes "command X {" ∷ codes "fixed repeated required X-Host=1;" ∷ codes "}" ∷ [])
      new_proto_parser
    ≡ panic
unfolding parse_command_block parse_field_definition new_proto_parser
no_blanks = refl

-- A comment behind the code of an AVP.
with_comment :
    parse_avp_block (codes "avp X {" ∷ codes "code = 5; // five" ∷ codes "}" ∷ []) new_proto_parser
    ≡ err (invalid_code (codes "X"))
unfolding parse_avp_block parse_uint new_proto_parser set_property
with_comment = refl

-- A grouped AVP on a single line loses its field.
on_one_line :
    parse_avp_block
      (codes "avp X { code = 5; must = true; grouped { required Y y = 1; } }" ∷ [])
      new_proto_parser
    ≡ ok (
        store_avp
          (record (placeholder (codes "X")) { code = 5; must = true; type_name = [] })
          new_proto_parser)
unfolding parse_avp_block parse_uint new_proto_parser store_avp set_property
on_one_line = refl

-- A command whose field refers to a placeholder, and the definition that was read later.
abbrev host_field : AvpField
host_field = record no_field { avp = 0; field_name = codes "OriginHost" }

abbrev unresolved : ProtoParser
unresolved = record {
  objects = placeholder (codes "Origin-Host") ∷ origin_host ∷ [];
  avps = (codes "Origin-Host", 1) ∷ [];
  commands =
      record {
        name = codes "Test-Request";
        abbreviation = codes "TR";
        code = 1;
        application_id = 0;
        request = true;
        proxiable = false;
        package_name = [];
        fields = host_field ∷ [];
      }
      ∷ [];
  consts = [];
  enums = [];
  proto_package = [];
  go_package = [];
  package_name = [];
}

unresolved-WellNamed : WellNamed unresolved
unfolding find_text
unresolved-WellNamed name j f = elim (Bool-cases (str_eq name (codes "Origin-Host"))) [
  | inl here ↦
      let same : 1 ≡ j = ground (arith, here, f) in
      rw (← same) (sym (str_eq_sound name (codes "Origin-Host") here))
  | inr other ↦ absurd (ground (arith, other, f))
]

resolve_avp_references-ResolvedFields_example :
    ResolvedCommands unresolved unresolved.commands (resolve_avp_references unresolved).commands
    × ((name : Text) (k : ℕ)
        → find_text name unresolved.avps ≡ some k
        → ResolvedFields unresolved
            (fields_of (get_elem? unresolved.objects k))
            (fields_of (get_elem? (resolve_avp_references unresolved).objects k)))
    × ((k : ℕ)
        → bare (get_elem? (resolve_avp_references unresolved).objects k)
          ≡ bare (get_elem? unresolved.objects k))
resolve_avp_references-ResolvedFields_example =
    resolve_avp_references-ResolvedFields unresolved unresolved-WellNamed

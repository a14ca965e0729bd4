-- ===== src/Codegen/Printing.antt =====
-- Files as they are written: constants, enumerations and AVPs, line by line.
use diam_gw.Prelude.{ℕ, ◌^◌, ◌<◌, ◌≡◌, List, [], ◌∷◌, ◌++◌, Bool, true, if◌then◌else◌, none, some}
use diam_gw.Data.Types.{unknown_type, available}
use diam_gw.Codegen.Strings.{Text, codes}
use diam_gw.Codegen.Defs.{AvpDefinition, ProtoParser, put_text}
use diam_gw.Codegen.Words.{is_word, print_number}
use diam_gw.Codegen.Blocks.{type_named, store_avp}

abbrev pub print_bool : Bool → Text
print_bool b = if b then codes "true" else codes "false"

-- A line `key = value;`, for a key with the equals sign behind it.
abbrev pub print_line : Text → Text → Text
print_line key value = (key ++ value) ++ codes ";"

-- The lines behind the first.
abbrev pub print_properties : AvpDefinition → List Text
print_properties a =
    print_line (codes "code = ") (print_number a.code)
    ∷ print_line (codes "type = ") a.type_name
    ∷ print_line (codes "must = ") (print_bool a.must)
    ∷ print_line (codes "may_encrypt = ") (print_bool a.may_encrypt)
    ∷ print_line (codes "vendor_id = ") (print_number a.vendor_id)
    ∷ codes "}"
    ∷ []

abbrev pub print_header : Text → Text
print_header name = codes "avp " ++ (name ++ codes " {")

unfoldable pub print_avp : AvpDefinition → List Text
print_avp a = print_header a.name ∷ print_properties a

-- A definition that can be written so: an AVP that is not grouped, whose type is the one that is offered
-- under the type's name, if there is one.
pub record IsPrintable (a : AvpDefinition) : Type 0 where
  pub name_is_word : is_word a.name ≡ true
  pub type_is_word : is_word a.type_name ≡ true
  pub type_is :
      a.type ≡ elim (type_named a.type_name available) [ none ↦ unknown_type | some t ↦ t ]
  pub code_fits : a.code < 2 ^ 32
  pub vendor_fits : a.vendor_id < 2 ^ 32
  pub not_grouped : a.grouped_fields ≡ []

-- What a file declares.
pub data Declaration : Type 0 where
  constant : Text → ℕ → Declaration
  avp : AvpDefinition → Declaration

unfoldable pub print_declaration : Declaration → List Text
unfolding print_avp
print_declaration (constant name n) =
    ((codes "const " ++ (name ++ (codes " = " ++ print_number n))) ++ codes ";") ∷ []
print_declaration (avp a) = print_avp a

unfoldable pub print_file : List Declaration → List Text
unfolding print_declaration
print_file [] = []
print_file (d ∷ ds) = print_declaration d ++ print_file ds

abbrev pub IsWritable : Declaration → Type 0
IsWritable (constant name n) = (is_word name ≡ true) × (n < 2 ^ 64)
IsWritable (avp a) = IsPrintable a

-- What the parser has after a declaration.
unfoldable pub declare : Declaration → ProtoParser → ProtoParser
unfolding put_text store_avp
declare (constant name n) p = record p { consts = put_text name n p.consts }
declare (avp a) p = store_avp a p

unfoldable pub declare_all : List Declaration → ProtoParser → ProtoParser
unfolding declare
declare_all [] p = p
declare_all (d ∷ ds) p = declare_all ds (declare d p)

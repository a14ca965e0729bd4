-- ===== src/Codegen/Fields.antt =====
-- codegen/parser.go: the lines that define the fields of commands and grouped AVPs.
use diam_gw.Prelude.{
  ℕ, ltb, List, [], ◌∷◌, ◌++◌, length, true, false, ◌||◌, if◌then◌else◌, Option, none, some, str_eq,
}
use diam_gw.Prelude.Int.{ℤ, pos}
use diam_gw.Data.Types.{unknown_type}
use diam_gw.Codegen.Strings.{
  Text, codes, trim_space, has_prefix, without_comment, trim_suffix, split, fields, atoi, to_upper,
  join,
}
use diam_gw.Codegen.Defs.{
  AvpField, AvpDefinition, CommandDefinition, ProtoParser, Parsed, ok, err, panic, ◌>>=◌,
  invalid_field, find_text, new_object,
}

abbrev pub upper_first : Text → Text
upper_first [] = []
upper_first (c ∷ s) = to_upper c ∷ s

unfoldable pub upper_all : List Text → List Text
unfolding to_upper
upper_all [] = []
upper_all (w ∷ ws) = upper_first w ∷ upper_all ws

unfoldable pub to_camel_case : Text → Text
unfolding split upper_all join
to_camel_case s = join (upper_all (split b'_' s))

abbrev pub first_letter : Text → Text
first_letter [] = []
first_letter (c ∷ s) = to_upper c ∷ []

unfoldable pub first_letters : List Text → Text
unfolding to_upper
first_letters [] = []
first_letters (w ∷ ws) = first_letter w ++ first_letters ws

unfoldable pub generate_abbreviation : Text → Text
unfolding split first_letters
generate_abbreviation name = first_letters (split b'-' name)

abbrev pub no_field : AvpField
no_field = record {
  avp = 0;
  field_name = [];
  fixed = false;
  required = false;
  repeated = false;
  position = pos 0;
}

-- A definition that only has a name, for an AVP that is not defined so far.
abbrev pub placeholder : Text → AvpDefinition
placeholder name = record {
  name = name;
  code = 0;
  type = unknown_type;
  type_name = codes "OctetString";
  must = false;
  may_encrypt = false;
  vendor_id = 0;
  grouped_fields = [];
}

-- The definition that a field's AVP name stands for.
unfoldable pub field_avp : Text → ProtoParser → ℕ × ProtoParser
unfolding str_eq find_text new_object
field_avp name p =
    if str_eq name (codes "AVP")
    then new_object (placeholder (codes "AVP")) p
    else elim (find_text name p.avps) [ none ↦ new_object (placeholder name) p | some i ↦ (i, p) ]

abbrev pub or_zero : Option ℤ → ℤ
or_zero none = pos 0
or_zero (some n) = n

-- `= 3`, behind the name of a field.
unfoldable pub position_of : List Text → ℤ
unfolding str_eq atoi trim_suffix
position_of (eq ∷ n ∷ rest) =
    if str_eq eq (codes "=") then or_zero (atoi (trim_suffix (codes ";") n)) else pos 0
position_of _ = pos 0

-- The AVP's name, the field's and the position; an index out of range panics.
unfoldable pub named_field : AvpField → List Text → ProtoParser → Parsed (AvpField × ProtoParser)
unfolding field_avp to_camel_case position_of
named_field f (avp_name ∷ field_name ∷ rest) p =
    let (i, p') = field_avp avp_name p in
    ok
      (record f { avp = i; field_name = to_camel_case field_name; position = position_of rest }, p')
named_field f _ p = panic

-- What a word tells as a modifier of a command's field, if it is one.
unfoldable pub modifier : Text → Option (AvpField → AvpField)
unfolding str_eq
modifier w =
    if str_eq w (codes "fixed")
    then some (λ f. record f { fixed = true })
    else if str_eq w (codes "repeated")
    then some (λ f. record f { repeated = true })
    else if str_eq w (codes "required")
    then some (λ f. record f { required = true })
    else if str_eq w (codes "optional")
    then some (λ f. record f { required = false })
    else none

-- The loop over the modifiers: the field, and the words behind them.
unfoldable pub modifiers : AvpField → List Text → AvpField × List Text
unfolding modifier
modifiers f [] = (f, [])
modifiers f (w ∷ ws) = elim (modifier w) [ none ↦ (f, w ∷ ws) | some g ↦ modifiers (g f) ws ]

unfoldable pub parse_field_definition :
    CommandDefinition → Text → ProtoParser → Parsed (CommandDefinition × ProtoParser)
unfolding fields modifiers named_field
parse_field_definition cmd line p =
    let parts = fields line in
    let (f, names) = modifiers no_field parts in
    if ltb (length parts) 4
    then err (invalid_field line)
    else (named_field f names p >>= λ r. ok (record cmd { fields = cmd.fields ++ r.0 ∷ [] }, r.1))

-- The first word of a grouped AVP's field.
unfoldable pub one_modifier : List Text → AvpField × List Text
unfolding str_eq
one_modifier [] = (no_field, [])
one_modifier (w ∷ ws) =
    if str_eq w (codes "optional")
    then (no_field, ws)
    else if str_eq w (codes "required")
    then (record no_field { required = true }, ws)
    else if str_eq w (codes "repeated")
    then (record no_field { repeated = true }, ws)
    else (no_field, w ∷ ws)

-- A line of a grouped block, none where it defines no field.
unfoldable pub grouped_field : Text → ProtoParser → Parsed (Option AvpField × ProtoParser)
unfolding has_prefix trim_space without_comment trim_suffix fields one_modifier named_field
grouped_field line p =
    let text = trim_space line in
    let parts = fields (trim_suffix (codes ";") (without_comment text)) in
    let (f, names) = one_modifier parts in
    if str_eq text [] || has_prefix (codes "//") text || ltb (length parts) 4
    then ok (none, p)
    else (named_field f names p >>= λ r. ok (some r.0, r.1))

unfoldable pub parse_grouped_fields :
    AvpDefinition → List Text → ProtoParser → Parsed (AvpDefinition × ProtoParser)
unfolding grouped_field
parse_grouped_fields avp [] p = ok (avp, p)
parse_grouped_fields avp (line ∷ lines) p = grouped_field line p >>= λ r.
    parse_grouped_fields
      (elim r.0 [
        | none ↦ avp
        | some f ↦ record avp { grouped_fields = avp.grouped_fields ++ f ∷ [] }
      ])
      lines r.1

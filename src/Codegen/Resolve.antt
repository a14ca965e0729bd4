-- ===== src/Codegen/Resolve.antt =====
-- codegen/parser.go: ResolveAVPReferences.
use diam_gw.Prelude.{
  ℕ, zero, suc, List, [], ◌∷◌, ◌==◌, if◌then◌else◌, Option, none, some, get_elem?, str_eq,
}
use diam_gw.Codegen.Strings.{Text, codes}
use diam_gw.Codegen.Defs.{AvpField, AvpDefinition, CommandDefinition, ProtoParser, find_text}

-- The code of the definition with a number, 0 for none.
abbrev pub code_of : Option AvpDefinition → ℕ
code_of none = 0
code_of (some a) = a.code

abbrev pub name_of : Option AvpDefinition → Text
name_of none = []
name_of (some a) = a.name

-- The definition that a name resolves to, or else the one that was there.
unfoldable pub resolve_name : ProtoParser → Text → ℕ → ℕ
unfolding str_eq find_text
resolve_name p name i = if str_eq name (codes "AVP") then i else elim (find_text name p.avps) [
  | none ↦ i
  | some j ↦ if code_of (get_elem? p.objects j) == 0 then i else j
]

unfoldable pub resolve_field : ProtoParser → AvpField → AvpField
unfolding resolve_name
resolve_field p f = record f { avp = resolve_name p (name_of (get_elem? p.objects f.avp)) f.avp }

unfoldable pub resolve_fields : ProtoParser → List AvpField → List AvpField
unfolding resolve_field
resolve_fields p [] = []
resolve_fields p (f ∷ fs) = resolve_field p f ∷ resolve_fields p fs

unfoldable pub resolve_commands : ProtoParser → List CommandDefinition → List CommandDefinition
unfolding resolve_fields
resolve_commands p [] = []
resolve_commands p (c ∷ cs) =
    record c { fields = resolve_fields p c.fields } ∷ resolve_commands p cs

unfoldable pub resolve_object : ProtoParser → ℕ → List AvpDefinition → List AvpDefinition
unfolding resolve_fields
resolve_object p i [] = []
resolve_object p zero (a ∷ more) =
    record a { grouped_fields = resolve_fields p a.grouped_fields } ∷ more
resolve_object p (suc i) (a ∷ more) = a ∷ resolve_object p i more

-- The loop over the map; its order does not matter, since the names and codes stay.
unfoldable pub resolve_objects :
    ProtoParser → List (Text × ℕ) → List AvpDefinition → List AvpDefinition
unfolding resolve_object
resolve_objects p [] objects = objects
resolve_objects p (e ∷ m) objects = resolve_objects p m (resolve_object p e.1 objects)

unfoldable pub resolve_avp_references : ProtoParser → ProtoParser
unfolding resolve_commands resolve_objects
resolve_avp_references p = record p {
  commands = resolve_commands p p.commands;
  objects = resolve_objects p p.avps p.objects;
}

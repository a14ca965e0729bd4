-- ===== src/Codegen/Defs.antt =====
-- codegen/avp.go, command.go and parser.go: what the parser reads.
use diam_gw.Prelude.{
  ℕ, List, [], ◌∷◌, ◌++◌, length, Bool, if◌then◌else◌, Option, none, some, str_eq,
}
use diam_gw.Prelude.Int.{ℤ}
use diam_gw.Data.Types.{TypeId}
use diam_gw.Codegen.Strings.{Text}

-- The definitions of AVPs are shared by pointers: they are numbered as they are made, and `avp` is
-- such a number.
pub record AvpField : Type 0 where
  pub avp : ℕ
  pub field_name : Text
  pub fixed : Bool
  pub required : Bool
  pub repeated : Bool
  pub position : ℤ

pub record AvpDefinition : Type 0 where
  pub name : Text
  pub code : ℕ
  pub type : TypeId
  pub type_name : Text
  pub must : Bool
  pub may_encrypt : Bool
  pub vendor_id : ℕ
  pub grouped_fields : List AvpField

pub record CommandDefinition : Type 0 where
  pub name : Text
  pub abbreviation : Text
  pub code : ℕ
  pub application_id : ℕ
  pub request : Bool
  pub proxiable : Bool
  pub package_name : Text
  pub fields : List AvpField

pub record EnumDefinition : Type 0 where
  pub name : Text
  pub values : List (Text × ℕ)

-- `objects` has the definitions by number.
pub record ProtoParser : Type 0 where
  pub objects : List AvpDefinition
  pub avps : List (Text × ℕ)
  pub commands : List CommandDefinition
  pub consts : List (Text × ℕ)
  pub enums : List (Text × EnumDefinition)
  pub proto_package : Text
  pub go_package : Text
  pub package_name : Text

unfoldable pub new_proto_parser : ProtoParser
new_proto_parser = record {
  objects = [];
  avps = [];
  commands = [];
  consts = [];
  enums = [];
  proto_package = [];
  go_package = [];
  package_name = [];
}

pub data ParseError : Type 0 where
  empty_block : ParseError
  invalid_declaration invalid_field invalid_const : Text → ParseError
  invalid_code invalid_vendor_id invalid_application_id invalid_const_value : Text → ParseError
  invalid_enum_value : Text → Text → ParseError

-- How a function of the parser ends; `panic` is an index out of range.
pub data Parsed {ℓ} (A : Type ℓ) : Type ℓ where
  ok : A → Parsed A
  err : ParseError → Parsed A
  panic : Parsed A

infixl 5 ◌>>=◌
abbrev pub ◌>>=◌ {ℓ κ} : {A : Type ℓ} {B : Type κ} → Parsed A → (A → Parsed B) → Parsed B
ok a >>= f = f a
err e >>= f = err e
panic >>= f = panic

-- Go maps whose keys are texts.
module _ {ℓ} {A : Type ℓ} where
  unfoldable pub find_text : Text → List (Text × A) → Option A
  unfolding str_eq
  find_text k [] = none
  find_text k (e ∷ m) = let rest = find_text k m in if str_eq k e.0 then some e.1 else rest

  unfoldable pub delete_text : Text → List (Text × A) → List (Text × A)
  unfolding str_eq
  delete_text k [] = []
  delete_text k (e ∷ m) = let rest = delete_text k m in if str_eq k e.0 then rest else e ∷ rest

  unfoldable pub put_text : Text → A → List (Text × A) → List (Text × A)
  unfolding delete_text
  put_text k a m = (k, a) ∷ delete_text k m

-- `&AVPDefinition{...}`: another object, and its number.
unfoldable pub new_object : AvpDefinition → ProtoParser → ℕ × ProtoParser
new_object a p = (length p.objects, record p { objects = p.objects ++ a ∷ [] })

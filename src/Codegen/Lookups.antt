-- ===== src/Codegen/Lookups.antt =====
-- codegen/parser.go: what the parser has under a name when it has read the declarations of a file.
use diam_gw.Prelude.{
  ℕ, zero, suc, ◌<◌, ◌≡◌, refl, sym, ap, ◌∙◌, inl, inr, List, [], ◌∷◌, ◌++◌, length, length-append,
  Bool, true, false, if◌then◌else◌, Option, none, some, get_elem?, str_eq, str_eq_sound, arith,
  Bool-cases, Option-cases,
}
use diam_gw.Codegen.Strings.{Text}
use diam_gw.Codegen.Defs.{AvpDefinition, ProtoParser, find_text, delete_text, put_text, new_object}
use diam_gw.Codegen.Blocks.{store_avp}
use diam_gw.Codegen.Printing.{Declaration, constant, avp, declare, declare_all}

-- The last AVP of a name in a file, and the last constant.
abbrev pub last_avp : Text → List Declaration → Option AvpDefinition
last_avp name [] = none
last_avp name (constant _ n ∷ ds) = last_avp name ds
last_avp name (avp a ∷ ds) = elim (last_avp name ds) [
  | some later ↦ some later
  | none ↦ if str_eq name a.name then some a else none
]

abbrev pub last_constant : Text → List Declaration → Option ℕ
last_constant name [] = none
last_constant name (avp a ∷ ds) = last_constant name ds
last_constant name (constant c n ∷ ds) = elim (last_constant name ds) [
  | some later ↦ some later
  | none ↦ if str_eq name c then some n else none
]

abbrev pub object_at : Option ℕ → List AvpDefinition → Option AvpDefinition
object_at none objects = none
object_at (some i) objects = get_elem? objects i

-- The definition that the map leads to from a name.
abbrev pub definition_of : Text → ProtoParser → Option AvpDefinition
definition_of name p = object_at (find_text name p.avps) p.objects

-- Every entry of the map leads to an object.
abbrev pub InObjects : ProtoParser → Type 0
InObjects p = (name : Text) (i : ℕ) → find_text name p.avps ≡ some i → i < length p.objects

-- What one finds where the file has the last word.
abbrev pub or_else {ℓ} : {A : Type ℓ} → Option A → Option A → Option A
or_else none before = before
or_else (some a) before = some a

find_text-delete_text :
    {A : Type 0} (q k : Text) (m : List (Text × A))
    → str_eq q k ≡ false
    → find_text q (delete_text k m) ≡ find_text q m
unfolding find_text delete_text
find_text-delete_text q k [] h = refl
find_text-delete_text q k (e ∷ m) h = elim (Bool-cases (str_eq k e.0)) [
  | inl same ↦
      let there : str_eq q e.0 ≡ false = ap (str_eq q) (sym (str_eq_sound k e.0 same)) ∙ h in
      rw (same, there) (find_text-delete_text q k m h)
  | inr other ↦ elim (Bool-cases (str_eq q e.0)) [
    | inl here ↦ rw (other, here, find_text) refl
    | inr elsewhere ↦ rw (other, elsewhere, find_text) (find_text-delete_text q k m h)
  ]
]

find_text-put_text :
    {A : Type 0} (q k : Text) (a : A) (m : List (Text × A))
    → find_text q (put_text k a m) ≡ (if str_eq q k then some a else find_text q m)
unfolding find_text put_text
find_text-put_text q k a m = elim (Bool-cases (str_eq q k)) [
  | inl same ↦ rw same refl
  | inr other ↦ rw other (find_text-delete_text q k m other)
]

get_elem?-last : {A : Type 0} (xs : List A) (a : A) → get_elem? (xs ++ a ∷ []) (length xs) ≡ some a
get_elem?-last [] a = refl
get_elem?-last (x ∷ xs) a = get_elem?-last xs a

get_elem?-before :
    {A : Type 0} (xs ys : List A) (i : ℕ) → i < length xs → get_elem? (xs ++ ys) i ≡ get_elem? xs i
get_elem?-before [] ys i h = absurd (omega arith)
get_elem?-before (x ∷ xs) ys zero h = refl
get_elem?-before (x ∷ xs) ys (suc i) h = get_elem?-before xs ys i (omega arith)

definition_of-declare :
    (name : Text) (d : Declaration) (p : ProtoParser)
    → InObjects p
    → definition_of name (declare d p) ≡ or_else (last_avp name (d ∷ [])) (definition_of name p)
unfolding declare store_avp new_object
definition_of-declare name (constant c n) p u = refl
definition_of-declare name (avp a) p u =
    ap (λ o. object_at o (p.objects ++ a ∷ []))
      (find_text-put_text name a.name (length p.objects) p.avps)
    ∙ stored (str_eq name a.name) (find_text name p.avps) (u name)
  where
    stored :
        (same : Bool) (o : Option ℕ)
        → ((i : ℕ) → o ≡ some i → i < length p.objects)
        → object_at (if same then some (length p.objects) else o) (p.objects ++ a ∷ [])
          ≡ or_else (if same then some a else none) (object_at o p.objects)
    stored true o below = get_elem?-last p.objects a
    stored false none below = refl
    stored false (some i) below = get_elem?-before p.objects (a ∷ []) i (below i refl)

InObjects-declare : (d : Declaration) (p : ProtoParser) → InObjects p → InObjects (declare d p)
unfolding declare store_avp new_object
InObjects-declare (constant c n) p u = u
InObjects-declare (avp a) p u = λ name i e.
    below (str_eq name a.name) (find_text name p.avps) (u name) i
      (sym (find_text-put_text name a.name (length p.objects) p.avps) ∙ e)
  where
    below :
        (same : Bool) (o : Option ℕ)
        → ((i : ℕ) → o ≡ some i → i < length p.objects)
        → (i : ℕ) → (if same then some (length p.objects) else o) ≡ some i
        → i < length (p.objects ++ a ∷ [])
    below true o h i e =
        let this : length p.objects ≡ i = cc in
        omega (arith, this, length-append p.objects (a ∷ []))
    below false o h i e = omega (arith, h i e, length-append p.objects (a ∷ []))

last_avp-cons :
    (name : Text) (d : Declaration) (ds : List Declaration) (before : Option AvpDefinition)
    → or_else (last_avp name ds) (or_else (last_avp name (d ∷ [])) before)
      ≡ or_else (last_avp name (d ∷ ds)) before
last_avp-cons name (constant c n) ds before = refl
last_avp-cons name (avp a) ds before = elim (Option-cases (last_avp name ds)) [
  | inl none_later ↦ rw none_later refl
  | inr (b, later) ↦ rw later refl
]

pub definition_of-declare_all :
    (name : Text) (ds : List Declaration) (p : ProtoParser)
    → InObjects p
    → definition_of name (declare_all ds p) ≡ or_else (last_avp name ds) (definition_of name p)
unfolding declare_all
definition_of-declare_all name [] p u = refl
definition_of-declare_all name (d ∷ ds) p u =
    definition_of-declare_all name ds (declare d p) (InObjects-declare d p u)
    ∙ ap (or_else (last_avp name ds)) (definition_of-declare name d p u)
    ∙ last_avp-cons name d ds (definition_of name p)

last_constant-cons :
    (name : Text) (d : Declaration) (ds : List Declaration) (before : Option ℕ)
    → or_else (last_constant name ds) (or_else (last_constant name (d ∷ [])) before)
      ≡ or_else (last_constant name (d ∷ ds)) before
last_constant-cons name (avp a) ds before = refl
last_constant-cons name (constant c n) ds before = elim (Option-cases (last_constant name ds)) [
  | inl none_later ↦ rw none_later refl
  | inr (b, later) ↦ rw later refl
]

find_text-declare :
    (name : Text) (d : Declaration) (p : ProtoParser)
    → find_text name (declare d p).consts
      ≡ or_else (last_constant name (d ∷ [])) (find_text name p.consts)
unfolding declare store_avp new_object
find_text-declare name (avp a) p = refl
find_text-declare name (constant c n) p = elim (Bool-cases (str_eq name c)) [
  | inl here ↦ rw (find_text-put_text name c n p.consts, here) refl
  | inr other ↦ rw (find_text-put_text name c n p.consts, other) refl
]

pub find_text-declare_all :
    (name : Text) (ds : List Declaration) (p : ProtoParser)
    → find_text name (declare_all ds p).consts
      ≡ or_else (last_constant name ds) (find_text name p.consts)
unfolding declare_all
find_text-declare_all name [] p = refl
find_text-declare_all name (d ∷ ds) p =
    find_text-declare_all name ds (declare d p)
    ∙ ap (or_else (last_constant name ds)) (find_text-declare name d p)
    ∙ last_constant-cons name d ds (find_text name p.consts)

-- What the declarations leave as it is.
abbrev pub Keeps : ProtoParser → ProtoParser → Type 0
Keeps p q = q ≡ record p { consts = q.consts; avps = q.avps; objects = q.objects }

declare-Keeps : (d : Declaration) (p : ProtoParser) → Keeps p (declare d p)
unfolding declare store_avp new_object
declare-Keeps (constant c n) p = refl
declare-Keeps (avp a) p = refl

pub declare_all-Keeps : (ds : List Declaration) (p : ProtoParser) → Keeps p (declare_all ds p)
unfolding declare_all
declare_all-Keeps [] p = refl
declare_all-Keeps (d ∷ ds) p =
    let q = declare_all ds (declare d p) in
    declare_all-Keeps ds (declare d p)
    ∙ ap {A = ProtoParser} (λ x. record x { consts = q.consts; avps = q.avps; objects = q.objects })
        (declare-Keeps d p)

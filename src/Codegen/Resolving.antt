-- ===== src/Codegen/Resolving.antt =====
-- What ResolveAVPReferences makes of the references to AVPs.
use mathlib.Core.Path.{subst}
use diam_gw.Prelude.{
  ℕ, zero, suc, ◌≡◌, ◌≢◌, ◌⊎◌, inl, inr, refl, ◌∙◌, List, [], ◌∷◌, true, false, ◌==◌, if◌then◌else◌,
  Option, none, some, get_elem?, str_eq, arith, Bool-cases, ap, sym, ==-eq, Option-cases,
}
use diam_gw.Codegen.Strings.{Text, codes}
use diam_gw.Codegen.Defs.{AvpField, AvpDefinition, CommandDefinition, ProtoParser, find_text}
use diam_gw.Codegen.Resolve.{
  code_of, name_of, resolve_name, resolve_field, resolve_fields, resolve_commands, resolve_object,
  resolve_objects, resolve_avp_references,
}

-- The map leads from each name to a definition of that name.
abbrev pub WellNamed : ProtoParser → Type 0
WellNamed p =
    (name : Text) (j : ℕ) → find_text name p.avps ≡ some j → name_of (get_elem? p.objects j) ≡ name

-- Where the name `name` resolves to, for a reference that was `old`: the definition that the map has for it, if it
-- has one with a code; the reference stays where the map has none, or one without a code, or where the name is that
-- of the generic AVP.
pub record Resolves (p : ProtoParser) (name : Text) (old new : ℕ) : Type 0 where
  pub generic : str_eq name (codes "AVP") ≡ true → new ≡ old
  pub missing : find_text name p.avps ≡ none → new ≡ old
  pub undefined :
      (j : ℕ) → find_text name p.avps ≡ some j → code_of (get_elem? p.objects j) ≡ 0 → new ≡ old
  pub found :
      (j : ℕ)
      → str_eq name (codes "AVP") ≡ false
      → find_text name p.avps ≡ some j
      → code_of (get_elem? p.objects j) ≢ 0
      → new ≡ j

-- The name that a field refers to.
abbrev pub target : ProtoParser → AvpField → Text
target p f = name_of (get_elem? p.objects f.avp)

-- A field is as it was, but for its reference, which is what the name that it referred to resolves to.
abbrev pub ResolvedField : ProtoParser → AvpField → AvpField → Type 0
ResolvedField p f g = (g ≡ record f { avp = g.avp }) × Resolves p (target p f) f.avp g.avp

abbrev pub ResolvedFields : ProtoParser → List AvpField → List AvpField → Type 0
ResolvedFields p [] [] = Unit
ResolvedFields p (f ∷ fs) (g ∷ gs) = ResolvedField p f g × ResolvedFields p fs gs
ResolvedFields p fs gs = ⊥

resolve_name-Resolves :
    (p : ProtoParser) (name : Text) (i : ℕ) → Resolves p name i (resolve_name p name i)
unfolding resolve_name
resolve_name-Resolves p name i = record {
  generic = λ e. rw (resolve_name, e) refl;
  missing = λ e. elim (Bool-cases (str_eq name (codes "AVP"))) [
    | inl generic ↦ rw (resolve_name, generic) refl
    | inr named ↦ rw (resolve_name, named, e) refl
  ];
  undefined = λ j e z. elim (Bool-cases (str_eq name (codes "AVP"))) [
    | inl generic ↦ rw (resolve_name, generic) refl
    | inr named ↦ rw (resolve_name, named, e, z) refl
  ];
  found = λ j named e z. rw (resolve_name, named, e) (ground (arith, z));
}

-- A second round resolves the name as the first did.
Resolves-again :
    (p : ProtoParser) (name : Text) (old new : ℕ)
    → Resolves p name old new
    → Resolves p name old (resolve_name p name new)
Resolves-again p name old new h =
    let again = resolve_name-Resolves p name new in
    record {
      generic = λ e. again.generic e ∙ h.generic e;
      missing = λ e. again.missing e ∙ h.missing e;
      undefined = λ j e z. again.undefined j e z ∙ h.undefined j e z;
      found = again.found;
    }

-- The name that is referred to stays.
name_of-Resolves :
    (p : ProtoParser) (name : Text) (old new : ℕ)
    → WellNamed p
    → name_of (get_elem? p.objects old) ≡ name
    → Resolves p name old new
    → name_of (get_elem? p.objects new) ≡ name
name_of-Resolves p name old new w e h = elim (Bool-cases (str_eq name (codes "AVP"))) [
  | inl generic ↦ rw (h.generic generic) e
  | inr named ↦ elim (Option-cases (find_text name p.avps)) [
    | inl missing ↦ rw (h.missing missing) e
    | inr (j, found) ↦ elim (Bool-cases (code_of (get_elem? p.objects j) == 0)) [
      | inl undefined ↦ rw (h.undefined j found (==-eq _ _ undefined)) e
      | inr defined ↦
          rw (h.found j named found (λ z. absurd (ground (arith, z, defined)))) (w name j found)
    ]
  ]
]

resolve_field-ResolvedField :
    (p : ProtoParser) (f : AvpField) → ResolvedField p f (resolve_field p f)
unfolding resolve_field
resolve_field-ResolvedField p f = (refl, resolve_name-Resolves p (target p f) f.avp)

ResolvedField-again :
    (p : ProtoParser) (f g : AvpField)
    → WellNamed p
    → ResolvedField p f g
    → ResolvedField p f (resolve_field p g)
unfolding resolve_field
ResolvedField-again p f g w (same, h) =
    let kept = name_of-Resolves p (target p f) f.avp g.avp w refl h in
    (
      ap {A = AvpField} (λ x. record x { avp = resolve_name p (target p g) g.avp }) same,
      subst (λ n. Resolves p (target p f) f.avp (resolve_name p n g.avp)) (sym kept)
          (Resolves-again p (target p f) f.avp g.avp h),
    )

resolve_fields-ResolvedFields :
    (p : ProtoParser) (fs : List AvpField) → ResolvedFields p fs (resolve_fields p fs)
unfolding resolve_fields
resolve_fields-ResolvedFields p [] = tt
resolve_fields-ResolvedFields p (f ∷ fs) =
    (resolve_field-ResolvedField p f, resolve_fields-ResolvedFields p fs)

ResolvedFields-again :
    (p : ProtoParser) (fs gs : List AvpField)
    → WellNamed p
    → ResolvedFields p fs gs
    → ResolvedFields p fs (resolve_fields p gs)
unfolding resolve_fields
ResolvedFields-again p [] [] w h = tt
ResolvedFields-again p [] (g ∷ gs) w h = absurd h
ResolvedFields-again p (f ∷ fs) [] w h = absurd h
ResolvedFields-again p (f ∷ fs) (g ∷ gs) w (h, rest) =
    (ResolvedField-again p f g w h, ResolvedFields-again p fs gs w rest)

-- A command is as it was, but for its fields, which are resolved.
abbrev pub ResolvedCommands : ProtoParser → List CommandDefinition → List CommandDefinition → Type 0
ResolvedCommands p [] [] = Unit
ResolvedCommands p (c ∷ cs) (d ∷ ds) =
    (d ≡ record c { fields = d.fields })
    × ResolvedFields p c.fields d.fields
    × ResolvedCommands p cs ds
ResolvedCommands p cs ds = ⊥

resolve_commands-ResolvedCommands :
    (p : ProtoParser) (cs : List CommandDefinition) → ResolvedCommands p cs (resolve_commands p cs)
unfolding resolve_commands
resolve_commands-ResolvedCommands p [] = tt
resolve_commands-ResolvedCommands p (c ∷ cs) =
    (refl, resolve_fields-ResolvedFields p c.fields, resolve_commands-ResolvedCommands p cs)

-- The fields of the definition with a number, if there is one.
abbrev pub fields_of : Option AvpDefinition → List AvpField
fields_of none = []
fields_of (some a) = a.grouped_fields

-- A definition without its fields.
abbrev pub bare : Option AvpDefinition → Option AvpDefinition
bare none = none
bare (some a) = some (record a { grouped_fields = [] })

resolve_object-at :
    (p : ProtoParser) (i k : ℕ) (objects : List AvpDefinition)
    → fields_of (get_elem? (resolve_object p i objects) k) ≡ (
        if i == k
        then resolve_fields p (fields_of (get_elem? objects k))
        else fields_of (get_elem? objects k))
unfolding resolve_object resolve_fields
resolve_object-at p i k [] = ground arith
resolve_object-at p zero zero (a ∷ more) = refl
resolve_object-at p zero (suc k) (a ∷ more) = ground arith
resolve_object-at p (suc i) zero (a ∷ more) = ground arith
resolve_object-at p (suc i) (suc k) (a ∷ more) = ground (arith, resolve_object-at p i k more)

-- All but the fields stays.
resolve_object-keeps :
    (p : ProtoParser) (i k : ℕ) (objects : List AvpDefinition)
    → bare (get_elem? (resolve_object p i objects) k) ≡ bare (get_elem? objects k)
unfolding resolve_object
resolve_object-keeps p i k [] = refl
resolve_object-keeps p zero zero (a ∷ more) = refl
resolve_object-keeps p zero (suc k) (a ∷ more) = refl
resolve_object-keeps p (suc i) zero (a ∷ more) = refl
resolve_object-keeps p (suc i) (suc k) (a ∷ more) = resolve_object-keeps p i k more

resolve_objects-keeps :
    (p : ProtoParser) (k : ℕ) (m : List (Text × ℕ)) (objects : List AvpDefinition)
    → bare (get_elem? (resolve_objects p m objects) k) ≡ bare (get_elem? objects k)
unfolding resolve_objects
resolve_objects-keeps p k [] objects = refl
resolve_objects-keeps p k (e ∷ m) objects =
    resolve_objects-keeps p k m (resolve_object p e.1 objects)
    ∙ resolve_object-keeps p e.1 k objects

-- The fields of an object are resolved; or nothing was done with it yet, and its turn is still to come.
abbrev Done : ProtoParser → ℕ → List AvpField → List AvpDefinition → Type 0
Done p k fs objects = ResolvedFields p fs (fields_of (get_elem? objects k))

resolve_object-Done :
    (p : ProtoParser) (i k : ℕ) (fs : List AvpField) (objects : List AvpDefinition)
    → WellNamed p
    → Done p k fs objects
    → Done p k fs (resolve_object p i objects)
resolve_object-Done p i k fs objects w h = elim (Bool-cases (i == k)) [
  | inl here ↦
      rw (resolve_object-at p i k objects, here)
        (ResolvedFields-again p fs (fields_of (get_elem? objects k)) w h)
  | inr other ↦ rw (resolve_object-at p i k objects, other) h
]

resolve_objects-Done :
    (p : ProtoParser) (k : ℕ) (name : Text) (fs : List AvpField) (m : List (Text × ℕ))
    → (objects : List AvpDefinition) → WellNamed p
    → ((find_text name m ≡ some k) × (fields_of (get_elem? objects k) ≡ fs)) ⊎ Done p k fs objects
    → Done p k fs (resolve_objects p m objects)
unfolding resolve_objects find_text
resolve_objects-Done p k name fs [] objects w (inl (f, _)) = absurd cc
resolve_objects-Done p k name fs [] objects w (inr a) = a
resolve_objects-Done p k name fs (e ∷ m) objects w (inr a) =
    resolve_objects-Done p k name fs m (resolve_object p e.1 objects) w
      (inr (resolve_object-Done p e.1 k fs objects w a))
resolve_objects-Done p k name fs (e ∷ m) objects w (inl (f, same)) = elim (Bool-cases (e.1 == k)) [
  | inl here ↦ resolve_objects-Done p k name fs m (resolve_object p e.1 objects) w (
      inr (rw (resolve_object-at p e.1 k objects, here, same) (resolve_fields-ResolvedFields p fs)))
  | inr other ↦
      resolve_objects-Done p k name fs m (resolve_object p e.1 objects) w
        (inl (later e.1 other, (rw (resolve_object-at p e.1 k objects, other) same)))
]
  where
    later : (i : ℕ) → (e.1 == k) ≡ false → find_text name m ≡ some k
    later i other = elim (Bool-cases (str_eq name e.0)) [
      | inl first ↦ absurd (ground arith)
      | inr second ↦ ground arith
    ]

-- After ResolveAVPReferences, each field of each command, and of each definition that the map leads to, is as it
-- was but for its reference. That is the definition which the map has for the name of what the field referred to,
-- where the map has one with a code; where it has none, or one without a code, or the name is that of the generic
-- AVP, the reference stays. Commands and definitions are as they were but for their fields. (The map is taken to
-- lead from each name to a definition of that name.)
pub resolve_avp_references-ResolvedFields :
    (p : ProtoParser)
    → WellNamed p
    → ResolvedCommands p p.commands (resolve_avp_references p).commands
      × ((name : Text) (k : ℕ)
          → find_text name p.avps ≡ some k
          → ResolvedFields p
              (fields_of (get_elem? p.objects k))
              (fields_of (get_elem? (resolve_avp_references p).objects k)))
      × ((k : ℕ)
          → bare (get_elem? (resolve_avp_references p).objects k) ≡ bare (get_elem? p.objects k))
unfolding resolve_avp_references
resolve_avp_references-ResolvedFields p w = (
  resolve_commands-ResolvedCommands p p.commands,
  λ name k found.
      resolve_objects-Done p k name (fields_of (get_elem? p.objects k)) p.avps p.objects w
        (inl (found, refl)),
  λ k. resolve_objects-keeps p k p.avps p.objects,
)

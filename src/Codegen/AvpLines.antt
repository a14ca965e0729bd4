-- ===== src/Codegen/AvpLines.antt =====
-- The lines of an AVP, as ParseFile and parseAVPBlock read them.
use diam_gw.Prelude.{
  ℕ, ◌^◌, ◌<◌, ◌≡◌, append_assoc, sym, ◌∙◌, refl, ap, List, [], ◌∷◌, ◌++◌, Bool, true, false, none,
  some, str_eq,
}
use diam_gw.Data.Types.{available, unknown_type}
use diam_gw.Codegen.Strings.{
  Text, codes, trim_space, is_space, has_prefix, trim_suffix, has_suffix, cut,
}
use diam_gw.Codegen.Defs.{AvpDefinition, ProtoParser, ok}
use diam_gw.Codegen.Fields.{placeholder}
use diam_gw.Codegen.Words.{
  is_word, is_plain, fields-word, trim_suffix-word, trim_space-word, print_number,
  print_number-is_word, parse_uint-print_number, trim_space-line, trim_suffix-append,
  trim_space-value,
}
use diam_gw.Codegen.Blocks.{
  declared_name, store_avp, parse_avp, parse_avp_block, expand_single, type_named, set_property,
  avp_line, outside, avp_round, avp_lines,
}
use diam_gw.Codegen.Printing.{
  print_header, print_properties, print_line, print_bool, print_avp, IsPrintable,
}

-- A line of a property, for a key that is written with the equals sign behind it, of which `cut` leaves
-- `before`.
module _ (key word before value : Text) (w : is_word value ≡ true) where
  avp_line-print :
      (avp : AvpDefinition)
      → cut b'=' (key ++ value) ≡ some (before, 32 ∷ value)
      → trim_space before ≡ word
      → avp_line (print_line key value) avp ≡ set_property word value avp
  unfolding avp_line set_property
  avp_line-print avp c t =
      rw (avp_line, trim_suffix-append (codes ";") (key ++ value), c, t, trim_space-value value w)
        refl

avp_round-print :
    (x : ℕ) (line : Text) (avp avp' : AvpDefinition) (lines : List Text) (p : ProtoParser)
    → is_space x ≡ false
    → has_prefix (codes "//") (x ∷ (line ++ codes ";")) ≡ false
    → has_prefix (codes "grouped {") (x ∷ (line ++ codes ";")) ≡ false
    → avp_line (x ∷ (line ++ codes ";")) avp ≡ ok avp'
    → avp_lines outside avp ((x ∷ (line ++ codes ";")) ∷ lines) p ≡ avp_lines outside avp' lines p
unfolding is_space avp_lines
avp_round-print x line avp avp' lines p s no_comment no_group e =
    rw (avp_lines, trim_space-line x line b';' s refl, avp_round, no_comment, no_group, e) refl

pub print_bool-is_word : (b : Bool) → is_word (print_bool b) ≡ true
unfolding is_word
print_bool-is_word true = refl
print_bool-is_word false = refl

print_bool-true : (b : Bool) → str_eq (print_bool b) (codes "true") ≡ b
unfolding str_eq
print_bool-true true = refl
print_bool-true false = refl

-- The lines of an AVP.
module _ (avp : AvpDefinition) (lines : List Text) (p : ProtoParser) where
  code_line :
      (n : ℕ)
      → n < 2 ^ 32
      → avp_lines outside avp (print_line (codes "code = ") (print_number n) ∷ lines) p
        ≡ avp_lines outside (record avp { code = n }) lines p
  unfolding cut str_eq has_prefix trim_space is_space set_property
  code_line n h =
      avp_round-print b'c' (codes "ode = " ++ print_number n) avp _ lines p refl refl refl (
        avp_line-print (codes "code = ") (codes "code") (codes "code ") (print_number n)
          (print_number-is_word n) avp refl refl
        ∙ rw (parse_uint-print_number 32 n h) refl)

  vendor_id_line :
      (n : ℕ)
      → n < 2 ^ 32
      → avp_lines outside avp (print_line (codes "vendor_id = ") (print_number n) ∷ lines) p
        ≡ avp_lines outside (record avp { vendor_id = n }) lines p
  unfolding cut str_eq has_prefix trim_space is_space set_property
  vendor_id_line n h =
      avp_round-print b'v' (codes "endor_id = " ++ print_number n) avp _ lines p refl refl refl (
        avp_line-print (codes "vendor_id = ") (codes "vendor_id") (codes "vendor_id ")
          (print_number n) (print_number-is_word n) avp refl refl
        ∙ rw (parse_uint-print_number 32 n h) refl)

  type_line :
      (name : Text)
      → is_word name ≡ true
      → avp_lines outside avp (print_line (codes "type = ") name ∷ lines) p
        ≡ avp_lines outside
            (record avp {
              type_name = name;
              type = elim (type_named name available) [ none ↦ avp.type | some t ↦ t ];
            })
            lines
            p
  unfolding cut str_eq has_prefix trim_space is_space set_property
  type_line name w =
      avp_round-print b't' (codes "ype = " ++ name) avp _ lines p refl refl refl
        (avp_line-print (codes "type = ") (codes "type") (codes "type ") name w avp refl refl)

  must_line :
      (b : Bool)
      → avp_lines outside avp (print_line (codes "must = ") (print_bool b) ∷ lines) p
        ≡ avp_lines outside (record avp { must = b }) lines p
  unfolding cut str_eq has_prefix trim_space is_space set_property
  must_line b = avp_round-print b'm' (codes "ust = " ++ print_bool b) avp _ lines p refl refl refl (
      avp_line-print (codes "must = ") (codes "must") (codes "must ") (print_bool b)
        (print_bool-is_word b) avp refl refl
      ∙ ap (λ v. ok (record avp { must = v })) (print_bool-true b))

  may_encrypt_line :
      (b : Bool)
      → avp_lines outside avp (print_line (codes "may_encrypt = ") (print_bool b) ∷ lines) p
        ≡ avp_lines outside (record avp { may_encrypt = b }) lines p
  unfolding cut str_eq has_prefix trim_space is_space set_property
  may_encrypt_line b =
      avp_round-print b'm' (codes "ay_encrypt = " ++ print_bool b) avp _ lines p refl refl refl (
        avp_line-print (codes "may_encrypt = ") (codes "may_encrypt") (codes "may_encrypt ")
          (print_bool b) (print_bool-is_word b) avp refl refl
        ∙ ap (λ v. ok (record avp { may_encrypt = v })) (print_bool-true b))

  closing_line : avp_lines outside avp (codes "}" ∷ lines) p ≡ avp_lines outside avp lines p
  unfolding avp_lines trim_suffix has_suffix cut str_eq has_prefix trim_space is_space
  closing_line = refl

pub trim_space-header : (name : Text) → trim_space (print_header name) ≡ print_header name
unfolding is_space
trim_space-header name =
    rw (← append_assoc name (codes " ") (codes "{"))
      (trim_space-line b'a' (codes "vp " ++ (name ++ codes " ")) b'{' refl refl)

declared_name-header :
    (name : Text) → is_word name ≡ true → declared_name (print_header name) ≡ ok name
unfolding declared_name is_word is_plain is_space
declared_name-header name w =
    rw
      (
        declared_name,
        trim_space-header name,
        fields-word name (codes "{") w,
        trim_suffix-word b'{' name refl w,
        trim_space-word name w,
      )
      refl

avp_lines-end : (avp : AvpDefinition) (p : ProtoParser) → avp_lines outside avp [] p ≡ ok (avp, p)
unfolding avp_lines
avp_lines-end avp p = refl

same_avp :
    (a : AvpDefinition)
    → IsPrintable a
    → record a {
      type = elim (type_named a.type_name available) [ none ↦ unknown_type | some t ↦ t ];
      grouped_fields = [];
    }
      ≡ a
same_avp a h =
    ap (λ t. record a { type = t; grouped_fields = [] }) (sym h.type_is)
    ∙ ap (λ g. record a { grouped_fields = g }) (sym h.not_grouped)

avp_lines-print_properties :
    (a : AvpDefinition) (p : ProtoParser)
    → IsPrintable a
    → avp_lines outside (record (placeholder a.name) { type_name = [] }) (print_properties a) p
      ≡ ok (a, p)
avp_lines-print_properties a p h =
    code_line _ _ p a.code h.code_fits
    ∙ type_line _ _ p a.type_name h.type_is_word
    ∙ must_line _ _ p a.must
    ∙ may_encrypt_line _ _ p a.may_encrypt
    ∙ vendor_id_line _ _ p a.vendor_id h.vendor_fits
    ∙ closing_line _ [] p
    ∙ avp_lines-end _ p
    ∙ ap (λ b. ok (b, p)) (same_avp a h)

-- An AVP that is written is read back.
pub parse_avp-print_avp :
    (a : AvpDefinition) (p : ProtoParser)
    → IsPrintable a
    → parse_avp_block (print_avp a) p ≡ ok (store_avp a p)
unfolding parse_avp_block parse_avp print_avp expand_single
parse_avp-print_avp a p h =
    rw (declared_name-header a.name h.name_is_word, avp_lines-print_properties a p h) refl

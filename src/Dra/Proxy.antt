-- ===== src/Dra/Proxy.antt =====
-- The message that the agent forwards: the origin replaced, all else kept.
use diam_gw.Prelude.{
  ℕ, ◌+◌, ◌-◌, ◌^◌, ◌≤◌, ◌<◌, ◌≡◌, refl, sym, ap, ◌∙◌, List, [], ◌∷◌, ◌++◌, map, length, take, drop,
  replicate, slice, byte_at, All, put_uint24, true, false, ◌||◌, arith, Bool-cases, inl, inr,
  if◌then◌else◌, append_assoc, append-nil, length-append, take-append, length-replicate,
}
use diam_gw.Dra.Outcome.{ok}
use diam_gw.Dra.Avp.{pad_up, iterate_avps, avp_origin_host, avp_origin_realm}
use diam_gw.Dra.Rewrite.{
  Rewriting, encode_string_avp, rewrite_avp, append_missing, fix_length, rewrite_origin_host_realm,
}
use diam_gw.Dra.Layout.{WireAvp, IsWireAvp, total_of, entry, print_avp, print_vendor, slice_start}
use diam_gw.Dra.Iterate.{
  fold_avps, print_avps, iterate_avps-print, length-print_avp_padded, next_pos,
}
use diam_gw.Dra.Routing.{is_base, payloads_of, has_any}

-- The agent's own AVP with a string: mandatory, and filled with zeros.
unfoldable pub agent_avp : ℕ → List ℕ → WireAvp
agent_avp code value = record {
  code = code;
  flags = 0x40;
  vendor = 0;
  payload = value;
  filler = replicate (pad_up (8 + length value) - (8 + length value)) 0;
}

pub encode_string_avp-print :
    (code : ℕ) (value : List ℕ)
    → encode_string_avp code value true ≡ print_avp (agent_avp code value)
unfolding encode_string_avp print_avp print_vendor agent_avp
encode_string_avp-print code value = refl

pub agent_avp-IsWireAvp :
    (code : ℕ) (value : List ℕ)
    → code < 2 ^ 32
    → length value + 8 < 2 ^ 24
    → IsWireAvp (agent_avp code value)
unfolding agent_avp
agent_avp-IsWireAvp code value c h = record {
  headed = record {
    code_32 = c;
    flags_byte = omega arith;
    vendor_32 = omega arith;
    total_24 = omega arith;
  };
  filled = length-replicate (pad_up (8 + length value) - (8 + length value)) 0;
}

print_avps-append : (xs ys : List WireAvp) → print_avps (xs ++ ys) ≡ print_avps xs ++ print_avps ys
unfolding print_avps
print_avps-append [] ys = refl
print_avps-append (x ∷ xs) ys =
    rw (print_avps-append xs ys) (sym (append_assoc (print_avp x) (print_avps xs) (print_avps ys)))

ruleset list_laws = (print_avps-append, append_assoc, append-nil)

-- A message header with another length in its bytes 1 to 3.
unfoldable pub set_length : List ℕ → ℕ → List ℕ
set_length h n = byte_at h 0 ∷ (put_uint24 n ++ drop 4 h)

fix_length-append :
    (h body : List ℕ)
    → length h ≡ 20
    → fix_length (h ++ body) ≡ set_length h (20 + length body) ++ body
unfolding fix_length set_length put_uint24
fix_length-append [] body n = absurd (omega arith)
fix_length-append (a ∷ []) body n = absurd (omega arith)
fix_length-append (a ∷ b ∷ []) body n = absurd (omega arith)
fix_length-append (a ∷ b ∷ c ∷ []) body n = absurd (omega arith)
fix_length-append (a ∷ b ∷ c ∷ d ∷ h) body n =
    let long : length (a ∷ b ∷ c ∷ d ∷ (h ++ body)) ≡ 20 + length body =
      omega (arith, n, length-append h body) in
    ap (λ k. a ∷ (put_uint24 k ++ (h ++ body))) long

module _ (host realm : List ℕ) where
  -- What stands for an AVP in the forwarded message.
  unfoldable pub replaced : WireAvp → WireAvp
  replaced a =
      if is_base avp_origin_host a
      then agent_avp avp_origin_host host
      else if is_base avp_origin_realm a
      then agent_avp avp_origin_realm realm
      else a

  -- What is appended where the message carries no origin.
  unfoldable pub appended : List WireAvp → List WireAvp
  appended avps =
      (if has_any (payloads_of avp_origin_host avps)
        then []
        else agent_avp avp_origin_host host ∷ [])
      ++ (if has_any (payloads_of avp_origin_realm avps)
          then []
          else agent_avp avp_origin_realm realm ∷ [])

  -- The AVPs of the forwarded message.
  unfoldable pub forwarded : List WireAvp → List WireAvp
  forwarded avps = map replaced avps ++ appended avps

  pub rewrite_avp-entry :
      (msg pre : List ℕ) (a : WireAvp) (rest : List ℕ) (s : Rewriting)
      → IsWireAvp a
      → msg ≡ pre ++ (print_avp a ++ rest)
      → rewrite_avp msg host realm s (entry (length pre) a)
        ≡ ok (record {
          out = s.out ++ print_avp (replaced a);
          wrote_host = s.wrote_host || is_base avp_origin_host a;
          wrote_realm = s.wrote_realm || is_base avp_origin_realm a;
        })
  unfolding rewrite_avp entry replaced
  rewrite_avp-entry msg pre a rest s v e = ground (
    arith,
    copied,
    there,
    encode_string_avp-print avp_origin_host host,
    encode_string_avp-print avp_origin_realm realm,
  )
    where
      padded : length (print_avp a) ≡ pad_up (total_of a)
      padded = length-print_avp_padded a v

      copied : slice msg (length pre) (length pre + pad_up (total_of a)) ≡ print_avp a
      copied =
          rw (e, ← padded)
            (slice_start pre (print_avp a ++ rest) (length (print_avp a))
              ∙ take-append (print_avp a) rest)

      there : length pre + pad_up (total_of a) ≤ length msg
      there = omega (
        arith,
        ap length e,
        padded,
        length-append pre (print_avp a ++ rest),
        length-append (print_avp a) rest,
      )

  -- The closure's variables after the AVPs.
  rewritten : Rewriting → List WireAvp → Rewriting
  rewritten s avps = record {
    out = s.out ++ print_avps (map replaced avps);
    wrote_host = s.wrote_host || has_any (payloads_of avp_origin_host avps);
    wrote_realm = s.wrote_realm || has_any (payloads_of avp_origin_realm avps);
  }

  abbrev pub step_of : Rewriting → WireAvp → Rewriting
  step_of s a = record {
    out = s.out ++ print_avp (replaced a);
    wrote_host = s.wrote_host || is_base avp_origin_host a;
    wrote_realm = s.wrote_realm || is_base avp_origin_realm a;
  }

  rewritten-nil : (s : Rewriting) → rewritten s [] ≡ s
  unfolding rewritten payloads_of has_any print_avps
  rewritten-nil s = ground (arith, append-nil s.out)

  rewritten-cons :
      (s : Rewriting) (a : WireAvp) (avps : List WireAvp)
      → rewritten (step_of s a) avps ≡ rewritten s (a ∷ avps)
  unfolding rewritten payloads_of has_any print_avps
  rewritten-cons s a avps =
      let same = append_assoc s.out (print_avp (replaced a)) (print_avps (map replaced avps)) in
      ground (arith, same)

  fold-rewritten :
      (msg : List ℕ) (avps : List WireAvp) (pre : List ℕ) (s : Rewriting)
      → All IsWireAvp avps
      → msg ≡ pre ++ print_avps avps
      → fold_avps (rewrite_avp msg host realm) s (length pre) avps ≡ ok (rewritten s avps)
  unfolding fold_avps print_avps
  fold-rewritten msg [] pre s v e = ap ok (sym (rewritten-nil s))
  fold-rewritten msg (a ∷ avps) pre s v e =
      rw (rewrite_avp-entry msg pre a (print_avps avps) s v.0 e) (
        rw (next_pos pre a v.0) (
          fold-rewritten msg avps (pre ++ print_avp a) (step_of s a) v.1
            (e ∙ sym (append_assoc pre (print_avp a) (print_avps avps)))
          ∙ ap ok (rewritten-cons s a avps)))

  abbrev pub start : List ℕ → Rewriting
  start h = record { out = h; wrote_host = false; wrote_realm = false }

  append_missing-rewritten :
      (h : List ℕ) (avps : List WireAvp)
      → append_missing host realm (rewritten (start h) avps) ≡ h ++ print_avps (forwarded avps)
  unfolding append_missing rewritten forwarded appended print_avps
  append_missing-rewritten h avps =
      rw
        (
          encode_string_avp-print avp_origin_host host,
          encode_string_avp-print avp_origin_realm realm,
        )
        (elim (Bool-cases (has_any (payloads_of avp_origin_host avps))) [
          | inl host_there ↦ elim (Bool-cases (has_any (payloads_of avp_origin_realm avps))) [
            | inl realm_there ↦ rw (host_there, realm_there) (simp list_laws)
            | inr no_realm ↦ rw (host_there, no_realm) (simp list_laws)
          ]
          | inr no_host ↦ elim (Bool-cases (has_any (payloads_of avp_origin_realm avps))) [
            | inl realm_there ↦ rw (no_host, realm_there) (simp list_laws)
            | inr no_realm ↦ rw (no_host, no_realm) (simp list_laws)
          ]
        ])

  -- Over a header and well-formed AVPs the rewriting never fails: it gives the same header with the
  -- new length, and the AVPs in order, each origin replaced by the agent's own, with the agent's own
  -- appended where the message carries none.
  pub rewrite_origin_host_realm-print :
      (h : List ℕ) (avps : List WireAvp)
      → length h ≡ 20
      → All IsWireAvp avps
      → rewrite_origin_host_realm (h ++ print_avps avps) host realm
        ≡ ok (
            set_length h (20 + length (print_avps (forwarded avps))) ++ print_avps (forwarded avps))
  unfolding rewrite_origin_host_realm
  rewrite_origin_host_realm-print h avps n v = ground (
    arith,
    length-append h (print_avps avps),
    front,
    walked,
    append_missing-rewritten h avps,
    fix_length-append h (print_avps (forwarded avps)) n,
  )
    where
      front : take 20 (h ++ print_avps avps) ≡ h
      front = rw n at (take-append h (print_avps avps))

      walked :
          iterate_avps
            (h ++ print_avps avps)
            (rewrite_avp (h ++ print_avps avps) host realm)
            (start h)
          ≡ ok (rewritten (start h) avps)
      walked =
          iterate_avps-print _ h avps (start h) n v
          ∙ (rw n at (fold-rewritten (h ++ print_avps avps) avps h (start h) v refl))

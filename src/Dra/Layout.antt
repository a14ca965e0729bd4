-- ===== src/Dra/Layout.antt =====
-- AVPs as they lie on the wire, and what the agent's loop reads from one.
use diam_gw.Prelude.{
  ℕ, ◌+◌, ◌-◌, ◌/◌, ◌%◌, ◌^◌, ◌≤◌, ◌≡◌, ap, ◌∙◌, List, [], ◌∷◌, ◌++◌, length, take, drop, slice,
  byte_at, uint32, or_uint24, or_uint24-sum, put_uint24, put_uint32, uint32-put_uint32, bit_and-80,
  if◌then◌else◌, ltb, arith, Bool-cases, inl, inr, le→ltb, drop-append, IsByte, IsU24, IsU32,
  length-append, append_assoc, take-append, byte_at-append, slice-append, drop-append_add,
}
use diam_gw.Dra.Outcome.{ok}
use diam_gw.Dra.Avp.{Avp, pad_up, read_avp}

-- One AVP: its vendor is on the wire if the top bit of the flags is set, and its filler brings it to
-- a multiple of four bytes.
pub record WireAvp : Type 0 where
  pub code : ℕ
  pub flags : ℕ
  pub vendor : ℕ
  pub payload : List ℕ
  pub filler : List ℕ

abbrev pub hdr_of : WireAvp → ℕ
hdr_of a = if ltb a.flags 128 then 8 else 12

-- The length that the AVP states, without the filler.
abbrev pub total_of : WireAvp → ℕ
total_of a = hdr_of a + length a.payload

-- The fields fit their places.
pub record IsHeaded (a : WireAvp) : Type 0 where
  pub code_32 : IsU32 a.code
  pub flags_byte : IsByte a.flags
  pub vendor_32 : IsU32 a.vendor
  pub total_24 : IsU24 (total_of a)

-- And the filler is there.
pub record IsWireAvp (a : WireAvp) : Type 0 where
  pub headed : IsHeaded a
  pub filled : length a.filler ≡ pad_up (total_of a) - total_of a

unfoldable pub print_vendor : WireAvp → List ℕ
print_vendor a = if ltb a.flags 128 then [] else put_uint32 a.vendor

unfoldable pub print_avp : WireAvp → List ℕ
unfolding put_uint32 put_uint24
print_avp a =
    put_uint32 a.code
    ++ ((a.flags ∷ put_uint24 (total_of a)) ++ (print_vendor a ++ (a.payload ++ a.filler)))

-- What the callback is given for an AVP that lies at `pos`.
unfoldable pub entry : ℕ → WireAvp → Avp
entry pos a = record {
  code = a.code;
  vendor_id = if ltb a.flags 128 then 0 else a.vendor;
  loc = record {
    start = pos;
    hdr_len = hdr_of a;
    data_len = length a.payload;
    padded_to = pad_up (total_of a);
  };
  body = a.payload;
}

-- The loop's reading of an AVP, from the fields that it finds.
module _ (msg : List ℕ) (pos : ℕ) (a : WireAvp) where
  record Fields : Type 0 where
    at_code : uint32 (slice msg pos (pos + 4)) ≡ a.code
    at_flags : byte_at msg (pos + 4) ≡ a.flags
    at_length :
        or_uint24 (byte_at msg (pos + 5)) (byte_at msg (pos + 6)) (byte_at msg (pos + 7))
        ≡ total_of a
    at_vendor : 128 ≤ a.flags → uint32 (slice msg (pos + 8) (pos + 12)) ≡ a.vendor
    at_payload : slice msg (pos + hdr_of a) (pos + hdr_of a + length a.payload) ≡ a.payload
    at_end : pos + total_of a ≤ length msg

  read_avp-Fields : IsHeaded a → Fields → read_avp msg pos ≡ ok (entry pos a)
  unfolding read_avp entry
  read_avp-Fields v f = ground (arith, bit_and-80 a.flags v.flags_byte)

pub or_uint24-put_uint24 :
    (n : ℕ) → IsU24 n → or_uint24 (n / 2 ^ 16 % 256) (n / 2 ^ 8 % 256) (n % 256) ≡ n
or_uint24-put_uint24 n h =
    or_uint24-sum (n / 2 ^ 16 % 256) (n / 2 ^ 8 % 256) (n % 256) (omega arith) (omega arith)
    ∙ omega arith

pub slice_start :
    (pre ys : List ℕ) (j : ℕ) → slice (pre ++ ys) (length pre) (length pre + j) ≡ take j ys
unfolding slice
slice_start pre ys j =
    let width : length pre + j - length pre ≡ j = omega arith in rw width (rw (drop-append pre ys))

slice_from :
    (pre ys : List ℕ) (i n : ℕ)
    → slice (pre ++ ys) (length pre + i) (length pre + i + n) ≡ take n (drop i ys)
unfolding slice
slice_from pre ys i n =
    let width : length pre + i + n - (length pre + i) ≡ n = omega arith in
    rw width (rw (drop-append_add pre ys i))

or_uint24-append :
    (pre ys : List ℕ)
    → or_uint24
        (byte_at (pre ++ ys) (length pre + 5))
        (byte_at (pre ++ ys) (length pre + 6))
        (byte_at (pre ++ ys) (length pre + 7))
      ≡ or_uint24 (byte_at ys 5) (byte_at ys 6) (byte_at ys 7)
or_uint24-append pre ys =
    rw (byte_at-append pre ys 5) (rw (byte_at-append pre ys 6) (rw (byte_at-append pre ys 7)))

take-payload :
    (a : WireAvp) (rest : List ℕ)
    → take (length a.payload) (a.payload ++ (a.filler ++ rest)) ≡ a.payload
take-payload a rest = take-append a.payload (a.filler ++ rest)

payload_at :
    (a : WireAvp) (rest : List ℕ)
    → take (length a.payload) (drop (hdr_of a) (print_avp a ++ rest)) ≡ a.payload
unfolding print_avp print_vendor
payload_at a rest = elim (Bool-cases (ltb a.flags 128)) [
  | inl plain ↦ rw plain (rw append_assoc (take-payload a rest))
  | inr vendor ↦ rw vendor (rw append_assoc (take-payload a rest))
]

vendor_at :
    (a : WireAvp) (rest : List ℕ)
    → 128 ≤ a.flags
    → IsU32 a.vendor
    → uint32 (take 4 (drop 8 (print_avp a ++ rest))) ≡ a.vendor
unfolding print_avp print_vendor
vendor_at a rest h v = rw (le→ltb a.flags 128 h) (uint32-put_uint32 a.vendor [] v)

pub length-print_avp : (a : WireAvp) → length (print_avp a) ≡ total_of a + length a.filler
unfolding print_avp print_vendor
length-print_avp a = ground (arith, length-append a.payload a.filler)

Fields-print :
    (pre : List ℕ) (a : WireAvp) (rest : List ℕ)
    → IsHeaded a
    → Fields (pre ++ (print_avp a ++ rest)) (length pre) a
unfolding print_avp slice
Fields-print pre a rest v =
    let ys = print_avp a ++ rest in
    record {
      at_code = ap uint32 (slice_start pre ys 4) ∙ uint32-put_uint32 a.code [] v.code_32;
      at_flags = byte_at-append pre ys 4;
      at_length = or_uint24-append pre ys ∙ or_uint24-put_uint24 (total_of a) v.total_24;
      at_vendor = λ h. ap uint32 (slice-append pre ys 8 12) ∙ vendor_at a rest h v.vendor_32;
      at_payload = slice_from pre ys (hdr_of a) (length a.payload) ∙ payload_at a rest;
      at_end = fits;
    }
  where
    fits : length pre + total_of a ≤ length (pre ++ (print_avp a ++ rest))
    fits = omega (
      arith,
      length-append pre (print_avp a ++ rest),
      length-append (print_avp a) rest,
      length-print_avp a,
    )

-- Where an AVP lies in a message, the loop reads that AVP.
pub read_avp-print :
    (pre : List ℕ) (a : WireAvp) (rest : List ℕ)
    → IsHeaded a
    → read_avp (pre ++ (print_avp a ++ rest)) (length pre) ≡ ok (entry (length pre) a)
read_avp-print pre a rest v =
    read_avp-Fields (pre ++ (print_avp a ++ rest)) (length pre) a v (Fields-print pre a rest v)

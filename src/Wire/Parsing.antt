-- ===== src/Wire/Parsing.antt =====
-- The header parsers against the layout of the header, and against one another.
use diam_gw.Prelude.{
  ℕ, ◌/◌, ◌%◌, ◌≤◌, ◌≡◌, ap, List, [], ◌∷◌, ◌++◌, length, not, uint32, put_uint32, put_uint24,
  if◌then◌else◌, ◌==◌, ltb, le→ltb, ◌∙◌, Result, ok, err, arith, IsByte, IsU24, IsU32, bit_and-80,
  bit_and-40, bit_and-20, bit_and-10, uint32-put_uint32,
}
use diam_gw.Wire.Header.{
  MessageFlags, MessageInfo, InvalidMessage, unsupported_version, invalid_length, header_fields,
  parse_message_header, has_flag,
}

-- The numbers that a header carries.
pub record Header : Type 0 where
  pub version : ℕ
  pub length : ℕ
  pub flags : ℕ
  pub code : ℕ
  pub application : ℕ
  pub hop_by_hop : ℕ
  pub end_to_end : ℕ

pub record IsHeader (h : Header) : Type 0 where
  pub version_byte : IsByte h.version
  pub length_24 : IsU24 h.length
  pub flags_byte : IsByte h.flags
  pub code_24 : IsU24 h.code
  pub application_32 : IsU32 h.application
  pub hop_by_hop_32 : IsU32 h.hop_by_hop
  pub end_to_end_32 : IsU32 h.end_to_end

-- Their layout on the wire: version 1, length 3, flags 1, code 3, and three words of 4 bytes.
unfoldable pub print_header : Header → List ℕ
unfolding put_uint24 put_uint32
print_header h =
    (h.version ∷ put_uint24 h.length)
    ++ ((h.flags ∷ put_uint24 h.code)
        ++ (put_uint32 h.application ++ (put_uint32 h.hop_by_hop ++ put_uint32 h.end_to_end)))

-- The flags by their place in the byte, R, P, E and T from the top.
unfoldable pub flags_of : ℕ → MessageFlags
flags_of f = record {
  request = f / 128 % 2 == 1;
  proxiable = f / 64 % 2 == 1;
  error = f / 32 % 2 == 1;
  retrans = f / 16 % 2 == 1;
}

unfoldable pub info_of : Header → MessageInfo
unfolding flags_of
info_of h = record {
  version = h.version;
  length = h.length;
  command_code = h.code;
  application_id = h.application;
  hop_by_hop_id = h.hop_by_hop;
  end_to_end_id = h.end_to_end;
  flags = flags_of h.flags;
  is_request = (flags_of h.flags).request;
  is_proxiable = (flags_of h.flags).proxiable;
  is_error = (flags_of h.flags).error;
  is_retrans = (flags_of h.flags).retrans;
}

pub uint24_read : (n : ℕ) → IsU24 n → uint32 (0 ∷ put_uint24 n) ≡ n
unfolding uint32 put_uint24
uint24_read n h = omega arith

has_flag-80 : (f : ℕ) → IsByte f → has_flag f 0x80 ≡ (f / 128 % 2 == 1)
has_flag-80 f h = ground (arith, bit_and-80 f)

has_flag-40 : (f : ℕ) → IsByte f → has_flag f 0x40 ≡ (f / 64 % 2 == 1)
has_flag-40 f h = ground (arith, bit_and-40 f)

has_flag-20 : (f : ℕ) → IsByte f → has_flag f 0x20 ≡ (f / 32 % 2 == 1)
has_flag-20 f h = ground (arith, bit_and-20 f)

has_flag-10 : (f : ℕ) → IsByte f → has_flag f 0x10 ≡ (f / 16 % 2 == 1)
has_flag-10 f h = ground (arith, bit_and-10 f)

header_fields-print :
    (h : Header) (rest : List ℕ) → IsHeader h → header_fields (print_header h ++ rest) ≡ info_of h
unfolding header_fields print_header info_of
header_fields-print h rest v = λ i. record {
  version = h.version;
  length = uint24_read h.length v.length_24 i;
  command_code = uint24_read h.code v.code_24 i;
  application_id = uint32-put_uint32 h.application [] v.application_32 i;
  hop_by_hop_id = uint32-put_uint32 h.hop_by_hop [] v.hop_by_hop_32 i;
  end_to_end_id = uint32-put_uint32 h.end_to_end [] v.end_to_end_32 i;
  flags = record {
    request = has_flag-80 h.flags v.flags_byte i;
    proxiable = has_flag-40 h.flags v.flags_byte i;
    error = has_flag-20 h.flags v.flags_byte i;
    retrans = has_flag-10 h.flags v.flags_byte i;
  };
  is_request = has_flag-80 h.flags v.flags_byte i;
  is_proxiable = has_flag-40 h.flags v.flags_byte i;
  is_error = has_flag-20 h.flags v.flags_byte i;
  is_retrans = has_flag-10 h.flags v.flags_byte i;
}

-- What the parser tests once the header is long enough.
validate : MessageInfo → Result InvalidMessage MessageInfo
validate info =
    if not (info.version == 1)
    then err (unsupported_version info.version)
    else if ltb info.length 20
    then err (invalid_length info.length)
    else ok info

parse_long : (b : List ℕ) → 20 ≤ length b → parse_message_header b ≡ validate (header_fields b)
unfolding parse_message_header validate
parse_long b h = rw (le→ltb (length b) 20 h)

length-print : (h : Header) (rest : List ℕ) → 20 ≤ length (print_header h ++ rest)
unfolding print_header
length-print h rest = omega arith

-- A header that carries the version v and the length l is refused where v is not 1, then where l is
-- less than 20, and is parsed to the numbers that it carries otherwise, whatever follows it.
pub parse_message_header-print :
    (h : Header) (rest : List ℕ)
    → IsHeader h
    → parse_message_header (print_header h ++ rest) ≡ (
        if not (h.version == 1)
        then err (unsupported_version h.version)
        else if ltb h.length 20
        then err (invalid_length h.length)
        else ok (info_of h))
unfolding validate info_of
parse_message_header-print h rest v =
    parse_long (print_header h ++ rest) (length-print h rest)
    ∙ ap validate (header_fields-print h rest v)

-- ===== src/Wire/Header.antt =====
-- pkg/connection/message.go and command.go: the 20-byte Diameter header.
use diam_gw.Prelude.{
  ℕ, List, [], ◌∷◌, length, Bool, not, bit_and, byte_at, slice, uint32, if◌then◌else◌, ◌==◌, ltb,
  Result, ok, err,
}

pub record MessageFlags : Type 0 where
  pub request : Bool
  pub proxiable : Bool
  pub error : Bool
  pub retrans : Bool

pub record MessageInfo : Type 0 where
  pub version : ℕ
  pub length : ℕ
  pub command_code : ℕ
  pub application_id : ℕ
  pub hop_by_hop_id : ℕ
  pub end_to_end_id : ℕ
  pub flags : MessageFlags
  pub is_request : Bool
  pub is_proxiable : Bool
  pub is_error : Bool
  pub is_retrans : Bool

-- The reasons of an ErrInvalidMessage.
pub data InvalidMessage : Type 0 where
  too_short : InvalidMessage
  unsupported_version invalid_length : ℕ → InvalidMessage

-- `(flags & mask) != 0`
abbrev pub has_flag : ℕ → ℕ → Bool
has_flag flags mask = not (bit_and flags mask == 0)

-- The fields as the code reads them, before it validates any.
unfoldable pub header_fields : List ℕ → MessageInfo
unfolding uint32 slice
header_fields b =
    let flags = byte_at b 4 in
    record {
      version = byte_at b 0;
      length = uint32 (0 ∷ byte_at b 1 ∷ byte_at b 2 ∷ byte_at b 3 ∷ []);
      command_code = uint32 (0 ∷ byte_at b 5 ∷ byte_at b 6 ∷ byte_at b 7 ∷ []);
      application_id = uint32 (slice b 8 12);
      hop_by_hop_id = uint32 (slice b 12 16);
      end_to_end_id = uint32 (slice b 16 20);
      flags = record {
        request = has_flag flags 0x80;
        proxiable = has_flag flags 0x40;
        error = has_flag flags 0x20;
        retrans = has_flag flags 0x10;
      };
      is_request = has_flag flags 0x80;
      is_proxiable = has_flag flags 0x40;
      is_error = has_flag flags 0x20;
      is_retrans = has_flag flags 0x10;
    }

unfoldable pub parse_message_header : List ℕ → Result InvalidMessage MessageInfo
unfolding header_fields
parse_message_header b =
    let info = header_fields b in
    if ltb (length b) 20
    then err too_short
    else if not (info.version == 1)
    then err (unsupported_version info.version)
    else if ltb info.length 20
    then err (invalid_length info.length)
    else ok info

unfoldable pub is_base_protocol : MessageInfo → Bool
is_base_protocol m = m.application_id == 0

-- `DiameterMessageType(m.CommandCode)`
unfoldable pub get_message_type : MessageInfo → ℕ
get_message_type m = m.command_code

pub record Command : Type 0 where
  pub interface : ℕ
  pub code : ℕ
  pub request : Bool

pub data InvalidHeader : Type 0 where
  invalid_header_length : InvalidHeader

unfoldable pub parse_command : List ℕ → Result InvalidHeader Command
unfolding uint32 slice
parse_command header =
    if ltb (length header) 20
    then err invalid_header_length
    else ok (record {
      interface = uint32 (slice header 8 12);
      code = uint32 (0 ∷ byte_at header 5 ∷ byte_at header 6 ∷ byte_at header 7 ∷ []);
      request = has_flag (byte_at header 4) 0x80;
    })

-- ===== src/Dra/Header.antt =====
-- dra/avp.go: the header view, and the rewriting of the hop-by-hop id.
use diam_gw.Prelude.{
  ℕ, List, ◌++◌, length, take, drop, byte_at, slice, uint32, or_uint24, put_uint32, Bool, not,
  bit_and, if◌then◌else◌, ◌==◌, ltb,
}
use diam_gw.Dra.Outcome.{Outcome, ok, err, panic, short_header}

abbrev pub header_len : ℕ
header_len = 20

pub record ParsedHeader : Type 0 where
  pub version : ℕ
  pub length : ℕ
  pub flags : ℕ
  pub command_code : ℕ
  pub application_id : ℕ
  pub hop_by_hop_id : ℕ
  pub end_to_end_id : ℕ

unfoldable pub is_request : ParsedHeader → Bool
is_request h = not (bit_and h.flags 0x80 == 0)

-- The fields at their places.
unfoldable pub header_view : List ℕ → ParsedHeader
header_view b = record {
  version = byte_at b 0;
  length = or_uint24 (byte_at b 1) (byte_at b 2) (byte_at b 3);
  flags = byte_at b 4;
  command_code = or_uint24 (byte_at b 5) (byte_at b 6) (byte_at b 7);
  application_id = uint32 (slice b 8 12);
  hop_by_hop_id = uint32 (slice b 12 16);
  end_to_end_id = uint32 (slice b 16 20);
}

unfoldable pub parse_header : List ℕ → Outcome ParsedHeader
unfolding header_view
parse_header b = if ltb (length b) header_len then err short_header else ok (header_view b)

-- The slice `msg[12:16]` is overwritten in place; it panics in a shorter message.
unfoldable pub set_hop_by_hop : List ℕ → ℕ → Outcome (List ℕ)
set_hop_by_hop msg id =
    if ltb (length msg) 16 then panic else ok (take 12 msg ++ (put_uint32 id ++ drop 16 msg))

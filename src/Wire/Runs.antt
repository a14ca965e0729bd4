-- ===== src/Wire/Runs.antt =====
-- Runs of the parsers and of the reader on small streams.
use diam_gw.Prelude.{ℕ, ◌≡◌, refl, List, [], ◌∷◌, ◌++◌, none, some, ok, arith}
use diam_gw.Wire.Header.{parse_message_header}
use diam_gw.Wire.Reader.{eof, Reader, read_message}
use diam_gw.Wire.Parsing.{Header, IsHeader, print_header, info_of, parse_message_header-print}
use diam_gw.Wire.Framing.{read_message-print}

-- A Device-Watchdog-Request with four bytes of body.
abbrev watchdog : Header
watchdog = record {
  version = 1;
  length = 24;
  flags = 128;
  code = 280;
  application = 0;
  hop_by_hop = 7;
  end_to_end = 9;
}

watchdog-IsHeader : IsHeader watchdog
watchdog-IsHeader = record {
  version_byte = omega arith;
  length_24 = omega arith;
  flags_byte = omega arith;
  code_24 = omega arith;
  application_32 = omega arith;
  hop_by_hop_32 = omega arith;
  end_to_end_32 = omega arith;
}

abbrev body : List ℕ
body = 1 ∷ 2 ∷ 3 ∷ 4 ∷ []

abbrev stream : Reader
stream = record { bytes = print_header watchdog ++ (body ++ 5 ∷ []); fault = eof }

read_message-print_example : read_message stream ≡ record {
  message = some (record { length = 24; header = print_header watchdog; body = body });
  error = none;
  reader = record { bytes = 5 ∷ []; fault = eof };
}
read_message-print_example = read_message-print watchdog body (5 ∷ []) eof watchdog-IsHeader refl

parse_message_header-print_example :
    parse_message_header (print_header watchdog ++ body) ≡ ok (info_of watchdog)
parse_message_header-print_example = parse_message_header-print watchdog body watchdog-IsHeader

-- ===== src/Data/Numbers.antt =====
-- The data types of fixed width (unsigned32.go, unsigned64.go, int32.go, int64.go, enum.go,
-- float32.go, float64.go, time.go). On input of another width a decoder returns zero and no error.
use diam_gw.Prelude.{
  ℕ, ◌+◌, ◌/◌, ◌%◌, ◌^◌, List, length, if◌then◌else◌, ◌==◌, ◌≡◌, arith, Result, ok, ◌>>=◌, uint32,
  uint64, put_uint32, put_uint64, byte_at,
}
use diam_gw.Prelude.Int.{ℤ, pos, negsuc, sub_ℕ, of_u32, of_u64, to_u32, to_u64}
use diam_gw.Data.Types.{
  Value, Methods, DecodeError, unsigned32, unsigned64, integer32, integer64, enumerated, float32,
  float64, time, time_pointer, unsigned32_type, unsigned64_type, integer32_type, integer64_type,
  enumerated_type, float32_type, float64_type, time_type,
}

unfoldable pub decode_unsigned32 : List ℕ → Result DecodeError Value
decode_unsigned32 b = if length b == 4 then ok (unsigned32 (uint32 b)) else ok (unsigned32 0)

unfoldable pub unsigned32_methods : ℕ → Methods
unsigned32_methods n = record {
  serialize = put_uint32 n;
  len = 4;
  padding = 0;
  type = unsigned32_type;
}

unfoldable pub decode_unsigned64 : List ℕ → Result DecodeError Value
decode_unsigned64 b = if length b == 8 then ok (unsigned64 (uint64 b)) else ok (unsigned64 0)

unfoldable pub unsigned64_methods : ℕ → Methods
unsigned64_methods n = record {
  serialize = put_uint64 n;
  len = 8;
  padding = 0;
  type = unsigned64_type;
}

unfoldable pub decode_integer32 : List ℕ → Result DecodeError Value
decode_integer32 b =
    if length b == 4 then ok (integer32 (of_u32 (uint32 b))) else ok (integer32 (pos 0))

unfoldable pub integer32_methods : ℤ → Methods
integer32_methods n = record {
  serialize = put_uint32 (to_u32 n);
  len = 4;
  padding = 0;
  type = integer32_type;
}

unfoldable pub decode_integer64 : List ℕ → Result DecodeError Value
decode_integer64 b =
    if length b == 8 then ok (integer64 (of_u64 (uint64 b))) else ok (integer64 (pos 0))

unfoldable pub integer64_methods : ℤ → Methods
integer64_methods n = record {
  serialize = put_uint64 (to_u64 n);
  len = 8;
  padding = 0;
  type = integer64_type;
}

-- `Enumerated(v.(Integer32))`, where `v` comes from DecodeInteger32 and is an Integer32.
abbrev as_enumerated : Value → Value
as_enumerated (integer32 z) = enumerated z
as_enumerated v = v

unfoldable pub decode_enumerated : List ℕ → Result DecodeError Value
unfolding decode_integer32
decode_enumerated b = decode_integer32 b >>= λ v. ok (as_enumerated v)

-- Widened and read back, an Enumerated is decoded as its own test of the width would.
pub decode_enumerated_lem :
    (b : List ℕ)
    → decode_enumerated b
      ≡ (if length b == 4 then ok (enumerated (of_u32 (uint32 b))) else ok (enumerated (pos 0)))
unfolding decode_enumerated
decode_enumerated_lem b = ground arith

unfoldable pub enumerated_methods : ℤ → Methods
unfolding integer32_methods
enumerated_methods n = record {
  serialize = (integer32_methods n).serialize;
  len = 4;
  padding = 0;
  type = enumerated_type;
}

-- `math.Float32frombits` and `Float32bits` are the identity on bit patterns.
unfoldable pub decode_float32 : List ℕ → Result DecodeError Value
decode_float32 b = if length b == 4 then ok (float32 (uint32 b)) else ok (float32 0)

unfoldable pub float32_methods : ℕ → Methods
float32_methods n = record { serialize = put_uint32 n; len = 4; padding = 0; type = float32_type }

unfoldable pub decode_float64 : List ℕ → Result DecodeError Value
decode_float64 b = if length b == 8 then ok (float64 (uint64 b)) else ok (float64 0)

unfoldable pub float64_methods : ℕ → Methods
float64_methods n = record { serialize = put_uint64 n; len = 8; padding = 0; type = float64_type }

-- The offsets between the epochs of NTP eras 0 and 1 and of Unix.
abbrev pub rfc868_offset : ℕ
rfc868_offset = 2208988800

abbrev pub rfc2030_offset : ℕ
rfc2030_offset = 2085978496

-- `Time{}`, the first of January of the year 1, in Unix seconds.
abbrev pub zero_time : ℤ
zero_time = negsuc 62135596799

-- Seconds with the top bit clear lie in era 1, the others in era 0.
unfoldable pub decode_time : List ℕ → Result DecodeError Value
decode_time b =
    if length b == 4
    then ok (
        time
          (if byte_at b 0 / 2 ^ 7 == 0
            then pos (uint32 b + rfc2030_offset)
            else sub_ℕ (uint32 b) rfc868_offset)
          0)
    else ok (time_pointer zero_time)

-- `uint32(t.Unix()) + rfc868offset`, which wraps; the nanoseconds are dropped.
unfoldable pub time_methods : ℤ → Methods
time_methods t = record {
  serialize = put_uint32 ((to_u32 t + rfc868_offset) % 2 ^ 32);
  len = 4;
  padding = 0;
  type = time_type;
}

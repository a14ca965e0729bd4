-- ===== src/Wire/Reader.antt =====
-- pkg/connection/message.go: reading one message from a stream. The pooled buffer that the bytes
-- pass through is scratch space: each read fills the part that it copies out.
use diam_gw.Prelude.{
  ℕ, ◌-◌, List, [], length, take, drop, Option, none, some, byte_at, or_uint24, if◌then◌else◌, ◌==◌,
  ltb, leb, Result, ok, err,
}

-- What stops a stream: its end, its end inside a read, or another error of the transport.
pub data IoError : Type 0 where
  eof unexpected_eof : IoError
  transport : ℕ → IoError

-- A stream: the bytes that will still arrive, and the error that follows them.
pub record Reader : Type 0 where
  pub bytes : List ℕ
  pub fault : IoError

-- `io.ReadFull` turns an end of the stream inside the read into `unexpected_eof`.
abbrev pub cut_short : ℕ → IoError → IoError
cut_short n eof = if n == 0 then eof else unexpected_eof
cut_short n e = e

-- `io.ReadFull(r, b)` with `len(b)` = n: the bytes, or the error and how many bytes were read.
unfoldable pub read_full : ℕ → Reader → Result (IoError × ℕ) (List ℕ) × Reader
read_full n r =
    if leb n (length r.bytes)
    then (ok (take n r.bytes), record r { bytes = drop n r.bytes })
    else (err (cut_short (length r.bytes) r.fault, length r.bytes), record r { bytes = [] })

pub record Message : Type 0 where
  pub length : ℕ
  pub header : List ℕ
  pub body : List ℕ

pub data ReadError : Type 0 where
  header_error : IoError → ReadError
  short_length : ReadError
  body_error : IoError → ℕ → ReadError

-- What ReadMessage returns, and the stream behind it. On an error of the body it returns the
-- message read so far too.
pub record ReadResult : Type 0 where
  pub message : Option Message
  pub error : Option ReadError
  pub reader : Reader

unfoldable pub read_header : Reader → Result ReadError Message × Reader
unfolding read_full
read_header r =
    let (res, r') = read_full 20 r in
    elim res [
      | err e ↦ (err (header_error e.0), r')
      | ok b ↦
          let len = or_uint24 (byte_at b 1) (byte_at b 2) (byte_at b 3) in
          if ltb len 20
          then (err short_length, r')
          else (ok (record { length = len; header = b; body = [] }), r')
    ]

unfoldable pub read_body : Message → Reader → ReadResult
unfolding read_full
read_body m r =
    let (res, r') = read_full (m.length - 20) r in
    if leb m.length 20
    then record { message = some (record m { body = [] }); error = none; reader = r }
    else elim res [
      | err e ↦ record { message = some m; error = some (body_error e.0 e.1); reader = r' }
      | ok b ↦ record { message = some (record m { body = b }); error = none; reader = r' }
    ]

unfoldable pub read_message : Reader → ReadResult
read_message r =
    let (res, r') = read_header r in
    elim res [
      | err e ↦ record { message = none; error = some e; reader = r' }
      | ok m ↦ read_body m r'
    ]

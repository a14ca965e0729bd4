-- ===== src/Wire/Streams.antt =====
-- pkg/connection/message.go: a stream as the messages that it begins with, and how it ends.
use diam_gw.Prelude.{
  ℕ, zero, suc, ◌<◌, ◌≡◌, ap, List, [], ◌∷◌, ◌++◌, length, length-append, some, arith, Option-cases,
  inl, inr,
}
use diam_gw.Wire.Reader.{Reader, Message, ReadError}
use diam_gw.Wire.Framing.{expected_error, IsMessage, read_message-found}

-- A stream has these messages, one behind the other, and then bytes on which a read fails so.
pub data Streams (e : ReadError) : List Message → Reader → Type 0 where
  ends : (r : Reader) → expected_error r ≡ some e → Streams e [] r
  reads :
      (m : Message) (ms : List Message) (r rest : Reader)
      → IsMessage m
      → r.bytes ≡ m.header ++ (m.body ++ rest.bytes)
      → rest.fault ≡ r.fault
      → Streams e ms rest
      → Streams e (m ∷ ms) r

streams_within :
    (n : ℕ) (r : Reader)
    → length r.bytes < n
    → (ms : List Message) × (e : ReadError) × Streams e ms r
streams_within zero r h = absurd (omega arith)
streams_within (suc n) r h = elim (Option-cases (expected_error r)) [
  | inr (e, f) ↦ ([], e, ends r f)
  | inl f ↦
      let (m, rest, _, cut_off, fault, is_message) = read_message-found r f in
      let (ms, e, more) = streams_within n rest (
        omega (
          arith,
          ap length cut_off,
          length-append m.header (m.body ++ rest.bytes),
          length-append m.body rest.bytes,
          is_message.header_20,
        )) in
      (m ∷ ms, e, reads m ms r rest is_message cut_off fault more)
]

-- Every stream is a sequence of messages and an error.
pub streams : (r : Reader) → (ms : List Message) × (e : ReadError) × Streams e ms r
streams r = streams_within (suc (length r.bytes)) r (omega arith)

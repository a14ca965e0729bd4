-- ===== src/Wire/Framing.antt =====
-- Reading messages from a stream: what is returned, what is consumed, and when reading fails.
use diam_gw.Prelude.{
  ℕ, zero, suc, ◌+◌, ◌-◌, ◌/◌, ◌%◌, ◌^◌, ◌≤◌, ◌<◌, ◌≡◌, refl, ap, ◌∙◌, sym, List, [], ◌∷◌, ◌++◌,
  length, take, drop, take-append, drop-append, take-append-drop, length-take, length-drop,
  length-append, Option, none, some, byte_at, or_uint24, or_uint24-sum, ltb, le→leb, lt→leb, ok,
  err, arith, IsU24, if◌then◌else◌,
}
use native.Mathlib.Decide.{dec_lt}
use diam_gw.Wire.Reader.{
  Reader, Message, ReadError, ReadResult, IoError, header_error, short_length, body_error,
  read_full, read_header, read_body, cut_short, read_message,
}
use diam_gw.Wire.Parsing.{Header, IsHeader, print_header}

abbrev with_bytes : Reader → List ℕ → Reader
with_bytes r bs = record r { bytes = bs }

pub read_full-append :
    (n : ℕ) (xs ys : List ℕ) (e : IoError)
    → length xs ≡ n
    → read_full n (record { bytes = xs ++ ys; fault = e })
      ≡ (ok xs, record { bytes = ys; fault = e })
unfolding read_full
read_full-append n xs ys e h = rw (← h) (
    rw (le→leb (length xs) (length (xs ++ ys)) (omega (arith, length-append xs ys)))
      (rw (take-append, drop-append)))

or_uint24-print : (l : ℕ) → IsU24 l → or_uint24 (l / 2 ^ 16 % 256) (l / 2 ^ 8 % 256) (l % 256) ≡ l
or_uint24-print l v =
    or_uint24-sum (l / 2 ^ 16 % 256) (l / 2 ^ 8 % 256) (l % 256) (omega arith) (omega arith)
    ∙ omega arith

-- The length that a header states.
abbrev stated : List ℕ → ℕ
stated b = or_uint24 (byte_at b 1) (byte_at b 2) (byte_at b 3)

read_header-append :
    (b rest : List ℕ) (e : IoError)
    → length b ≡ 20
    → 20 ≤ stated b
    → read_header (record { bytes = b ++ rest; fault = e }) ≡ (
      ok (record { length = stated b; header = b; body = [] }),
      record { bytes = rest; fault = e },
    )
unfolding read_header
read_header-append b rest e n long = ground (arith, read_full-append 20 b rest e n)

read_body-append :
    (l : ℕ) (b body rest : List ℕ) (e : IoError)
    → l ≡ 20 + length body
    → read_body
        (record { length = l; header = b; body = [] })
        (record { bytes = body ++ rest; fault = e })
      ≡ record {
        message = some (record { length = l; header = b; body = body });
        error = none;
        reader = record { bytes = rest; fault = e };
      }
unfolding read_body
read_body-append l b [] rest e n = rw (le→leb l 20 (omega arith))
read_body-append l b (x ∷ body) rest e n =
    ground (arith, read_full-append (l - 20) (x ∷ body) rest e (omega arith))

stated-print_header : (h : Header) → IsHeader h → stated (print_header h) ≡ h.length
unfolding print_header
stated-print_header h v = or_uint24-print h.length v.length_24

length-print_header : (h : Header) → length (print_header h) ≡ 20
unfolding print_header
length-print_header h = refl

-- Reading a stream that begins with a message gives its header and its body, and leaves what
-- follows the message in the stream.
pub read_message-print :
    (h : Header) (body rest : List ℕ) (e : IoError)
    → IsHeader h
    → h.length ≡ 20 + length body
    → read_message (record { bytes = print_header h ++ (body ++ rest); fault = e }) ≡ record {
      message = some (record { length = h.length; header = print_header h; body = body });
      error = none;
      reader = record { bytes = rest; fault = e };
    }
unfolding read_message
read_message-print h body rest e v l = ground (
  arith,
  stated-print_header h v,
  read_header-append (print_header h) (body ++ rest) e (length-print_header h) covers,
  read_body-append h.length (print_header h) body rest e l,
)
  where
    covers : 20 ≤ stated (print_header h)
    covers = rw (stated-print_header h v) (omega arith)

read_full-enough :
    (n : ℕ) (r : Reader)
    → n ≤ length r.bytes
    → read_full n r ≡ (ok (take n r.bytes), record r { bytes = drop n r.bytes })
unfolding read_full
read_full-enough n r h = rw (le→leb n (length r.bytes) h)

-- How a read of a stream that has too little left ends.
abbrev cut : Reader → IoError × ℕ
cut r = (cut_short (length r.bytes) r.fault, length r.bytes)

read_full-short :
    (n : ℕ) (r : Reader)
    → length r.bytes < n
    → read_full n r ≡ (err (cut r), record r { bytes = [] })
unfolding read_full
read_full-short n r h = rw (lt→leb n (length r.bytes) h)

byte_at-take : (n i : ℕ) (b : List ℕ) → i < n → byte_at (take n b) i ≡ byte_at b i
byte_at-take zero i b h = absurd (omega arith)
byte_at-take (suc n) i [] h = refl
byte_at-take (suc n) zero (x ∷ b) h = refl
byte_at-take (suc n) (suc i) (x ∷ b) h = byte_at-take n i b (omega arith)

stated-take : (b : List ℕ) → stated (take 20 b) ≡ stated b
stated-take b =
    rw (byte_at-take 20 1 b (omega arith))
      (rw (byte_at-take 20 2 b (omega arith)) (rw (byte_at-take 20 3 b (omega arith))))

-- A header was read: the message with no body yet, and the stream behind its 20 bytes.
header_read : Reader → Message
header_read r = record { length = stated r.bytes; header = take 20 r.bytes; body = [] }

read_header-long :
    (r : Reader)
    → 20 ≤ length r.bytes
    → 20 ≤ stated r.bytes
    → read_header r ≡ (ok (header_read r), record r { bytes = drop 20 r.bytes })
unfolding read_header header_read
read_header-long r h l = ground (arith, read_full-enough 20 r h, stated-take r.bytes)

read_header-short :
    (r : Reader)
    → length r.bytes < 20
    → read_header r
      ≡ (err (header_error (cut_short (length r.bytes) r.fault)), record r { bytes = [] })
unfolding read_header
read_header-short r h = ground (arith, read_full-short 20 r h)

read_header-low :
    (r : Reader)
    → 20 ≤ length r.bytes
    → stated r.bytes < 20
    → read_header r ≡ (err short_length, record r { bytes = drop 20 r.bytes })
unfolding read_header
read_header-low r h l = ground (arith, read_full-enough 20 r h, stated-take r.bytes)

read_body-enough :
    (m : Message) (r : Reader)
    → 20 ≤ m.length
    → m.length ≤ 20 + length r.bytes
    → read_body m r ≡ record {
      message = some (record m { body = take (m.length - 20) r.bytes });
      error = none;
      reader = record r { bytes = drop (m.length - 20) r.bytes };
    }
unfolding read_body
read_body-enough m r h l = elim (dec_lt 20 m.length) [
  | yes more ↦ ground (arith, read_full-enough (m.length - 20) r)
  | no none_left ↦
      let nothing : m.length - 20 ≡ 0 = omega arith in
      rw (le→leb m.length 20 (omega arith)) (rw nothing)
]

-- The error of a read, from the bytes that the stream has left: fewer than 20, a stated length of
-- less than 20, or fewer bytes than are stated.
abbrev pub expected_error : Reader → Option ReadError
expected_error r =
    let n = length r.bytes in
    if ltb n 20
    then some (header_error (cut_short n r.fault))
    else if ltb (stated r.bytes) 20
    then some short_length
    else if ltb n (stated r.bytes)
    then some (body_error (cut_short (n - 20) r.fault) (n - 20))
    else none

read_body_error :
    (m : Message) (r : Reader)
    → 20 ≤ m.length
    → (read_body m r).error ≡ (
        if ltb (20 + length r.bytes) m.length
        then some (body_error (cut_short (length r.bytes) r.fault) (length r.bytes))
        else none)
unfolding read_body
read_body_error m r h =
    ground (arith, read_full-enough (m.length - 20) r, read_full-short (m.length - 20) r)

-- On every stream the read fails exactly with the error expected from the bytes that are left, and
-- with none where a whole message is left.
pub read_message_error : (r : Reader) → (read_message r).error ≡ expected_error r
unfolding read_message header_read
read_message_error r = elim (dec_lt (length r.bytes) 20) [
  | yes short ↦ ground (arith, read_header-short r short)
  | no long ↦ elim (dec_lt (stated r.bytes) 20) [
    | yes low ↦ ground (arith, read_header-low r (omega arith) low)
    | no covers ↦ ground (
      arith,
      read_header-long r (omega arith) (omega arith),
      length-drop 20 r.bytes,
      read_body_error (header_read r) (record r { bytes = drop 20 r.bytes }) (omega arith),
    )
  ]
]

-- The result of reading a whole message.
whole : Reader → ReadResult
whole r = record {
  message = some (record {
    length = stated r.bytes;
    header = take 20 r.bytes;
    body = take (stated r.bytes - 20) (drop 20 r.bytes);
  });
  error = none;
  reader = record r { bytes = drop (stated r.bytes - 20) (drop 20 r.bytes) };
}

abbrev HasMessage : Reader → Type 0
HasMessage r = (20 ≤ stated r.bytes) × (stated r.bytes ≤ length r.bytes)

read_message-whole : (r : Reader) → HasMessage r → read_message r ≡ whole r
unfolding read_message header_read whole
read_message-whole r (covers, there) = ground (
  arith,
  read_header-long r (omega arith) covers,
  length-drop 20 r.bytes,
  read_body-enough (header_read r) (record r { bytes = drop 20 r.bytes }) covers,
)

HasMessage-expected_error : (r : Reader) → expected_error r ≡ none → HasMessage r
HasMessage-expected_error r e = (ground arith, ground arith)

-- A message that is read without error is a prefix of the stream: its header is 20 bytes, its
-- stated length that of header and body, and the stream keeps exactly what follows.
pub read_message_prefix :
    (r : Reader) (m : Message)
    → (read_message r).message ≡ some m
    → (read_message r).error ≡ none
    → (m.header ++ (m.body ++ (read_message r).reader.bytes) ≡ r.bytes)
      × (length m.header ≡ 20)
      × (m.length ≡ 20 + length m.body)
unfolding whole
read_message_prefix r m e f =
    let there = HasMessage-expected_error r (sym (read_message_error r) ∙ f) in
    let is_whole = read_message-whole r there in
    let b = drop 20 r.bytes in
    let n = stated r.bytes - 20 in
    ground (
      arith,
      is_whole,
      there,
      take-append-drop n b,
      take-append-drop 20 r.bytes,
      length-take 20 r.bytes,
      length-take n b,
      length-drop 20 r.bytes,
    )

-- A message as it is read: 20 bytes of header, which state its length, and a body of the rest.
pub record IsMessage (m : Message) : Type 0 where
  pub header_20 : length m.header ≡ 20
  pub length_whole : m.length ≡ 20 + length m.body
  pub states : stated m.header ≡ m.length

-- A read without an error gives a message, which is cut off the stream.
pub read_message-found :
    (r : Reader)
    → expected_error r ≡ none
    → (m : Message) × (rest : Reader) × (read_message r
        ≡ record { message = some m; error = none; reader = rest })
      × (r.bytes ≡ m.header ++ (m.body ++ rest.bytes))
      × (rest.fault ≡ r.fault)
      × IsMessage m
unfolding whole
read_message-found r f =
    let is_whole = read_message-whole r (HasMessage-expected_error r f) in
    let is_read = ap (λ q. q.message) is_whole in
    let (cut_off, is_20, is_long) = read_message_prefix r _ is_read (read_message_error r ∙ f) in
    (
      _,
      _,
      is_whole,
      sym cut_off
          ∙ ap
              (λ q.
                take 20 r.bytes ++ (take (stated r.bytes - 20) (drop 20 r.bytes) ++ q.reader.bytes))
              is_whole,
      refl,
      record { header_20 = is_20; length_whole = is_long; states = stated-take r.bytes },
    )

-- A message at the front of a stream is what is read.
pub read_message-IsMessage :
    (m : Message) (r rest : Reader)
    → IsMessage m
    → r.bytes ≡ m.header ++ (m.body ++ rest.bytes)
    → rest.fault ≡ r.fault
    → read_message r ≡ record { message = some m; error = none; reader = rest }
unfolding read_message
read_message-IsMessage m r rest v c g =
    let r_is : r ≡ record { bytes = m.header ++ (m.body ++ rest.bytes); fault = rest.fault } =
      ground (arith, c, g) in
    rw (r_is) (
      ground (
        arith,
        read_header-append m.header (m.body ++ rest.bytes) rest.fault v.header_20
            (omega (arith, v.states, v.length_whole)),
        read_body-append m.length m.header m.body rest.bytes rest.fault v.length_whole,
        v.states,
      ))

-- ===== src/Dra/Framing.antt =====
-- The messages that readMessage of the agent accepts from a peer's connection.
use diam_gw.Prelude.{
  ℕ, ◌+◌, ◌-◌, ◌^◌, ◌≤◌, ◌≡◌, ◌↔◌, refl, sym, ap, ◌∙◌, List, ◌++◌, length, take, drop, leb, byte_at,
  or_uint24, Result, ok, arith, inl, inr, Bool-cases, Result-cases, take-append-drop, length-take,
  append_assoc, length-append, byte_at-append_left,
}
use mathlib.Core.Path.{subst}
use diam_gw.Wire.Reader.{Reader, IoError, read_full}
use diam_gw.Wire.Framing.{read_full-append}
use diam_gw.Dra.Peers.{read_rest, read_message}

-- The length that a message's first bytes state.
abbrev stated : List ℕ → ℕ
stated b = or_uint24 (byte_at b 1) (byte_at b 2) (byte_at b 3)

-- A message that the agent takes: of version 1, of 20 bytes to a mebibyte, with its own length stated.
pub record IsFrame (msg : List ℕ) : Type 0 where
  pub version_1 : byte_at msg 0 ≡ 1
  pub stated_length : stated msg ≡ length msg
  pub long : 20 ≤ length msg
  pub plausible : length msg ≤ 2 ^ 20

read_full_ok :
    (n : ℕ) (r : Reader) (b : List ℕ)
    → (read_full n r).0 ≡ ok b
    → (r.bytes ≡ b ++ (read_full n r).1.bytes)
      × (length b ≡ n)
      × ((read_full n r).1.fault ≡ r.fault)
unfolding read_full
read_full_ok n r b h = elim (Bool-cases (leb n (length r.bytes))) [
  | inl enough ↦
      let e : take n r.bytes ≡ b = (let e' = rw enough at h in cc) in
      rw enough
        (rw (← e) ((sym (take-append-drop n r.bytes), ground (arith, length-take n r.bytes), refl)))
  | inr short ↦ absurd (let e = rw short at h in cc)
]

read_rest_accepts :
    (b msg : List ℕ) (r r' : Reader)
    → read_rest b r ≡ (ok msg, r')
    → (body : List ℕ) × (((read_full (stated b - 4) r).0 ≡ ok body)
        × (msg ≡ b ++ body)
        × (byte_at b 0 ≡ 1)
        × (20 ≤ stated b)
        × (stated b ≤ 2 ^ 20)
        × (r' ≡ (read_full (stated b - 4) r).1))
unfolding read_rest
read_rest_accepts b msg r r' h = elim (Result-cases (read_full (stated b - 4) r).0) [
  | inl (body, e) ↦ (body, (let h' = rw e at h in ground arith))
  | inr (f, e) ↦ absurd (let h' = rw e at h in ground arith)
]

stated-append : (b body : List ℕ) → length b ≡ 4 → stated (b ++ body) ≡ stated b
stated-append b body n = λ i.
    or_uint24 (byte_at-append_left b body 1 (omega arith) i)
      (byte_at-append_left b body 2 (omega arith) i) (byte_at-append_left b body 3 (omega arith) i)

append-IsFrame :
    (b body : List ℕ)
    → length b ≡ 4
    → length body ≡ stated b - 4
    → byte_at b 0 ≡ 1
    → 20 ≤ stated b
    → stated b ≤ 2 ^ 20
    → IsFrame (b ++ body)
append-IsFrame b body n m one lo hi =
    let at = stated-append b body n in
    let size = length-append b body in
    record {
      version_1 = byte_at-append_left b body 0 (omega arith) ∙ one;
      stated_length = omega (arith, at, size);
      long = omega (arith, at, size);
      plausible = omega (arith, at, size);
    }

read_message_takes :
    (r r' : Reader) (msg : List ℕ)
    → read_message r ≡ (ok msg, r')
    → IsFrame msg × (r.bytes ≡ msg ++ r'.bytes) × (r'.fault ≡ r.fault)
unfolding read_message
read_message_takes r r' msg h = elim (Result-cases (read_full 4 r).0) [
  | inl (b, e) ↦
      let (body, (e', is_msg, one, lo, hi, left)) =
        read_rest_accepts b msg (read_full 4 r).1 r' (rw (read_message, e) at h) in
      let (all, n, same) = read_full_ok 4 r b e in
      let (all', m, same') = read_full_ok (stated b - 4) (read_full 4 r).1 body e' in
      (
        rw is_msg (append-IsFrame b body n m one lo hi),
        all
            ∙ ap (λ t. b ++ t) (all' ∙ ap (λ (x : Reader). body ++ x.bytes) (sym left))
            ∙ sym (append_assoc b body r'.bytes)
            ∙ ap (λ t. t ++ r'.bytes) (sym is_msg),
        ap (λ (x : Reader). x.fault) left ∙ same' ∙ same,
      )
  | inr (f, e) ↦ absurd (let h' = rw (read_message, e) at h in cc)
]

read_rest_gives :
    (b body rest : List ℕ) (e : IoError)
    → IsFrame (b ++ body)
    → length b ≡ 4
    → read_rest b (record { bytes = body ++ rest; fault = e })
      ≡ (ok (b ++ body), record { bytes = rest; fault = e })
unfolding read_rest
read_rest_gives b body rest e v n =
    let at = stated-append b body n in
    let size = length-append b body in
    let sized : stated b ≡ 4 + length body = omega (arith, at, size, v.stated_length) in
    let one : byte_at b 0 ≡ 1 = sym (byte_at-append_left b body 0 (omega arith)) ∙ v.version_1 in
    let reads = read_full-append (stated b - 4) body rest e (omega arith) in
    rw reads (ground (arith, v.long, v.plausible))

read_message_gives :
    (r r' : Reader) (msg : List ℕ)
    → IsFrame msg
    → r.bytes ≡ msg ++ r'.bytes
    → r'.fault ≡ r.fault
    → read_message r ≡ (ok msg, r')
unfolding read_message
read_message_gives r r' msg v h f =
    let b = take 4 msg in
    let body = drop 4 msg in
    let parts : b ++ body ≡ msg = take-append-drop 4 msg in
    let n : length b ≡ 4 = omega (arith, length-take 4 msg, v.long) in
    let reads = read_full-append 4 b (body ++ r'.bytes) r'.fault n in
    let shape : r ≡ record { bytes = b ++ (body ++ r'.bytes); fault = r'.fault } = λ i. record {
      bytes = (h ∙ ap (λ t. t ++ r'.bytes) (sym parts) ∙ append_assoc b body r'.bytes) i;
      fault = sym f i;
    } in
    rw shape (
      rw (read_message, reads)
        (ap (λ (x : Result (IoError × ℕ) (List ℕ) × Reader). read_rest b x.1) reads
          ∙ read_rest_gives b body r'.bytes r'.fault (subst IsFrame (sym parts) v) n
          ∙ ap (λ m. (ok m, r')) parts))

-- A message is read just if the stream starts with it, it states version 1 and its own length, and that length is
-- from 20 bytes to a mebibyte; the stream is then left behind it.
pub read_message_accepts :
    (r r' : Reader) (msg : List ℕ)
    → (read_message r ≡ (ok msg, r'))
      ↔ (IsFrame msg × (r.bytes ≡ msg ++ r'.bytes) × (r'.fault ≡ r.fault))
read_message_accepts r r' msg =
    (read_message_takes r r' msg, λ (v, h, f). read_message_gives r r' msg v h f)

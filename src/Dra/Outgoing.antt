-- ===== src/Dra/Outgoing.antt =====
-- The header of a message that the agent sends on: the length, and the hop-by-hop id.
use diam_gw.Prelude.{
  ℕ, zero, suc, ◌+◌, ◌%◌, ◌^◌, ◌≤◌, ◌<◌, ◌≡◌, refl, sym, ap, ◌∙◌, List, [], ◌∷◌, ◌++◌, length, take,
  drop, byte_at, slice, uint32, put_uint24, put_uint32, uint32-put_uint32, or_uint24, All, arith,
  le→ltb, length-append, take-append, drop-append, take-append-drop, length-take, length-drop,
  append_assoc, IsU24, IsU32, byte_at-append_left, slice-append_left,
}
use native.Mathlib.Nat.{zero-add, suc-add}
use diam_gw.Dra.Outcome.{ok}
use diam_gw.Dra.Header.{ParsedHeader, header_view, parse_header, set_hop_by_hop}
use diam_gw.Dra.Rewrite.{rewrite_origin_host_realm}
use diam_gw.Dra.Layout.{WireAvp, IsWireAvp, or_uint24-put_uint24, slice_start}
use diam_gw.Dra.Iterate.{print_avps, length-print_avps_mod}
use diam_gw.Dra.Origin.{length-set_length, forwarded-IsWireAvp}
use diam_gw.Dra.Proxy.{forwarded, set_length, rewrite_origin_host_realm-print}

-- The header lies in the first twenty bytes.
pub header_view-append : (h body : List ℕ) → 20 ≤ length h → header_view (h ++ body) ≡ header_view h
unfolding header_view
header_view-append h body n = λ i. record {
  version = byte_at-append_left h body 0 (omega arith) i;
  length =
      or_uint24 (byte_at-append_left h body 1 (omega arith) i)
        (byte_at-append_left h body 2 (omega arith) i)
        (byte_at-append_left h body 3 (omega arith) i);
  flags = byte_at-append_left h body 4 (omega arith) i;
  command_code =
      or_uint24 (byte_at-append_left h body 5 (omega arith) i)
        (byte_at-append_left h body 6 (omega arith) i)
        (byte_at-append_left h body 7 (omega arith) i);
  application_id = uint32 (slice-append_left h body 8 12 (omega arith) (omega arith) i);
  hop_by_hop_id = uint32 (slice-append_left h body 12 16 (omega arith) (omega arith) i);
  end_to_end_id = uint32 (slice-append_left h body 16 20 (omega arith) n i);
}

header_view-set_length :
    (h : List ℕ) (n : ℕ)
    → 20 ≤ length h
    → IsU24 n
    → header_view (set_length h n) ≡ record (header_view h) { length = n }
unfolding header_view set_length put_uint24 slice
header_view-set_length [] n l u = absurd (omega arith)
header_view-set_length (a ∷ []) n l u = absurd (omega arith)
header_view-set_length (a ∷ b ∷ []) n l u = absurd (omega arith)
header_view-set_length (a ∷ b ∷ c ∷ []) n l u = absurd (omega arith)
header_view-set_length (a ∷ b ∷ c ∷ d ∷ t) n l u = λ i. record {
  version = a;
  length = or_uint24-put_uint24 n u i;
  flags = byte_at t 0;
  command_code = or_uint24 (byte_at t 1) (byte_at t 2) (byte_at t 3);
  application_id = uint32 (take 4 (drop 4 t));
  hop_by_hop_id = uint32 (take 4 (drop 8 t));
  end_to_end_id = uint32 (take 4 (drop 12 t));
}

pub parse_header-long : (b : List ℕ) → 20 ≤ length b → parse_header b ≡ ok (header_view b)
unfolding parse_header
parse_header-long b h = rw (le→ltb (length b) 20 h)

-- The message that the agent forwards has the header of the original, with the length that it has
-- itself: a multiple of four. (As long as that length fits 24 bits.)
pub parse_header-rewrite_origin_host_realm :
    (h host realm : List ℕ) (avps : List WireAvp)
    → length h ≡ 20
    → All IsWireAvp avps
    → length host + 8 < 2 ^ 24
    → length realm + 8 < 2 ^ 24
    → 20 + length (print_avps (forwarded host realm avps)) < 2 ^ 24
    → (out : List ℕ) × (rewrite_origin_host_realm (h ++ print_avps avps) host realm ≡ ok out)
      × (parse_header out ≡ ok (record (header_view h) { length = length out }))
      × (length out % 4 ≡ 0)
parse_header-rewrite_origin_host_realm h host realm avps n v hl rl fits =
    let next = forwarded host realm avps in
    let size = 20 + length (print_avps next) in
    let h' = set_length h size in
    let twenty = length-set_length h size n in
    let sized : length (h' ++ print_avps next) ≡ size =
      omega (arith, length-append h' (print_avps next), twenty) in
    (
      h' ++ print_avps next,
      rewrite_origin_host_realm-print host realm h avps n v,
      parse_header-long (h' ++ print_avps next) (omega (arith, sized))
          ∙ ap ok (
              header_view-append h' (print_avps next) (omega (arith, twenty))
              ∙ header_view-set_length h size (omega (arith, n)) fits
              ∙ ap (λ k. record (header_view h) { length = k }) (sym sized)),
      omega
          (arith, sized, length-print_avps_mod next (forwarded-IsWireAvp host realm avps hl rl v)),
    )

slice_at : (k : ℕ) (xs ys : List ℕ) → length xs ≡ k → slice (xs ++ ys) k (k + 4) ≡ take 4 ys
slice_at k xs ys e = rw (← e) (slice_start xs ys 4)

-- A message by its first twelve bytes, its hop-by-hop id and the rest.
module _ (p w r : List ℕ) (twelve : length p ≡ 12) (four : length w ≡ 4) where
  byte_of : (i : ℕ) → i < 12 → byte_at (p ++ (w ++ r)) i ≡ byte_at p i
  byte_of i h = byte_at-append_left p (w ++ r) i (omega arith)

  view_of : ParsedHeader
  view_of = record {
    version = byte_at p 0;
    length = or_uint24 (byte_at p 1) (byte_at p 2) (byte_at p 3);
    flags = byte_at p 4;
    command_code = or_uint24 (byte_at p 5) (byte_at p 6) (byte_at p 7);
    application_id = uint32 (slice p 8 12);
    hop_by_hop_id = uint32 w;
    end_to_end_id = uint32 (take 4 r);
  }

  at_hop : slice (p ++ (w ++ r)) 12 16 ≡ w
  at_hop = slice_at 12 p (w ++ r) twelve ∙ (rw four at (take-append w r))

  at_end : slice (p ++ (w ++ r)) 16 20 ≡ take 4 r
  at_end = rw (← append_assoc) (slice_at 16 (p ++ w) r (omega (arith, length-append p w)))

  header_view-parts : header_view (p ++ (w ++ r)) ≡ view_of
  unfolding header_view view_of
  header_view-parts = λ i. record {
    version = byte_of 0 (omega arith) i;
    length =
        or_uint24 (byte_of 1 (omega arith) i) (byte_of 2 (omega arith) i)
          (byte_of 3 (omega arith) i);
    flags = byte_of 4 (omega arith) i;
    command_code =
        or_uint24 (byte_of 5 (omega arith) i) (byte_of 6 (omega arith) i)
          (byte_of 7 (omega arith) i);
    application_id = uint32 (slice-append_left p (w ++ r) 8 12 (omega arith) (omega arith) i);
    hop_by_hop_id = uint32 (at_hop i);
    end_to_end_id = uint32 (at_end i);
  }

  rest-parts : drop 16 (p ++ (w ++ r)) ≡ r
  rest-parts =
      rw (← append_assoc) (rw (length-append p w, twelve, four) at (drop-append (p ++ w) r))

drop-nil : (n : ℕ) → drop {A = ℕ} n [] ≡ []
drop-nil zero = refl
drop-nil (suc n) = refl

drop-drop : (m n : ℕ) (xs : List ℕ) → drop n (drop m xs) ≡ drop (m + n) xs
drop-drop zero n xs = rw zero-add
drop-drop (suc m) n [] = rw suc-add (drop-nil n)
drop-drop (suc m) n (x ∷ xs) = rw suc-add (drop-drop m n xs)

-- Every message of twenty bytes or more has these parts.
parts_of : (msg : List ℕ) → take 12 msg ++ (take 4 (drop 12 msg) ++ drop 16 msg) ≡ msg
parts_of msg =
    ap (λ r. take 12 msg ++ (take 4 (drop 12 msg) ++ r)) (sym (drop-drop 12 4 msg))
    ∙ ap (λ r. take 12 msg ++ r) (take-append-drop 4 (drop 12 msg))
    ∙ take-append-drop 12 msg

-- Replacing the hop-by-hop id changes no other field of the header, nor what follows the header.
pub parse_header-set_hop_by_hop :
    (msg : List ℕ) (id : ℕ)
    → 20 ≤ length msg
    → IsU32 id
    → (out : List ℕ) × (set_hop_by_hop msg id ≡ ok out)
      × (parse_header out ≡ ok (record (header_view msg) { hop_by_hop_id = id }))
      × (drop 20 out ≡ drop 20 msg)
unfolding set_hop_by_hop put_uint32 view_of
parse_header-set_hop_by_hop msg id n u = (
  out,
  rw (le→ltb (length msg) 16 (omega arith)),
  parse_header-long out long
      ∙ ap ok (
          header_view-parts p (put_uint32 id) r twelve four
          ∙ renumbered
          ∙ ap {A = ParsedHeader} (λ v. record v { hop_by_hop_id = id }) viewed),
  sym (drop-drop 16 4 out)
      ∙ ap (drop 4) (rest-parts p (put_uint32 id) r twelve four)
      ∙ drop-drop 16 4 msg,
)
  where
    p : List ℕ
    p = take 12 msg

    r : List ℕ
    r = drop 16 msg

    out : List ℕ
    out = p ++ (put_uint32 id ++ r)

    twelve : length (take 12 msg) ≡ 12
    twelve = omega (arith, length-take 12 msg)

    four : length (put_uint32 id) ≡ 4
    four = refl

    long : 20 ≤ length (take 12 msg ++ (put_uint32 id ++ drop 16 msg))
    long = omega (
      arith,
      length-append (take 12 msg) (put_uint32 id ++ drop 16 msg),
      length-append (put_uint32 id) (drop 16 msg),
      twelve,
      four,
      length-drop 16 msg,
    )

    w : List ℕ
    w = take 4 (drop 12 msg)

    w_four : length (take 4 (drop 12 msg)) ≡ 4
    w_four = omega (arith, length-take 4 (drop 12 msg), length-drop 12 msg)

    viewed :
        view_of (take 12 msg) (take 4 (drop 12 msg)) (drop 16 msg) twelve w_four ≡ header_view msg
    viewed =
        sym (header_view-parts (take 12 msg) (take 4 (drop 12 msg)) (drop 16 msg) twelve w_four)
        ∙ ap header_view (parts_of msg)

    renumbered :
        view_of (take 12 msg) (put_uint32 id) (drop 16 msg) twelve four
        ≡ record (view_of (take 12 msg) (take 4 (drop 12 msg)) (drop 16 msg) twelve w_four) {
          hop_by_hop_id = id;
        }
    renumbered =
        ap
          (λ k. record (view_of (take 12 msg) (take 4 (drop 12 msg)) (drop 16 msg) twelve w_four) {
            hop_by_hop_id = k;
          })
          (uint32-put_uint32 id [] u)

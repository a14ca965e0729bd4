-- ===== src/Dra/Iterate.antt =====
-- The walk over the AVPs of a message: it ends on every input, and over well-formed AVPs it calls
-- the callback once for each, in order.
use diam_gw.Prelude.{
  ℕ, zero, suc, ◌+◌, ◌%◌, ◌≤◌, ◌<◌, ◌≡◌, ◌≢◌, refl, sym, ap, ◌∙◌, List, [], ◌∷◌, ◌++◌, length, All,
  arith, length-append, append_assoc, Bool-cases, inl, inr, ltb, lt→ltb, le→ltb, ◌⊎◌,
}
use diam_gw.Dra.Outcome.{Outcome, Error, ok, err, panic, stuck, ◌>>=◌}
use diam_gw.Dra.Avp.{Avp, pad_up, read_avp, avp_loop, iterate_avps}
use diam_gw.Dra.Layout.{
  WireAvp, IsWireAvp, total_of, print_avp, entry, length-print_avp, read_avp-print,
}

pub pad_up_bounds : (n : ℕ) → (n ≤ pad_up n) × (pad_up n < n + 4) × (pad_up n % 4 ≡ 0)
unfolding pad_up
pad_up_bounds n = ground arith

Outcome-cases {ℓ} :
    {A : Type ℓ} (r : Outcome A)
    → ((a : A) × (r ≡ ok a)) ⊎ ((e : Error) × (r ≡ err e)) ⊎ (r ≡ panic) ⊎ (r ≡ stuck)
Outcome-cases (ok a) = inl (a, refl)
Outcome-cases (err e) = inr (inl (e, refl))
Outcome-cases panic = inr (inr (inl refl))
Outcome-cases stuck = inr (inr (inr refl))

pub >>=-cong {ℓ κ} :
    {A : Type ℓ} {B : Type κ} (m : Outcome A) (f g : A → Outcome B)
    → ((a : A) → f a ≡ g a)
    → (m >>= f) ≡ (m >>= g)
>>=-cong (ok a) f g h = h a
>>=-cong (err e) f g h = refl
>>=-cong panic f g h = refl
>>=-cong stuck f g h = refl

>>=-ne-stuck {ℓ κ} :
    {A : Type ℓ} {B : Type κ} (m : Outcome A) (f : A → Outcome B)
    → m ≢ stuck
    → ((a : A) → m ≡ ok a → f a ≢ stuck)
    → (m >>= f) ≢ stuck
>>=-ne-stuck (ok a) f h k = k a refl
>>=-ne-stuck (err e) f h k = λ q. cc
>>=-ne-stuck panic f h k = λ q. cc
>>=-ne-stuck stuck f h k = λ q. h refl

read_avp-ne-stuck : (msg : List ℕ) (pos : ℕ) → read_avp msg pos ≢ stuck
unfolding read_avp
read_avp-ne-stuck msg pos = λ q. ground arith

read_avp_advances :
    (msg : List ℕ) (pos : ℕ) (a : Avp) → read_avp msg pos ≡ ok a → 8 ≤ a.loc.padded_to
unfolding read_avp pad_up
read_avp_advances msg pos a e = ground arith

module _ {ℓ} {S : Type ℓ} (fn : S → Avp → Outcome S) where
  avp_loop-ne-stuck :
      (msg : List ℕ)
      → ((s : S) (a : Avp) → fn s a ≢ stuck)
      → (fuel : ℕ) (s : S) (pos : ℕ) → length msg ≤ pos + fuel
      → avp_loop msg fn fuel s pos ≢ stuck
  unfolding avp_loop
  avp_loop-ne-stuck msg h zero s pos enough = rw (le→ltb pos (length msg) (omega arith)) (λ q. cc)
  avp_loop-ne-stuck msg h (suc fuel) s pos enough = elim (Bool-cases (ltb pos (length msg))) [
    | inl more ↦ rw more (
        >>=-ne-stuck (read_avp msg pos) _ (read_avp-ne-stuck msg pos) λ a e.
          >>=-ne-stuck (fn s a) _ (h s a) λ s' _.
            avp_loop-ne-stuck msg h fuel s' (pos + a.loc.padded_to)
              (omega (arith, read_avp_advances msg pos a e)))
    | inr done ↦ rw done (λ q. cc)
  ]

  -- The walk ends on every message, well formed or not, for any callback that ends: the fuel of the
  -- model, one round for each byte, is always enough.
  pub iterate_avps-ne-stuck :
      (msg : List ℕ) (s : S) → ((s : S) (a : Avp) → fn s a ≢ stuck) → iterate_avps msg fn s ≢ stuck
  unfolding iterate_avps
  iterate_avps-ne-stuck msg s h = elim (Bool-cases (ltb (length msg) 20)) [
    | inl short ↦ rw short (λ q. cc)
    | inr long ↦ rw long (avp_loop-ne-stuck msg h (length msg) s 20 (omega arith))
  ]

  -- The callback over a list of AVPs, the first of which lies at `pos`.
  unfoldable pub fold_avps : S → ℕ → List WireAvp → Outcome S
  fold_avps s pos [] = ok s
  fold_avps s pos (a ∷ avps) =
      fn s (entry pos a) >>= λ s'. fold_avps s' (pos + pad_up (total_of a)) avps

unfoldable pub print_avps : List WireAvp → List ℕ
print_avps [] = []
print_avps (a ∷ avps) = print_avp a ++ print_avps avps

pub length-print_avp_padded :
    (a : WireAvp) → IsWireAvp a → length (print_avp a) ≡ pad_up (total_of a)
length-print_avp_padded a v =
    omega (arith, length-print_avp a, v.filled, pad_up_bounds (total_of a))

pub total_of-pos : (a : WireAvp) → 8 ≤ total_of a
total_of-pos a = ground arith

pub grows :
    (a : WireAvp) (avps : List WireAvp)
    → IsWireAvp a
    → 8 + length (print_avps avps) ≤ length (print_avp a ++ print_avps avps)
grows a avps v = omega (
  arith,
  length-append (print_avp a) (print_avps avps),
  length-print_avp_padded a v,
  pad_up_bounds (total_of a),
  total_of-pos a,
)

-- Well-formed AVPs end on a multiple of four.
pub length-print_avps_mod :
    (avps : List WireAvp) → All IsWireAvp avps → length (print_avps avps) % 4 ≡ 0
unfolding print_avps
length-print_avps_mod [] v = omega arith
length-print_avps_mod (a ∷ avps) v = omega (
  arith,
  length-append (print_avp a) (print_avps avps),
  length-print_avp_padded a v.0,
  pad_up_bounds (total_of a),
  length-print_avps_mod avps v.1,
)

-- Where the AVP behind one at the end of `pre` lies.
pub next_pos :
    (pre : List ℕ) (a : WireAvp)
    → IsWireAvp a
    → length pre + pad_up (total_of a) ≡ length (pre ++ print_avp a)
next_pos pre a v = omega (arith, length-append pre (print_avp a), length-print_avp_padded a v)

module _ {ℓ} {S : Type ℓ} (fn : S → Avp → Outcome S) where
  avp_loop-print :
      (msg : List ℕ) (avps : List WireAvp) (fuel : ℕ) (pre : List ℕ) (s : S)
      → msg ≡ pre ++ print_avps avps
      → All IsWireAvp avps
      → length (print_avps avps) ≤ fuel
      → avp_loop msg fn fuel s (length pre) ≡ fold_avps fn s (length pre) avps
  unfolding avp_loop fold_avps print_avps entry
  avp_loop-print msg [] zero pre s e v h =
      rw (le→ltb (length pre) (length msg) (omega (arith, ap length e, length-append pre [])))
  avp_loop-print msg [] (suc fuel) pre s e v h =
      rw (le→ltb (length pre) (length msg) (omega (arith, ap length e, length-append pre [])))
  avp_loop-print msg (a ∷ avps) zero pre s e v h = absurd (omega (arith, h, grows a avps v.0))
  avp_loop-print msg (a ∷ avps) (suc fuel) pre s e v h =
      rw (lt→ltb (length pre) (length msg) more) (
        rw reads (
          >>=-cong (fn s (entry (length pre) a)) _ _ λ s'. rw (next_pos pre a v.0) (
            avp_loop-print msg avps fuel (pre ++ print_avp a) s'
              (e ∙ sym (append_assoc pre (print_avp a) (print_avps avps))) v.1
              (omega (arith, h, grows a avps v.0)))))
    where
      more : length pre < length msg
      more =
          omega (
            arith,
            ap length e,
            length-append pre (print_avp a ++ print_avps avps),
            grows a avps v.0,
          )

      reads : read_avp msg (length pre) ≡ ok (entry (length pre) a)
      reads = rw e (read_avp-print pre a (print_avps avps) v.0.headed)

  -- Over a message that is a header and well-formed AVPs, the walk is the fold of the callback over
  -- the AVPs, each given at its place.
  pub iterate_avps-print :
      (header : List ℕ) (avps : List WireAvp) (s : S)
      → length header ≡ 20
      → All IsWireAvp avps
      → iterate_avps (header ++ print_avps avps) fn s ≡ fold_avps fn s 20 avps
  unfolding iterate_avps
  iterate_avps-print header avps s n v =
      rw (le→ltb (length (header ++ print_avps avps)) 20 (omega (arith, long))) (
        rw n at (
          avp_loop-print (header ++ print_avps avps) avps (length (header ++ print_avps avps))
            header s refl v (omega (arith, long))))
    where
      long : length (header ++ print_avps avps) ≡ 20 + length (print_avps avps)
      long = rw (length-append header (print_avps avps)) (rw n)

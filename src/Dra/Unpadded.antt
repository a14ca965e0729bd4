-- ===== src/Dra/Unpadded.antt =====
-- A message whose last AVP lacks its padding: the walk accepts it, and the copy of the AVP runs past
-- the end of the message.
use diam_gw.Prelude.{
  ℕ, zero, suc, ◌+◌, ◌≤◌, ◌<◌, ◌≡◌, refl, sym, ap, ◌∙◌, List, [], ◌∷◌, ◌++◌, length, take, All,
  false, arith, lt→ltb, append_assoc, append-nil, length-append, take-append,
}
use diam_gw.Dra.Outcome.{ok, panic}
use diam_gw.Dra.Avp.{pad_up, read_avp, avp_loop, iterate_avps, avp_origin_host, avp_origin_realm}
use diam_gw.Dra.Rewrite.{Rewriting, rewrite_avp, rewrite_origin_host_realm}
use diam_gw.Dra.Layout.{
  WireAvp, IsHeaded, IsWireAvp, total_of, entry, print_avp, read_avp-print, length-print_avp,
}
use diam_gw.Dra.Iterate.{print_avps, next_pos, total_of-pos}
use diam_gw.Dra.Routing.{is_base}
use diam_gw.Dra.Proxy.{rewrite_avp-entry, step_of, start}

-- An AVP that the agent copies, with less filler behind it than its length asks for.
pub record IsUnpadded (a : WireAvp) : Type 0 where
  pub headed : IsHeaded a
  pub short : total_of a + length a.filler < pad_up (total_of a)
  pub no_host : is_base avp_origin_host a ≡ false
  pub no_realm : is_base avp_origin_realm a ≡ false

module _ (host realm : List ℕ) where
  rewrite_avp-panics :
      (msg pre : List ℕ) (a : WireAvp) (s : Rewriting)
      → IsUnpadded a
      → msg ≡ pre ++ print_avp a
      → rewrite_avp msg host realm s (entry (length pre) a) ≡ panic
  unfolding rewrite_avp entry
  rewrite_avp-panics msg pre a s u e =
      ground (arith, ap length e, length-append pre (print_avp a), length-print_avp a)

  last-pos : (avps : List WireAvp) (last : WireAvp) → 8 ≤ length (print_avps avps ++ print_avp last)
  last-pos avps last = omega (
    arith,
    length-append (print_avps avps) (print_avp last),
    length-print_avp last,
    total_of-pos last,
  )

  loop-panics :
      (msg : List ℕ) (avps : List WireAvp) (last : WireAvp) (fuel : ℕ) (pre : List ℕ)
      (s : Rewriting)
      → msg ≡ pre ++ (print_avps avps ++ print_avp last)
      → All IsWireAvp avps
      → IsUnpadded last
      → length (print_avps avps ++ print_avp last) ≤ fuel
      → avp_loop msg (rewrite_avp msg host realm) fuel s (length pre) ≡ panic
  unfolding avp_loop print_avps entry
  loop-panics msg avps last zero pre s e v u h = absurd (omega (arith, h, last-pos avps last))
  loop-panics msg [] last (suc fuel) pre s e v u h =
      rw (lt→ltb (length pre) (length msg) more)
        (rw reads (rw (rewrite_avp-panics msg pre last s u e)))
    where
      more : length pre < length msg
      more = omega (arith, ap length e, length-append pre (print_avp last), last-pos [] last)

      reads : read_avp msg (length pre) ≡ ok (entry (length pre) last)
      reads = rw (e, ← append-nil (print_avp last)) (read_avp-print pre last [] u.headed)
  loop-panics msg (a ∷ avps) last (suc fuel) pre s e v u h =
      rw (lt→ltb (length pre) (length msg) more) (
        rw reads (
          rw (rewrite_avp-entry host realm msg pre a behind s v.0 split) (
            rw (next_pos pre a v.0) (
              loop-panics msg avps last fuel (pre ++ print_avp a) (step_of host realm s a)
                (split ∙ sym (append_assoc pre (print_avp a) behind)) v.1 u enough))))
    where
      behind : List ℕ
      behind = print_avps avps ++ print_avp last

      split : msg ≡ pre ++ (print_avp a ++ behind)
      split = e ∙ ap (λ l. pre ++ l) (append_assoc (print_avp a) (print_avps avps) (print_avp last))

      more : length pre < length msg
      more = omega (
        arith,
        ap length split,
        length-append pre (print_avp a ++ behind),
        length-append (print_avp a) behind,
        length-print_avp a,
        total_of-pos a,
      )

      reads : read_avp msg (length pre) ≡ ok (entry (length pre) a)
      reads = rw split (read_avp-print pre a behind v.0.headed)

      enough : length (print_avps avps ++ print_avp last) ≤ fuel
      enough = omega (
        arith,
        h,
        ap length (append_assoc (print_avp a) (print_avps avps) (print_avp last)),
        length-append (print_avp a) behind,
        length-print_avp a,
        total_of-pos a,
      )

  -- Where the last AVP of a message lacks padding and is no origin of the base protocol, rewriting
  -- the message panics.
  pub rewrite_origin_host_realm-panics :
      (h : List ℕ) (avps : List WireAvp) (last : WireAvp)
      → length h ≡ 20
      → All IsWireAvp avps
      → IsUnpadded last
      → rewrite_origin_host_realm (h ++ (print_avps avps ++ print_avp last)) host realm ≡ panic
  unfolding rewrite_origin_host_realm iterate_avps
  rewrite_origin_host_realm-panics h avps last n v u =
      ground (arith, length-append h (print_avps avps ++ print_avp last), front, loops)
    where
      front : take 20 (h ++ (print_avps avps ++ print_avp last)) ≡ h
      front = rw n at (take-append h (print_avps avps ++ print_avp last))

      loops :
          avp_loop
            (h ++ (print_avps avps ++ print_avp last))
            (rewrite_avp (h ++ (print_avps avps ++ print_avp last)) host realm)
            (length (h ++ (print_avps avps ++ print_avp last)))
            (start host realm h)
            20
          ≡ panic
      loops = rw n at (
          loop-panics (h ++ (print_avps avps ++ print_avp last)) avps last
            (length (h ++ (print_avps avps ++ print_avp last))) h (start host realm h) refl v u
            (omega (arith, length-append h (print_avps avps ++ print_avp last))))
